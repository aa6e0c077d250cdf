-- ===== src/Jobs/Selector.antt =====
-- selector.go: a day set and a wall-clock bucket.
pub mod Window
pub mod Parse
pub mod Active
pub mod Occurrence
use virtualme.Prelude.{
  ℕ, zero, suc, ◌+◌, ◌*◌, Bool, true, false, ◌&&◌, ◌||◌, Option, none, some, List, [], ◌∷◌, ltb,
  leb, ◌==◌, if◌then◌else◌,
}
use virtualme.Text.{Text, codes, text_eq, to_lower, trim_space, fields, join, split, close_commas}
use virtualme.Clock.{Time, weekday, hour, minute, add_days, at_hour}

-- A set over [7]bool: `get_or` reads a day, `set` writes one.
abbrev pub Days : Type 0
Days = List Bool

unfoldable pub has_day : Days → ℕ → Bool
has_day [] day = false
has_day (d ∷ ds) zero = d
has_day (d ∷ ds) (suc day) = has_day ds day

unfoldable pub set_day : Days → ℕ → Days
set_day [] day = []
set_day (d ∷ ds) zero = true ∷ ds
set_day (d ∷ ds) (suc day) = d ∷ set_day ds day

pub record Selector : Type 0 where
  pub days : Days
  pub bucket : Text

pub data SelectorError : Type 0 where
  empty_selector : SelectorError
  invalid_selector : SelectorError
  unknown_bucket : SelectorError
  unknown_day : SelectorError
  duplicate_day : SelectorError

pub data Result {ℓ} (A : Type ℓ) : Type ℓ where
  ok : A → Result A
  err : SelectorError → Result A

-- dayTokens
unfoldable pub day_token : Text → Option ℕ
day_token w =
    if text_eq w (codes "sun")
    then some 0
    else if text_eq w (codes "mon")
    then some 1
    else if text_eq w (codes "tue")
    then some 2
    else if text_eq w (codes "wed")
    then some 3
    else if text_eq w (codes "thu")
    then some 4
    else if text_eq w (codes "fri")
    then some 5
    else if text_eq w (codes "sat")
    then some 6
    else none

-- bucketHours
unfoldable pub bucket_hours : Text → Option (ℕ × ℕ)
bucket_hours w =
    if text_eq w (codes "early-morning")
    then some (5, 8)
    else if text_eq w (codes "morning")
    then some (8, 12)
    else if text_eq w (codes "afternoon")
    then some (12, 17)
    else if text_eq w (codes "evening")
    then some (17, 21)
    else if text_eq w (codes "night")
    then some (21, 24)
    else if text_eq w (codes "late-night")
    then some (0, 5)
    else if text_eq w (codes "anytime")
    then some (0, 24)
    else none

abbrev pub no_days : Days
no_days = false ∷ false ∷ false ∷ false ∷ false ∷ false ∷ false ∷ []

abbrev pub every_day : Days
every_day = true ∷ true ∷ true ∷ true ∷ true ∷ true ∷ true ∷ []

abbrev pub weekdays : Days
weekdays = false ∷ true ∷ true ∷ true ∷ true ∷ true ∷ false ∷ []

abbrev pub weekend_days : Days
weekend_days = true ∷ false ∷ false ∷ false ∷ false ∷ false ∷ true ∷ []

-- The loop over the comma-separated tokens.
unfoldable pub add_days_of : List Text → Days → Result Days
add_days_of [] days = ok days
add_days_of (token ∷ tokens) days = elim (day_token token) [
  | none ↦ err unknown_day
  | some day ↦ elim (has_day days day) [
    | true ↦ err duplicate_day
    | false ↦ add_days_of tokens (set_day days day)
  ]
]

-- The switch on the part that names days.
unfoldable pub parse_days : Text → Result Days
parse_days w =
    if text_eq w (codes "everyday")
    then ok every_day
    else if text_eq w (codes "weekday")
    then ok weekdays
    else if text_eq w (codes "weekend")
    then ok weekend_days
    else add_days_of (split w b',') no_days

or_default : Text → Text → Text
or_default [] d = d
or_default (c ∷ w) d = c ∷ w

with_bucket : Text → Result Days → Result Selector
with_bucket bucket (ok days) = ok (record { days = days; bucket = bucket })
with_bucket bucket (err e) = err e

-- From the two parts on: an absent part is the empty text.
unfoldable pub select : Text → Text → Result Selector
unfolding or_default with_bucket
select days_part bucket_part =
    with_bucket (or_default bucket_part (codes "anytime"))
      (parse_days (or_default days_part (codes "everyday")))

-- `strings.Split` returns at least one part.
unfoldable pub select_parts : List Text → Result Selector
select_parts [] = err invalid_selector
select_parts (w ∷ []) = elim (bucket_hours w) [ some _ ↦ select [] w | none ↦ select w [] ]
select_parts (w ∷ v ∷ []) = elim (bucket_hours v) [
  | some _ ↦ select w v
  | none ↦ err unknown_bucket
]
select_parts (w ∷ v ∷ u ∷ ws) = err invalid_selector

unfoldable pub normalize_text : Text → Text
normalize_text input = close_commas (join (fields (to_lower (trim_space input))) 32)

select_text : Text → Result Selector
select_text [] = err empty_selector
select_text (c ∷ s) = select_parts (split (c ∷ s) 32)

-- Parse
unfoldable pub parse : Text → Result Selector
unfolding select_text
parse input = select_text (normalize_text input)

-- The hours of a bucket that is not in the table are Go's zero value.
hours_or_zero : Option (ℕ × ℕ) → ℕ × ℕ
hours_or_zero none = (0, 0)
hours_or_zero (some hours) = hours

-- Selector.Matches
unfoldable pub matches : Selector → Time → Bool
unfolding hours_or_zero
matches s t =
    let (from, to) = hours_or_zero (bucket_hours s.bucket) in
    let now = hour t * 60 + minute t in
    has_day s.days (weekday t) && (leb (from * 60) now && ltb now (to * 60))

-- The loop of BucketWindow, with the offsets that are left; `none` is a pair of zero times.
unfoldable pub window_from : Days → ℕ → ℕ → Time → ℕ → ℕ → Option (Time × Time)
window_from days from to t zero offset = none
window_from days from to t (suc left) offset =
    let later = window_from days from to t left (offset + 1) in
    let day = add_days t offset in
    let end = at_hour day to in
    if has_day days (weekday day) && (ltb 0 offset || ltb t end)
    then some (at_hour day from, end)
    else later

-- Selector.BucketWindow
unfoldable pub bucket_window : Selector → Time → Option (Time × Time)
bucket_window s t = elim (bucket_hours s.bucket) [
  | none ↦ none
  | some (from, to) ↦ window_from s.days from to t 8 0
]

abbrev pub day_names : ℕ → Text
day_names day =
    if day == 0
    then codes "sun"
    else if day == 1
    then codes "mon"
    else if day == 2
    then codes "tue"
    else if day == 3
    then codes "wed"
    else if day == 4
    then codes "thu"
    else if day == 5
    then codes "fri"
    else codes "sat"

-- The loop over the candidates, which break at the first whose hours hold `t`.
unfoldable pub active_bucket : List Text → Time → Text
unfolding hours_or_zero
active_bucket [] t = codes "anytime"
active_bucket (candidate ∷ rest) t =
    let (from, to) = hours_or_zero (bucket_hours candidate) in
    if leb from (hour t) && ltb (hour t) to then candidate else active_bucket rest t

-- ActiveBuckets
unfoldable pub active_buckets : Time → List Text
active_buckets t =
    active_bucket
      (codes "late-night"
        ∷ codes "early-morning"
        ∷ codes "morning"
        ∷ codes "afternoon"
        ∷ codes "evening"
        ∷ codes "night"
        ∷ [])
      t
    ∷ codes "anytime"
    ∷ day_names (weekday t)
    ∷ (if weekday t == 6 || weekday t == 0 then codes "weekend" else codes "weekday")
    ∷ codes "everyday"
    ∷ []
