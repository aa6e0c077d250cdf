-- ===== src/Jobs/Selector/Active.antt =====
-- What ActiveBuckets of selector.go lists.
use virtualme.Prelude.{
  ℕ, zero, suc, ◌≤◌, ◌<◌, ◌≡◌, refl, true, ◌&&◌, ◌||◌, some, List, [], ◌∷◌, arith, ltb, leb, ◌==◌,
  if◌then◌else◌, Bool-cases, ◌⊎◌, inl, inr, All,
}
use virtualme.Text.{Text, codes, text_eq, split, to_lower, trim_space, fields, join, close_commas}
use virtualme.Clock.{Time, weekday, hour, minute}
use virtualme.Jobs.Selector.{
  Days, Selector, Result, ok, every_day, has_day, set_day, day_token, bucket_hours, hours_or_zero,
  add_days_of, parse_days, select, select_parts, normalize_text, parse, no_days, weekend_days,
  weekdays, matches, active_bucket, active_buckets, day_names,
}

-- A text that Parse accepts as a selector, which matches the time.
abbrev pub IsActive : Time → Text → Type 0
IsActive t w = (s : Selector) × (parse w ≡ ok s) × (matches s t ≡ true)

hours_match :
    (days : Days) (w : Text) (from to : ℕ) (t : Time)
    → bucket_hours w ≡ some (from, to)
    → has_day days (weekday t) ≡ true
    → from ≤ hour t
    → hour t < to
    → matches (record { days = days; bucket = w }) t ≡ true
unfolding matches
hours_match days w from to t e d a b =
    let below : minute t < 60 = omega arith in rw (e, hours_or_zero) (ground arith)

all_day :
    (days : Days) (t : Time)
    → has_day days (weekday t) ≡ true
    → matches (record { days = days; bucket = codes "anytime" }) t ≡ true
all_day days t d =
    hours_match days (codes "anytime") 0 24 t (unfold bucket_hours text_eq in refl) d (omega arith)
      (omega arith)

has_day-every_day : (d : ℕ) → d < 7 → has_day every_day d ≡ true
unfolding has_day
has_day-every_day zero h = refl
has_day-every_day (suc zero) h = refl
has_day-every_day (suc (suc zero)) h = refl
has_day-every_day (suc (suc (suc zero))) h = refl
has_day-every_day (suc (suc (suc (suc zero)))) h = refl
has_day-every_day (suc (suc (suc (suc (suc zero))))) h = refl
has_day-every_day (suc (suc (suc (suc (suc (suc zero)))))) h = refl
has_day-every_day (suc (suc (suc (suc (suc (suc (suc d))))))) h = absurd (omega arith)

-- `parse` with all that it calls open, to run it on a literal.
unfoldable pub run_parse : Text → Result Selector
unfolding parse select_parts select parse_days add_days_of split normalize_text bucket_hours text_eq
    day_token set_day has_day to_lower trim_space fields join close_commas
run_parse = parse

PlainBucket : (w : Text) → Type 0
PlainBucket w = parse w ≡ ok (record { days = every_day; bucket = w })

parse_buckets :
    PlainBucket (codes "late-night")
    × PlainBucket (codes "early-morning")
    × PlainBucket (codes "morning")
    × PlainBucket (codes "afternoon")
    × PlainBucket (codes "evening")
    × PlainBucket (codes "night")
    × PlainBucket (codes "anytime")
unfolding run_parse PlainBucket
parse_buckets = (refl, refl, refl, refl, refl, refl, refl)

parse-day_names :
    (d : ℕ)
    → d < 7
    → (parse (day_names d) ≡ ok (record { days = set_day no_days d; bucket = codes "anytime" }))
      × (has_day (set_day no_days d) d ≡ true)
unfolding run_parse
parse-day_names zero h = (refl, refl)
parse-day_names (suc zero) h = (refl, refl)
parse-day_names (suc (suc zero)) h = (refl, refl)
parse-day_names (suc (suc (suc zero))) h = (refl, refl)
parse-day_names (suc (suc (suc (suc zero)))) h = (refl, refl)
parse-day_names (suc (suc (suc (suc (suc zero))))) h = (refl, refl)
parse-day_names (suc (suc (suc (suc (suc (suc zero)))))) h = (refl, refl)
parse-day_names (suc (suc (suc (suc (suc (suc (suc d))))))) h = absurd (omega arith)

abbrev kind : ℕ → Text
kind d = if d == 6 || d == 0 then codes "weekend" else codes "weekday"

abbrev kind_days : ℕ → Days
kind_days d = if d == 6 || d == 0 then weekend_days else weekdays

parse-kind :
    (d : ℕ)
    → d < 7
    → (parse (kind d) ≡ ok (record { days = kind_days d; bucket = codes "anytime" }))
      × (has_day (kind_days d) d ≡ true)
unfolding run_parse
parse-kind zero h = (refl, refl)
parse-kind (suc zero) h = (refl, refl)
parse-kind (suc (suc zero)) h = (refl, refl)
parse-kind (suc (suc (suc zero))) h = (refl, refl)
parse-kind (suc (suc (suc (suc zero)))) h = (refl, refl)
parse-kind (suc (suc (suc (suc (suc zero))))) h = (refl, refl)
parse-kind (suc (suc (suc (suc (suc (suc zero)))))) h = (refl, refl)
parse-kind (suc (suc (suc (suc (suc (suc (suc d))))))) h = absurd (omega arith)

bucket-IsActive :
    (w : Text) (from to : ℕ) (t : Time)
    → PlainBucket w
    → bucket_hours w ≡ some (from, to)
    → from ≤ hour t
    → hour t < to
    → IsActive t w
unfolding PlainBucket
bucket-IsActive w from to t p e a b = (
  record { days = every_day; bucket = w },
  p,
  hours_match every_day w from to t e (has_day-every_day (weekday t) (omega arith)) a b,
)

active_bucket_step :
    (w : Text) (from to : ℕ) (ws : List Text) (t : Time)
    → PlainBucket w
    → bucket_hours w ≡ some (from, to)
    → ((hour t < from) ⊎ (to ≤ hour t) → IsActive t (active_bucket ws t))
    → IsActive t (active_bucket (w ∷ ws) t)
unfolding active_bucket
active_bucket_step w from to ws t p e rest =
    elim (Bool-cases (leb from (hour t) && ltb (hour t) to)) [
      | inl h ↦
          rw (e, hours_or_zero, h) (bucket-IsActive w from to t p e (ground arith) (ground arith))
      | inr h ↦ rw (e, hours_or_zero, h) (rest (ground arith))
    ]

-- The six candidates share out the day: one of them holds the hour.
active_bucket-IsActive :
    (t : Time)
    → IsActive t (
        active_bucket
          (codes "late-night"
            ∷ codes "early-morning"
            ∷ codes "morning"
            ∷ codes "afternoon"
            ∷ codes "evening"
            ∷ codes "night"
            ∷ [])
          t)
unfolding bucket_hours text_eq
active_bucket-IsActive t =
    let b = parse_buckets in
    active_bucket_step _ 0 5 _ t b.0 refl λ p0. active_bucket_step _ 5 8 _ t b.1 refl λ p1.
      active_bucket_step _ 8 12 _ t b.2 refl λ p2. active_bucket_step _ 12 17 _ t b.3 refl λ p3.
        active_bucket_step _ 17 21 _ t b.4 refl
          λ p4. active_bucket_step _ 21 24 _ t b.5 refl λ p5. absurd (omega arith)

anytime-IsActive : (t : Time) → IsActive t (codes "anytime")
unfolding bucket_hours text_eq
anytime-IsActive t = bucket-IsActive _ 0 24 t parse_buckets.6 refl (omega arith) (omega arith)

day-IsActive :
    (w : Text) (days : Days) (t : Time)
    → parse w ≡ ok (record { days = days; bucket = codes "anytime" })
    → has_day days (weekday t) ≡ true
    → IsActive t w
day-IsActive w days t p d = (record { days = days; bucket = codes "anytime" }, p, all_day days t d)

parse-everyday :
    parse (codes "everyday") ≡ ok (record { days = every_day; bucket = codes "anytime" })
unfolding run_parse
parse-everyday = refl

-- Every token that ActiveBuckets lists for a time is a selector that Parse accepts and that matches
-- that time.
pub active_buckets-IsActive : (t : Time) → All (IsActive t) (active_buckets t)
unfolding active_buckets
active_buckets-IsActive t =
    let d = weekday t in
    let lt : d < 7 = omega arith in
    let named = parse-day_names d lt in
    let sort = parse-kind d lt in
    (
      active_bucket-IsActive t,
      (
        anytime-IsActive t,
        (
          day-IsActive _ _ t named.0 named.1,
          (
            day-IsActive _ _ t sort.0 sort.1,
            (day-IsActive _ _ t parse-everyday (has_day-every_day d lt), tt),
          ),
        ),
      ),
    )
