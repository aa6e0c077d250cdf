-- ===== src/Jobs/Selector/Parse.antt =====
-- What a selector is that Parse of selector.go accepts.
use virtualme.Prelude.{
  ℕ, zero, suc, ◌≤◌, ◌<◌, ◌≡◌, ◌≢◌, refl, ap, subst, Bool, true, false, ◌||◌, none, some, List, [],
  ◌∷◌, arith, ◌==◌, Bool-cases, Option-cases, inl, inr, length,
}
use virtualme.Text.{Text, codes, text_eq, split, split-ne-nil}
use virtualme.Jobs.Selector.{
  Days, Selector, Result, ok, err, has_day, set_day, day_token, bucket_hours, no_days, add_days_of,
  parse_days, or_default, with_bucket, select, select_parts, select_text, parse, normalize_text,
}
use virtualme.Jobs.Selector.Window.{IsUsable}

-- Some token names the day.
pub named : List Text → ℕ → Bool
named [] d = false
named (token ∷ tokens) d =
    elim (day_token token) [ none ↦ false | some e ↦ e == d ] || named tokens d

has_day-set_day :
    (days : Days) (e d : ℕ)
    → e < length days
    → has_day (set_day days e) d ≡ ((e == d) || has_day days d)
unfolding has_day set_day
has_day-set_day [] e d h = absurd (omega arith)
has_day-set_day (b ∷ days) zero zero h = refl
has_day-set_day (b ∷ days) zero (suc d) h = ground arith
has_day-set_day (b ∷ days) (suc e) zero h = ground arith
has_day-set_day (b ∷ days) (suc e) (suc d) h = ground (arith, has_day-set_day days e d)

length-set_day : (days : Days) (e : ℕ) → length (set_day days e) ≡ length days
unfolding set_day
length-set_day [] e = refl
length-set_day (b ∷ days) zero = refl
length-set_day (b ∷ days) (suc e) = ap suc (length-set_day days e)

day_token-lt : (token : Text) {d : ℕ} → day_token token ≡ some d → d < 7
unfolding day_token
day_token-lt token h = ground arith

bucket_hours_ordered : (w : Text) {a b : ℕ} → bucket_hours w ≡ some (a, b) → (a < b) × (b ≤ 24)
unfolding bucket_hours
bucket_hours_ordered w h = ground arith

-- The days that the token loop returns: those that it began with, and those that a token names.
has_day-add_days_of :
    (tokens : List Text) (days days' : Days) (d : ℕ)
    → length days ≡ 7
    → add_days_of tokens days ≡ ok days'
    → has_day days' d ≡ (has_day days d || named tokens d)
unfolding add_days_of named
has_day-add_days_of [] days days' d len h = ground arith
has_day-add_days_of (token ∷ tokens) days days' d len h = elim (Option-cases (day_token token)) [
  | inl e ↦ ground arith
  | inr (k, e) ↦ ground (
    arith,
    day_token-lt token e,
    length-set_day days k,
    has_day-set_day days k d,
    has_day-add_days_of tokens (set_day days k) days' d,
  )
]

-- A text that names a day of the week.
HasDay : Days → Type 0
HasDay days = (d : ℕ) × (d < 7) × (has_day days d ≡ true)

add_days_of-HasDay :
    (tokens : List Text) (days : Days)
    → tokens ≢ []
    → add_days_of tokens no_days ≡ ok days
    → HasDay days
unfolding add_days_of HasDay named
add_days_of-HasDay [] days ne h = absurd (ne refl)
add_days_of-HasDay (token ∷ tokens) days ne h = elim (Option-cases (day_token token)) [
  | inl e ↦ absurd (ground arith)
  | inr (k, e) ↦
      let r = has_day-add_days_of (token ∷ tokens) no_days days k refl h in
      (k, day_token-lt token e, ground arith)
]

parse_days-HasDay : (w : Text) (days : Days) → parse_days w ≡ ok days → HasDay days
unfolding parse_days HasDay
parse_days-HasDay w days h = elim (Bool-cases (text_eq w (codes "everyday"))) [
  | inl e ↦ (0, omega arith, unfold has_day in ground arith)
  | inr e ↦ elim (Bool-cases (text_eq w (codes "weekday"))) [
    | inl f ↦ (1, omega arith, unfold has_day in ground arith)
    | inr f ↦ elim (Bool-cases (text_eq w (codes "weekend"))) [
      | inl g ↦ (0, omega arith, unfold has_day in ground arith)
      | inr g ↦ add_days_of-HasDay (split w b',') days (split-ne-nil w b',') (ground arith)
    ]
  ]
]

usable : (s : Selector) {a b : ℕ} → bucket_hours s.bucket ≡ some (a, b) → HasDay s.days → IsUsable s
unfolding HasDay
usable s {a} {b} h (d, lt, e) = record {
  from = a;
  to = b;
  hours = h;
  ordered = (bucket_hours_ordered s.bucket h).0;
  within = (bucket_hours_ordered s.bucket h).1;
  day = d;
  in_week = lt;
  named = e;
}

with_bucket-IsUsable :
    (bucket : Text) (r : Result Days) (s : Selector) {x : ℕ × ℕ}
    → bucket_hours bucket ≡ some x
    → ((days : Days) → r ≡ ok days → HasDay days)
    → with_bucket bucket r ≡ ok s
    → IsUsable s
unfolding with_bucket
with_bucket-IsUsable bucket (ok days) s {x} known has h =
    let e : bucket ≡ s.bucket = ground arith in
    let f : days ≡ s.days = ground arith in
    usable s {a = x.0} {b = x.1} (subst (λ w. bucket_hours w ≡ some x) e known)
      (subst HasDay f (has days refl))
with_bucket-IsUsable bucket (err e) s known has h = absurd (cc)

select-IsUsable :
    (a b : Text) (s : Selector) {x : ℕ × ℕ}
    → bucket_hours (or_default b (codes "anytime")) ≡ some x
    → select a b ≡ ok s
    → IsUsable s
unfolding select
select-IsUsable a b s known h =
    with_bucket-IsUsable _ _ s known (λ days e. parse_days-HasDay _ days e) h

anytime_hours : bucket_hours (codes "anytime") ≡ some (0, 24)
unfolding bucket_hours text_eq
anytime_hours = refl

bucket_hours-or_default :
    (w : Text) {x : ℕ × ℕ}
    → bucket_hours w ≡ some x
    → bucket_hours (or_default w (codes "anytime")) ≡ some x
unfolding or_default bucket_hours text_eq
bucket_hours-or_default [] h = absurd (cc)
bucket_hours-or_default (c ∷ w) h = h

default_hours : bucket_hours (or_default [] (codes "anytime")) ≡ some (0, 24)
unfolding or_default
default_hours = anytime_hours

select_parts-IsUsable : (ws : List Text) (s : Selector) → select_parts ws ≡ ok s → IsUsable s
unfolding select_parts
select_parts-IsUsable [] s h = absurd (cc)
select_parts-IsUsable (w ∷ []) s h = elim (Option-cases (bucket_hours w)) [
  | inl e ↦ select-IsUsable w [] s default_hours (rw (e, select_parts) at h)
  | inr (x, e) ↦ select-IsUsable [] w s (bucket_hours-or_default w e) (rw (e, select_parts) at h)
]
select_parts-IsUsable (w ∷ v ∷ []) s h = elim (Option-cases (bucket_hours v)) [
  | inl e ↦ absurd (ground arith)
  | inr (x, e) ↦ select-IsUsable w v s (bucket_hours-or_default v e) (rw (e, select_parts) at h)
]
select_parts-IsUsable (w ∷ v ∷ u ∷ ws) s h = absurd (cc)

select_text-IsUsable : (t : Text) (s : Selector) → select_text t ≡ ok s → IsUsable s
unfolding select_text
select_text-IsUsable [] s h = absurd (cc)
select_text-IsUsable (c ∷ t) s h = select_parts-IsUsable _ s h

-- A selector that Parse accepts has a bucket of the table, with hours in order and within the day,
-- and at least one day of the week.
pub parse-IsUsable : (input : Text) (s : Selector) → parse input ≡ ok s → IsUsable s
unfolding parse
parse-IsUsable input s h = select_text-IsUsable (normalize_text input) s h
