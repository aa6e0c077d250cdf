-- ===== src/Jobs/Selector/Window.antt =====
-- What Selector.Matches and Selector.BucketWindow of selector.go agree on.
use virtualme.Prelude.{
  ℕ, zero, suc, ◌+◌, ◌-◌, ◌*◌, ◌/◌, ◌%◌, ◌≤◌, ◌<◌, ◌≡◌, ◌≢◌, sym, ◌∙◌, ltb→lt, ap, ==_iff, ◌↔◌, ◌⊎◌,
  inl, inr, Bool, true, false, ◌&&◌, ◌||◌, Option, some, arith, ltb, ◌==◌, Bool-cases,
}
use native.Mathlib.Decide.{dec_lt}
use virtualme.Clock.{Time, day_ns, hour_ns, weekday, hour, minute, add_days, at_hour}
use virtualme.Jobs.Selector.{
  Days, Selector, has_day, bucket_hours, matches, window_from, bucket_window,
}

-- A selector whose bucket is in the table and that names a day of the week.
pub record IsUsable (s : Selector) : Type 0 where
  pub from : ℕ
  pub to : ℕ
  pub hours : bucket_hours s.bucket ≡ some (from, to)
  pub ordered : from < to
  pub within : to ≤ 24
  pub day : ℕ
  pub in_week : day < 7
  pub named : has_day s.days day ≡ true

pub from_iff :
    (t from : ℕ) → from ≤ 24 → (from * 60 ≤ hour t * 60 + minute t) ↔ (at_hour t from ≤ t)
from_iff t from h = (λ p. omega arith, λ p. omega arith)

weekday-add_days : (t n : ℕ) → weekday (add_days t n) ≡ (t / day_ns + n + 4) % 7
weekday-add_days t n = omega arith

pub to_iff : (t to : ℕ) → to ≤ 24 → (hour t * 60 + minute t < to * 60) ↔ (t < at_hour t to)
to_iff t to h = (λ p. omega arith, λ p. omega arith)

-- A selector matches just the times of its days between its two hours.
pub matches_iff :
    (s : Selector) (u : IsUsable s) (t : Time)
    → (matches s t ≡ true)
      ↔ ((has_day s.days (weekday t) ≡ true) × (at_hour t u.from ≤ t) × (t < at_hour t u.to))
unfolding matches
matches_iff s u t =
    let a = u.ordered in
    let b = u.within in
    let e = u.hours in
    let f = from_iff t u.from (omega arith) in
    let g = to_iff t u.to u.within in (λ h. ground arith, λ h. ground arith)

-- The test of the loop in BucketWindow at one offset.
abbrev hit : Days → ℕ → Time → ℕ → Bool
hit days to t k =
    has_day days (weekday (add_days t k)) && (ltb 0 k || ltb t (at_hour (add_days t k) to))

-- The loop stops at the first offset that passes its test.
record First (days : Days) (from to : ℕ) (t : Time) (offset : ℕ) (r : Option (Time × Time))
    : Type 0 where
  at : ℕ
  above : offset ≤ at
  passes : hit days to t at ≡ true
  first : (i : ℕ) → offset ≤ i → i < at → hit days to t i ≡ false
  result : r ≡ some (at_hour (add_days t at) from, at_hour (add_days t at) to)

module _ (days : Days) (from to : ℕ) (t : Time) where
  window_from-First :
      (left offset k : ℕ)
      → offset ≤ k
      → k < offset + left
      → hit days to t k ≡ true
      → First days from to t offset (window_from days from to t left offset)
  unfolding window_from
  window_from-First zero offset k h lt e = absurd (omega arith)
  window_from-First (suc left) offset k h lt e = elim (Bool-cases (hit days to t offset)) [
    | inl yes' ↦ record {
      at = offset;
      above = omega arith;
      passes = yes';
      first = λ i p q. absurd (omega arith);
      result = rw yes';
    }
    | inr no' ↦
        let ne : offset ≢ k = λ p. cc (ap (hit days to t) p) in
        let r = window_from-First left (offset + 1) k (omega arith) (omega arith) e in
        record {
          at = r.at;
          above = let a = r.above in omega arith;
          passes = r.passes;
          first = λ i p q. elim (Bool-cases (i == offset)) [
            | inl same ↦ rw ((==_iff i offset).0 same) no'
            | inr other ↦ r.first i (ground arith) q
          ];
          result = rw no' r.result;
        }
  ]

hit_parts :
    (days : Days) (to : ℕ) (t : Time) (k : ℕ)
    → 0 < to
    → hit days to t k ≡ true
    → (has_day days (weekday (add_days t k)) ≡ true) × (t < at_hour (add_days t k) to)
hit_parts days to t k pos h =
    let later : 0 < k → t < at_hour (add_days t k) to = λ p. omega arith in
    (
      ground arith,
      elim (Bool-cases (ltb 0 k)) [ inl e ↦ later (ltb→lt 0 k e) | inr e ↦ ground arith ],
    )

-- Within the next seven days there is a day that the selector names.
next_hit :
    (s : Selector) (u : IsUsable s) (t : Time) → (k : ℕ) × (k < 8) × (hit s.days u.to t k ≡ true)
next_hit s u t =
    let k = (u.day + 6 + 7 - (t / day_ns + 4) % 7) % 7 + 1 in
    let in_week = u.in_week in
    let same : weekday (add_days t k) ≡ u.day = omega arith in
    let e = u.named in (k, omega arith, rw same (ground arith))

same_day :
    (t t' from to : ℕ)
    → at_hour t from ≤ t'
    → t' < at_hour t to
    → to ≤ 24
    → t' / day_ns ≡ t / day_ns
same_day t t' from to a b h = omega arith

has_day-same :
    (t t' : Time) (days : Days)
    → t' / day_ns ≡ t / day_ns
    → has_day days (weekday t') ≡ has_day days (weekday t)
has_day-same t t' days e = ap (λ (n : ℕ). has_day days ((n + 4) % 7)) e

-- A matching time on the day of offset `j` passes the loop's test there.
matching-hit :
    (s : Selector) (u : IsUsable s) (t t' : Time) (j : ℕ)
    → t ≤ t'
    → t' / day_ns ≡ add_days t j / day_ns
    → matches s t' ≡ true
    → hit s.days u.to t j ≡ true
matching-hit s u t t' j le same m =
    let p = (matches_iff s u t').0 m in
    let d = p.0 in
    let b = p.2 in
    let named = has_day-same t' (add_days t j) s.days (sym same) in
    let later : (0 < j) ⊎ (t < at_hour (add_days t j) u.to) = omega arith in ground arith

-- A matching time from `t` on does not lie before the window that the loop chose.
not_before :
    (s : Selector) (u : IsUsable s) (t t' : Time) {r : Option (Time × Time)}
    → (f : First s.days u.from u.to t 0 r) → t ≤ t'
    → matches s t' ≡ true
    → at_hour (add_days t f.at) u.from ≤ t'
not_before s u t t' f le m =
    let j = t' / day_ns - t / day_ns in
    let p = (matches_iff s u t').0 m in
    let a = p.1 in
    elim (dec_lt j f.at) [
      | yes lt ↦
          let h = matching-hit s u t t' j le (omega arith) m in
          let miss = f.first j (omega arith) lt in absurd (ground arith)
      | no ge ↦ omega arith
    ]

bucket_window-First :
    (s : Selector) (u : IsUsable s) (t : Time) → First s.days u.from u.to t 0 (bucket_window s t)
unfolding bucket_window
bucket_window-First s u t =
    let (k, lt, e) = next_hit s u t in
    rw (u.hours, bucket_window) (window_from-First s.days u.from u.to t 8 0 k (omega arith) lt e)

-- The window that BucketWindow returns for `t`: it ends after `t`, it has the bucket's length, the
-- selector matches all of it, and no time from `t` on and before it.
pub record NextWindow (s : Selector) (u : IsUsable s) (t start end : Time) : Type 0 where
  pub found : bucket_window s t ≡ some (start, end)
  pub ends_later : t < end
  pub size : end ≡ start + (u.to - u.from) * hour_ns
  pub inside : (t' : Time) → start ≤ t' → t' < end → matches s t' ≡ true
  pub earliest : (t' : Time) → t ≤ t' → matches s t' ≡ true → start ≤ t'

-- For every usable selector and time, BucketWindow returns the current or the next occurrence.
pub bucket_window-NextWindow :
    (s : Selector) (u : IsUsable s) (t : Time)
    → (start : Time) × (end : Time) × NextWindow s u t start end
bucket_window-NextWindow s u t =
    let f = bucket_window-First s u t in
    let day = add_days t f.at in
    let ordered = u.ordered in
    let within = u.within in
    let (named, ends) = hit_parts s.days u.to t f.at (omega arith) f.passes in
    (
      at_hour day u.from,
      at_hour day u.to,
      record {
        found = f.result;
        ends_later = ends;
        size = omega arith;
        inside = λ t' a b.
            let same = same_day day t' u.from u.to a b within in
            (matches_iff s u t').1
              (has_day-same day t' s.days same ∙ named, omega arith, omega arith);
        earliest = λ t' le m. not_before s u t t' f le m;
      },
    )
