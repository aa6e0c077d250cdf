-- ===== src/Decimal/RoundTrip.antt =====
-- What is printed is read back, and is made of digits.
use virtualme.Prelude.{
  ℕ, zero, suc, ◌+◌, ◌-◌, ◌*◌, ◌/◌, ◌%◌, ◌^◌, ◌≤◌, ◌<◌, ◌≡◌, refl, sym, ap, false, some, [], ◌∷◌,
  ltb, ◌==◌, All, arith, Bool-cases, inl, inr, ◌∙◌,
}
use native.Mathlib.Numerals.{add-one}
use virtualme.Text.{Text}
use virtualme.Decimal.{
  ℤ, pos, negsuc, decimal_from, decimal, decimal_ℤ, value_from, unsigned, up_to, negated, parse_int,
}

value_from-digit :
    (a d : ℕ) (t : Text) → d < 10 → value_from a ((48 + d) ∷ t) ≡ value_from (a * 10 + d) t
unfolding value_from
value_from-digit a d t h = let same : 48 + d - 48 ≡ d = omega arith in ground arith

decimal_from-value :
    (fuel n : ℕ) (t : Text) → n < fuel → value_from 0 (decimal_from fuel n t) ≡ value_from n t
unfolding decimal_from
decimal_from-value zero n t h = absurd (omega arith)
decimal_from-value (suc fuel) n t h = elim (Bool-cases (ltb n 10)) [
  | inl e ↦ rw e (value_from-digit 0 n t (ground arith) ∙ ap (λ k. value_from k t) (omega arith))
  | inr e ↦ rw e (
      decimal_from-value fuel (n / 10) ((48 + n % 10) ∷ t) (ground arith)
      ∙ value_from-digit (n / 10) (n % 10) t (omega arith)
      ∙ ap (λ k. value_from k t) (omega arith))
]

-- A text that starts with a digit.
pub record IsNumeral (t : Text) : Type 0 where
  pub first : ℕ
  pub later : Text
  pub whole : t ≡ first ∷ later
  pub low : 48 ≤ first
  pub high : first ≤ 57

decimal_from-IsNumeral : (fuel n : ℕ) (t : Text) → n < fuel → IsNumeral (decimal_from fuel n t)
unfolding decimal_from
decimal_from-IsNumeral zero n t h = absurd (omega arith)
decimal_from-IsNumeral (suc fuel) n t h = elim (Bool-cases (ltb n 10)) [
  | inl e ↦
      rw e
        (record { first = 48 + n; later = t; whole = refl; low = omega arith; high = ground arith })
  | inr e ↦ rw e (decimal_from-IsNumeral fuel (n / 10) ((48 + n % 10) ∷ t) (ground arith))
]

pub decimal-IsNumeral : (n : ℕ) → IsNumeral (decimal n)
unfolding decimal
decimal-IsNumeral n = decimal_from-IsNumeral (n + 1) n [] (omega arith)

abbrev pub Above : ℕ → Text → Type 0
Above b = All (λ c. b < c)

decimal_from-Above : (fuel n : ℕ) (t : Text) → Above 13 t → Above 13 (decimal_from fuel n t)
unfolding decimal_from
decimal_from-Above zero n t h = h
decimal_from-Above (suc fuel) n t h = elim (Bool-cases (ltb n 10)) [
  | inl e ↦ rw e (omega arith, h)
  | inr e ↦ rw e (decimal_from-Above fuel (n / 10) ((48 + n % 10) ∷ t) (omega arith, h))
]

pub decimal-Above : (n : ℕ) → Above 13 (decimal n)
unfolding decimal
decimal-Above n = decimal_from-Above (n + 1) n [] tt

unsigned-decimal : (n : ℕ) → unsigned (decimal n) ≡ some n
unfolding unsigned
unsigned-decimal n =
    let d = decimal-IsNumeral n in
    let v : value_from 0 (decimal n) ≡ some n =
      unfold decimal value_from in decimal_from-value (n + 1) n [] (omega arith) in
    rw d.whole (rw d.whole at v)

parse_int-unsigned :
    (c : ℕ) (t : Text) → 48 ≤ c → parse_int (c ∷ t) ≡ up_to (2 ^ 63 - 1) pos (unsigned (c ∷ t))
unfolding parse_int
parse_int-unsigned c t h =
    let minus : (c == b'-') ≡ false = ground arith in
    let plus : (c == b'+') ≡ false = ground arith in rw (minus, plus) refl

up_to-some : (most n : ℕ) (f : ℕ → ℤ) → n ≤ most → up_to most f (some n) ≡ some (f n)
unfolding up_to
up_to-some most n f h = ground arith

pub parse_int-decimal : (n : ℕ) → n < 2 ^ 63 → parse_int (decimal n) ≡ some (pos n)
parse_int-decimal n h =
    let d = decimal-IsNumeral n in
    let read : unsigned (d.first ∷ d.later) ≡ some n =
      ap unsigned (sym d.whole) ∙ unsigned-decimal n in
    ap parse_int d.whole
    ∙ parse_int-unsigned d.first d.later d.low
    ∙ ap (up_to (2 ^ 63 - 1) pos) read
    ∙ up_to-some (2 ^ 63 - 1) n pos (omega arith)

parse_int-negative : (n : ℕ) → n < 2 ^ 63 → parse_int (b'-' ∷ decimal (n + 1)) ≡ some (negsuc n)
unfolding parse_int
parse_int-negative n h =
    ap (up_to (2 ^ 63) negated) (unsigned-decimal (n + 1))
    ∙ up_to-some (2 ^ 63) (n + 1) negated (omega arith)
    ∙ ap some (unfold negated in rw add-one refl)

-- The numbers of 64 bits.
abbrev pub IsInt64 : ℤ → Type 0
IsInt64 (pos n) = n < 2 ^ 63
IsInt64 (negsuc n) = n < 2 ^ 63

pub parse_int-decimal_ℤ : (k : ℤ) → IsInt64 k → parse_int (decimal_ℤ k) ≡ some k
unfolding decimal_ℤ
parse_int-decimal_ℤ (pos n) h = parse_int-decimal n h
parse_int-decimal_ℤ (negsuc n) h = parse_int-negative n h

pub decimal_ℤ-Above : (k : ℤ) → Above 13 (decimal_ℤ k)
unfolding decimal_ℤ
decimal_ℤ-Above (pos n) = decimal-Above n
decimal_ℤ-Above (negsuc n) = (omega arith, decimal-Above (n + 1))
