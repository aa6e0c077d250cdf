-- ===== src/Decimal.antt =====
-- Numbers in decimal: what strconv.Itoa and FormatInt write and what Atoi and ParseInt read, over
-- bytes.
pub mod RoundTrip
use virtualme.Prelude.{
  ℕ, zero, suc, ◌+◌, ◌-◌, ◌*◌, ◌/◌, ◌%◌, ◌^◌, ◌≤◌, ◌<◌, ◌≡◌, refl, Bool, true, false, ◌&&◌, Option,
  none, some, List, [], ◌∷◌, ltb, leb, ◌==◌, if◌then◌else◌, All, arith, Bool-cases, inl, inr, ◌∙◌,
}
use virtualme.Text.{Text}

-- `negsuc n` is -(n + 1).
pub data ℤ : Type 0 where
  pos : ℕ → ℤ
  negsuc : ℕ → ℤ

-- The digits of a number in front of a text; `n + 1` rounds are enough for `n`.
decimal_from : ℕ → ℕ → Text → Text
decimal_from zero n t = t
decimal_from (suc fuel) n t =
    let longer = decimal_from fuel (n / 10) ((48 + n % 10) ∷ t) in
    if ltb n 10 then (48 + n) ∷ t else longer

unfoldable pub decimal : ℕ → Text
unfolding decimal_from
decimal n = decimal_from (n + 1) n []

unfoldable pub decimal_ℤ : ℤ → Text
unfolding decimal
decimal_ℤ (pos n) = decimal n
decimal_ℤ (negsuc n) = b'-' ∷ decimal (n + 1)

unfoldable pub is_digit : ℕ → Bool
is_digit c = leb 48 c && leb c 57

unfoldable pub value_from : ℕ → Text → Option ℕ
unfolding is_digit
value_from n [] = some n
value_from n (c ∷ t) = elim (is_digit c) [ true ↦ value_from (n * 10 + (c - 48)) t | false ↦ none ]

unsigned : Text → Option ℕ
unfolding value_from
unsigned [] = none
unsigned (c ∷ t) = value_from 0 (c ∷ t)

up_to : ℕ → (ℕ → ℤ) → Option ℕ → Option ℤ
up_to most f none = none
up_to most f (some n) = if leb n most then some (f n) else none

unfoldable pub negated : ℕ → ℤ
negated zero = pos 0
negated (suc n) = negsuc n

-- strconv.ParseInt(t, 10, 64), and Atoi where an int has 64 bits.
unfoldable pub parse_int : Text → Option ℤ
unfolding unsigned up_to negated
parse_int [] = none
parse_int (c ∷ t) =
    if c == b'-'
    then up_to (2 ^ 63) negated (unsigned t)
    else up_to (2 ^ 63 - 1) pos (unsigned (if c == b'+' then t else c ∷ t))
