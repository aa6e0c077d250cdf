-- ===== src/Notifications/Ulid/Number.antt =====
-- A ULID as a number: what encodeULID writes, and that ulidGenerator counts up.
use virtualme.Prelude.{
  inl, inr, Bool-cases, ℕ, zero, suc, ◌+◌, ◌*◌, ◌/◌, ◌%◌, ◌^◌, ◌<◌, ◌≡◌, refl, Bool, true, [], ◌∷◌,
  arith, ◌==◌, if◌then◌else◌, length, get_or, All, ==_iff, ap, ◌∙◌, ◌&&◌,
}
use virtualme.Text.{Text}
use virtualme.Notifications.Ulid.{ulid_alphabet, Bytes, encode_from, encode_ulid}

-- The place of a character in the alphabet.
digit_in : Text → ℕ → ℕ
digit_in [] c = 0
digit_in (d ∷ t) c = if d == c then 0 else 1 + digit_in t c

-- The number that the characters write in base 32.
pub number_from : ℕ → Text → ℕ
unfolding digit_in
number_from n [] = n
number_from n (c ∷ t) = number_from (n * 32 + digit_in ulid_alphabet c) t

byte_bits :
    (a : ℕ)
    → a < 256
    → a
      ≡ a / 128 % 2 * 128
        + a / 64 % 2 * 64
        + a / 32 % 2 * 32
        + a / 16 % 2 * 16
        + a / 8 % 2 * 8
        + a / 4 % 2 * 4
        + a / 2 % 2 * 2
        + a / 1 % 2
byte_bits a h = omega arith

five : ℕ → ℕ → ℕ → ℕ → ℕ → ℕ
five a b c d e = (((a * 2 + b) * 2 + c) * 2 + d) * 2 + e

-- Eight characters spell forty bits.
forty_bits :
    (n a0 a1 a2 a3 a4 a5 a6 a7 b0 b1 b2 b3 b4 b5 b6 b7 c0 c1 c2 c3 c4 c5 c6 c7 : ℕ)
    (d0 d1 d2 d3 d4 d5 d6 d7 e0 e1 e2 e3 e4 e5 e6 e7 : ℕ)
    → (((((((n * 32 + five a0 a1 a2 a3 a4) * 32 + five a5 a6 a7 b0 b1) * 32 + five b2 b3 b4 b5 b6)
                          * 32
                        + five b7 c0 c1 c2 c3)
                      * 32
                    + five c4 c5 c6 c7 d0)
                  * 32
                + five d1 d2 d3 d4 d5)
              * 32
            + five d6 d7 e0 e1 e2)
          * 32
        + five e3 e4 e5 e6 e7
      ≡ ((((n * 256 + (a0 * 128 + a1 * 64 + a2 * 32 + a3 * 16 + a4 * 8 + a5 * 4 + a6 * 2 + a7))
                      * 256
                    + (b0 * 128 + b1 * 64 + b2 * 32 + b3 * 16 + b4 * 8 + b5 * 4 + b6 * 2 + b7))
                  * 256
                + (c0 * 128 + c1 * 64 + c2 * 32 + c3 * 16 + c4 * 8 + c5 * 4 + c6 * 2 + c7))
              * 256
            + (d0 * 128 + d1 * 64 + d2 * 32 + d3 * 16 + d4 * 8 + d5 * 4 + d6 * 2 + d7))
          * 256
        + (e0 * 128 + e1 * 64 + e2 * 32 + e3 * 16 + e4 * 8 + e5 * 4 + e6 * 2 + e7)
unfolding five
forty_bits n a0 a1 a2 a3 a4 a5 a6 a7 b0 b1 b2 b3 b4 b5 b6 b7 c0 c1 c2 c3 c4 c5 c6 c7 d0 d1 d2 d3 d4
      d5 d6 d7 e0 e1 e2 e3 e4 e5 e6 e7 =
    omega arith

-- The character of a value below 32.
unfoldable pub symbol : ℕ → ℕ
symbol v = get_or ulid_alphabet v 0

unfoldable pub passes_under : (ℕ → Bool) → ℕ → Bool
passes_under test zero = true
passes_under test (suc bound) = passes_under test bound && test bound

pub passes_under_lem :
    (test : ℕ → Bool) {bound : ℕ} (v : ℕ)
    → v < bound
    → passes_under test bound ≡ true
    → test v ≡ true
unfolding passes_under
passes_under_lem test {bound = zero} v below checked = absurd (omega arith)
passes_under_lem test {bound = suc bound} v below checked = elim (Bool-cases (v == bound)) [
  | inl same ↦ (let e = (==_iff v bound).0 same in ground arith)
  | inr other ↦ passes_under_lem test {bound = bound} v (ground arith) (ground arith)
]

digit_table : passes_under (λ v. digit_in ulid_alphabet (symbol v) == v) 32 ≡ true
unfolding passes_under digit_in symbol
digit_table = refl

digit_in-symbol : (v : ℕ) → v < 32 → digit_in ulid_alphabet (symbol v) ≡ v
digit_in-symbol v h =
    (==_iff _ v).0 (passes_under_lem (λ v. digit_in ulid_alphabet (symbol v) == v) v h digit_table)

five-lt : (a b c d e : ℕ) → five (a % 2) (b % 2) (c % 2) (d % 2) (e % 2) < 32
unfolding five
five-lt a b c d e = omega arith

number_from-symbol :
    (n a b c d e : ℕ) (t : Text)
    → number_from n (symbol (five (a % 2) (b % 2) (c % 2) (d % 2) (e % 2)) ∷ t)
      ≡ number_from (n * 32 + five (a % 2) (b % 2) (c % 2) (d % 2) (e % 2)) t
unfolding number_from
number_from-symbol n a b c d e t =
    ap (λ (d' : ℕ). number_from (n * 32 + d') t) (digit_in-symbol _ (five-lt a b c d e))

-- The number that bytes write in base 256.
unfoldable pub bytes_from : ℕ → Bytes → ℕ
bytes_from n [] = n
bytes_from n (b ∷ bs) = bytes_from (n * 256 + b) bs

eight_symbols :
    (n a b c d e : ℕ) (t : Text)
    → a < 256
    → b < 256
    → c < 256
    → d < 256
    → e < 256
    → number_from n (
        symbol (five (a / 128 % 2) (a / 64 % 2) (a / 32 % 2) (a / 16 % 2) (a / 8 % 2))
        ∷ symbol (five (a / 4 % 2) (a / 2 % 2) (a / 1 % 2) (b / 128 % 2) (b / 64 % 2))
        ∷ symbol (five (b / 32 % 2) (b / 16 % 2) (b / 8 % 2) (b / 4 % 2) (b / 2 % 2))
        ∷ symbol (five (b / 1 % 2) (c / 128 % 2) (c / 64 % 2) (c / 32 % 2) (c / 16 % 2))
        ∷ symbol (five (c / 8 % 2) (c / 4 % 2) (c / 2 % 2) (c / 1 % 2) (d / 128 % 2))
        ∷ symbol (five (d / 64 % 2) (d / 32 % 2) (d / 16 % 2) (d / 8 % 2) (d / 4 % 2))
        ∷ symbol (five (d / 2 % 2) (d / 1 % 2) (e / 128 % 2) (e / 64 % 2) (e / 32 % 2))
        ∷ symbol (five (e / 16 % 2) (e / 8 % 2) (e / 4 % 2) (e / 2 % 2) (e / 1 % 2))
        ∷ t)
      ≡ number_from (bytes_from n (a ∷ b ∷ c ∷ d ∷ e ∷ [])) t
unfolding bytes_from
eight_symbols n a b c d e t ha hb hc hd he =
    rw
      (
        number_from-symbol, number_from-symbol, number_from-symbol, number_from-symbol,
        number_from-symbol, number_from-symbol, number_from-symbol, number_from-symbol,
      )
      (ap (λ (m : ℕ). number_from m t)
        (forty_bits n (a / 128 % 2) (a / 64 % 2) (a / 32 % 2) (a / 16 % 2) (a / 8 % 2) (a / 4 % 2)
            (a / 2 % 2) (a / 1 % 2) (b / 128 % 2) (b / 64 % 2) (b / 32 % 2) (b / 16 % 2) (b / 8 % 2)
            (b / 4 % 2) (b / 2 % 2) (b / 1 % 2) (c / 128 % 2) (c / 64 % 2) (c / 32 % 2) (c / 16 % 2)
            (c / 8 % 2) (c / 4 % 2) (c / 2 % 2) (c / 1 % 2) (d / 128 % 2) (d / 64 % 2) (d / 32 % 2)
            (d / 16 % 2) (d / 8 % 2) (d / 4 % 2) (d / 2 % 2) (d / 1 % 2) (e / 128 % 2) (e / 64 % 2)
            (e / 32 % 2) (e / 16 % 2) (e / 8 % 2) (e / 4 % 2) (e / 2 % 2) (e / 1 % 2)
          ∙ omega (
            arith,
            byte_bits a ha,
            byte_bits b hb,
            byte_bits c hc,
            byte_bits d hd,
            byte_bits e he,
          )))

two_symbols :
    (a : ℕ) (t : Text)
    → a < 256
    → number_from 0 (
        symbol (five (0 % 2) (0 % 2) (a / 128 % 2) (a / 64 % 2) (a / 32 % 2))
        ∷ symbol (five (a / 16 % 2) (a / 8 % 2) (a / 4 % 2) (a / 2 % 2) (a / 1 % 2))
        ∷ t)
      ≡ number_from a t
two_symbols a t h =
    rw (number_from-symbol, number_from-symbol)
      (ap (λ (m : ℕ). number_from m t) (unfold five in omega (arith, byte_bits a h)))

bytes_from_ten :
    (n a b c d e f g h i j : ℕ)
    → bytes_from (bytes_from n (a ∷ b ∷ c ∷ d ∷ e ∷ [])) (f ∷ g ∷ h ∷ i ∷ j ∷ [])
      ≡ bytes_from n (a ∷ b ∷ c ∷ d ∷ e ∷ f ∷ g ∷ h ∷ i ∷ j ∷ [])
unfolding bytes_from
bytes_from_ten n a b c d e f g h i j = refl

number_from-encode_from :
    (b0 b1 b2 b3 b4 b5 b6 b7 b8 b9 b10 b11 b12 b13 b14 b15 : ℕ)
    → b0 < 256
    → b1 < 256
    → b2 < 256
    → b3 < 256
    → b4 < 256
    → b5 < 256
    → b6 < 256
    → b7 < 256
    → b8 < 256
    → b9 < 256
    → b10 < 256
    → b11 < 256
    → b12 < 256
    → b13 < 256
    → b14 < 256
    → b15 < 256
    → number_from 0 (
        encode_from
          (b0 ∷ b1 ∷ b2 ∷ b3 ∷ b4 ∷ b5 ∷ b6 ∷ b7 ∷ b8 ∷ b9 ∷ b10 ∷ b11 ∷ b12 ∷ b13 ∷ b14 ∷ b15 ∷ [])
          26
          0)
      ≡ bytes_from b0
          (b1 ∷ b2 ∷ b3 ∷ b4 ∷ b5 ∷ b6 ∷ b7 ∷ b8 ∷ b9 ∷ b10 ∷ b11 ∷ b12 ∷ b13 ∷ b14 ∷ b15 ∷ [])
unfolding encode_from five symbol bytes_from
number_from-encode_from b0 b1 b2 b3 b4 b5 b6 b7 b8 b9 b10 b11 b12 b13 b14 b15 h0 h1 h2 h3 h4 h5 h6
      h7 h8 h9 h10 h11 h12 h13 h14 h15 =
    two_symbols b0
      (encode_from
        (b0 ∷ b1 ∷ b2 ∷ b3 ∷ b4 ∷ b5 ∷ b6 ∷ b7 ∷ b8 ∷ b9 ∷ b10 ∷ b11 ∷ b12 ∷ b13 ∷ b14 ∷ b15 ∷ [])
        24 2)
      h0
    ∙ eight_symbols b0 b1 b2 b3 b4 b5
        (encode_from
          (b0 ∷ b1 ∷ b2 ∷ b3 ∷ b4 ∷ b5 ∷ b6 ∷ b7 ∷ b8 ∷ b9 ∷ b10 ∷ b11 ∷ b12 ∷ b13 ∷ b14 ∷ b15 ∷ [])
          16 10)
        h1 h2 h3 h4 h5
    ∙ eight_symbols _ b6 b7 b8 b9 b10
        (encode_from
          (b0 ∷ b1 ∷ b2 ∷ b3 ∷ b4 ∷ b5 ∷ b6 ∷ b7 ∷ b8 ∷ b9 ∷ b10 ∷ b11 ∷ b12 ∷ b13 ∷ b14 ∷ b15 ∷ [])
          8 18)
        h6 h7 h8 h9 h10
    ∙ eight_symbols _ b11 b12 b13 b14 b15 [] h11 h12 h13 h14 h15
    ∙ unfold number_from in refl

-- Ten bytes.
abbrev pub IsEntropy : Bytes → Type 0
IsEntropy bytes = (length bytes ≡ 10) × All (λ b. b < 256) bytes

time_number :
    (ms : ℕ)
    → ms < 2 ^ 48
    → (((((ms / 2 ^ 40 % 256) * 256 + ms / 2 ^ 32 % 256) * 256 + ms / 2 ^ 24 % 256) * 256
                + ms / 2 ^ 16 % 256)
              * 256
            + ms / 2 ^ 8 % 256)
          * 256
        + ms % 256
      ≡ ms
time_number ms h = omega arith

-- The characters write the time, followed by the ten bytes, as one number.
pub encode_ulid_number :
    (ms : ℕ) (entropy : Bytes)
    → ms < 2 ^ 48
    → length entropy ≡ 10
    → All (λ b. b < 256) entropy
    → number_from 0 (encode_ulid ms entropy) ≡ bytes_from ms entropy
unfolding encode_ulid bytes_from
encode_ulid_number ms (e0 ∷ e1 ∷ e2 ∷ e3 ∷ e4 ∷ e5 ∷ e6 ∷ e7 ∷ e8 ∷ e9 ∷ []) fits len all =
    number_from-encode_from (ms / 2 ^ 40 % 256) (ms / 2 ^ 32 % 256) (ms / 2 ^ 24 % 256)
      (ms / 2 ^ 16 % 256) (ms / 2 ^ 8 % 256) (ms % 256) e0 e1 e2 e3 e4 e5 e6 e7 e8 e9 (omega arith)
      (omega arith) (omega arith) (omega arith) (omega arith) (omega arith) all.0 all.1.0 all.1.1.0
      all.1.1.1.0 all.1.1.1.1.0 all.1.1.1.1.1.0 all.1.1.1.1.1.1.0 all.1.1.1.1.1.1.1.0
      all.1.1.1.1.1.1.1.1.0 all.1.1.1.1.1.1.1.1.1.0
    ∙ ap (λ (m : ℕ). bytes_from m (e0 ∷ e1 ∷ e2 ∷ e3 ∷ e4 ∷ e5 ∷ e6 ∷ e7 ∷ e8 ∷ e9 ∷ []))
        (time_number ms fits)
encode_ulid_number ms ([]) fits len all = absurd (omega arith)
encode_ulid_number ms (e0 ∷ []) fits len all = absurd (omega arith)
encode_ulid_number ms (e0 ∷ e1 ∷ []) fits len all = absurd (omega arith)
encode_ulid_number ms (e0 ∷ e1 ∷ e2 ∷ []) fits len all = absurd (omega arith)
encode_ulid_number ms (e0 ∷ e1 ∷ e2 ∷ e3 ∷ []) fits len all = absurd (omega arith)
encode_ulid_number ms (e0 ∷ e1 ∷ e2 ∷ e3 ∷ e4 ∷ []) fits len all = absurd (omega arith)
encode_ulid_number ms (e0 ∷ e1 ∷ e2 ∷ e3 ∷ e4 ∷ e5 ∷ []) fits len all = absurd (omega arith)
encode_ulid_number ms (e0 ∷ e1 ∷ e2 ∷ e3 ∷ e4 ∷ e5 ∷ e6 ∷ []) fits len all = absurd (omega arith)
encode_ulid_number ms (e0 ∷ e1 ∷ e2 ∷ e3 ∷ e4 ∷ e5 ∷ e6 ∷ e7 ∷ []) fits len all =
    absurd (omega arith)
encode_ulid_number ms (e0 ∷ e1 ∷ e2 ∷ e3 ∷ e4 ∷ e5 ∷ e6 ∷ e7 ∷ e8 ∷ []) fits len all =
    absurd (omega arith)
encode_ulid_number ms (e0 ∷ e1 ∷ e2 ∷ e3 ∷ e4 ∷ e5 ∷ e6 ∷ e7 ∷ e8 ∷ e9 ∷ e10 ∷ es) fits len all =
    absurd (omega arith)
