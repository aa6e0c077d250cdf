-- ===== src/Socket/Bytes.antt =====
-- Bytes: numbers in network order and the mask of a client's frame.
use Prim.Native.Nat.{bit_xor, bit_and}
use virtualme.Prelude.{
  ℕ, zero, suc, ◌+◌, ◌*◌, ◌/◌, ◌%◌, ◌^◌, ◌<◌, ◌≡◌, refl, ap, ◌∙◌, Bool, true, false, not, ◌&&◌, [],
  ◌∷◌, ◌==◌, ==_iff, get_or, length, All, arith,
}
use native.Mathlib.Numerals.{unary_clauses}
use virtualme.Text.{Text}

-- Every number under a bound passes the test.
unfoldable pub passes : (ℕ → Bool) → ℕ → Bool
passes test zero = true
passes test (suc n) = elim (test n) [ true ↦ passes test n | false ↦ false ]

pub passes-below :
    (test : ℕ → Bool) (bound n : ℕ) → passes test bound ≡ true → n < bound → test n ≡ true
unfolding passes
passes-below test zero n h lt = absurd (omega arith)
passes-below test (suc bound) n h lt = ground (arith, passes-below test bound n)

masked_twice : passes (λ mask. passes (λ c. bit_xor (bit_xor c mask) mask == c) 256) 256 ≡ true
unfolding passes
masked_twice = refl

xor-twice : (c mask : ℕ) → c < 256 → mask < 256 → bit_xor (bit_xor c mask) mask ≡ c
xor-twice c mask h k =
    let row =
      passes-below (λ m. passes (λ c. bit_xor (bit_xor c m) m == c) 256) 256 mask masked_twice k in
    (==_iff (bit_xor (bit_xor c mask) mask) c).0
      (passes-below (λ c. bit_xor (bit_xor c mask) mask == c) 256 c row h)

seven_bits :
    passes (λ n. bit_and (128 + n) 0x7f == n && not (bit_and (128 + n) 0x80 == 0)) 128 ≡ true
unfolding passes
seven_bits = refl

-- The mask bit, and the seven bits beside it.
pub bit_and-seven :
    (n : ℕ) → n < 128 → (bit_and (128 + n) 0x7f ≡ n) × ((bit_and (128 + n) 0x80 == 0) ≡ false)
bit_and-seven n h =
    let both =
      passes-below (λ n. bit_and (128 + n) 0x7f == n && not (bit_and (128 + n) 0x80 == 0)) 128 n
        seven_bits h in
    ground arith

-- The payload under the mask, from an index on.
unfoldable pub mask_from : Text → ℕ → Text → Text
mask_from mask i [] = []
mask_from mask i (c ∷ p) = bit_xor c (get_or mask (i % 4) 0) ∷ mask_from mask (i + 1) p

abbrev pub AreBytes : Text → Type 0
AreBytes = All (λ c. c < 256)

get_or-byte : (t : Text) (i : ℕ) → AreBytes t → get_or t i 0 < 256
get_or-byte [] i h = omega arith
get_or-byte (c ∷ t) zero (h, hs) = h
get_or-byte (c ∷ t) (suc i) (h, hs) = get_or-byte t i hs

pub mask_from-twice :
    (mask : Text) (i : ℕ) (p : Text)
    → AreBytes mask
    → AreBytes p
    → mask_from mask i (mask_from mask i p) ≡ p
unfolding mask_from
mask_from-twice mask i [] hm hp = refl
mask_from-twice mask i (c ∷ p) hm (h, hp) =
    rw
      (
        xor-twice c (get_or mask (i % 4) 0) h (get_or-byte mask (i % 4) hm),
        mask_from-twice mask (i + 1) p hm hp,
      )
      refl

pub length-mask_from : (mask : Text) (i : ℕ) (p : Text) → length (mask_from mask i p) ≡ length p
unfolding mask_from
length-mask_from mask i [] = refl
length-mask_from mask i (c ∷ p) = ap suc (length-mask_from mask (i + 1) p)

-- binary.BigEndian.PutUint16 and PutUint64, for two and eight bytes, in front of a text.
unfoldable pub put_bytes : ℕ → ℕ → Text → Text
put_bytes zero n t = t
put_bytes (suc k) n t = put_bytes k (n / 256) (n % 256 ∷ t)

-- binary.BigEndian.Uint16 and Uint64.
unfoldable pub bytes_value : ℕ → Text → ℕ
bytes_value n [] = n
bytes_value n (c ∷ t) = bytes_value (n * 256 + c) t

pub bytes_value-put_bytes :
    (k n : ℕ) (t : Text) → n < 256 ^ k → bytes_value 0 (put_bytes k n t) ≡ bytes_value n t
unfolding put_bytes
bytes_value-put_bytes zero n t h = ap (λ m. bytes_value m t) (omega arith)
bytes_value-put_bytes (suc k) n t h =
    let step : bytes_value (n / 256) (n % 256 ∷ t) ≡ bytes_value n t =
      unfold bytes_value in ap (λ m. bytes_value m t) (omega arith) in
    bytes_value-put_bytes k (n / 256) (n % 256 ∷ t) (omega (arith, simp unary_clauses at h)) ∙ step

pub length-put_bytes : (k n : ℕ) (t : Text) → length (put_bytes k n t) ≡ k + length t
unfolding put_bytes
length-put_bytes zero n t = omega arith
length-put_bytes (suc k) n t = omega (arith, length-put_bytes k (n / 256) (n % 256 ∷ t))

pub bytes_value-nil : (n : ℕ) → bytes_value n [] ≡ n
unfolding bytes_value
bytes_value-nil n = refl
