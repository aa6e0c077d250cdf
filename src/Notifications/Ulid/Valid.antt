-- ===== src/Notifications/Ulid/Valid.antt =====
-- encodeULID makes texts that validULID accepts.
use virtualme.Prelude.{
  ℕ, zero, suc, ◌+◌, ◌*◌, ◌≤◌, ◌<◌, ◌≡◌, refl, ap, true, ◌++◌, arith, leb, length,
}
use virtualme.Text.{Text}
use virtualme.Notifications.Ulid.{
  Bytes, ulid_alphabet, contains_rune, all_in_alphabet, first_allowed, valid_ulid, source_bit,
  character_value, time_bytes, encode_from, encode_ulid,
}
use virtualme.Notifications.Ulid.Number.{symbol, passes_under, passes_under_lem}

source_bit-le : (bytes : Bytes) (position : ℕ) → source_bit bytes position ≤ 1
unfolding source_bit
source_bit-le bytes position = ground arith

character_value-lt : (bytes : Bytes) (character : ℕ) → character_value bytes character < 32
character_value-lt bytes character =
    let bit = source_bit-le bytes in
    let k = character * 5 in
    unfold character_value in
    omega (arith, bit k, bit (k + 1), bit (k + 2), bit (k + 3), bit (k + 4))

first_value-lt : (bytes : Bytes) → character_value bytes 0 < 8
unfolding character_value
first_value-lt bytes =
    let bit = source_bit-le bytes in
    let b0 : source_bit bytes 0 ≡ 0 = unfold source_bit in refl in
    let b1 : source_bit bytes 1 ≡ 0 = unfold source_bit in refl in
    omega (arith, bit 2, bit 3, bit 4)

alphabet_table : passes_under (λ v. contains_rune ulid_alphabet (symbol v)) 32 ≡ true
unfolding passes_under contains_rune symbol
alphabet_table = refl

contains_rune-symbol : (v : ℕ) → v < 32 → contains_rune ulid_alphabet (symbol v) ≡ true
contains_rune-symbol v h =
    passes_under_lem (λ v. contains_rune ulid_alphabet (symbol v)) v h alphabet_table

first_table : passes_under (λ v. leb (symbol v) b'7') 8 ≡ true
unfolding passes_under symbol
first_table = refl

symbol-first : (v : ℕ) → v < 8 → leb (symbol v) b'7' ≡ true
symbol-first v h = passes_under_lem (λ v. leb (symbol v) b'7') v h first_table

all_in_alphabet-encode_from :
    (bytes : Bytes) (left character : ℕ) → all_in_alphabet (encode_from bytes left character) ≡ true
unfolding all_in_alphabet encode_from symbol
all_in_alphabet-encode_from bytes zero character = refl
all_in_alphabet-encode_from bytes (suc left) character =
    rw (contains_rune-symbol (character_value bytes character) (character_value-lt bytes character))
      (all_in_alphabet-encode_from bytes left (character + 1))

length-encode_from :
    (bytes : Bytes) (left character : ℕ) → length (encode_from bytes left character) ≡ left
unfolding encode_from
length-encode_from bytes zero character = refl
length-encode_from bytes (suc left) character =
    ap suc (length-encode_from bytes left (character + 1))

first_allowed-encode_from : (bytes : Bytes) → first_allowed (encode_from bytes 26 0) ≡ true
unfolding first_allowed encode_from symbol
first_allowed-encode_from bytes = symbol-first (character_value bytes 0) (first_value-lt bytes)

valid_of_parts :
    (value : Text)
    → length value ≡ 26
    → first_allowed value ≡ true
    → all_in_alphabet value ≡ true
    → valid_ulid value ≡ true
unfolding valid_ulid
valid_of_parts value l f a = rw (l, f, a)

-- Every identifier that encodeULID makes passes validULID, whatever the time and the bytes are.
pub valid_ulid-encode_ulid : (ms : ℕ) (entropy : Bytes) → valid_ulid (encode_ulid ms entropy) ≡ true
unfolding encode_ulid
valid_ulid-encode_ulid ms entropy =
    let bytes = time_bytes ms ++ entropy in
    valid_of_parts (encode_from bytes 26 0) (length-encode_from bytes 26 0)
      (first_allowed-encode_from bytes) (all_in_alphabet-encode_from bytes 26 0)
