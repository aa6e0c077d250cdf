-- ===== src/Notifications/Ulid.antt =====
-- The ULIDs of notifications.go: validULID, encodeULID, incrementEntropy and ulidGenerator.
pub mod Number
pub mod Order
pub mod Valid
use virtualme.Prelude.{
  ℕ, zero, suc, ◌+◌, ◌-◌, ◌*◌, ◌/◌, ◌%◌, ◌^◌, ◌≡◌, refl, Bool, true, false, ◌&&◌, ◌||◌, not, Option,
  none, some, List, [], ◌∷◌, ◌++◌, map, ltb, leb, ◌==◌, if◌then◌else◌, length, get_elem?, get_or,
}
use virtualme.Text.{Text, codes}

-- ulidAlphabet
abbrev pub ulid_alphabet : Text
ulid_alphabet = codes "0123456789ABCDEFGHJKMNPQRSTVWXYZ"

-- strings.ContainsRune
unfoldable pub contains_rune : Text → ℕ → Bool
contains_rune [] c = false
contains_rune (d ∷ t) c = d == c || contains_rune t c

all_in_alphabet : Text → Bool
unfolding contains_rune
all_in_alphabet [] = true
all_in_alphabet (c ∷ t) = contains_rune ulid_alphabet c && all_in_alphabet t

first_allowed : Text → Bool
first_allowed [] = false
first_allowed (c ∷ t) = leb c b'7'

-- validULID, over a text whose characters are its bytes.
unfoldable pub valid_ulid : Text → Bool
unfolding all_in_alphabet first_allowed
valid_ulid value = length value == 26 && first_allowed value && all_in_alphabet value

-- The bytes of an unsigned number, most significant first.
abbrev pub Bytes : Type 0
Bytes = List ℕ

-- `byte(ms >> 40)` to `byte(ms)`.
abbrev time_bytes : ℕ → Bytes
time_bytes ms =
    (ms / 2 ^ 40 % 256)
    ∷ (ms / 2 ^ 32 % 256)
    ∷ (ms / 2 ^ 24 % 256)
    ∷ (ms / 2 ^ 16 % 256)
    ∷ (ms / 2 ^ 8 % 256)
    ∷ (ms % 256)
    ∷ []

-- `(data[k/8] >> (7 - k%8)) & 1` at the source bit k = position - 2; the two bits before the data
-- are 0.
unfoldable pub source_bit : Bytes → ℕ → ℕ
source_bit bytes position =
    if ltb position 2
    then 0
    else get_or bytes ((position - 2) / 8) 0 / 2 ^ (7 - (position - 2) % 8) % 2

-- The five rounds of the loop over bits: shift, then add the next bit.
unfoldable pub character_value : Bytes → ℕ → ℕ
unfolding source_bit
character_value bytes character =
    let bit = source_bit bytes in
    let k = character * 5 in
    (((bit k * 2 + bit (k + 1)) * 2 + bit (k + 2)) * 2 + bit (k + 3)) * 2 + bit (k + 4)

encode_from : Bytes → ℕ → ℕ → Text
unfolding character_value
encode_from bytes zero character = []
encode_from bytes (suc left) character =
    get_or ulid_alphabet (character_value bytes character) 0
    ∷ encode_from bytes left (character + 1)

-- encodeULID
unfoldable pub encode_ulid : ℕ → Bytes → Text
unfolding encode_from
encode_ulid ms entropy = encode_from (time_bytes ms ++ entropy) 26 0

carry : ℕ → Bytes × Bool → Bytes × Bool
carry b (bs, false) = (b ∷ bs, false)
carry b (bs, true) = (((b + 1) % 256) ∷ bs, (b + 1) % 256 == 0)

-- incrementEntropy, from the last byte on: the bytes after the call and whether it overflowed.
unfoldable pub increment_entropy : Bytes → Bytes × Bool
unfolding carry
increment_entropy [] = ([], true)
increment_entropy (b ∷ bs) = carry b (increment_entropy bs)

-- The fields of ulidGenerator that change.
pub record Generator : Type 0 where
  pub last_ms : ℕ
  pub random : Bytes
  pub seeded : Bool

-- io.ReadFull into the random bytes: what they are after it, and whether it filled them.
pub data Read : Type 0 where
  full : Bytes → Read
  failed : Bytes → Read

pub data Outcome : Type 0 where
  made : Text → Outcome
  entropy_error : Outcome
  -- The readings of the clock have ended before the loop.
  waiting : Outcome

-- The loop that sleeps until the clock passes the last identifier's time.
unfoldable pub wait_past : ℕ → List ℕ → Option ℕ
wait_past last [] = none
wait_past last (now ∷ later) = elim (ltb last now) [
  | true ↦ some now
  | false ↦ wait_past last later
]

refill : ℕ → Read → Generator → Outcome × Generator
refill now (full bytes) g =
    (made (encode_ulid now bytes), record g { last_ms = now; random = bytes; seeded = true })
refill now (failed bytes) g = (entropy_error, record g { random = bytes })

after_wait : Option ℕ → Read → Generator → Outcome × Generator
unfolding refill
after_wait none read g = (waiting, g)
after_wait (some now) read g = refill now read g

incremented : Bytes × Bool → List ℕ → Read → Generator → Outcome × Generator
unfolding after_wait
incremented (bytes, false) readings read g =
    (made (encode_ulid g.last_ms bytes), record g { random = bytes })
incremented (bytes, true) readings read g =
    after_wait (wait_past g.last_ms readings) read (record g { random = bytes })

-- ulidGenerator.next over the readings of the clock, one for each call of it, and what a read of the
-- entropy would do.
unfoldable pub next : List ℕ → Read → Generator → Outcome × Generator
unfolding incremented refill
next [] read g = (waiting, g)
next (now ∷ later) read g =
    if not g.seeded || ltb g.last_ms now
    then refill now read g
    else incremented (increment_entropy g.random) (now ∷ later) read g
