-- ===== src/Socket/Frame.antt =====
-- ws.go's frames: writeFrame, readLength and the part of ReadLoop that reads one frame, over bytes.
pub mod Bounds
pub mod RoundTrip
use Prim.Native.Nat.{bit_and, bit_or}
use virtualme.Prelude.{
  ℕ, zero, suc, ◌+◌, ◌-◌, ◌%◌, ◌≡◌, Bool, true, false, ◌&&◌, ◌||◌, not, Option, none, some, List,
  [], ◌∷◌, ◌++◌, ltb, leb, ◌==◌, if◌then◌else◌, get_or, length, take, drop,
}
use virtualme.Text.{Text}
use virtualme.Socket.Bytes.{mask_from, put_bytes, bytes_value}

-- maxPayload.
abbrev pub max_payload : ℕ
max_payload = 65536

-- The byte for a length and the longer field behind it.
unfoldable pub length_field : ℕ → Text
length_field n =
    if ltb n 126
    then n ∷ []
    else if leb n 65535
    then 126 ∷ put_bytes 2 n []
    else 127 ∷ put_bytes 8 n []

-- writeFrame where no write fails.
unfoldable pub write_frame : ℕ → Text → Text
unfolding length_field
write_frame opcode payload = bit_or 0x80 opcode ∷ (length_field (length payload) ++ payload)

-- io.ReadFull of some bytes.
unfoldable pub read_full : ℕ → Text → Option (Text × Text)
read_full n input = if ltb (length input) n then none else some (take n input, drop n input)

number_in : Option (Text × Text) → Option (ℕ × Text)
number_in none = none
number_in (some (encoded, rest)) = some (bytes_value 0 encoded, rest)

unfoldable pub read_length : ℕ → Text → Option (ℕ × Text)
unfolding read_full number_in
read_length short input =
    if short == 126
    then number_in (read_full 2 input)
    else if short == 127
    then number_in (read_full 8 input)
    else some (short, input)

-- What the next bytes are: too few, which is the end of the connection, a reason to close it, or a
-- frame with its opcode, its payload without the mask, and the rest.
pub data Reading : Type 0 where
  cut_off : Reading
  refused : ℕ → Reading
  frame : ℕ → Text → Text → Reading

unmasked : ℕ → Text → Option (Text × Text) → Reading
unmasked opcode mask none = cut_off
unmasked opcode mask (some (payload, rest)) = frame opcode (mask_from mask 0 payload) rest

after_mask : ℕ → ℕ → Option (Text × Text) → Reading
unfolding unmasked read_full
after_mask opcode n none = cut_off
after_mask opcode n (some (mask, rest)) = unmasked opcode mask (read_full n rest)

after_length : ℕ → Option (ℕ × Text) → Reading
unfolding after_mask
after_length opcode none = cut_off
after_length opcode (some (n, rest)) =
    if ltb max_payload n
    then refused 1009
    else if leb 0x8 opcode && ltb 125 n
    then refused 1002
    else after_mask opcode n (read_full 4 rest)

after_header : Option (Text × Text) → Reading
unfolding after_length read_length
after_header none = cut_off
after_header (some (header, rest)) =
    let first = get_or header 0 0 in
    let second = get_or header 1 0 in
    let fin = not (bit_and first 0x80 == 0) in
    let masked = not (bit_and second 0x80 == 0) in
    if not fin || not (bit_and first 0x70 == 0) || not masked
    then refused 1002
    else after_length (bit_and first 0x0f) (read_length (bit_and second 0x7f) rest)

unfoldable pub read_frame : Text → Reading
unfolding after_header read_full
read_frame input = after_header (read_full 2 input)
