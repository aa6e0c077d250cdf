-- ===== src/Socket/Frame/RoundTrip.antt =====
-- Frames as a client writes them (RFC 6455, section 5), read by read_frame; and write_frame's frames,
-- read by a client.
use Prim.Native.Nat.{bit_and, bit_or}
use virtualme.Prelude.{
  ℕ, ◌+◌, ◌-◌, ◌^◌, ◌≤◌, ◌<◌, ◌≡◌, inl, inr, refl, sym, ap, ◌∙◌, true, false, ◌&&◌, not, Option,
  none, some, [], ◌∷◌, ◌++◌, append_assoc, length-append, ltb, leb, ◌==◌, ==_iff, if◌then◌else◌,
  length, take, take-append, drop-append, arith, Bool-cases,
}
use virtualme.Text.{Text}
use virtualme.Socket.Bytes.{
  mask_from, length-mask_from, mask_from-twice, put_bytes, bytes_value-put_bytes, bytes_value-nil,
  length-put_bytes, passes, passes-below, bit_and-seven, AreBytes,
}
use virtualme.Socket.Frame.{
  max_payload, length_field, write_frame, read_full, number_in, read_length, frame, unmasked,
  after_mask, after_length, after_header, read_frame,
}

read_full-append : (n : ℕ) (a b : Text) → n ≡ length a → read_full n (a ++ b) ≡ some (a, b)
unfolding read_full
read_full-append n a b h =
    let enough : ltb (length (a ++ b)) n ≡ false = ground (arith, length-append a b) in
    rw (enough, ap (λ m. take m (a ++ b)) h ∙ take-append a b, drop-append a b n 0 (omega arith))
      refl

-- The parts of a length field.
record Shape (n : ℕ) : Type 0 where
  short : ℕ
  extension : Text
  whole : length_field n ≡ short ∷ extension
  small : short < 128
  reads : (rest : Text) → read_length short (extension ++ rest) ≡ some (n, rest)

number_in-put_bytes :
    (k n : ℕ) (rest : Text)
    → n < 256 ^ k
    → number_in (read_full k (put_bytes k n [] ++ rest)) ≡ some (n, rest)
unfolding number_in
number_in-put_bytes k n rest h =
    ap number_in
      (read_full-append k (put_bytes k n []) rest (omega (arith, length-put_bytes k n [])))
    ∙ ap (λ m. some (m, rest)) (bytes_value-put_bytes k n [] h ∙ bytes_value-nil n)

length_field-Shape : (n : ℕ) → n < 2 ^ 63 → Shape n
unfolding length_field read_length
length_field-Shape n h = elim (Bool-cases (ltb n 126)) [
  | inl e ↦
      let long : (n == 126) ≡ false = ground arith in
      let longer : (n == 127) ≡ false = ground arith in
      record {
        short = n;
        extension = [];
        whole = rw e refl;
        small = ground arith;
        reads = λ rest. rw (long, longer) refl;
      }
  | inr e ↦ elim (Bool-cases (leb n 65535)) [
    | inl f ↦ record {
      short = 126;
      extension = put_bytes 2 n [];
      whole = rw (e, f) refl;
      small = omega arith;
      reads = λ rest. number_in-put_bytes 2 n rest (ground arith);
    }
    | inr f ↦ record {
      short = 127;
      extension = put_bytes 8 n [];
      whole = rw (e, f) refl;
      small = omega arith;
      reads = λ rest. number_in-put_bytes 8 n rest (omega arith);
    }
  ]
]

-- A frame of a client: its length field has the mask bit, and a mask of four bytes follows it.
set_mask_bit : Text → Text
set_mask_bit [] = []
set_mask_bit (c ∷ t) = (0x80 + c) ∷ t

unfoldable pub client_frame : ℕ → Text → Text → Text
unfolding set_mask_bit
client_frame opcode mask payload =
    (0x80 + opcode)
    ∷ (set_mask_bit (length_field (length payload)) ++ (mask ++ mask_from mask 0 payload))

-- A final frame's first byte.
opcodes :
    passes
      (λ c.
        (bit_and (0x80 + c) 0x0f == c && bit_and (0x80 + c) 0x70 == 0)
        && not (bit_and (0x80 + c) 0x80 == 0))
      16
    ≡ true
unfolding passes
opcodes = refl

first_byte :
    (c : ℕ)
    → c < 16
    → (bit_and (0x80 + c) 0x0f ≡ c)
      × ((bit_and (0x80 + c) 0x70 == 0) ≡ true)
      × ((bit_and (0x80 + c) 0x80 == 0) ≡ false)
first_byte c h =
    let all =
      passes-below
        (λ c.
          (bit_and (0x80 + c) 0x0f == c && bit_and (0x80 + c) 0x70 == 0)
          && not (bit_and (0x80 + c) 0x80 == 0))
        16 c opcodes h in
    ground arith

-- A payload that ReadLoop takes with this opcode.
abbrev pub IsSendable : ℕ → Text → Type 0
IsSendable opcode payload = (length payload ≤ max_payload) × (0x8 ≤ opcode → length payload ≤ 125)

after_mask-client :
    (opcode : ℕ) (mask payload rest : Text)
    → AreBytes mask
    → AreBytes payload
    → after_mask opcode (length payload) (some (mask, mask_from mask 0 payload ++ rest))
      ≡ frame opcode payload rest
unfolding after_mask unmasked
after_mask-client opcode mask payload rest hm hp =
    rw
      (
        read_full-append (length payload) (mask_from mask 0 payload) rest
            (omega (arith, length-mask_from mask 0 payload)),
        mask_from-twice mask 0 payload hm hp,
      )
      refl

after_length-client :
    (opcode : ℕ) (mask payload rest : Text)
    → IsSendable opcode payload
    → length mask ≡ 4
    → AreBytes mask
    → AreBytes payload
    → after_length opcode (some (length payload, mask ++ (mask_from mask 0 payload ++ rest)))
      ≡ frame opcode payload rest
unfolding after_length
after_length-client opcode mask payload rest (fits, control) four hm hp =
    let small : ltb max_payload (length payload) ≡ false = ground arith in
    let allowed : (leb 0x8 opcode && ltb 125 (length payload)) ≡ false = ground arith in
    rw (small, allowed)
      (ap (after_mask opcode (length payload))
          (read_full-append 4 mask (mask_from mask 0 payload ++ rest) (sym four))
        ∙ after_mask-client opcode mask payload rest hm hp)

after_header-client :
    (opcode short n : ℕ) (rest later : Text)
    → opcode < 16
    → short < 128
    → read_length short rest ≡ some (n, later)
    → after_header (some ((0x80 + opcode) ∷ (0x80 + short) ∷ [], rest))
      ≡ after_length opcode (some (n, later))
unfolding after_header
after_header-client opcode short n rest later ho hs e =
    let first = first_byte opcode ho in
    let second = bit_and-seven short hs in
    rw (first.0, first.1, first.2, second.0, second.1, e) refl

-- A frame that a client writes, with an opcode of four bits, a mask of four bytes and a payload of
-- bytes that is not too long, is read with its opcode and its payload, and what follows is left.
pub read_frame-client_frame :
    (opcode : ℕ) (mask payload rest : Text)
    → opcode < 16
    → IsSendable opcode payload
    → length mask ≡ 4
    → AreBytes mask
    → AreBytes payload
    → read_frame (client_frame opcode mask payload ++ rest) ≡ frame opcode payload rest
unfolding read_frame client_frame set_mask_bit
read_frame-client_frame opcode mask payload rest ho fits four hm hp =
    let f = length_field-Shape (length payload) (omega (arith, fits.0)) in
    let masked = mask_from mask 0 payload in
    rw f.whole (
      ap after_header (
        read_full-append 2 ((0x80 + opcode) ∷ (0x80 + f.short) ∷ [])
          ((f.extension ++ (mask ++ masked)) ++ rest) refl)
      ∙ after_header-client opcode f.short (length payload)
          ((f.extension ++ (mask ++ masked)) ++ rest) (mask ++ (masked ++ rest)) ho f.small
          (ap (read_length f.short) (
              append_assoc f.extension (mask ++ masked) rest
              ∙ ap (λ t. f.extension ++ t) (append_assoc mask masked rest))
            ∙ f.reads (mask ++ (masked ++ rest)))
      ∙ after_length-client opcode mask payload rest fits four hm hp)

-- What a client reads: a final frame without a mask.
peer_payload : ℕ → Option (ℕ × Text) → Option (ℕ × Text × Text)
peer_payload opcode none = none
peer_payload opcode (some (n, rest)) = elim (read_full n rest) [
  | none ↦ none
  | some p ↦ some (opcode, p.0, p.1)
]

unfoldable pub peer_frame : Text → Option (ℕ × Text × Text)
unfolding peer_payload
peer_frame [] = none
peer_frame (c ∷ []) = none
peer_frame (c ∷ short ∷ rest) =
    if leb 0x80 c && ltb c 0x90 && ltb short 0x80
    then peer_payload (c - 0x80) (read_length short rest)
    else none

opcode_bits : passes (λ c. bit_or 0x80 c == 0x80 + c) 16 ≡ true
unfolding passes
opcode_bits = refl

peer_payload-append :
    (opcode : ℕ) (payload rest : Text)
    → peer_payload opcode (some (length payload, payload ++ rest)) ≡ some (opcode, payload, rest)
unfolding peer_payload
peer_payload-append opcode payload rest =
    rw (read_full-append (length payload) payload rest refl, peer_payload) refl

peer_frame-header :
    (opcode short : ℕ) (rest : Text)
    → opcode < 16
    → short < 128
    → peer_frame ((0x80 + opcode) ∷ short ∷ rest) ≡ peer_payload opcode (read_length short rest)
unfolding peer_frame
peer_frame-header opcode short rest ho hs =
    let final : (leb 0x80 (0x80 + opcode) && ltb (0x80 + opcode) 0x90 && ltb short 0x80) ≡ true =
      ground arith in
    let same : 0x80 + opcode - 0x80 ≡ opcode = omega arith in
    rw final (ap (λ k. peer_payload k (read_length short rest)) same)

-- A frame that writeFrame writes, with an opcode of four bits and a payload of fewer than 2 ^ 63
-- bytes, is read by a client with its opcode and payload, and what follows is left.
pub peer_frame-write_frame :
    (opcode : ℕ) (payload rest : Text)
    → opcode < 16
    → length payload < 2 ^ 63
    → peer_frame (write_frame opcode payload ++ rest) ≡ some (opcode, payload, rest)
unfolding write_frame
peer_frame-write_frame opcode payload rest ho few =
    let f = length_field-Shape (length payload) few in
    let bits : bit_or 0x80 opcode ≡ 0x80 + opcode =
      (==_iff (bit_or 0x80 opcode) (0x80 + opcode)).0
        (passes-below (λ c. bit_or 0x80 c == 0x80 + c) 16 opcode opcode_bits ho) in
    rw (f.whole, bits)
      (peer_frame-header opcode f.short ((f.extension ++ payload) ++ rest) ho f.small
        ∙ ap (λ t. peer_payload opcode (read_length f.short t))
            (append_assoc f.extension payload rest)
        ∙ ap (peer_payload opcode) (f.reads (payload ++ rest))
        ∙ peer_payload-append opcode payload rest)
