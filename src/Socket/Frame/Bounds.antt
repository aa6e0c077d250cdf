-- ===== src/Socket/Frame/Bounds.antt =====
-- How long frames are, and how much of the input they take.
use Prim.Native.Nat.{bit_and}
use virtualme.Prelude.{
  ℕ, ◌+◌, ◌-◌, ◌≤◌, ◌≡◌, ◌⊎◌, inl, inr, refl, subst, ◌&&◌, ◌||◌, not, Option, none, some, ltb, leb,
  ◌==◌, get_or, length, length-take, length-drop, arith, by_test,
}
use virtualme.Text.{Text}
use virtualme.Socket.Bytes.{length-mask_from}
use virtualme.Socket.Frame.{
  max_payload, read_full, number_in, read_length, Reading, cut_off, refused, frame, unmasked,
  after_mask, after_length, after_header, read_frame,
}

abbrev IsSplit : ℕ → Text → Option (Text × Text) → Type 0
IsSplit n input none = Unit
IsSplit n input (some (bytes, rest)) = (length bytes ≡ n) × (length rest + n ≡ length input)

read_full-IsSplit : (n : ℕ) (input : Text) → IsSplit n input (read_full n input)
unfolding read_full
read_full-IsSplit n input =
    by_test (IsSplit n input) (ltb (length input) n) (λ e. tt)
      (λ e.
        let enough : n ≤ length input = ground arith in
        (omega (arith, length-take n input), omega (arith, length-drop n input)))

abbrev Remains : ℕ → Option (ℕ × Text) → Type 0
Remains most none = Unit
Remains most (some (n, rest)) = length rest ≤ most

number_in-Remains :
    (n : ℕ) (input : Text) (o : Option (Text × Text))
    → IsSplit n input o
    → Remains (length input) (number_in o)
unfolding number_in
number_in-Remains n input none h = tt
number_in-Remains n input (some (bytes, rest)) h = omega (arith, h.1)

read_length-Remains : (short : ℕ) (input : Text) → Remains (length input) (read_length short input)
unfolding read_length
read_length-Remains short input =
    by_test (Remains (length input)) (short == 126)
      (λ e. number_in-Remains 2 input (read_full 2 input) (read_full-IsSplit 2 input))
      (λ e.
        by_test (Remains (length input)) (short == 127)
          (λ e. number_in-Remains 8 input (read_full 8 input) (read_full-IsSplit 8 input))
          (λ e. omega arith))

-- The close codes of ReadLoop after a bad frame.
abbrev pub IsRefusal : ℕ → Type 0
IsRefusal code = (code ≡ 1002) ⊎ (code ≡ 1009)

-- A frame's payload is no longer than maxPayload, that of a control frame than 125, and at least six
-- bytes of `most` have been taken; `spare` of them are still to come.
abbrev pub IsBounded : ℕ → ℕ → Reading → Type 0
IsBounded spare most cut_off = Unit
IsBounded spare most (refused code) = IsRefusal code
IsBounded spare most (frame opcode payload rest) =
    (length payload ≤ max_payload)
    × (0x8 ≤ opcode → length payload ≤ 125)
    × (length rest + spare ≤ most)

abbrev Fits : ℕ → ℕ → Type 0
Fits opcode n = (n ≤ max_payload) × (0x8 ≤ opcode → n ≤ 125)

unmasked-IsBounded :
    (spare most opcode n : ℕ) (mask input : Text) (o : Option (Text × Text))
    → Fits opcode n
    → length input + spare ≤ most
    → IsSplit n input o
    → IsBounded spare most (unmasked opcode mask o)
unfolding unmasked
unmasked-IsBounded spare most opcode n mask input none f h s = tt
unmasked-IsBounded spare most opcode n mask input (some (payload, rest)) f h s =
    let same = length-mask_from mask 0 payload in
    (omega (arith, f.0, s.0), λ k. omega (arith, f.1 k, s.0), omega (arith, s.1))

after_mask-IsBounded :
    (spare most opcode n : ℕ) (input : Text) (o : Option (Text × Text))
    → Fits opcode n
    → length input + spare ≤ most
    → IsSplit 4 input o
    → IsBounded (spare + 4) most (after_mask opcode n o)
unfolding after_mask
after_mask-IsBounded spare most opcode n input none f h s = tt
after_mask-IsBounded spare most opcode n input (some (mask, rest)) f h s =
    unmasked-IsBounded (spare + 4) most opcode n mask rest (read_full n rest) f (omega (arith, s.1))
      (read_full-IsSplit n rest)

after_length-IsBounded :
    (spare most opcode : ℕ) (o : Option (ℕ × Text))
    → Remains (most - spare) o
    → spare ≤ most
    → IsBounded (spare + 4) most (after_length opcode o)
unfolding after_length
after_length-IsBounded spare most opcode none h le = tt
after_length-IsBounded spare most opcode (some (n, rest)) h le =
    by_test (IsBounded (spare + 4) most) (ltb max_payload n) (λ e. inr refl)
      (λ e.
        by_test (IsBounded (spare + 4) most) (leb 0x8 opcode && ltb 125 n) (λ e'. inl refl)
          (λ e'.
            after_mask-IsBounded spare most opcode n rest (read_full 4 rest)
              (ground arith, λ k. ground arith) (omega arith) (read_full-IsSplit 4 rest)))

after_header-IsBounded :
    (input : Text) (o : Option (Text × Text))
    → IsSplit 2 input o
    → IsBounded 6 (length input) (after_header o)
unfolding after_header
after_header-IsBounded input none s = tt
after_header-IsBounded input (some (header, rest)) s =
    let second = get_or header 1 0 in
    let first = get_or header 0 0 in
    let taken : length rest ≡ length input - 2 = omega (arith, s.1) in
    by_test (IsBounded 6 (length input))
      (not (not (bit_and first 0x80 == 0))
        || not (bit_and first 0x70 == 0)
        || not (not (bit_and second 0x80 == 0)))
      (λ e. inl refl)
      (λ e.
        after_length-IsBounded 2 (length input) (bit_and first 0x0f)
          (read_length (bit_and second 0x7f) rest)
          (subst (λ m. Remains m (read_length (bit_and second 0x7f) rest)) taken
            (read_length-Remains (bit_and second 0x7f) rest))
          (omega (arith, s.1)))

-- What read_frame finds in any bytes: if it is a frame, then its payload has at most 64 KiB, and 125
-- bytes where it is a control frame, and it took six bytes at least; if it is refused, then with code
-- 1002 or 1009.
pub read_frame-IsBounded : (input : Text) → IsBounded 6 (length input) (read_frame input)
unfolding read_frame
read_frame-IsBounded input =
    after_header-IsBounded input (read_full 2 input) (read_full-IsSplit 2 input)
