-- ===== src/Socket/Loop/Bounds.antt =====
-- The loop ends, and what it does.
use virtualme.Prelude.{
  ℕ, zero, suc, ◌+◌, ◌≤◌, ◌<◌, ◌≡◌, ◌⊎◌, inl, inr, refl, Bool, true, false, Option, none, some,
  List, [], ◌∷◌, ◌++◌, ◌==◌, length, arith, by_test,
}
use virtualme.Text.{Text}
use virtualme.Socket.Frame.{max_payload, Reading, cut_off, refused, frame, read_frame}
use virtualme.Socket.Frame.Bounds.{IsRefusal, IsBounded, read_frame-IsBounded}
use virtualme.Socket.Loop.{
  Event, text, pong, closing, Action, halt, go_on, answered, act, before, loop, read_loop,
}

-- Texts of at most 64 KiB, pongs of at most 125 bytes, and a close as the last event only, with one
-- of three codes.
abbrev pub IsTidy : List Event → Type 0
IsTidy [] = Unit
IsTidy (text payload ∷ events) = (length payload ≤ max_payload) × IsTidy events
IsTidy (pong payload ∷ events) = (length payload ≤ 125) × IsTidy events
IsTidy (closing code ∷ events) = ((code ≡ 1000) ⊎ IsRefusal code) × (events ≡ [])

abbrev pub Finishes : Option (List Event) → Type 0
Finishes none = ⊥
Finishes (some events) = IsTidy events

-- Events that do not close.
abbrev IsOpen : List Event → Type 0
IsOpen [] = Unit
IsOpen (text payload ∷ events) = (length payload ≤ max_payload) × IsOpen events
IsOpen (pong payload ∷ events) = (length payload ≤ 125) × IsOpen events
IsOpen (closing code ∷ events) = ⊥

abbrev IsSound : Action → Type 0
IsSound (halt events) = IsTidy events
IsSound (go_on events) = IsOpen events

answered-IsSound : (w : Bool) (payload : Text) → length payload ≤ 125 → IsSound (answered w payload)
unfolding answered
answered-IsSound true payload h = (h, tt)
answered-IsSound false payload h = tt

act-IsSound :
    (w : Bool) (opcode : ℕ) (payload : Text)
    → length payload ≤ max_payload
    → (0x8 ≤ opcode → length payload ≤ 125)
    → IsSound (act w opcode payload)
unfolding act
act-IsSound w opcode payload h k =
    by_test IsSound (opcode == 0x8) (λ e. (inl refl, refl))
      (λ e.
        by_test IsSound (opcode == 0x9) (λ e'. answered-IsSound w payload (k (ground arith)))
          (λ e.
            by_test IsSound (opcode == 0xa) (λ e. tt)
              (λ e.
                by_test IsSound (opcode == 0x1) (λ e. (h, tt))
                  (λ e. by_test IsSound (opcode == 0x2) (λ e. tt) (λ e. (inr (inl refl), refl))))))

append-IsTidy : (first later : List Event) → IsOpen first → IsTidy later → IsTidy (first ++ later)
append-IsTidy [] later o t = t
append-IsTidy (text payload ∷ events) later (h, o) t = (h, append-IsTidy events later o t)
append-IsTidy (pong payload ∷ events) later (h, o) t = (h, append-IsTidy events later o t)
append-IsTidy (closing code ∷ events) later o t = absurd o

before-Finishes :
    (events : List Event) (o : Option (List Event))
    → IsOpen events
    → Finishes o
    → Finishes (before events o)
unfolding before
before-Finishes events none o f = f
before-Finishes events (some later) o f = append-IsTidy events later o f

abbrev acted : (ℕ → Bool) → ℕ → Text → Action → Option (List Event)
acted written rounds rest a = elim a [
  | halt events ↦ some events
  | go_on events ↦ before events (loop written rounds rest)
]

acted-Finishes :
    (written : ℕ → Bool) (rounds : ℕ) (rest : Text) (a : Action)
    → IsSound a
    → Finishes (loop written rounds rest)
    → Finishes (acted written rounds rest a)
acted-Finishes written rounds rest (halt events) s f = s
acted-Finishes written rounds rest (go_on events) s f =
    before-Finishes events (loop written rounds rest) s f

abbrev read : (ℕ → Bool) → ℕ → Reading → Option (List Event)
read written rounds r = elim r [
  | cut_off ↦ some []
  | refused code ↦ some (closing code ∷ [])
  | frame opcode payload rest ↦ acted written rounds rest (act (written rounds) opcode payload)
]

read-Finishes :
    (written : ℕ → Bool) (rounds most : ℕ) (r : Reading)
    → IsBounded 6 most r
    → ((rest : Text) → length rest + 6 ≤ most → Finishes (loop written rounds rest))
    → Finishes (read written rounds r)
read-Finishes written rounds most cut_off b f = tt
read-Finishes written rounds most (refused code) b f = (inr b, refl)
read-Finishes written rounds most (frame opcode payload rest) b f =
    acted-Finishes written rounds rest (act (written rounds) opcode payload)
      (act-IsSound (written rounds) opcode payload b.0 b.1) (f rest b.2)

loop-Finishes :
    (written : ℕ → Bool) (rounds : ℕ) (input : Text)
    → length input < rounds
    → Finishes (loop written rounds input)
unfolding loop
loop-Finishes written zero input h = absurd (omega arith)
loop-Finishes written (suc rounds) input h =
    read-Finishes written rounds (length input) (read_frame input) (read_frame-IsBounded input)
      (λ rest le. loop-Finishes written rounds rest (omega arith))

-- Whatever bytes a client sends and whichever writes fail, ReadLoop ends; it hands on only texts of at
-- most 64 KiB, answers only pings of at most 125 bytes, and closes at most once, as the last thing it
-- does, with code 1000, 1002 or 1009.
pub read_loop-Finishes : (written : ℕ → Bool) (input : Text) → Finishes (read_loop written input)
unfolding read_loop
read_loop-Finishes written input = loop-Finishes written (length input + 1) input (omega arith)
