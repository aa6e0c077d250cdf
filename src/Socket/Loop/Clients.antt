-- ===== src/Socket/Loop/Clients.antt =====
-- The loop on what a client sends that keeps RFC 6455 and does not divide its messages.
use virtualme.Prelude.{
  ℕ, zero, suc, ◌+◌, ◌<◌, ◌≡◌, refl, ap, subst, ◌∙◌, Bool, true, some, List, [], ◌∷◌, ◌++◌, length,
  All, arith,
}
use virtualme.Text.{Text}
use virtualme.Socket.Bytes.{AreBytes}
use virtualme.Socket.Frame.{frame, read_frame}
use virtualme.Socket.Frame.Bounds.{IsBounded, read_frame-IsBounded}
use virtualme.Socket.Frame.RoundTrip.{client_frame, IsSendable, read_frame-client_frame}
use virtualme.Socket.Loop.{Event, text, pong, go_on, answered, act, before, loop, read_loop}

pub data Kind : Type 0 where
  text_message binary_message ping_message pong_message : Kind

abbrev pub opcode_of : Kind → ℕ
opcode_of text_message = 0x1
opcode_of binary_message = 0x2
opcode_of ping_message = 0x9
opcode_of pong_message = 0xa

pub record Message : Type 0 where
  pub kind : Kind
  pub mask : Text
  pub payload : Text

pub record IsMessage (m : Message) : Type 0 where
  pub fits : IsSendable (opcode_of m.kind) m.payload
  pub mask_length : length m.mask ≡ 4
  pub mask_bytes : AreBytes m.mask
  pub bytes : AreBytes m.payload

abbrev pub frame_of : Message → Text
frame_of m = client_frame (opcode_of m.kind) m.mask m.payload

abbrev pub frames_of : List Message → Text
frames_of [] = []
frames_of (m ∷ ms) = frame_of m ++ frames_of ms

-- The expected events: a text is handed on, a ping is answered with its payload.
abbrev pub due : Kind → Text → List Event
due text_message payload = text payload ∷ []
due binary_message payload = []
due ping_message payload = pong payload ∷ []
due pong_message payload = []

abbrev pub events_of : List Message → List Event
events_of [] = []
events_of (m ∷ ms) = due m.kind m.payload ++ events_of ms

opcode_of-lt : (k : Kind) → opcode_of k < 16
opcode_of-lt text_message = omega arith
opcode_of-lt binary_message = omega arith
opcode_of-lt ping_message = omega arith
opcode_of-lt pong_message = omega arith

act-due : (k : Kind) (payload : Text) → act true (opcode_of k) payload ≡ go_on (due k payload)
unfolding act answered
act-due text_message payload = refl
act-due binary_message payload = refl
act-due ping_message payload = refl
act-due pong_message payload = refl

read_frame-frame_of :
    (m : Message) (rest : Text)
    → IsMessage m
    → read_frame (frame_of m ++ rest) ≡ frame (opcode_of m.kind) m.payload rest
read_frame-frame_of m rest h =
    read_frame-client_frame (opcode_of m.kind) m.mask m.payload rest (opcode_of-lt m.kind) h.fits
      h.mask_length h.mask_bytes h.bytes

-- A frame takes at least a byte.
frame_of-length :
    (m : Message) (rest : Text) → IsMessage m → length rest < length (frame_of m ++ rest)
frame_of-length m rest h =
    let b =
      subst (λ r. IsBounded 6 (length (frame_of m ++ rest)) r) (read_frame-frame_of m rest h)
        (read_frame-IsBounded (frame_of m ++ rest)) in
    omega (arith, b.2)

loop-step :
    (written : ℕ → Bool) (rounds opcode : ℕ) (input payload rest : Text) (events : List Event)
    → read_frame input ≡ frame opcode payload rest
    → act (written rounds) opcode payload ≡ go_on events
    → loop written (suc rounds) input ≡ before events (loop written rounds rest)
unfolding loop
loop-step written rounds opcode input payload rest events e a = rw (e, a, loop) refl

loop-frames_of :
    (written : ℕ → Bool) (rounds : ℕ) (ms : List Message)
    → ((n : ℕ) → written n ≡ true)
    → All IsMessage ms
    → length (frames_of ms) < rounds
    → loop written rounds (frames_of ms) ≡ some (events_of ms)
unfolding loop before
loop-frames_of written zero ms w hs le = absurd (omega arith)
loop-frames_of written (suc rounds) [] w hs le = refl
loop-frames_of written (suc rounds) (m ∷ ms) w (h, hs) le =
    let shorter = frame_of-length m (frames_of ms) h in
    loop-step written rounds (opcode_of m.kind) (frames_of (m ∷ ms)) m.payload (frames_of ms)
      (due m.kind m.payload) (read_frame-frame_of m (frames_of ms) h)
      (ap (λ b. act b (opcode_of m.kind) m.payload) (w rounds) ∙ act-due m.kind m.payload)
    ∙ ap (before (due m.kind m.payload)) (loop-frames_of written rounds ms w hs (omega arith))

-- Where every pong is written, ReadLoop hands on the texts of a client's frames and answers its pings,
-- in the order in which they were sent and with the payloads before masking, and ends when the client
-- is cut off after them.
pub read_loop-frames_of :
    (written : ℕ → Bool) (ms : List Message)
    → ((n : ℕ) → written n ≡ true)
    → All IsMessage ms
    → read_loop written (frames_of ms) ≡ some (events_of ms)
unfolding read_loop
read_loop-frames_of written ms w hs =
    loop-frames_of written (length (frames_of ms) + 1) ms w hs (omega arith)
