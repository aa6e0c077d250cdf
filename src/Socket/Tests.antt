-- ===== src/Socket/Tests.antt =====
-- Concrete frames, a client's connection and a hub.
use virtualme.Prelude.{◌≡◌, refl, true, false, some, List, [], ◌∷◌, ◌++◌, ltb, ◌==◌, not, arith}
use virtualme.Text.{Text, codes}
use virtualme.Socket.Bytes.{mask_from}
use virtualme.Socket.Frame.{write_frame, frame, read_frame, length_field}
use virtualme.Socket.Frame.RoundTrip.{
  client_frame, read_frame-client_frame, peer_frame, peer_frame-write_frame,
}
use virtualme.Socket.Loop.{text, pong, closing, read_loop}
use virtualme.Socket.Loop.Bounds.{Finishes, read_loop-Finishes}
use virtualme.Socket.Loop.Clients.{
  Message, IsMessage, text_message, ping_message, frames_of, read_loop-frames_of,
}
use virtualme.Socket.Hub.{
  new_hub, Step, upgraded, refused_frame, loop_ended, broadcasting, sending, run, broadcast,
}
use virtualme.Socket.Hub.Once.{IsCounted, run-new_hub-IsCounted}
use virtualme.Socket.Hub.Broadcast.{IsReached, IsLost, broadcast-outcomes}

abbrev mask : Text
mask = 0x37 ∷ 0xfa ∷ 0x21 ∷ 0x3d ∷ []

-- The masked text of RFC 6455, section 5.7.
hello :
    client_frame 0x1 mask (codes "Hello")
    ≡ 0x81 ∷ 0x85 ∷ 0x37 ∷ 0xfa ∷ 0x21 ∷ 0x3d ∷ 0x7f ∷ 0x9f ∷ 0x4d ∷ 0x51 ∷ 0x58 ∷ []
unfolding client_frame length_field mask_from
hello = refl

unmasked_refused :
    read_loop (λ n. true) (write_frame 0x1 (codes "Hello")) ≡ some (closing 1002 ∷ [])
unfolding read_loop write_frame
unmasked_refused = refl

read_frame-client_frame_example :
    read_frame (client_frame 0x1 mask (codes "Hello") ++ 0x88 ∷ [])
    ≡ frame 0x1 (codes "Hello") (0x88 ∷ [])
read_frame-client_frame_example =
    read_frame-client_frame 0x1 mask (codes "Hello") (0x88 ∷ []) (omega arith)
      (omega arith, λ h. omega arith) refl
      (omega arith, (omega arith, (omega arith, (omega arith, tt))))
      (omega arith, (omega arith, (omega arith, (omega arith, (omega arith, tt)))))

peer_frame-write_frame_example :
    peer_frame (write_frame 0xa (codes "Hello") ++ 0x88 ∷ []) ≡ some (0xa, codes "Hello", 0x88 ∷ [])
peer_frame-write_frame_example =
    peer_frame-write_frame 0xa (codes "Hello") (0x88 ∷ []) (omega arith) (omega arith)

read_loop-Finishes_example :
    Finishes (read_loop (λ n. false) (client_frame 0x9 mask (codes "hi") ++ 0x81 ∷ []))
read_loop-Finishes_example =
    read_loop-Finishes (λ n. false) (client_frame 0x9 mask (codes "hi") ++ 0x81 ∷ [])

abbrev said : Message
said = record { kind = text_message; mask = mask; payload = codes "hi" }

abbrev pinged : Message
pinged = record { kind = ping_message; mask = mask; payload = codes "ab" }

said-IsMessage : IsMessage said
said-IsMessage = record {
  fits = (omega arith, λ h. omega arith);
  mask_length = refl;
  mask_bytes = (omega arith, (omega arith, (omega arith, (omega arith, tt))));
  bytes = (omega arith, (omega arith, tt));
}

pinged-IsMessage : IsMessage pinged
pinged-IsMessage = record {
  fits = (omega arith, λ h. omega arith);
  mask_length = refl;
  mask_bytes = (omega arith, (omega arith, (omega arith, (omega arith, tt))));
  bytes = (omega arith, (omega arith, tt));
}

read_loop-frames_of_example :
    read_loop (λ n. true) (frames_of (said ∷ pinged ∷ said ∷ []))
    ≡ some (text (codes "hi") ∷ pong (codes "ab") ∷ text (codes "hi") ∷ [])
read_loop-frames_of_example =
    read_loop-frames_of (λ n. true) (said ∷ pinged ∷ said ∷ []) (λ n. refl)
      (said-IsMessage, (pinged-IsMessage, (said-IsMessage, tt)))

abbrev steps : List Step
steps =
    upgraded
    ∷ upgraded
    ∷ upgraded
    ∷ refused_frame 2
    ∷ broadcasting (λ n. not (n == 2)) (codes "state")
    ∷ loop_ended 2
    ∷ sending false 3 (codes "reply")
    ∷ []

run-new_hub-IsCounted_example : IsCounted (run steps new_hub) 2
run-new_hub-IsCounted_example = run-new_hub-IsCounted steps 2

broadcast-outcomes_example :
    (true ≡ true
      → IsReached 1
          (codes "x")
          (run steps new_hub)
          (broadcast (λ n. ltb n 2) (codes "x") (run steps new_hub)))
    × (true ≡ false
        → IsLost 1 (run steps new_hub) (broadcast (λ n. ltb n 2) (codes "x") (run steps new_hub)))
broadcast-outcomes_example =
    broadcast-outcomes (λ n. ltb n 2) (codes "x") (run steps new_hub) 1
      (run-new_hub-IsCounted steps 1)
