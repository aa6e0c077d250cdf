-- ===== src/Socket/Loop.antt =====
-- ws.go's ReadLoop on the bytes that a client has sent, for a connection with a handler of texts, as
-- HandleUpgrade sets one up.
pub mod Bounds
pub mod Clients
use virtualme.Prelude.{
  ℕ, zero, suc, ◌+◌, ◌≡◌, Bool, true, false, Option, none, some, List, [], ◌∷◌, ◌++◌, ◌==◌,
  if◌then◌else◌, length,
}
use virtualme.Text.{Text}
use virtualme.Socket.Frame.{Reading, cut_off, refused, frame, read_frame}

-- What the loop does: it hands a text on, answers a ping, or closes with a code.
pub data Event : Type 0 where
  text pong : Text → Event
  closing : ℕ → Event

-- What a frame makes the loop do: events and the end, or events and the next round.
pub data Action : Type 0 where
  halt go_on : List Event → Action

-- The answer to a ping, if its write does not fail.
answered : Bool → Text → Action
answered false payload = halt []
answered true payload = go_on (pong payload ∷ [])

pub act : Bool → ℕ → Text → Action
unfolding answered
act written opcode payload =
    if opcode == 0x8
    then halt (closing 1000 ∷ [])
    else if opcode == 0x9
    then answered written payload
    else if opcode == 0xa
    then go_on []
    else if opcode == 0x1
    then go_on (text payload ∷ [])
    else if opcode == 0x2
    then go_on []
    else halt (closing 1002 ∷ [])

pub before : List Event → Option (List Event) → Option (List Event)
before events none = none
before events (some later) = some (events ++ later)

-- The rounds of the loop; `written` says whether the write of a pong succeeds, by the number of
-- rounds left. The result is `none` only when the rounds have run out.
unfoldable pub loop : (ℕ → Bool) → ℕ → Text → Option (List Event)
unfolding read_frame act before
loop written zero input = none
loop written (suc rounds) input = elim (read_frame input) [
  | cut_off ↦ some []
  | refused code ↦ some (closing code ∷ [])
  | frame opcode payload rest ↦ elim (act (written rounds) opcode payload) [
    | halt events ↦ some events
    | go_on events ↦ before events (loop written rounds rest)
  ]
]

-- ReadLoop: a frame has six bytes at least, so these rounds are enough.
unfoldable pub read_loop : (ℕ → Bool) → Text → Option (List Event)
unfolding loop
read_loop written input = loop written (length input + 1) input
