-- ===== src/Socket/Hub.antt =====
-- ws.go's Hub. A connection is its number: HandleUpgrade gives it the id "c" and the number in decimal.
-- The order in which Go visits the connections of the map is not fixed, so theorems speak of how often
-- each one occurs, and not of the order.
pub mod Once
pub mod Broadcast
use virtualme.Prelude.{
  ℕ, zero, suc, ◌+◌, Bool, true, false, Option, none, some, List, [], ◌∷◌, ◌++◌, ltb, ◌==◌,
  if◌then◌else◌, length,
}
use virtualme.Text.{Text}

pub record Hub : Type 0 where
  pub next_id : ℕ
  -- the keys of the map
  pub conns : List ℕ
  -- the connections that the hook onDisconnect was called for
  pub disconnected : List ℕ
  -- the connections that have been closed with a close frame
  pub closed : List ℕ
  -- the text frames that were written, with their connections
  pub sent : List (ℕ × Text)

abbrev pub new_hub : Hub
new_hub = record { next_id = 0; conns = []; disconnected = []; closed = []; sent = [] }

abbrev pub one_if : Bool → ℕ
one_if true = 1
one_if false = 0

-- How often a connection occurs.
unfoldable pub count : ℕ → List ℕ → ℕ
count n [] = 0
count n (c ∷ cs) = one_if (c == n) + count n cs

unfoldable pub delete : ℕ → List ℕ → List ℕ
delete n [] = []
delete n (c ∷ cs) = let later = delete n cs in if c == n then later else c ∷ later

-- The part of HandleUpgrade behind a successful Upgrade; without the goroutine that it starts.
unfoldable pub register : Hub → Hub
register h = record h { next_id = h.next_id + 1; conns = (h.next_id + 1) ∷ h.conns }

unfoldable pub remove : ℕ → Hub → Hub
unfolding count delete
remove c h =
    if ltb 0 (count c h.conns)
    then record h { conns = delete c h.conns; disconnected = c ∷ h.disconnected }
    else h

-- closeWithCode: the first call counts.
unfoldable pub close : ℕ → Hub → Hub
unfolding count
close c h = if ltb 0 (count c h.closed) then h else record h { closed = c ∷ h.closed }

-- WriteText to a connection, if the write succeeds.
unfoldable pub write_text : ℕ → Text → Hub → Hub
write_text c payload h = record h { sent = h.sent ++ (c, payload) ∷ [] }

unfoldable pub drop_conn : ℕ → Hub → Hub
unfolding remove close
drop_conn c h = close c (remove c h)

-- The loop of Broadcast over the connections that it has copied; `written` says which writes succeed.
unfoldable pub send_all : (ℕ → Bool) → Text → List ℕ → Hub → Hub
unfolding write_text drop_conn
send_all written payload [] h = h
send_all written payload (c ∷ cs) h =
    send_all written payload cs (if written c then write_text c payload h else drop_conn c h)

unfoldable pub broadcast : (ℕ → Bool) → Text → Hub → Hub
unfolding send_all
broadcast written payload h = send_all written payload h.conns h

-- SendTo, with its result, by the number of a connection.
unfoldable pub send_to : Bool → ℕ → Text → Hub → Bool × Hub
unfolding count write_text drop_conn
send_to written c payload h =
    if ltb 0 (count c h.conns)
    then (if written then (true, write_text c payload h) else (false, drop_conn c h))
    else (false, h)

unfoldable pub hub_count : Hub → ℕ
hub_count h = length h.conns

-- What happens to the hub: an upgrade, a refusal in a ReadLoop, the end of one, and the two sends.
pub data Step : Type 0 where
  upgraded : Step
  refused_frame loop_ended : ℕ → Step
  broadcasting : (ℕ → Bool) → Text → Step
  sending : Bool → ℕ → Text → Step

unfoldable pub step : Step → Hub → Hub
unfolding register drop_conn close broadcast send_to
step upgraded h = register h
step (refused_frame c) h = close c h
step (loop_ended c) h = drop_conn c h
step (broadcasting written payload) h = broadcast written payload h
step (sending written c payload) h = (send_to written c payload h).1

unfoldable pub run : List Step → Hub → Hub
unfolding step
run [] h = h
run (s ∷ ss) h = run ss (step s h)
