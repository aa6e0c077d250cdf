-- ===== src/Notifications/Service.antt =====
-- Create, handleRead and handleReadAll of service.go, on the world of the lifecycle: each call of
-- Valkey takes its fate there. Requests are decoded.
pub mod Replies
pub mod Creation
pub mod All
use virtualme.Prelude.{
  ℕ, zero, suc, Bool, true, false, ◌||◌, not, Option, none, some, List, [], ◌∷◌, if◌then◌else◌,
}
use virtualme.Text.{Text}
use virtualme.Notifications.Ulid.{valid_ulid}
use virtualme.Notifications.Detail.{Json}
use virtualme.Notifications.Result.{Result, ok, err}
use virtualme.Notifications.Validate.{Notification, CreateRequest, validate_create, is_empty}
use virtualme.Notifications.Store.{
  Db, at, Marked, missing, changed, mark_one_script, mark_all_script,
}
use virtualme.Notifications.Snapshot.{StateFrame, state_frame, snapshot_locked, valid_request_id}
use virtualme.Notifications.Lifecycle.{
  World, M, Fate, done, failed_before, failed_after, next_fate, later_fates, ◌>>=◌, ◌>>◌, pure,
  fail, next_id, persist_exact,
}

pub data Change : Type 0 where
  was_created : Text → Change
  was_read : Text → ℕ → Change
  all_read : ℕ → Change

pub data Code : Type 0 where
  invalid_request not_found persistence_failed : Code

-- What a call sends: a frame to all, a frame to the requester, or an error frame to it.
pub data Output : Type 0 where
  broadcast : StateFrame → Change → Output
  answer : StateFrame → Output
  refusal : Text → Code → Output

-- The reply of a script and the database after it.
called : {A : Type 0} → Fate → A × Db → Db → Option A × Db
called done (a, db') db = (some a, db')
called failed_before r db = (none, db)
called failed_after (a, db') db = (none, db')

read_frame : Fate → StateFrame → Option StateFrame
read_frame done f = some f
read_frame failed_before f = none
read_frame failed_after f = none

-- messageLocked
unfoldable pub message : (Json → ℕ) → M StateFrame
unfolding read_frame
message size_of w = (
  read_frame (next_fate w.fates) (state_frame (snapshot_locked size_of w.db)),
  record w { fates = later_fates w.fates },
)

answered : Text → Option StateFrame → Output
answered request_id none = refusal request_id persistence_failed
answered request_id (some f) = answer f

-- sendSnapshotLocked
unfoldable pub send_snapshot : (Json → ℕ) → Text → World → Output × World
unfolding answered
send_snapshot size_of request_id w = let (m, w') = message size_of w in (answered request_id m, w')

told : Text → Change → Option StateFrame → Output
told request_id c none = refusal request_id persistence_failed
told request_id c (some f) = broadcast f c

-- broadcastStateLocked, with the error frame of its callers.
unfoldable pub broadcast_change : (Json → ℕ) → Text → Change → World → Output × World
unfolding told
broadcast_change size_of request_id c w =
    let (m, w') = message size_of w in (told request_id c m, w')

after_mark_one : (Json → ℕ) → Text → Text → Option Marked → World → Output × World
after_mark_one size_of request_id id none w = (refusal request_id persistence_failed, w)
after_mark_one size_of request_id id (some missing) w = (refusal request_id not_found, w)
after_mark_one size_of request_id id (some (changed zero)) w = send_snapshot size_of request_id w
after_mark_one size_of request_id id (some (changed (suc k))) w =
    broadcast_change size_of request_id (was_read id w.clock) w

-- handleRead
unfoldable pub handle_read : (Json → ℕ) → Text → Text → World → Output × World
unfolding called after_mark_one
handle_read size_of request_id id w =
    if not (valid_request_id request_id) || not (valid_ulid id)
    then (refusal request_id invalid_request, w)
    else (let (r, db) = called (next_fate w.fates) (mark_one_script id (at w.clock) w.db) w.db in
        after_mark_one size_of request_id id r (record w { db = db; fates = later_fates w.fates }))

after_mark_all : (Json → ℕ) → Text → Option ℕ → World → Output × World
after_mark_all size_of request_id none w = (refusal request_id persistence_failed, w)
after_mark_all size_of request_id (some zero) w = send_snapshot size_of request_id w
after_mark_all size_of request_id (some (suc k)) w =
    broadcast_change size_of request_id (all_read w.clock) w

-- handleReadAll
unfoldable pub handle_read_all : (Json → ℕ) → Text → World → Output × World
unfolding called after_mark_all
handle_read_all size_of request_id w =
    if not (valid_request_id request_id)
    then (refusal request_id invalid_request, w)
    else (let (r, db) = called (next_fate w.fates) (mark_all_script (at w.clock) w.db) w.db in
        after_mark_all size_of request_id r (record w { db = db; fates = later_fates w.fates }))

identified : Result Notification → M Notification
identified (err e) = fail
identified (ok n) = if is_empty n.id then (do id ← next_id; pure (record n { id = id })) else pure n

sent_new : Notification → Option StateFrame → List Output
sent_new n none = []
sent_new n (some f) = broadcast f (was_created n.id) ∷ []

-- The broadcast of a new notification; its error is only logged.
announce_new : (Json → ℕ) → Notification → Bool → M (List Output)
unfolding sent_new
announce_new size_of n false w = (some [], w)
announce_new size_of n true w = let (m, w') = message size_of w in (some (sent_new n m), w')

-- Create, with the frames that it broadcasts.
unfoldable pub create : (Json → ℕ) → CreateRequest → M (Notification × List Output)
unfolding identified announce_new
create size_of request w =
    (do
      n ← identified (validate_create size_of request w.clock)
      new ← persist_exact n
      sent ← announce_new size_of n new
      pure (n, sent))
      w
