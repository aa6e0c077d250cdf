-- ===== src/Notifications/Lifecycle/Start.antt =====
-- Startup of lifecycle.go and the recoveries that it calls.
pub mod Run
pub mod Crash
pub mod Quiet
use virtualme.Prelude.{
  ℕ, ◌+◌, Bool, true, false, ◌&&◌, ◌||◌, not, Option, none, some, leb, ltb, ◌==◌, if◌then◌else◌,
  List, [],
}
use virtualme.Text.{Text, codes, text_eq}
use virtualme.Notifications.Ulid.{valid_ulid}
use virtualme.Notifications.Detail.{Json, string, Fields, end, field}
use virtualme.Notifications.Validate.{Notification, CreateRequest}
use virtualme.Notifications.Lifecycle.Evidence.{
  Reason, no_reason, config_restart, container_stop, unclean_recovery, config_restart_startup,
  State, running, planned_restart, clean, clean_pending, Marker, zero_marker, uncleanly, stopping,
  restarting, restarted,
}
use virtualme.Notifications.Lifecycle.{
  World, M, ◌>>=◌, ◌>>◌, pure, fail, write_marker, ReadMarker, not_exist, read_error, malformed,
  valid, read_marker, next_id, create_exact, reserve, decimal, field_if, request_for, pending,
  announce,
}

status_valid : Text
status_valid = codes "valid"

is_recent : ℕ → ℕ → Bool
is_recent now t = ltb 0 t && leb t (now + 300000)

unclean_detail : Marker → Text → ℕ → Fields
unfolding is_recent status_valid
unclean_detail m status now =
    let known = text_eq status status_valid in
    field_if (known && is_recent now m.updated_at_ms) (codes "lastMarkerAtMs")
      (decimal m.updated_at_ms)
      (field (codes "markerStatus") (string status) (
        field_if (known && valid_ulid m.run_id) (codes "previousRunId") (string m.run_id) (
          field_if (known && is_recent now m.started_at_ms) (codes "previousStartedAtMs")
            (decimal m.started_at_ms) end)))

unclean_request : (Json → ℕ) → Marker → Text → ℕ → CreateRequest
unfolding request_for unclean_detail
unclean_request size_of m status now =
    let (type, subtype, title, summary) = uncleanly in
    request_for size_of type subtype title summary
      (if text_eq status status_valid && is_recent now m.updated_at_ms
        then m.updated_at_ms
        else now)
      (unclean_detail m status now)

-- The run that the recovery's marker names: the earlier one, if its evidence is usable.
recovered_run : Marker → ℕ → M Marker
recovered_run m now w =
    if not (valid_ulid m.run_id) || m.started_at_ms == 0
    then (do id ← next_id; pure (record m { run_id = id; started_at_ms = now })) w
    else (some m, w)

-- uncleanRecovery
unfoldable pub unclean_recover : (Json → ℕ) → Marker → Text → M (Unit {0})
unfolding unclean_request recovered_run pending
unclean_recover size_of m status w =
    let now = w.clock in
    (do
      n ← reserve size_of (unclean_request size_of m status now)
      run ← recovered_run m now
      write_marker size_of (pending run now unclean_recovery n)
      create_exact size_of n)
      w

recover_from : (Json → ℕ) → Marker → Option Notification → M (Unit {0})
recover_from size_of m none = unclean_recover size_of m (codes "malformed")
recover_from size_of m (some n) =
    if text_eq m.notification_id n.id
    then create_exact size_of n
    else unclean_recover size_of m (codes "malformed")

-- recoverPending
unfoldable pub recover_pending : (Json → ℕ) → Marker → M (Unit {0})
unfolding recover_from
recover_pending size_of m = recover_from size_of m m.pending_notification

restart_detail : Marker → Bool → Fields
restart_detail m planned =
    if planned
    then field (codes "recoveredFrom") (string (codes "planned-restart")) end
    else field (codes "lastMarkerAtMs") (decimal m.updated_at_ms) (
        field (codes "previousRunId") (string m.run_id)
          (field (codes "previousStartedAtMs") (decimal m.started_at_ms) end))

-- restartComplete; the flag is for a marker in the state `planned-restart`.
unfoldable pub restart_complete : (Json → ℕ) → Marker → Bool → M (Unit {0})
unfolding announce request_for restart_detail
restart_complete size_of m planned =
    let (type, subtype, title, summary) = restarted in
    (do
      announce size_of m (λ n. n.created_at_ms) config_restart_startup
          (request_for size_of type subtype title summary 0 (restart_detail m planned))
      pure tt)

complete_if_restart : (Json → ℕ) → Marker → Reason → M (Unit {0})
complete_if_restart size_of m config_restart = restart_complete size_of m false
complete_if_restart size_of m _ = pure tt

-- What a valid marker asks of the next start.
pub recover_state : (Json → ℕ) → Marker → State → M (Unit {0})
unfolding complete_if_restart status_valid
recover_state size_of m clean_pending = do
  recover_pending size_of m
  complete_if_restart size_of m m.reason
recover_state size_of m clean = complete_if_restart size_of m m.reason
recover_state size_of m planned_restart = λ w.
    if leb w.clock (m.deadline_ms + 300000)
    then restart_complete size_of m true w
    else unclean_recover size_of m status_valid w
recover_state size_of m _ = unclean_recover size_of m status_valid

-- The switch of Startup.
recover_previous : (Json → ℕ) → ReadMarker → M (Unit {0})
unfolding recover_state
recover_previous size_of not_exist = pure tt
recover_previous size_of read_error = unclean_recover size_of zero_marker (codes "unreadable")
recover_previous size_of malformed = unclean_recover size_of zero_marker (codes "malformed")
recover_previous size_of (valid m) = recover_state size_of m m.state

abbrev pub running_marker : Text → ℕ → Marker
running_marker run_id now = record {
  version = 1;
  state = running;
  run_id = run_id;
  started_at_ms = now;
  updated_at_ms = now;
  reason = no_reason;
  deadline_ms = 0;
  notification_id = [];
  pending_notification = none;
}

begin_running : (Json → ℕ) → Text → M (Unit {0})
begin_running size_of run_id w =
    let m = running_marker run_id w.clock in write_marker size_of m (record w { marker = m })

-- Startup
unfoldable pub startup : (Json → ℕ) → M (Unit {0})
unfolding recover_previous begin_running read_marker
startup size_of w =
    (do
      recover_previous size_of (read_marker size_of w.file)
      run_id ← next_id
      begin_running size_of run_id)
      w
