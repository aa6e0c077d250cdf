-- ===== src/Notifications/Lifecycle/Stop.antt =====
-- PlanConfigRestart and Shutdown of lifecycle.go.
pub mod Quiet
use virtualme.Prelude.{
  ℕ, ◌+◌, Bool, true, false, ◌&&◌, ◌||◌, not, Option, none, some, leb, ltb, ◌==◌, if◌then◌else◌,
  List, [],
}
use virtualme.Text.{Text, codes, text_eq}
use virtualme.Notifications.Ulid.{valid_ulid}
use virtualme.Notifications.Detail.{Json, string, Fields, end, field}
use virtualme.Notifications.Validate.{Notification, CreateRequest}
use virtualme.Notifications.Lifecycle.Evidence.{
  Reason, no_reason, config_restart, container_stop, unclean_recovery, config_restart_startup,
  State, running, planned_restart, clean, clean_pending, Marker, zero_marker, uncleanly, stopping,
  restarting, restarted,
}
use virtualme.Notifications.Lifecycle.{
  World, M, ◌>>=◌, ◌>>◌, pure, fail, write_marker, ReadMarker, not_exist, read_error, malformed,
  valid, read_marker, next_id, create_exact, reserve, decimal, field_if, request_for, pending,
  announce,
}

keep_marker : Marker → M (Unit {0})
keep_marker m w = (some tt, record w { marker = m })

planned : ℕ → Marker → Marker
planned now m = record m {
  state = planned_restart;
  reason = config_restart;
  updated_at_ms = now;
  deadline_ms = now + 120000;
  notification_id = [];
  pending_notification = none;
}

plan_state : (Json → ℕ) → Marker → State → M (Unit {0})
unfolding planned keep_marker
plan_state size_of m running =
    λ w. (do write_marker size_of (planned w.clock m); keep_marker (planned w.clock m)) w
plan_state size_of m _ = fail

plan_from : (Json → ℕ) → ReadMarker → M (Unit {0})
unfolding plan_state
plan_from size_of (valid m) = plan_state size_of m m.state
plan_from size_of _ = fail

-- PlanConfigRestart
unfoldable pub plan_config_restart : (Json → ℕ) → M (Unit {0})
unfolding plan_from read_marker
plan_config_restart size_of w = plan_from size_of (read_marker size_of w.file) w

-- Whether a stop is the one that PlanConfigRestart announced.
is_planned : State → Marker → ℕ → Bool
is_planned planned_restart m now = leb now (m.deadline_ms + 300000)
is_planned _ m now = false

reason_text : Bool → Text
reason_text planned = if planned then codes "config-restart" else codes "container-stop"

shutdown_detail : Marker → Bool → ℕ → Fields
unfolding reason_text
shutdown_detail m planned now = field (codes "reason") (string (reason_text planned)) (
    field (codes "runId") (string m.run_id) (
      field (codes "shutdownAtMs") (decimal now)
        (field (codes "startedAtMs") (decimal m.started_at_ms) end)))

shutdown_request : (Json → ℕ) → Marker → Bool → ℕ → CreateRequest
unfolding request_for shutdown_detail
shutdown_request size_of m planned now =
    let (type, subtype, title, summary) = if planned then restarting else stopping in
    request_for size_of type subtype title summary now (shutdown_detail m planned now)

-- The marker behind the notification of a stop.
stopped : Marker → ℕ → Reason → Notification → Marker
unfolding pending
stopped m now reason n = record (pending m now reason n) {
  state = clean;
  pending_notification = none;
}

stop : (Json → ℕ) → Marker → Bool → ℕ → M (Unit {0})
unfolding announce shutdown_request stopped keep_marker
stop size_of m planned now =
    let reason = if planned then config_restart else container_stop in
    (do
      n ← announce size_of m (λ n. now) reason (shutdown_request size_of m planned now)
      write_marker size_of (stopped m now reason n)
      keep_marker (stopped m now reason n))

shutdown_from : (Json → ℕ) → ReadMarker → M (Unit {0})
unfolding stop is_planned
shutdown_from size_of (valid m) w = stop size_of m (is_planned m.state m w.clock) w.clock w
shutdown_from size_of _ w = (none, w)

-- Shutdown
unfoldable pub shutdown : (Json → ℕ) → M (Unit {0})
unfolding shutdown_from read_marker
shutdown size_of w = shutdown_from size_of (read_marker size_of w.file) w
