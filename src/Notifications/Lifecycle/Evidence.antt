-- ===== src/Notifications/Lifecycle/Evidence.antt =====
-- The marker of lifecycle.go and validateLifecycleMarker.
pub mod Texts
use virtualme.Prelude.{
  ℕ, ◌+◌, Bool, true, false, ◌&&◌, ◌||◌, not, Option, none, some, List, [], ◌∷◌, leb, ltb, ◌==◌,
  if◌then◌else◌,
}
use virtualme.Text.{Text, codes, text_eq}
use virtualme.Notifications.Ulid.{valid_ulid}
use virtualme.Notifications.Detail.{Json}
use virtualme.Notifications.Result.{Result, ok, err}
use virtualme.Notifications.Validate.{Notification, validate_exact, is_empty}

-- The texts of the field `reason`.
pub data Reason : Type 0 where
  no_reason : Reason
  config_restart : Reason
  container_stop : Reason
  unclean_recovery : Reason
  config_restart_startup : Reason
  other_reason : Text → Reason

-- The texts of the field `state`.
pub data State : Type 0 where
  running : State
  planned_restart : State
  clean : State
  clean_pending : State
  other_state : Text → State

pub record Marker : Type 0 where
  pub version : ℕ
  pub state : State
  pub run_id : Text
  pub started_at_ms : ℕ
  pub updated_at_ms : ℕ
  pub reason : Reason
  pub deadline_ms : ℕ
  pub notification_id : Text
  pub pending_notification : Option Notification

abbrev pub zero_marker : Marker
zero_marker = record {
  version = 0;
  state = other_state [];
  run_id = [];
  started_at_ms = 0;
  updated_at_ms = 0;
  reason = no_reason;
  deadline_ms = 0;
  notification_id = [];
  pending_notification = none;
}

abbrev pub uncleanly : Text × Text × Text × Text
uncleanly = (
  codes "error",
  codes "unclean-startup",
  codes "Controller restarted unexpectedly",
  codes "The previous controller run did not shut down cleanly.",
)

abbrev pub stopping : Text × Text × Text × Text
stopping = (
  codes "info",
  codes "clean-shutdown",
  codes "Controller shutting down",
  codes "The controller received a shutdown request and saved its state.",
)

abbrev pub restarting : Text × Text × Text × Text
restarting = (
  codes "info",
  codes "config-restart-shutdown",
  codes "Controller restarting",
  codes "The controller is restarting to apply configuration changes.",
)

abbrev pub restarted : Text × Text × Text × Text
restarted = (
  codes "success",
  codes "config-restart-startup",
  codes "Configuration restart complete",
  codes "The controller restarted cleanly after configuration changed.",
)

-- The type, subtype, title and summary that a reason asks of its notification.
unfoldable pub expected : Reason → Option (Text × Text × Text × Text)
expected unclean_recovery = some uncleanly
expected container_stop = some stopping
expected config_restart = some restarting
expected config_restart_startup = some restarted
expected _ = none

has_texts : Option (Text × Text × Text × Text) → Notification → Bool
has_texts none n = false
has_texts (some (type, subtype, title, summary)) n =
    text_eq n.type type
    && text_eq n.subtype subtype
    && text_eq n.sender (codes "controller")
    && text_eq n.title title
    && text_eq n.summary summary
    && text_eq n.detail.renderer (codes "lifecycle")

is_ok : Result (Unit {0}) → Bool
is_ok (ok u) = true
is_ok (err e) = false

is_none : Option Notification → Bool
is_none none = true
is_none (some n) = false

valid_pending : (Json → ℕ) → Marker → Option Notification → Bool
unfolding has_texts is_ok
valid_pending size_of m none = false
valid_pending size_of m (some n) =
    text_eq m.notification_id n.id
    && is_ok (validate_exact size_of n)
    && has_texts (expected m.reason) n

is_config_restart : Reason → Bool
is_config_restart config_restart = true
is_config_restart _ = false

is_stop : Reason → Bool
is_stop container_stop = true
is_stop config_restart = true
is_stop _ = false

is_no_reason : Reason → Bool
is_no_reason no_reason = true
is_no_reason _ = false

no_notification : Marker → Bool
unfolding is_none
no_notification m = is_empty m.notification_id && is_none m.pending_notification

valid_state : (Json → ℕ) → State → Marker → Bool
unfolding valid_pending is_config_restart is_stop is_no_reason no_notification is_none
valid_state size_of running m = is_no_reason m.reason && m.deadline_ms == 0 && no_notification m
valid_state size_of planned_restart m =
    is_config_restart m.reason && m.deadline_ms == m.updated_at_ms + 120000 && no_notification m
valid_state size_of clean m =
    is_stop m.reason
    && m.deadline_ms == 0
    && valid_ulid m.notification_id
    && is_none m.pending_notification
valid_state size_of clean_pending m =
    m.deadline_ms == 0
    && valid_ulid m.notification_id
    && valid_pending size_of m m.pending_notification
valid_state size_of (other_state t) m = false

-- validateLifecycleMarker
unfoldable pub valid_marker : (Json → ℕ) → Marker → Bool
unfolding valid_state
valid_marker size_of m =
    (m.version == 1
      && valid_ulid m.run_id
      && ltb 0 m.started_at_ms
      && leb m.started_at_ms m.updated_at_ms)
    && valid_state size_of m.state m
