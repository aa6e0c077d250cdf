-- ===== src/Jobs/Tests.antt =====
-- Runs of the queue over a service in memory that answers every call, and of the selectors.
use virtualme.Prelude.{
  ℕ, ◌+◌, ◌*◌, ◌≤◌, ◌<◌, ◌≡◌, ◌↔◌, refl, inl, inr, true, false, none, some, List, [], ◌∷◌, arith,
  All, if◌then◌else◌,
}
use virtualme.Text.{Text, codes, text_eq}
use virtualme.Clock.{Time, hour_ns, day_ns}
use virtualme.Jobs.Envelope.{Envelope, Item, job, interactive}
use virtualme.Jobs.Store.{Key, inflight, ready_interactive, key_eq, View, apply, answer, Service}
use virtualme.Jobs.Exec.{ok, ◌>>=◌, Post}
use virtualme.Jobs.Manager.{World, ack, nack, call_element, exec, broadcast_state, state_message}
use virtualme.Jobs.Manager.Worker.{acquire}
use virtualme.Jobs.Manager.Rules.{Seen}
use virtualme.Jobs.Manager.Acquire.{acquire-Acquired, Acquired, InFlightOrWaits}
use virtualme.Jobs.Manager.Finish.{Acked, NotLost, ack-Acked}
use virtualme.Jobs.Manager.Retry.{Retried, Unsettled, Buried, Safe, nack-Retried, nack-Buried}
use virtualme.Jobs.Selector
use virtualme.Jobs.Selector.{Selector, matches, bucket_window, active_buckets, window_from, has_day}
use virtualme.Jobs.Selector.Active.{IsActive, active_buckets-IsActive, run_parse}
use virtualme.Jobs.Selector.Occurrence.{parse-bucket_window, matches_iff_begun}

-- A service that takes every command and answers as documented.
abbrev memory : Service
memory = record {
  Db = View;
  view = λ v. v;
  call = λ c v. (some (answer c v), apply c v);
  effect = λ c v. inl (refl, refl);
}

abbrev chat : Text → ℕ → Envelope
chat id attempts = record {
  id = id;
  type = codes "chat";
  payload = codes "{}";
  priority = interactive;
  enqueued_ts = 1;
  not_before_ts = 0;
  started_ts = 0;
  attempts = attempts;
  max_retries = 2;
  visibility_timeout_sec = 600;
  initiator = record { id = []; kind = []; connection_id = []; cancel_on_disconnect = false };
  correlation_id = [];
  source = none;
  initiator_conn = [];
  project_id = [];
  selector = [];
  last_error = [];
  result = none;
}

abbrev lists_of : List Item → List Item → Key → List Item
lists_of flying waiting k =
    if key_eq inflight k then flying else if key_eq ready_interactive k then waiting else []

abbrev world : List Item → List Item → World memory
world flying waiting = record {
  db = record { lists = lists_of flying waiting; values = λ k. none };
  now = 5;
  running = none;
  registered = [];
  sent = [];
}

abbrev a_id : Text
a_id = codes "a"

abbrev b_id : Text
b_id = codes "b"

abbrev waiting_world : World memory
waiting_world = world [] (job (chat a_id 0) ∷ job (chat b_id 0) ∷ [])

abbrev flying_world : World memory
flying_world = world (job (chat a_id 0) ∷ []) (job (chat b_id 0) ∷ [])

acquire-Acquired_example :
    Post
      (λ o. Seen memory (Acquired b_id o))
      (Seen memory (InFlightOrWaits b_id))
      (acquire memory waiting_world)
acquire-Acquired_example = acquire-Acquired memory b_id waiting_world (inl (inr (inl refl)))

acquire_first : (acquire memory waiting_world).0 ≡ ok (some (chat a_id 0))
unfolding acquire ◌>>=◌ call_element exec answer broadcast_state state_message
acquire_first = refl

ack-Acked_example :
    Post
      (λ a.
        Seen memory (Acked memory (chat a_id 0) true (codes "done") (job (chat b_id 0) ∷ []) []))
      (Seen memory (NotLost memory (chat a_id 0) true (codes "done") (job (chat b_id 0) ∷ []) []))
      (ack memory (chat a_id 0) true (codes "done") flying_world)
ack-Acked_example =
    ack-Acked memory (chat a_id 0) true (codes "done") (job (chat b_id 0) ∷ []) [] flying_world
      (inl refl, (refl, refl))

nack-Retried_example :
    Post
      (λ a. Seen memory (Retried memory (chat a_id 1) (codes "why") (job (chat b_id 0) ∷ []) []))
      (Seen memory (Unsettled memory (chat a_id 1) (codes "why") (job (chat b_id 0) ∷ []) []))
      (nack memory (chat a_id 1) (codes "why") flying_world)
nack-Retried_example =
    nack-Retried memory (chat a_id 1) (codes "why") (job (chat b_id 0) ∷ []) [] flying_world
      (omega arith) (inl refl, (refl, refl))

nack-Buried_example :
    Post
      (λ a. Seen memory (Buried memory (chat a_id 2) (codes "why") (job (chat b_id 0) ∷ []) []))
      (Seen memory (Safe memory (chat a_id 2) (codes "why") (job (chat b_id 0) ∷ []) []))
      (nack memory (chat a_id 2) (codes "why") flying_world)
nack-Buried_example =
    nack-Buried memory (chat a_id 2) (codes "why") (job (chat b_id 0) ∷ []) [] flying_world
      (omega arith) (inl refl, (refl, refl))

-- Monday 1970-01-05, nine o'clock.
abbrev monday : Time
monday = 4 * day_ns + 9 * hour_ns

abbrev mornings : Selector
mornings = record {
  days = false ∷ true ∷ false ∷ true ∷ false ∷ false ∷ false ∷ [];
  bucket = codes "morning";
}

parse-mornings : Selector.parse (codes " Mon, wed  MORNING") ≡ Selector.ok mornings
unfolding run_parse
parse-mornings = refl

parse_refused :
    (Selector.parse (codes "  ") ≡ Selector.err Selector.empty_selector)
    × (Selector.parse (codes "mon,mon") ≡ Selector.err Selector.duplicate_day)
    × (Selector.parse (codes "mon noon") ≡ Selector.err Selector.unknown_bucket)
    × (Selector.parse (codes "noon") ≡ Selector.err Selector.unknown_day)
    × (Selector.parse (codes "mon tue morning") ≡ Selector.err Selector.invalid_selector)
unfolding run_parse
parse_refused = (refl, refl, refl, refl, refl)

parse-bucket_window_example :
    (start : Time) × (end : Time) × (bucket_window mornings monday ≡ some (start, end))
    × (start < end)
    × (monday < end)
parse-bucket_window_example =
    parse-bucket_window (codes " Mon, wed  MORNING") mornings monday parse-mornings

window_monday :
    bucket_window mornings monday ≡ some (4 * day_ns + 8 * hour_ns, 4 * day_ns + 12 * hour_ns)
unfolding bucket_window window_from Selector.bucket_hours has_day text_eq
window_monday = refl

matches_iff_begun_example :
    (matches mornings (monday + hour_ns) ≡ true) ↔ (4 * day_ns + 8 * hour_ns ≤ monday + hour_ns)
matches_iff_begun_example =
    matches_iff_begun (codes " Mon, wed  MORNING") mornings monday (4 * day_ns + 8 * hour_ns)
      (4 * day_ns + 12 * hour_ns) (monday + hour_ns) parse-mornings window_monday (omega arith)
      (omega arith)

active_buckets-IsActive_example : All (IsActive monday) (active_buckets monday)
active_buckets-IsActive_example = active_buckets-IsActive monday
