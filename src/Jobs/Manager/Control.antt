-- ===== src/Jobs/Manager/Control.antt =====
-- manager.go: the pause flag, the scheduler, cancellation and the removal of queued jobs.
use virtualme.Prelude.{
  ◌+◌, ◌*◌, Bool, true, false, ◌&&◌, ◌||◌, Option, none, some, List, [], ◌∷◌, leb, ◌==◌,
  if◌then◌else◌,
}
use virtualme.Text.{Text, codes, text_eq}
use virtualme.Clock.{Time, unix_milli, minute_ns}
use virtualme.Jobs.Selector
use virtualme.Jobs.Envelope.{Envelope, Item, job, junk, normalize_legacy, scheduled}
use virtualme.Jobs.Store.{
  Key, ready_interactive, ready_scheduled, scheduler_paused, Value, number, text, range_all, lrem,
  get, set, Service,
}
use virtualme.Jobs.Exec.{ok, pure, gets, attempt, modify, ◌>>=◌, ◌>>◌}
use virtualme.Jobs.Manager.{
  M, Running, exec, call_elements, call_count, call_string, broadcast_state, enqueue,
}

-- The sum of the tests by which a connection owns a job.
unfoldable pub owned_by : Text → Envelope → Bool
owned_by conn env = env.initiator.cancel_on_disconnect && text_eq env.initiator.connection_id conn

-- The cancel function of a context: only its first cause counts.
unfoldable pub cancel : Text → Running → Running
cancel reason r = elim r.cause [ some c ↦ r | none ↦ record r { cause = some reason } ]

-- The envelope of a queued job, as the loops that drop jobs read it.
unfoldable pub is_owned_item : Text → Item → Bool
unfolding owned_by
is_owned_item conn (job env) = owned_by conn (normalize_legacy env)
is_owned_item conn (junk t) = false

unfoldable pub is_owned_item_of : Text → Text → Item → Bool
unfolding owned_by
is_owned_item_of conn type (job env) = owned_by conn (normalize_legacy env) && text_eq env.type type
is_owned_item_of conn type (junk t) = false

-- The running job after a method that may cancel it, and whether it did.
unfoldable pub cancel_when : (Running → Bool) → Text → Option Running → Option Running × Bool
cancel_when test reason none = (none, false)
cancel_when test reason (some r) =
    if test r then (some (cancel reason r), true) else (some r, false)

-- DropConnection and CancelRunningConnection normalise the running job's envelope in place.
unfoldable pub normalize_running : Running → Running
normalize_running r = record r { env = normalize_legacy r.env }

unfoldable pub cancel_owned : Text → Text → Running → Running × Bool
unfolding normalize_running owned_by cancel
cancel_owned conn reason r =
    let n = normalize_running r in
    if owned_by conn n.env then (cancel reason n, true) else (n, false)

running_after : Running × Bool → Option Running × Bool
running_after (r, done) = (some r, done)

-- The part of CancelRunningConnection behind the test for no running job.
cancel_connection : Text → Text → Text → Option Running → Option Running × Bool
unfolding running_after cancel_owned
cancel_connection conn type reason none = (none, false)
cancel_connection conn type reason (some r) =
    if text_eq r.env.type type then running_after (cancel_owned conn reason r) else (some r, false)

drop_running : Text → Option Running → Option Running
unfolding cancel_owned
drop_running conn none = none
drop_running conn (some r) = some (cancel_owned conn (codes "initiator disconnected") r).0

-- NotBeforeTs of a scheduled job, in milliseconds.
unfoldable pub spread : (Time → Time → Time) → Time → Envelope → Envelope
spread pick now env = elim (Selector.parse env.selector) [
  | Selector.err e ↦ env
  | Selector.ok s ↦ elim (Selector.bucket_window s now) [
    | none ↦ record env { not_before_ts = unix_milli now }
    | some (start, end) ↦
        if leb (now + 5 * minute_ns) end
        then record env { not_before_ts = unix_milli (pick now end) }
        else record env { not_before_ts = unix_milli now }
  ]
]

module _ (service : Service) where
  is_one : Option Value → Bool
  is_one none = false
  is_one (some (number n)) = n == 1
  is_one (some (text t)) = text_eq t (codes "1")

  -- Manager.SchedulerPaused: a failed read counts as running.
  unfoldable pub is_paused : M service Bool
  unfolding is_one
  is_paused = do
    value ← attempt none (call_string service (get scheduler_paused))
    pure (is_one value)

  -- Manager.SetSchedulerPaused; its broadcast is of another frame.
  unfoldable pub set_paused : Bool → M service Unit
  set_paused paused = do
    exec service (set scheduler_paused (number (if paused then 1 else 0)))
    pure tt

  -- The loop of schedule over the envelopes of its sources: an error is only logged.
  enqueue_scheduled : (Time → Time → Time) → Time → List (Text × Envelope) → M service Unit
  enqueue_scheduled pick now [] = pure tt
  enqueue_scheduled pick now ((new_id, env) ∷ envs) = do
    attempt 0 (enqueue service new_id (spread pick now (record env { priority = scheduled })))
    enqueue_scheduled pick now envs

  -- Manager.schedule, over what its sources provide, each with an identifier that NewID would draw.
  unfoldable pub schedule : (Time → Time → Time) → (Time → List (Text × Envelope)) → M service Unit
  unfolding enqueue_scheduled
  schedule pick provide = do
    paused ← is_paused
    now ← gets (λ w. w.now)
    if paused then pure tt else enqueue_scheduled pick now (provide now)

  -- A cancellation that `test` allows; the result is whether there was one.
  unfoldable pub cancel_running_when : (Running → Bool) → Text → M service Bool
  cancel_running_when test reason w =
      let (r, done) = cancel_when test reason w.running in (ok done, record w { running = r })

  -- Manager.CancelRunning
  unfoldable pub cancel_running : Text → M service Bool
  cancel_running reason = cancel_running_when (λ r. true) reason

  -- Manager.CancelRunningType
  unfoldable pub cancel_running_type : Text → Text → M service Bool
  cancel_running_type type reason = cancel_running_when (λ r. text_eq r.env.type type) reason

  -- Manager.CancelRunningConnection
  unfoldable pub cancel_running_connection : Text → Text → Text → M service Bool
  unfolding cancel_connection
  cancel_running_connection conn type reason w =
      let (r, done) = cancel_connection conn type reason w.running in
      (ok done, record w { running = r })

  -- LREM of each item of a list that `test` picks; errors are ignored.
  remove_items : (Item → Bool) → Key → List Item → M service Unit
  remove_items test key [] = pure tt
  remove_items test key (x ∷ xs) = do
    if test x then attempt 0 (call_count service (lrem key x)) else pure 0
    remove_items test key xs

  remove_where : (Item → Bool) → Key → M service Unit
  unfolding remove_items
  remove_where test key = do
    items ← attempt [] (call_elements service (range_all key))
    remove_items test key items

  -- Manager.DropConnection
  unfoldable pub drop_connection : Text → M service Unit
  unfolding remove_where drop_running
  drop_connection conn = do
    modify (λ w. record w { running = drop_running conn w.running })
    remove_where (is_owned_item conn) ready_interactive
    remove_where (is_owned_item conn) ready_scheduled
    broadcast_state service

  -- Manager.DropQueued
  unfoldable pub drop_queued : Text → Text → M service Unit
  unfolding remove_where
  drop_queued conn type = do
    remove_where (is_owned_item_of conn type) ready_interactive
    remove_where (is_owned_item_of conn type) ready_scheduled
    broadcast_state service

  is_chat : Item → Bool
  is_chat (job env) = text_eq env.type (codes "chat")
  is_chat (junk t) = false

  any_chat : List Item → Bool
  unfolding is_chat
  any_chat [] = false
  any_chat (x ∷ xs) = is_chat x || any_chat xs

  -- The loop over the ready lists, which returns at the first chat job.
  queued_chat : List Key → M service Text
  unfolding any_chat
  queued_chat [] = pure (codes "idle")
  queued_chat (key ∷ keys) = do
    items ← attempt [] (call_elements service (range_all key))
    if any_chat items then pure (codes "queued") else queued_chat keys

  waiting_chat : M service Text
  unfolding queued_chat
  waiting_chat = queued_chat (ready_interactive ∷ ready_scheduled ∷ [])

  -- Manager.ChatState
  unfoldable pub chat_state : M service Text
  unfolding waiting_chat
  chat_state = do
    run ← gets (λ w. w.running)
    elim run [
      | none ↦ waiting_chat
      | some r ↦ if text_eq r.env.type (codes "chat") then pure (codes "working") else waiting_chat
    ]
