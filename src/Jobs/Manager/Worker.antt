-- ===== src/Jobs/Manager/Worker.antt =====
-- manager.go: acquire, runOne before and after the executor, recoverInflight and sweep.
use virtualme.Prelude.{
  ℕ, ◌+◌, ◌*◌, Bool, true, false, Option, none, some, List, [], ◌∷◌, ◌++◌, ltb, ◌||◌, if◌then◌else◌,
}
use virtualme.Text.{Text, codes, text_eq}
use virtualme.Jobs.Envelope.{Envelope, Item, job, junk}
use virtualme.Jobs.Store.{
  Key, ready_interactive, ready_scheduled, inflight, inflight_since, Value, number, rpush, lmove,
  del, range_first, get, set, Service,
}
use virtualme.Jobs.Exec.{undecodable, pure, fail, gets, attempt, modify, ◌>>=◌, ◌>>◌}
use virtualme.Jobs.Manager.{
  M, Running, ready_key, exec, call_element, call_elements, call_count, call_string, now_ms,
  broadcast_state, ack, nack,
}

-- What an executor returns: a summary, or an error's text.
pub data Returned : Type 0 where
  summary : Text → Returned
  failed : Text → Returned

-- Whether an executor is registered for the type.
unfoldable pub member : Text → List Text → Bool
member w [] = false
member w (v ∷ vs) = text_eq v w || member w vs

started : Envelope → Running
started env = record { own = env; env = env; cause = none }

module _ (service : Service) where
  -- An element of the in-flight list that does not decode is dropped with it.
  unfoldable pub discard : {A : Type 0} → M service A
  discard = do attempt 0 (call_count service (del inflight inflight_since)); fail undecodable

  -- A job whose time has not come goes back to the end of its ready list.
  unfoldable pub postpone : Item → Envelope → M service Unit
  postpone x env = do
    call_count service (rpush (ready_key env.priority) x)
    attempt 0 (call_count service (del inflight inflight_since))
    broadcast_state service

  unfoldable pub hand_out :
      Item → Envelope → M service (Option Envelope) → M service (Option Envelope)
  unfolding now_ms postpone
  hand_out x env next = do
    now ← now_ms service
    exec service (set inflight_since (number now))
    if ltb now env.not_before_ts
        then (do postpone x env; next)
        else (do broadcast_state service; pure (some env))

  unfoldable pub examine : Option Item → M service (Option Envelope) → M service (Option Envelope)
  unfolding hand_out discard
  examine none next = next
  examine (some (job env)) next = hand_out (job env) env next
  examine (some (junk t)) next = discard

  -- One round of the loop in acquire; `next` is the rest of it.
  unfoldable pub take_from : Key → M service (Option Envelope) → M service (Option Envelope)
  unfolding examine
  take_from key next = do raw ← call_element service (lmove key inflight); examine raw next

  -- Manager.acquire
  unfoldable pub acquire : M service (Option Envelope)
  unfolding take_from
  acquire = take_from ready_interactive (take_from ready_scheduled (pure none))

  -- The part of runOne before the executor is called.
  unfoldable pub begin_run : Envelope → M service Unit
  unfolding now_ms started
  begin_run env = do
    now ← now_ms service
    modify (λ w. record w { running = some (started (record env { started_ts = now })) })
    broadcast_state service

  -- The executor's result, or the error of a type with no executor. The type is quoted as it is:
  -- the escapes of %q are not modelled.
  verdict : List Text → Envelope → Returned → Returned
  verdict registered env r =
      if member env.type registered
      then r
      else failed (codes "unknown job type \"" ++ env.type ++ codes "\"")

  settle : Envelope → Option Text → Returned → M service Unit
  settle env (some cause) r = ack service env false (codes "cancelled: " ++ cause)
  settle env none (failed reason) = nack service env reason
  settle env none (summary text) = ack service env true text

  finish : Option Running → Returned → M service Unit
  finish none r = pure tt
  finish (some run) r = do
    registered ← gets (λ w. w.registered)
    modify (λ w. record w { running = none })
    attempt tt (settle run.own run.cause (verdict registered run.own r))

  -- The part of runOne after the executor: an error of ack or nack is only logged.
  unfoldable pub end_run : Returned → M service Unit
  unfolding finish settle verdict
  end_run r = do run ← gets (λ w. w.running); finish run r

  -- Manager.recoverInflight; the items are at most one.
  recover_item : List Item → M service Unit
  unfolding discard
  recover_item [] = pure tt
  recover_item (job env ∷ xs) = nack service env (codes "visibility timeout")
  recover_item (junk t ∷ xs) = discard

  unfoldable pub recover_inflight : M service Unit
  unfolding recover_item
  recover_inflight = do items ← call_elements service (range_first inflight 1); recover_item items

  -- The test of sweep: the job in flight has outlived its visibility timeout.
  unfoldable pub is_overdue : ℕ → Option Value → Envelope → Bool
  is_overdue now (some (number since)) env = ltb (since + env.visibility_timeout_sec * 1000) now
  is_overdue now _ env = false

  sweep_item : List Item → Option Value → M service Unit
  unfolding is_overdue now_ms
  sweep_item [] since = pure tt
  sweep_item (junk t ∷ xs) since = pure tt
  sweep_item (job env ∷ xs) since = do
    now ← now_ms service
    if is_overdue now since env
        then attempt tt (nack service env (codes "visibility timeout"))
        else pure tt

  -- Manager.sweep: it returns at once while a job runs, and its errors end it.
  unfoldable pub sweep : M service Unit
  unfolding sweep_item
  sweep = do
    run ← gets (λ w. w.running)
    elim run [
      | some r ↦ pure tt
      | none ↦ attempt tt (do
        items ← call_elements service (range_first inflight 1)
        since ← call_string service (get inflight_since)
        sweep_item items since)
    ]
