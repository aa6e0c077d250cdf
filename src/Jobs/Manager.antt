-- ===== src/Jobs/Manager.antt =====
-- manager.go: the queue and its sequential worker, over the service behind the Valkey client. The
-- methods are actions on a `World`; the parts of runOne before and after the executor are two
-- actions, since other methods run in between. Each method reads the clock once.
pub mod Worker
pub mod Finish
pub mod Retry
pub mod Acquire
pub mod Rules
pub mod Control
use virtualme.Prelude.{
  ℕ, zero, suc, ◌+◌, ◌-◌, ◌*◌, Bool, true, false, ◌&&◌, ◌||◌, not, Option, none, some, List, [],
  ◌∷◌, ◌++◌, ltb, leb, ◌==◌, if◌then◌else◌, length, take,
}
use mathlib.Core.List.{reverse}
use virtualme.Text.{Text, codes, text_eq}
use virtualme.Clock.{Time, unix_milli, minute_ns}
use virtualme.Jobs.Selector.{parse, bucket_window}
use virtualme.Jobs.Selector
use virtualme.Jobs.Envelope.{
  Outcome, Envelope, Item, job, junk, decode, is_empty, normalize, normalize_legacy, scheduled,
  interactive,
}
use virtualme.Jobs.Store.{
  Key, ready_interactive, ready_scheduled, inflight, inflight_since, done, dead, scheduler_paused,
  Value, number, text, Command, rpush, lmove, del, ltrim_last, range_first, range_last, range_all,
  llen, lrem, get, set, Reply, status, count, element, elements, string, Service,
}
use virtualme.Jobs.Exec.{
  Error, unavailable, wrong_reply, undecodable, Result, ok, err, Exec, pure, fail, gets, attempt,
  modify, ◌>>=◌, ◌>>◌,
}

-- The frame that broadcastState sends. The shortening of payloads by `lite` is not modelled.
pub record Frame : Type 0 where
  pub upcoming : List Envelope
  pub current : Option Envelope
  pub finished : List Envelope

-- The job that an executor runs: runOne's own envelope, the copy of it that other methods read and
-- normalise, and the cause that its cancel function sets, once.
pub record Running : Type 0 where
  pub own : Envelope
  pub env : Envelope
  pub cause : Option Text

-- readyKey
unfoldable pub ready_key : Text → Key
ready_key priority = if text_eq priority scheduled then ready_scheduled else ready_interactive

-- The loops over the items of a list that drop what does not decode.
unfoldable pub decode_all : List Item → List Envelope
unfolding decode
decode_all [] = []
decode_all (x ∷ xs) = elim (decode x) [ some env ↦ env ∷ decode_all xs | none ↦ decode_all xs ]

forget : Result ℕ → Result Unit
forget (ok n) = ok tt
forget (err e) = err e

-- The envelope that nack writes.
unfoldable pub failed_once : Envelope → Text → Envelope
failed_once env reason = record env {
  attempts = env.attempts + 1;
  last_error = reason;
  result = none;
}

module _ (service : Service) where
  pub record World : Type 0 where
    pub db : service.Db
    pub now : Time
    pub running : Option Running
    pub registered : List Text
    pub sent : List Frame

  abbrev pub M : Type 0 → Type 0
  M A = Exec (World) A

  reply_or_fail : Option Reply → Result Reply
  reply_or_fail none = err unavailable
  reply_or_fail (some r) = ok r

  -- One call of the client.
  unfoldable pub exec : Command → M Reply
  unfolding reply_or_fail
  exec c w = let (r, d) = service.call c w.db in (reply_or_fail r, record w { db = d })

  want_elements : Reply → M (List Item)
  want_elements (elements xs) = pure xs
  want_elements _ = fail wrong_reply

  want_element : Reply → M (Option Item)
  want_element (element x) = pure x
  want_element _ = fail wrong_reply

  want_count : Reply → M ℕ
  want_count (count n) = pure n
  want_count _ = fail wrong_reply

  want_string : Reply → M (Option Value)
  want_string (string s) = pure s
  want_string _ = fail wrong_reply

  unfoldable pub call_elements : Command → M (List Item)
  unfolding want_elements
  call_elements c = do r ← exec c; want_elements r

  unfoldable pub call_element : Command → M (Option Item)
  unfolding want_element
  call_element c = do r ← exec c; want_element r

  unfoldable pub call_count : Command → M ℕ
  unfolding want_count
  call_count c = do r ← exec c; want_count r

  unfoldable pub call_string : Command → M (Option Value)
  unfolding want_string
  call_string c = do r ← exec c; want_string r

  current_env : Option Running → Option Envelope
  current_env none = none
  current_env (some r) = some r.env

  -- StateMessage: a list that cannot be read counts as empty.
  unfoldable pub state_message : M Frame
  unfolding current_env
  state_message = do
    first ← attempt [] (call_elements (range_first ready_interactive 20))
    second ← attempt [] (call_elements (range_first ready_scheduled 20))
    current ← gets (λ w. current_env w.running)
    last ← attempt [] (call_elements (range_last done 20))
    pure (record {
      upcoming = take 20 (decode_all first ++ decode_all second);
      current = current;
      finished = decode_all (reverse last);
    })

  -- broadcastState
  unfoldable pub broadcast_state : M Unit
  broadcast_state = do frame ← state_message; modify (λ w. record w { sent = w.sent ++ frame ∷ [] })

  now_ms : M ℕ
  now_ms = gets (λ w. unix_milli w.now)

  -- The number that `running` counts for.
  running_count : Option Running → ℕ
  running_count none = 0
  running_count (some r) = 1

  -- Manager.depth
  unfoldable pub depth : M ℕ
  unfolding running_count
  depth = do
    first ← call_count (llen ready_interactive)
    second ← call_count (llen ready_scheduled)
    one ← gets (λ w. running_count w.running)
    pure (first + second + one)

  -- Manager.Enqueue, with the identifier that NewID would draw.
  unfoldable pub enqueue : Text → Envelope → M ℕ
  unfolding now_ms
  enqueue new_id raw = do
    now ← now_ms
    let env = normalize new_id now raw
    ahead ← depth
    call_count (rpush (ready_key env.priority) (job env))
    broadcast_state
    pure ahead

  -- appendFinished
  unfoldable pub append_finished : Envelope → Bool → Text → M Unit
  unfolding now_ms
  append_finished env fine summary = do
    now ← now_ms
    call_count (
        rpush done (
          job (record env {
            result = some (record { ok = fine; summary = summary; finished_ts = now });
          })))
    exec (ltrim_last done 200)
    pure tt

  -- The deferred error of the last DEL: broadcastState runs between the call and the return.
  unfoldable pub release_inflight : M Unit
  unfolding forget
  release_inflight w =
      let (r, w') = call_count (del inflight inflight_since) w in (forget r, (broadcast_state w').1)

  -- Manager.ack
  unfoldable pub ack : Envelope → Bool → Text → M Unit
  ack env fine summary = do append_finished env fine summary; release_inflight

  unfoldable pub bury : Envelope → Text → M Unit
  bury env reason = do
    call_count (rpush dead (job env))
    exec (ltrim_last dead 100)
    append_finished env false reason

  unfoldable pub retry : Envelope → M Unit
  retry env = do call_count (rpush (ready_key env.priority) (job env)); pure tt

  -- Manager.nack
  unfoldable pub nack : Envelope → Text → M Unit
  nack env reason = do
    let env' = failed_once env reason
    if ltb env'.max_retries env'.attempts then bury env' reason else retry env'
    release_inflight
