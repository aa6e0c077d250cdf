-- ===== src/Jobs/Manager/Retry.antt =====
-- What nack of manager.go leaves behind: a retry behind the queue, or a dead letter.
use virtualme.Prelude.{
  ◌+◌, ◌≤◌, ◌<◌, ◌≡◌, refl, ap, ◌⊎◌, inl, inr, true, false, List, [], ◌∷◌, ◌++◌, arith, ltb,
  if◌then◌else◌, length, EndsWith, take_last-EndsWith, length-take_last, EndsWith-Any,
  Any-append_right, subst, sym, Bool,
}
use virtualme.Text.{Text, text_eq}
use virtualme.Jobs.Envelope.{Envelope, Item, job, scheduled}
use virtualme.Jobs.Store.{
  ready_interactive, ready_scheduled, inflight, inflight_since, done, dead, rpush, ltrim_last, del,
  View, apply, Service,
}
use virtualme.Jobs.Exec.{Post, Runs, Runs-bind}
use virtualme.Jobs.Manager.{World, ready_key, failed_once, bury, retry, nack}
use virtualme.Jobs.Manager.Rules.{Seen, exec-Runs, call_count-Runs, pure-Runs}
use virtualme.Jobs.Manager.Finish.{
  IsJob, HasJob, Held, Finished, RecordedLast, append_finished-Runs, release_inflight-Runs, Waiting,
  Released, InFlight, NotLost,
}

module _ (service : Service) (env : Envelope) (reason : Text) (first second : List Item) where
  -- The job in its last state, which ends the dead letters, and its record.
  abbrev pub Dead : View → Type 0
  Dead v = EndsWith (job (failed_once env reason)) (v.lists dead) × (length (v.lists dead) ≤ 100)

  abbrev pub Buried : View → Type 0
  Buried v =
      Released v
      × Waiting first second v
      × Dead v
      × Finished (failed_once env reason) false reason (v.lists done)
      × (length (v.lists done) ≤ 200)

  abbrev pub Flying : View → Type 0
  Flying = InFlight service env false reason first second

  abbrev pub Safe : View → Type 0
  Safe = NotLost service env false reason first second

  abbrev FlyingDead : View → Type 0
  FlyingDead v = Flying v × Dead v

  bury-Runs :
      Runs
        (Seen service Flying)
        (bury service (failed_once env reason) reason)
        (λ a. Seen service (RecordedLast service (failed_once env reason) false reason FlyingDead))
        (Seen service Safe)
  unfolding bury apply
  bury-Runs =
      Runs-bind
        (λ n. Seen service (λ v. Flying v × EndsWith (job (failed_once env reason)) (v.lists dead)))
        _ _
        (call_count-Runs service (rpush dead (job (failed_once env reason))) Flying
          (λ v. Flying v × EndsWith (job (failed_once env reason)) (v.lists dead)) Safe
          λ v p. ((p, (v.lists dead, refl)), (inl p.0, p.1), (inl p.0, p.1)))
        λ n.
          Runs-bind (λ r. Seen service FlyingDead) _ _
            (exec-Runs service (ltrim_last dead 100)
              (λ v. Flying v × EndsWith (job (failed_once env reason)) (v.lists dead)) FlyingDead
              Safe
              λ v p. (
                (
                  p.0,
                  (
                    take_last-EndsWith 100 _ (v.lists dead) p.1 (omega arith),
                    length-take_last 100 (v.lists dead),
                  ),
                ),
                (inl p.0.0, p.0.1),
                (inl p.0.0, p.0.1),
              ))
            λ r.
              append_finished-Runs service (failed_once env reason) false reason FlyingDead Safe
                (λ v l p. p) (λ v p. (inl p.0.0, p.0.1))

  -- The ready lists with the job behind the one of its priority.
  abbrev pub Queued : View → Type 0
  Queued v =
      if text_eq env.priority scheduled
      then Waiting first (second ++ job (failed_once env reason) ∷ []) v
      else Waiting (first ++ job (failed_once env reason) ∷ []) second v

  abbrev pub Retried : View → Type 0
  Retried v = Released v × Queued v

  abbrev FlyingQueued : View → Type 0
  FlyingQueued v = HasJob env.id (v.lists inflight) × Queued v

  -- An error leaves the job in flight or queued, and every waiting job where it was.
  abbrev pub Unsettled : View → Type 0
  Unsettled v = Held env.id v × (Waiting first second v ⊎ Queued v)

  -- The queue behind RPUSH, by the test of the priority.
  push_ready :
      (is_scheduled : Bool) (v : View)
      → Flying v
      → let key = if is_scheduled then ready_scheduled else ready_interactive in
        let x = job (failed_once env reason) in
        HasJob env.id ((apply (rpush key x) v).lists inflight)
        × (if is_scheduled
            then Waiting first (second ++ x ∷ []) (apply (rpush key x) v)
            else Waiting (first ++ x ∷ []) second (apply (rpush key x) v))
  unfolding apply
  push_ready true v p = (p.0, (p.1.0, ap (λ l. l ++ job (failed_once env reason) ∷ []) p.1.1))
  push_ready false v p = (p.0, (ap (λ l. l ++ job (failed_once env reason) ∷ []) p.1.0, p.1.1))

  rpush-FlyingQueued :
      (v : View)
      → Flying v
      → FlyingQueued (apply (rpush (ready_key env.priority) (job (failed_once env reason))) v)
  unfolding ready_key
  rpush-FlyingQueued v p = push_ready (text_eq env.priority scheduled) v p

  last-HasJob : (l l' : List Item) → l' ≡ l ++ job (failed_once env reason) ∷ [] → HasJob env.id l'
  unfolding failed_once
  last-HasJob l l' e =
      subst (HasJob env.id) (sym e) (Any-append_right (IsJob env.id) l _ (inl refl))

  queued-Held :
      (is_scheduled : Bool) (v : View)
      → (if is_scheduled
          then Waiting first (second ++ job (failed_once env reason) ∷ []) v
          else Waiting (first ++ job (failed_once env reason) ∷ []) second v)
      → Held env.id v
  queued-Held true v w = inr (inr (inl (last-HasJob second _ w.1)))
  queued-Held false v w = inr (inl (last-HasJob first _ w.0))

  retry-Runs :
      Runs
        (Seen service Flying)
        (retry service (failed_once env reason))
        (λ a. Seen service FlyingQueued)
        (Seen service Unsettled)
  unfolding retry failed_once
  retry-Runs =
      Runs-bind (λ n. Seen service FlyingQueued) _ _
        (call_count-Runs service (rpush (ready_key env.priority) (job (failed_once env reason)))
          Flying FlyingQueued Unsettled
          λ v p. let q = rpush-FlyingQueued v p in (q, (inl q.0, inr q.1), (inl p.0, inl p.1)))
        λ n. pure-Runs service tt FlyingQueued Unsettled

  release_queued : (v : View) → FlyingQueued v → Retried (apply (del inflight inflight_since) v)
  unfolding apply
  release_queued v q = ((refl, refl), released (text_eq env.priority scheduled) q.1)
    where
      released :
          (b : Bool)
          → (if b
              then Waiting first (second ++ job (failed_once env reason) ∷ []) v
              else Waiting (first ++ job (failed_once env reason) ∷ []) second v)
          → (if b
              then Waiting first
                  (second ++ job (failed_once env reason) ∷ [])
                  (apply (del inflight inflight_since) v)
              else Waiting
                  (first ++ job (failed_once env reason) ∷ [])
                  second
                  (apply (del inflight inflight_since) v))
      released true h = h
      released false h = h

  nack_retry-Runs :
      env.attempts + 1 ≤ env.max_retries
      → Runs
          (Seen service Flying)
          (nack service env reason)
          (λ a. Seen service Retried)
          (Seen service Unsettled)
  unfolding nack
  nack_retry-Runs le =
      let test : ltb env.max_retries (env.attempts + 1) ≡ false = ground arith in
      Runs-bind (λ n. Seen service FlyingQueued) _ _ (unfold failed_once in rw test retry-Runs)
        λ n. release_inflight-Runs service FlyingQueued Retried Unsettled λ v q.
          let r = release_queued v q in
          (
            r,
            (
              queued-Held (text_eq env.priority scheduled) (apply (del inflight inflight_since) v)
                  r.1,
              inr r.1,
            ),
            (inl q.0, inr q.1),
          )

  nack_bury-Runs :
      env.max_retries < env.attempts + 1
      → Runs
          (Seen service Flying)
          (nack service env reason)
          (λ a. Seen service Buried)
          (Seen service Safe)
  unfolding nack apply
  nack_bury-Runs lt =
      let test : ltb env.max_retries (env.attempts + 1) ≡ true = ground arith in
      let recorded = RecordedLast service (failed_once env reason) false reason FlyingDead in
      Runs-bind (λ n. Seen service recorded) _ _ (unfold failed_once in rw test bury-Runs)
        λ n. release_inflight-Runs service recorded Buried Safe λ v p. (
          ((refl, refl), p.0.0.1, p.0.1, p.1, p.2),
          (inr (inr (inr (inl (last_dead v p.0.1)))), p.0.0.1),
          (inl p.0.0.0, p.0.0.1),
        )
    where
      last_dead : (v : View) → Dead v → HasJob env.id (v.lists dead)
      last_dead v d =
          EndsWith-Any (IsJob env.id) (job (failed_once env reason)) (v.lists dead)
            (unfold failed_once in refl) d.0

  -- A job in flight fails with a retry left, whatever calls to the service fail. If nack succeeds,
  -- nothing is in flight, and the job stands behind the ready list of its priority with one more
  -- attempt and the reason; the other ready list is as before. If nack fails, the job is still in
  -- one of the lists, and the ready lists are as before or hold the job behind them.
  pub nack-Retried :
      (w : World service)
      → env.attempts + 1 ≤ env.max_retries
      → Seen service Flying w
      → Post (λ a. Seen service Retried) (Seen service Unsettled) (nack service env reason w)
  nack-Retried w le h = (nack_retry-Runs le).at w h

  -- A job in flight fails with no retry left, whatever calls to the service fail. If nack succeeds,
  -- nothing is in flight, the job with one more attempt and the reason ends the dead letters, which
  -- are at most 100, its record as a failure ends the list of finished jobs, which has at most 200
  -- elements, and the ready lists are as before. If nack fails, the job is still in one of the
  -- lists, and the ready lists are as before.
  pub nack-Buried :
      (w : World service)
      → env.max_retries < env.attempts + 1
      → Seen service Flying w
      → Post (λ a. Seen service Buried) (Seen service Safe) (nack service env reason w)
  nack-Buried w lt h = (nack_bury-Runs lt).at w h
