-- ===== src/Jobs/Manager/Acquire.antt =====
-- What acquire of manager.go does to the jobs that wait, whatever calls to the service fail.
use virtualme.Prelude.{
  ◌≡◌, refl, ◌⊎◌, inl, inr, Bool, true, false, Option, none, some, List, [], ◌∷◌, ltb,
  if◌then◌else◌, Any-append_left, Any-append_right,
}
use virtualme.Text.{Text, text_eq}
use virtualme.Jobs.Envelope.{Envelope, Item, job, junk, scheduled}
use virtualme.Jobs.Store.{
  Key, ready_interactive, ready_scheduled, inflight, inflight_since, number, rpush, lmove, del, set,
  Reply, element, View, apply, answer, move_first, first_of_list, Service,
}
use virtualme.Jobs.Exec.{pure, ◌>>◌, Post, Runs, Runs-bind, attempt}
use virtualme.Jobs.Manager.{
  World, M, ready_key, exec, call_count, call_element, want_element, broadcast_state,
}
use virtualme.Jobs.Manager.Worker.{acquire, take_from, examine, hand_out, postpone, discard}
use virtualme.Jobs.Manager.Rules.{
  Seen, exec-Runs, exec_reply-Runs, call_count-Runs, broadcast_state-Runs, gets-Runs, attempt-Runs,
}
use virtualme.Jobs.Manager.Finish.{IsJob, HasJob}

-- The job waits in a ready list.
abbrev pub WaitsFor : Text → View → Type 0
WaitsFor id v = HasJob id (v.lists ready_interactive) ⊎ HasJob id (v.lists ready_scheduled)

-- The element was taken and is in flight, or the job still waits.
abbrev pub Taken : Text → Item → View → Type 0
Taken id x v = (IsJob id x × HasJob id (v.lists inflight)) ⊎ WaitsFor id v

abbrev pub InFlightOrWaits : Text → View → Type 0
InFlightOrWaits id v = HasJob id (v.lists inflight) ⊎ WaitsFor id v

abbrev TakenFrom : Text → Option Item → View → Type 0
TakenFrom id none v = WaitsFor id v
TakenFrom id (some x) v = Taken id x v

-- What acquire returns: nothing, and the job waits on; or an envelope.
abbrev pub Acquired : Text → Option Envelope → View → Type 0
Acquired id none v = WaitsFor id v
Acquired id (some env) v = Taken id (job env) v

-- A ready list, as LMOVE splits it.
data IsReady : Key → Type 0 where
  interactive_list : IsReady ready_interactive
  scheduled_list : IsReady ready_scheduled

module _ (id : Text) where
  weaken-Taken : (x : Item) (v : View) → Taken id x v → InFlightOrWaits id v
  weaken-Taken x v (inl h) = inl h.1
  weaken-Taken x v (inr h) = inr h

  weaken-TakenFrom : (o : Option Item) (v : View) → TakenFrom id o v → InFlightOrWaits id v
  weaken-TakenFrom none v h = inr h
  weaken-TakenFrom (some x) v h = weaken-Taken x v h

  move_interactive :
      (xs : List Item) (v : View)
      → HasJob id xs ⊎ HasJob id (v.lists ready_scheduled)
      → xs ≡ v.lists ready_interactive
      → TakenFrom id (first_of_list xs) (move_first xs ready_interactive inflight v)
  unfolding first_of_list move_first
  move_interactive [] v (inl h) e = absurd h
  move_interactive [] v (inr h) e = inr h
  move_interactive (x ∷ xs) v (inl (inl h)) e = inl (h, inl h)
  move_interactive (x ∷ xs) v (inl (inr h)) e = inr (inl h)
  move_interactive (x ∷ xs) v (inr h) e = inr (inr h)

  move_scheduled :
      (xs : List Item) (v : View)
      → HasJob id (v.lists ready_interactive) ⊎ HasJob id xs
      → xs ≡ v.lists ready_scheduled
      → TakenFrom id (first_of_list xs) (move_first xs ready_scheduled inflight v)
  unfolding first_of_list move_first
  move_scheduled [] v (inr h) e = absurd h
  move_scheduled [] v (inl h) e = inl h
  move_scheduled (x ∷ xs) v (inr (inl h)) e = inl (h, inl h)
  move_scheduled (x ∷ xs) v (inr (inr h)) e = inr (inr h)
  move_scheduled (x ∷ xs) v (inl h) e = inr (inl h)

  lmove-TakenFrom :
      (key : Key) (v : View)
      → IsReady key
      → WaitsFor id v
      → TakenFrom id (first_of_list (v.lists key)) (apply (lmove key inflight) v)
  unfolding apply
  lmove-TakenFrom key v interactive_list h = move_interactive (v.lists ready_interactive) v h refl
  lmove-TakenFrom key v scheduled_list h = move_scheduled (v.lists ready_scheduled) v h refl

  -- RPUSH onto a ready list keeps what waits, and what it appends waits.
  rpush-WaitsFor :
      (is_scheduled : Bool) (x : Item) (v : View)
      → Taken id x v
      → WaitsFor id
          (apply (rpush (if is_scheduled then ready_scheduled else ready_interactive) x) v)
  unfolding apply
  rpush-WaitsFor true x v (inl (h, f)) =
      inr (Any-append_right (IsJob id) (v.lists ready_scheduled) _ (inl h))
  rpush-WaitsFor true x v (inr (inl h)) = inl h
  rpush-WaitsFor true x v (inr (inr h)) =
      inr (Any-append_left (IsJob id) (v.lists ready_scheduled) _ h)
  rpush-WaitsFor false x v (inl (h, f)) =
      inl (Any-append_right (IsJob id) (v.lists ready_interactive) _ (inl h))
  rpush-WaitsFor false x v (inr (inr h)) = inr h
  rpush-WaitsFor false x v (inr (inl h)) =
      inl (Any-append_left (IsJob id) (v.lists ready_interactive) _ h)

  AsElement : Reply → View → Type 0
  AsElement (element o) = TakenFrom id o
  AsElement _ = InFlightOrWaits id

  del-WaitsFor : (v : View) → WaitsFor id v → WaitsFor id (apply (del inflight inflight_since) v)
  unfolding apply
  del-WaitsFor v h = h

module _ (service : Service) (id : Text) where
  abbrev Fails : World service → Type 0
  Fails = Seen service (InFlightOrWaits id)

  want-Post :
      (r : Reply) (w : World service)
      → Seen service (AsElement id r) w
      → Post (λ o. Seen service (TakenFrom id o)) Fails (want_element service r w)
  unfolding want_element AsElement
  want-Post (element o) w h = h
  want-Post _ w h = h

  lmove-Runs :
      (key : Key)
      → IsReady key
      → Runs
          (Seen service (WaitsFor id))
          (call_element service (lmove key inflight))
          (λ o. Seen service (TakenFrom id o))
          Fails
  unfolding call_element answer AsElement
  lmove-Runs key ready =
      Runs-bind (λ r. Seen service (AsElement id r)) (exec service (lmove key inflight))
        (want_element service)
        (exec_reply-Runs service (lmove key inflight) (WaitsFor id) (AsElement id)
          (InFlightOrWaits id)
          λ v p.
            let t = lmove-TakenFrom id key v ready p in
            (
              t,
              weaken-TakenFrom id (first_of_list (v.lists key)) (apply (lmove key inflight) v) t,
              inr p,
            ))
        λ r. record { at = λ w h. want-Post r w h }

  release-Runs :
      Runs
        (Seen service (WaitsFor id))
        (attempt 0 (call_count service (del inflight inflight_since)))
        (λ n. Seen service (WaitsFor id))
        Fails
  release-Runs =
      attempt-Runs service 0 (call_count service (del inflight inflight_since)) (WaitsFor id)
        (WaitsFor id) (InFlightOrWaits id)
        (call_count-Runs service (del inflight inflight_since) (WaitsFor id) (WaitsFor id)
          (WaitsFor id) λ v p. (del-WaitsFor id v p, del-WaitsFor id v p, p))

  discard-Runs :
      (t : Text) (Q : Option Envelope → View → Type 0)
      → Runs (Seen service (Taken id (junk t))) (discard service) (λ o. Seen service (Q o)) Fails
  unfolding discard
  discard-Runs t Q = record { at = λ w h. run.at w (only (service.view w.db) h) }
    where
      only : (v : View) → Taken id (junk t) v → WaitsFor id v
      only v (inl h) = absurd h.0
      only v (inr h) = h

      run : Runs (Seen service (WaitsFor id)) (discard service) (λ o. Seen service (Q o)) Fails
      run =
          Runs-bind (λ n. Seen service (WaitsFor id)) _ _ release-Runs
            λ n. record { at = λ w h. inr h }

  postpone-Runs :
      (x : Item) (env : Envelope)
      → Runs
          (Seen service (Taken id x))
          (postpone service x env)
          (λ u. Seen service (WaitsFor id))
          Fails
  unfolding postpone ready_key
  postpone-Runs x env =
      Runs-bind (λ n. Seen service (WaitsFor id)) _ _
        (call_count-Runs service (rpush (ready_key env.priority) x) (Taken id x) (WaitsFor id)
          (InFlightOrWaits id)
          λ v p.
            let q = rpush-WaitsFor id (text_eq env.priority scheduled) x v p in
            (q, inr q, weaken-Taken id x v p))
        λ n.
          Runs-bind (λ m. Seen service (WaitsFor id)) _ _ release-Runs
            λ m. broadcast_state-Runs service (WaitsFor id) (InFlightOrWaits id)

  -- The rest of acquire behind a round.
  abbrev Next : M service (Option Envelope) → Type 0
  Next next = Runs (Seen service (WaitsFor id)) next (λ o. Seen service (Acquired id o)) Fails

  decide-Runs :
      (early : Bool) (env : Envelope) (next : M service (Option Envelope))
      → Next next
      → Runs
          (Seen service (Taken id (job env)))
          (if early
            then (do postpone service (job env) env; next)
            else (do broadcast_state service; pure (some env)))
          (λ o. Seen service (Acquired id o))
          Fails
  decide-Runs true env next h =
      Runs-bind (λ u. Seen service (WaitsFor id)) _ _ (postpone-Runs (job env) env) λ u. h
  decide-Runs false env next h =
      Runs-bind (λ u. Seen service (Taken id (job env))) _ _
        (broadcast_state-Runs service (Taken id (job env)) (InFlightOrWaits id))
        λ u. record { at = λ w p. p }

  hand_out-Runs :
      (env : Envelope) (next : M service (Option Envelope))
      → Next next
      → Runs
          (Seen service (Taken id (job env)))
          (hand_out service (job env) env next)
          (λ o. Seen service (Acquired id o))
          Fails
  unfolding hand_out apply
  hand_out-Runs env next h =
      Runs-bind (λ n. Seen service (Taken id (job env))) _ _
        (gets-Runs service _ (Taken id (job env)) (InFlightOrWaits id))
        λ now.
          Runs-bind (λ r. Seen service (Taken id (job env))) _ _
            (exec-Runs service (set inflight_since (number now)) (Taken id (job env))
              (Taken id (job env)) (InFlightOrWaits id)
              λ v p. (p, weaken-Taken id (job env) v p, weaken-Taken id (job env) v p))
            λ r. decide-Runs (ltb now env.not_before_ts) env next h

  examine-Runs :
      (o : Option Item) (next : M service (Option Envelope))
      → Next next
      → Runs
          (Seen service (TakenFrom id o))
          (examine service o next)
          (λ o. Seen service (Acquired id o))
          Fails
  unfolding examine
  examine-Runs none next h = h
  examine-Runs (some (job env)) next h = hand_out-Runs env next h
  examine-Runs (some (junk t)) next h = discard-Runs t (Acquired id)

  take_from-Runs :
      (key : Key) (next : M service (Option Envelope))
      → IsReady key
      → Next next
      → Next (take_from service key next)
  unfolding take_from
  take_from-Runs key next ready h =
      Runs-bind (λ o. Seen service (TakenFrom id o)) _ _ (lmove-Runs key ready)
        λ o. examine-Runs o next h

  acquire-Runs : Next (acquire service)
  unfolding acquire
  acquire-Runs =
      take_from-Runs ready_interactive _ interactive_list
        (take_from-Runs ready_scheduled _ scheduled_list (record { at = λ w p. p }))

  -- Whatever calls to the service fail, acquire loses no job that waits in a ready list: if it
  -- returns nothing, the job still waits; if it returns an envelope, the job still waits or is that
  -- envelope and is in flight; and if it fails, the job waits or is in flight.
  pub acquire-Acquired :
      (w : World service)
      → Seen service (WaitsFor id) w
      → Post
          (λ o. Seen service (Acquired id o))
          (Seen service (InFlightOrWaits id))
          (acquire service w)
  acquire-Acquired w h = acquire-Runs.at w h
