-- ===== src/Jobs/Manager/Finish.antt =====
-- What ack and nack of manager.go leave behind, whatever calls to the service fail.
use virtualme.Prelude.{
  ℕ, ◌≤◌, ◌≡◌, refl, ◌⊎◌, inl, inr, Bool, none, some, List, [], arith, length, Any, EndsWith,
  take_last-EndsWith, length-take_last, EndsWith-Any,
}
use virtualme.Text.{Text}
use virtualme.Jobs.Envelope.{Envelope, Item, job, junk}
use virtualme.Jobs.Store.{
  ready_interactive, ready_scheduled, inflight, inflight_since, done, dead, ltrim_last, del, View,
  apply, Service, write,
}
use virtualme.Jobs.Exec.{Result, ok, err, Post, Runs, Runs-bind}
use virtualme.Jobs.Manager.{
  World, call_count, append_finished, forget, broadcast_state, release_inflight, ack,
}
use virtualme.Jobs.Manager.Rules.{
  Seen, Changes, exec-Runs, call_count-Runs, broadcast_state-Runs, gets-Runs, pure-Runs,
}

abbrev pub IsJob : Text → Item → Type 0
IsJob id (job env) = env.id ≡ id
IsJob id (junk t) = ⊥

-- Some element of the list is a job with the identifier.
abbrev pub HasJob : Text → List Item → Type 0
HasJob id = Any (IsJob id)

-- The job is in one of the lists of the service.
abbrev pub Held : Text → View → Type 0
Held id v =
    HasJob id (v.lists inflight)
    ⊎ HasJob id (v.lists ready_interactive)
    ⊎ HasJob id (v.lists ready_scheduled)
    ⊎ HasJob id (v.lists dead)
    ⊎ HasJob id (v.lists done)

-- The record of a job that is over, which ends the list.
abbrev pub Finished : Envelope → Bool → Text → List Item → Type 0
Finished env fine summary l =
    (ts : ℕ) × EndsWith
      (job
        (record env { result = some (record { ok = fine; summary = summary; finished_ts = ts }) }))
      l

module _ (service : Service) (env : Envelope) (fine : Bool) (summary : Text) where
  abbrev Recorded : (View → Type 0) → View → Type 0
  Recorded P v = P v × Finished env fine summary (v.lists done)

  abbrev pub RecordedLast : (View → Type 0) → View → Type 0
  RecordedLast P v = P v × Finished env fine summary (v.lists done) × (length (v.lists done) ≤ 200)

  -- What is known of the other keys, `P`, stays while the record is written.
  pub append_finished-Runs :
      (P E : View → Type 0)
      → ((v : View) (l : List Item) → P v → P (record v { lists = write v.lists done l }))
      → ((v : View) → P v → E v)
      → Runs
          (Seen service P)
          (append_finished service env fine summary)
          (λ a. Seen service (RecordedLast P))
          (Seen service E)
  unfolding append_finished apply
  append_finished-Runs P E keep weaken =
      Runs-bind (λ n. Seen service P) _ _ (gets-Runs service _ P E)
        λ now.
          Runs-bind (λ n. Seen service (Recorded P)) _ _
            (call_count-Runs service _ P (Recorded P) E
              λ v p. ((keep v _ p, (now, (v.lists done, refl))), weaken _ (keep v _ p), weaken v p))
            λ n.
              Runs-bind (λ n. Seen service (RecordedLast P)) _ _
                (exec-Runs service (ltrim_last done 200) (Recorded P) (RecordedLast P) E λ v p. (
                  (
                    keep v _ p.0,
                    (p.1.0, take_last-EndsWith 200 _ (v.lists done) p.1.1 (omega arith)),
                    length-take_last 200 (v.lists done),
                  ),
                  weaken _ (keep v _ p.0),
                  weaken v p.0,
                ))
                λ r. pure-Runs service tt (RecordedLast P) E

module _ (service : Service) where
  either-Post :
      (Q : View → Type 0) (r : Result Unit) (w : World service)
      → Post (λ a. Seen service Q) (Seen service Q) (r, w)
      → Seen service Q w
  either-Post Q (ok a) w h = h
  either-Post Q (err e) w h = h

  release-Post :
      (Q E : View → Type 0) (r : Result ℕ) (w : World service)
      → Post (λ a. Seen service Q) (Seen service E) (r, w)
      → Post (λ a. Seen service Q) (Seen service E) (forget r, (broadcast_state service w).1)
  unfolding forget
  release-Post Q E (ok n) w h =
      either-Post Q (broadcast_state service w).0 (broadcast_state service w).1
        ((broadcast_state-Runs service Q Q).at w h)
  release-Post Q E (err e) w h =
      either-Post E (broadcast_state service w).0 (broadcast_state service w).1
        ((broadcast_state-Runs service E E).at w h)

  -- The last DEL of ack and nack, whose error they return behind a broadcast.
  pub release_inflight-Runs :
      (P Q E : View → Type 0)
      → Changes service (del inflight inflight_since) P Q E
      → Runs (Seen service P) (release_inflight service) (λ a. Seen service Q) (Seen service E)
  unfolding release_inflight
  release_inflight-Runs P Q E h = record {
    at = λ w p.
        let (r, w') = call_count service (del inflight inflight_since) w in
        release-Post Q E r w'
          ((call_count-Runs service (del inflight inflight_since) P Q E h).at w p);
  }

-- What the ready lists held before.
abbrev pub Waiting : List Item → List Item → View → Type 0
Waiting first second v = (v.lists ready_interactive ≡ first) × (v.lists ready_scheduled ≡ second)

-- No job is in flight any more.
abbrev pub Released : View → Type 0
Released v = (v.lists inflight ≡ []) × (v.values inflight_since ≡ none)

module _ (service : Service) (env : Envelope) (fine : Bool) (summary : Text)
    (first second : List Item) where
  abbrev pub InFlight : View → Type 0
  InFlight v = HasJob env.id (v.lists inflight) × Waiting first second v

  abbrev pub Acked : View → Type 0
  Acked v =
      Released v
      × Waiting first second v
      × Finished env fine summary (v.lists done)
      × (length (v.lists done) ≤ 200)

  abbrev pub NotLost : View → Type 0
  NotLost v = Held env.id v × Waiting first second v

  pub Finished-HasJob : (l : List Item) → Finished env fine summary l → HasJob env.id l
  Finished-HasJob l (ts, e) = EndsWith-Any (IsJob env.id) _ l refl e

  ack-Runs :
      Runs
        (Seen service InFlight)
        (ack service env fine summary)
        (λ a. Seen service Acked)
        (Seen service NotLost)
  unfolding ack apply
  ack-Runs =
      Runs-bind (λ n. Seen service (RecordedLast service env fine summary InFlight)) _ _
        (append_finished-Runs service env fine summary InFlight NotLost (λ v l p. p)
          (λ v p. (inl p.0, p.1)))
        λ n.
          release_inflight-Runs service (RecordedLast service env fine summary InFlight) Acked
            NotLost
            λ v p. (
              ((refl, refl), p.0.1, p.1, p.2),
              (inr (inr (inr (inr (Finished-HasJob _ p.1)))), p.0.1),
              (inl p.0.0, p.0.1),
            )

  -- A job in flight is acknowledged, whatever calls to the service fail. If ack succeeds, nothing is
  -- in flight, the record of the result ends the list of finished jobs, which has at most 200
  -- elements, and the ready lists are as before. If it fails, the job is still in one of the lists,
  -- and the ready lists are as before.
  pub ack-Acked :
      (w : World service)
      → Seen service InFlight w
      → Post (λ a. Seen service Acked) (Seen service NotLost) (ack service env fine summary w)
  ack-Acked w h = ack-Runs.at w h
