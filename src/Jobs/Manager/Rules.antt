-- ===== src/Jobs/Manager/Rules.antt =====
-- How the calls of the client change what the service shows, whatever calls fail.
use virtualme.Prelude.{◌≡◌, refl, sym, subst, inl, inr, Option, none, some, []}
use mathlib.Core.Path.{subst₂}
use virtualme.Jobs.Store.{
  ready_interactive, ready_scheduled, done, Command, range_first, range_last, Reply, count,
  elements, string, View, Effect, apply, answer, Service,
}
use virtualme.Jobs.Exec.{Result, ok, err, pure, gets, attempt, ◌>>=◌, Post, Runs, Runs-bind}
use virtualme.Jobs.Manager.{
  World, M, reply_or_fail, exec, call_count, call_elements, call_string, want_count, want_elements,
  want_string, state_message, broadcast_state,
}

module _ (service : Service) where
  abbrev pub Seen : (View → Type 0) → World service → Type 0
  Seen P w = P (service.view w.db)

  -- A run that keeps `P`, whether it returns or fails.
  abbrev pub Keeps : {A : Type 0} → (View → Type 0) → M service A → Type 0
  Keeps P m = Runs (Seen P) m (λ a. Seen P) (Seen P)

  -- What is to be shown of a command: `P` before it gives `Q` after it, and `E` whether or not a
  -- failing call took its effect.
  abbrev pub Changes : Command → (View → Type 0) → (View → Type 0) → (View → Type 0) → Type 0
  Changes c P Q E = (v : View) → P v → Q (apply c v) × E (apply c v) × E v

  exec-Post :
      (c : Command) (Q : Reply → View → Type 0) (E : View → Type 0) (w : World service)
      (r : Option Reply) (d : service.Db)
      → Effect c (service.view w.db) (service.view d) r
      → Q (answer c (service.view w.db)) (apply c (service.view w.db))
      → E (apply c (service.view w.db))
      → E (service.view w.db)
      → Post (λ a. Seen (Q a)) (Seen E) (reply_or_fail service r, record w { db = d })
  unfolding reply_or_fail
  exec-Post c Q E w none d (inl (e, f)) q a b = absurd (cc)
  exec-Post c Q E w (some r) d (inl (e, f)) q a b = subst₂ Q (cc) (sym f) q
  exec-Post c Q E w none d (inr (e, inl f)) q a b = subst E (sym f) a
  exec-Post c Q E w none d (inr (e, inr f)) q a b = subst E (sym f) b
  exec-Post c Q E w (some r) d (inr (e, f)) q a b = absurd (cc)

  pub exec_reply-Runs :
      (c : Command) (P : View → Type 0) (Q : Reply → View → Type 0) (E : View → Type 0)
      → ((v : View) → P v → Q (answer c v) (apply c v) × E (apply c v) × E v)
      → Runs (Seen P) (exec service c) (λ r. Seen (Q r)) (Seen E)
  unfolding exec
  exec_reply-Runs c P Q E h = record {
    at = λ w p.
        let (q, a, b) = h (service.view w.db) p in
        exec-Post c Q E w (service.call c w.db).0 (service.call c w.db).1 (service.effect c w.db) q
          a b;
  }

  pub exec-Runs :
      (c : Command) (P Q E : View → Type 0)
      → Changes c P Q E
      → Runs (Seen P) (exec service c) (λ r. Seen Q) (Seen E)
  exec-Runs c P Q E h = exec_reply-Runs c P (λ r. Q) E h

  -- A reply of another kind than the wanted one is an error behind the command's effect.
  want-Runs :
      {A : Type 0} (c : Command) (want : Reply → M service A) (P Q E : View → Type 0)
      → ((r : Reply) (w : World service)
          → Seen Q w
          → Seen E w
          → Post (λ a. Seen Q) (Seen E) (want r w))
      → Changes c P Q E
      → Runs (Seen P) (exec service c >>= want) (λ a. Seen Q) (Seen E)
  want-Runs c want P Q E k h =
      Runs-bind (λ r. Seen (λ v. Q v × E v)) (exec service c) want
        (exec_reply-Runs c P (λ r v. Q v × E v) E
          λ v p. ((((h v p).0, (h v p).1)), (h v p).1, (h v p).2))
        λ r. record { at = λ w qe. k r w qe.0 qe.1 }

  count-Post :
      (Q E : View → Type 0) (r : Reply) (w : World service)
      → Seen Q w
      → Seen E w
      → Post (λ a. Seen Q) (Seen E) (want_count service r w)
  unfolding want_count
  count-Post Q E (count n) w q e = q
  count-Post Q E _ w q e = e

  pub call_count-Runs :
      (c : Command) (P Q E : View → Type 0)
      → Changes c P Q E
      → Runs (Seen P) (call_count service c) (λ n. Seen Q) (Seen E)
  unfolding call_count
  call_count-Runs c P Q E h = want-Runs c (want_count service) P Q E (count-Post Q E) h

  elements-Post :
      (Q E : View → Type 0) (r : Reply) (w : World service)
      → Seen Q w
      → Seen E w
      → Post (λ a. Seen Q) (Seen E) (want_elements service r w)
  unfolding want_elements
  elements-Post Q E (elements xs) w q e = q
  elements-Post Q E _ w q e = e

  pub call_elements-Runs :
      (c : Command) (P Q E : View → Type 0)
      → Changes c P Q E
      → Runs (Seen P) (call_elements service c) (λ n. Seen Q) (Seen E)
  unfolding call_elements
  call_elements-Runs c P Q E h = want-Runs c (want_elements service) P Q E (elements-Post Q E) h

  string-Post :
      (Q E : View → Type 0) (r : Reply) (w : World service)
      → Seen Q w
      → Seen E w
      → Post (λ a. Seen Q) (Seen E) (want_string service r w)
  unfolding want_string
  string-Post Q E (string s) w q e = q
  string-Post Q E _ w q e = e

  pub call_string-Runs :
      (c : Command) (P Q E : View → Type 0)
      → Changes c P Q E
      → Runs (Seen P) (call_string service c) (λ n. Seen Q) (Seen E)
  unfolding call_string
  call_string-Runs c P Q E h = want-Runs c (want_string service) P Q E (string-Post Q E) h

  attempt-Post :
      {A : Type 0} (d : A) (P E' : View → Type 0) (r : Result A) (w : World service)
      → Post (λ a. Seen P) (Seen P) (r, w)
      → Post {A = A} (λ a. Seen P) (Seen E') (attempt d (λ s. (r, s)) w)
  attempt-Post d P E' (ok a) w h = h
  attempt-Post d P E' (err e) w h = h

  -- An action whose error is ignored does not fail.
  pub attempt-Runs :
      {A : Type 0} (d : A) (m : M service A) (P Q E : View → Type 0)
      → Runs (Seen P) m (λ a. Seen Q) (Seen Q)
      → Runs (Seen P) (attempt d m) (λ a. Seen Q) (Seen E)
  attempt-Runs d m P Q E h = record {
    at = λ w p. let (r, w') = m w in attempt-Post d Q E r w' (h.at w p);
  }

  read_list :
      (c : Command) (P E : View → Type 0)
      → ((v : View) → apply c v ≡ v)
      → Runs (Seen P) (attempt [] (call_elements service c)) (λ a. Seen P) (Seen E)
  read_list c P E same =
      attempt-Runs [] (call_elements service c) P P E
        (call_elements-Runs c P P P λ v p. (rw (same v) p, rw (same v) p, p))

  pub gets-Runs :
      {A : Type 0} (f : World service → A) (P E : View → Type 0)
      → Runs (Seen P) (gets f) (λ a. Seen P) (Seen E)
  gets-Runs f P E = record { at = λ w p. p }

  pub pure-Runs :
      {A : Type 0} (a : A) (P E : View → Type 0) → Runs (Seen P) (pure a) (λ a. Seen P) (Seen E)
  pure-Runs a P E = record { at = λ w p. p }

  state_message-Runs :
      (P E : View → Type 0) → Runs (Seen P) (state_message service) (λ a. Seen P) (Seen E)
  unfolding state_message apply
  state_message-Runs P E =
      Runs-bind _ _ _ (read_list (range_first ready_interactive 20) P E (λ v. refl)) λ first.
        Runs-bind _ _ _ (read_list (range_first ready_scheduled 20) P E (λ v. refl)) λ second.
          Runs-bind _ _ _ (gets-Runs _ P E) λ current.
            Runs-bind _ _ _ (read_list (range_last done 20) P E (λ v. refl)) λ last. pure-Runs _ P E

  -- broadcastState changes nothing that the service shows, and does not fail.
  pub broadcast_state-Runs :
      (P E : View → Type 0) → Runs (Seen P) (broadcast_state service) (λ a. Seen P) (Seen E)
  unfolding broadcast_state
  broadcast_state-Runs P E =
      Runs-bind _ _ _ (state_message-Runs P E) λ frame. record { at = λ w p. p }
