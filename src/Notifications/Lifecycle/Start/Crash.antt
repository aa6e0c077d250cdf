-- ===== src/Notifications/Lifecycle/Start/Crash.antt =====
-- Startup after a run that did not stop.
use virtualme.Prelude.{
  ℕ, ◌≡◌, refl, sym, ap, ◌∙◌, subst, ◌⊎◌, inl, inr, true, ◌||◌, some, Bool-cases, ◌==◌, not,
}
use virtualme.Text.{Text}
use virtualme.Notifications.Ulid.{valid_ulid}
use virtualme.Notifications.Detail.{Json}
use virtualme.Notifications.Validate.{Notification}
use virtualme.Notifications.Store.{row, Db}
use virtualme.Notifications.Store.Consistent.{IsConsistent}
use virtualme.Notifications.Lifecycle.Evidence.Texts.{
  Announces, IsUnclean, exact_unread, announced_exact, announced-IsUnclean, announced_id,
}
use virtualme.Notifications.Lifecycle.Evidence.{Marker, valid_marker, running, unclean_recovery}
use virtualme.Notifications.Lifecycle.{
  World, M, File, contents, write_marker, ◌>>=◌, ◌>>◌, next_id, pure, persist_exact, after_check,
  create_exact, pending,
}
use virtualme.Notifications.Lifecycle.Start.{
  startup, unclean_recover, recover_state, recover_pending, recover_from, complete_if_restart,
  status_valid, recovered_run, unclean_request,
}
use virtualme.Notifications.Lifecycle.Persist.{Persisted, Unharmed, persist_exact-Persisted}
use virtualme.Notifications.Lifecycle.Start.Run.{startup-Runs}
use virtualme.Notifications.Lifecycle.Runs.{
  Post, Runs, Runs-bind, Runs-weaken, weaken-Post, Wrote, Same, write_marker-Post, Kept,
  next_id-Runs, reserve-Runs,
}

-- The database has the notification under its identifier.
abbrev pub IsStored : Notification → Db → Type 0
IsStored n db = db.items n.id ≡ some (row n)

unread : (n : Notification) → n.read_at_ms ≡ 0 → row (record n { read_at_ms = 0 }) ≡ row n
unread n h = ap (λ t. row (record n { read_at_ms = t })) (sym h)

-- The file has a pending marker that announces the notification.
abbrev pub IsAnnounced : (Json → ℕ) → Notification → File → Type 0
IsAnnounced size_of n f = (x : Marker) × (f ≡ contents x) × Announces size_of x n

after_check_lem :
    (size_of : Json → ℕ) (n : Notification) (x : Marker) (w : World)
    → w.file ≡ contents x
    → Announces size_of x n
    → IsConsistent w.db
    → Runs
        (λ v. v ≡ w)
        (do persist_exact n; pure tt)
        (λ _ v. IsStored n v.db × IsUnclean n)
        (λ v. IsAnnounced size_of n v.file)
after_check_lem size_of n x w f a c =
    Runs-bind (λ _ v. IsStored n v.db × IsUnclean n) (persist_exact n) _
      (record {
        at = λ v same.
            subst
              (λ u.
                Post (λ _ v. IsStored n v.db × IsUnclean n) (λ v. IsAnnounced size_of n v.file)
                  (persist_exact n u))
              (sym same)
              (weaken-Post (λ _. Persisted n w) (Unharmed w) (λ _ v. IsStored n v.db × IsUnclean n)
                (λ v. IsAnnounced size_of n v.file) (persist_exact n w)
                (persist_exact-Persisted n w c)
                (λ _ v s.
                  let (kept, stored, sound) = s in
                  (
                    stored ∙ ap some (unread n (exact_unread size_of n (announced_exact a))),
                    announced-IsUnclean a,
                  ))
                (λ v s. (x, s.0 ∙ f, a)));
      })
      (λ _. record { at = λ v h. h })

-- createExact stores an announced notification, or leaves the announcement.
create_exact-IsStored :
    (size_of : Json → ℕ) (n : Notification)
    → Runs
        (λ w. IsAnnounced size_of n w.file × IsConsistent w.db)
        (create_exact size_of n)
        (λ _ w. IsStored n w.db × IsUnclean n)
        (λ w. IsAnnounced size_of n w.file)
unfolding create_exact after_check
create_exact-IsStored size_of n = record {
  at = λ w h.
      let ((x, f, a), c) = h in
      let e = announced_exact a in rw e ((after_check_lem size_of n x w f a c).at w refl);
}

-- A notification of an unclean start is stored.
abbrev pub IsReported : World → Type 0
IsReported w = (n : Notification) × IsStored n w.db × IsUnclean n

-- The file still has `old`, or announces a notification.
abbrev pub IsEvident : (Json → ℕ) → Marker → World → Type 0
IsEvident size_of old w =
    (w.file ≡ contents old) ⊎ ((n : Notification) × IsAnnounced size_of n w.file)

abbrev Before : Marker → File → Db → Type 0
Before old f db = (f ≡ contents old) × IsConsistent db

write_marker-IsAnnounced :
    (size_of : Json → ℕ) (old run : Marker) (now : ℕ) (n : Notification)
    → Runs
        (λ w. Before old w.file w.db)
        (write_marker size_of (pending run now unclean_recovery n))
        (λ _ w. IsAnnounced size_of n w.file × IsConsistent w.db)
        (IsEvident size_of old)
unfolding pending
write_marker-IsAnnounced size_of old run now n = record {
  at = λ w h.
      let x = pending run now unclean_recovery n in
      let announces : valid_marker size_of x ≡ true → Announces size_of x n =
        λ v. record { checks = v; waits = refl; why = refl; holds = refl } in
      weaken-Post (λ _. Wrote size_of x w) (λ v. Same w v ⊎ Wrote size_of x w v)
        (λ _ v. IsAnnounced size_of n v.file × IsConsistent v.db) (IsEvident size_of old)
        (write_marker size_of x w) (write_marker-Post size_of x w)
        (λ _ v s.
          let (sound, f, d) = s in ((x, f, announces sound), subst IsConsistent (sym d) h.1))
        (λ v o. elim o [
          | inl same ↦ inl (same.0 ∙ h.0)
          | inr s ↦ (let (sound, f, d) = s in inr (n, (x, f, announces sound)))
        ]);
}

named_anew :
    (P : File → Db → Type 0) (f : Text → Marker)
    → Runs (Kept P) (next_id >>= λ id. pure (f id)) (λ _. Kept P) (Kept P)
named_anew P f = Runs-bind (λ _. Kept P) _ _ (next_id-Runs P) (λ id. record { at = λ w h. h })

recovered_run-Runs :
    (P : File → Db → Type 0) (m : Marker) (now : ℕ)
    → Runs (Kept P) (recovered_run m now) (λ _. Kept P) (Kept P)
unfolding recovered_run
recovered_run-Runs P m now = record {
  at = λ w h. elim (Bool-cases (not (valid_ulid m.run_id) || m.started_at_ms == 0)) [
    | inl e ↦ rw e ((named_anew P (λ id. record m { run_id = id; started_at_ms = now })).at w h)
    | inr e ↦ rw e h
  ];
}

evident :
    {A : Type 0} {size_of : Json → ℕ} {old : Marker} {m : M A}
    → Runs (Kept (Before old)) m (λ _. Kept (Before old)) (Kept (Before old))
    → Runs (Kept (Before old)) m (λ _. Kept (Before old)) (IsEvident size_of old)
evident {size_of = size_of} {old = old} h =
    Runs-weaken (λ _. Kept (Before old)) (Kept (Before old)) (λ _. Kept (Before old))
      (IsEvident size_of old) h (λ _ v k. k) (λ v k. inl k.0)

-- uncleanRecovery reports the crash, or leaves the evidence of it.
unclean_recover-Runs :
    (size_of : Json → ℕ) (old m : Marker) (status : Text)
    → Runs
        (λ w. Before old w.file w.db)
        (unclean_recover size_of m status)
        (λ _. IsReported)
        (IsEvident size_of old)
unfolding unclean_recover
unclean_recover-Runs size_of old m status = record {
  at = λ w.
      let P = Before old in
      (Runs-bind (λ _. Kept P) _ _
          (evident (reserve-Runs P size_of (unclean_request size_of m status w.clock)))
          (λ n.
            Runs-bind (λ _. Kept P) _ _ (evident (recovered_run-Runs P m w.clock))
              (λ run.
                Runs-bind (λ _ v. IsAnnounced size_of n v.file × IsConsistent v.db) _ _
                  (write_marker-IsAnnounced size_of old run w.clock n)
                  (λ _.
                    Runs-weaken (λ _ v. IsStored n v.db × IsUnclean n)
                      (λ v. IsAnnounced size_of n v.file) (λ _. IsReported) (IsEvident size_of old)
                      (create_exact-IsStored size_of n) (λ _ v s. (n, s.0, s.1))
                      (λ v a. inr (n, a)))))).at
        w;
}

-- A start over the valid marker of a run that did not stop either stores a notification of the
-- unclean start, or leaves the marker or a pending one that announces such a notification, whatever
-- write or call fails. If it succeeds, the notification is stored.
pub startup-IsReported :
    (size_of : Json → ℕ) (w : World) (m : Marker)
    → w.file ≡ contents m
    → valid_marker size_of m ≡ true
    → m.state ≡ running
    → IsConsistent w.db
    → Post (λ _. IsReported) (λ v. IsEvident size_of m v ⊎ IsReported v) (startup size_of w)
unfolding recover_state
startup-IsReported size_of w m f v s c =
    startup-Runs size_of _ (IsEvident size_of m) w m f v
      (subst
        (λ z.
          Runs (Kept (Before m)) (recover_state size_of m z) (λ _. IsReported)
            (IsEvident size_of m))
        (sym s) (unclean_recover-Runs size_of m m status_valid))
      (f, c)

module _ (size_of : Json → ℕ) {m : Marker} {n : Notification} (a : Announces size_of m n) where
  abbrev Announced : World → Type 0
  Announced w = IsAnnounced size_of n w.file × IsConsistent w.db

  abbrev IsDone : World → Type 0
  IsDone w = IsStored n w.db × IsUnclean n

  resumed_by_id :
      Runs Announced
        (recover_from size_of m (some n))
        (λ _. IsDone)
        (λ w. IsAnnounced size_of n w.file)
  unfolding recover_from
  resumed_by_id = rw (announced_id a) (create_exact-IsStored size_of n)

  resumed :
      Runs Announced (recover_pending size_of m) (λ _. IsDone) (λ w. IsAnnounced size_of n w.file)
  unfolding recover_pending
  resumed =
      subst
        (λ o.
          Runs Announced (recover_from size_of m o) (λ _. IsDone)
            (λ w. IsAnnounced size_of n w.file))
        (sym a.holds) resumed_by_id

  no_restart :
      Runs IsDone
        (complete_if_restart size_of m m.reason)
        (λ _. IsDone)
        (λ w. IsAnnounced size_of n w.file)
  unfolding complete_if_restart
  no_restart =
      subst
        (λ r.
          Runs IsDone (complete_if_restart size_of m r) (λ _. IsDone)
            (λ w. IsAnnounced size_of n w.file))
        (sym a.why) (record { at = λ w h. h })

  resumed_by_state :
      Runs Announced
        (recover_state size_of m m.state)
        (λ _. IsDone)
        (λ w. IsAnnounced size_of n w.file)
  unfolding recover_state
  resumed_by_state =
      subst
        (λ s.
          Runs Announced (recover_state size_of m s) (λ _. IsDone)
            (λ w. IsAnnounced size_of n w.file))
        (sym a.waits)
        (Runs-bind (λ _. IsDone) (recover_pending size_of m) _ resumed (λ _. no_restart))

-- A start over a pending marker that announces a notification of an unclean start stores it, or
-- leaves the announcement for the next start. If it succeeds, the notification is stored.
pub startup-IsAnnounced :
    (size_of : Json → ℕ) (w : World) (n : Notification)
    → IsAnnounced size_of n w.file
    → IsConsistent w.db
    → Post
        (λ _ v. IsStored n v.db × IsUnclean n)
        (λ v. IsAnnounced size_of n v.file ⊎ (IsStored n v.db × IsUnclean n))
        (startup size_of w)
startup-IsAnnounced size_of w n a c =
    let (m, f, h) = a in
    startup-Runs size_of (λ db. IsStored n db × IsUnclean n) (λ v. IsAnnounced size_of n v.file) w m
      f h.checks (resumed_by_state size_of h) (a, c)
