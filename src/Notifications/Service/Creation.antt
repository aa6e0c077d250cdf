-- ===== src/Notifications/Service/Creation.antt =====
-- What Create of service.go leaves and sends.
use virtualme.Prelude.{
  ℕ, ◌≡◌, refl, sym, ap, subst, ◌∙◌, none, ◌⊎◌, inl, inr, Bool, true, false, List, [], ◌∷◌,
  Bool-cases,
}
use virtualme.Notifications.Detail.{Json}
use virtualme.Notifications.Result.{Result, ok, err}
use virtualme.Notifications.Validate.{Notification, CreateRequest, validate_create, is_empty}
use virtualme.Notifications.Store.{Db}
use virtualme.Text.{Text}
use virtualme.Notifications.Store.Stored.{read_fresh}
use virtualme.Notifications.Store.Consistent.{IsConsistent}
use virtualme.Notifications.Snapshot.{state_frame, snapshot_locked}
use virtualme.Notifications.Lifecycle.{
  World, Fate, done, failed_before, failed_after, next_fate, persist_exact,
}
use virtualme.Notifications.Lifecycle.Persist.{
  IsPersisted, Persisted, Unharmed, persist_exact-Persisted, persist_exact-read,
}
use virtualme.Notifications.Lifecycle.Runs.{
  Post, Runs, Runs-bind, Runs-weaken, also-Post, next_id-Runs,
}
use virtualme.Notifications.Service.{
  Output, broadcast, was_created, message, create, identified, announce_new, sent_new, read_frame,
}

-- The frames are none, or one that shows the database with the new notification.
abbrev pub Shown : (Json → ℕ) → Notification → List Output → Db → Type 0
Shown size_of n sent db =
    (sent ≡ [])
    ⊎ (sent ≡ broadcast (state_frame (snapshot_locked size_of db)) (was_created n.id) ∷ [])

sent_new-Shown :
    (size_of : Json → ℕ) (n : Notification) (g : Fate) (db : Db)
    → Shown size_of n (sent_new n (read_frame g (state_frame (snapshot_locked size_of db)))) db
unfolding sent_new read_frame
sent_new-Shown size_of n done db = inr refl
sent_new-Shown size_of n failed_before db = inl refl
sent_new-Shown size_of n failed_after db = inl refl

-- The read mark of the identifier is as before, and there is none if it was not stored before.
abbrev pub KeepsMark : Db → Text → Db → Type 0
KeepsMark before id db =
    (db.read id ≡ before.read id) × (before.items id ≡ none → db.read id ≡ none)

abbrev pub IsCreated : (Json → ℕ) → Db → Notification × List Output → World → Type 0
IsCreated size_of before r w =
    IsPersisted r.0 w.db
    × KeepsMark before r.0.id w.db
    × IsConsistent w.db
    × Shown size_of r.0 r.1 w.db

module _ (before : Db) (consistent : IsConsistent before) where
  abbrev Untouched : World → Type 0
  Untouched w = w.db ≡ before

  abbrev Sound : World → Type 0
  Sound w = IsConsistent w.db

  abbrev Stored : Notification → World → Type 0
  Stored n w = IsPersisted n w.db × KeepsMark before n.id w.db × IsConsistent w.db

  identified-Runs :
      (r : Result Notification) → Runs Untouched (identified r) (λ _. Untouched) Untouched
  unfolding identified
  identified-Runs (err e) = record { at = λ w h. h }
  identified-Runs (ok n) = elim (Bool-cases (is_empty n.id)) [
    | inl e ↦ rw e (
        Runs-bind (λ _. Untouched) _ _ (next_id-Runs (λ f db. db ≡ before))
          (λ id. record { at = λ w h. h }))
    | inr e ↦ rw e (record { at = λ w h. h })
  ]

  marks_kept :
      (n : Notification) (db : Db) → db.read n.id ≡ before.read n.id → KeepsMark before n.id db
  marks_kept n db e = (e, λ fresh. e ∙ read_fresh before n.id consistent fresh)

  sound : (w : World) → Untouched w → IsConsistent w.db
  sound w e = subst IsConsistent (sym e) consistent

  persist_exact-Stored : (n : Notification) → Runs Untouched (persist_exact n) (λ _. Stored n) Sound
  persist_exact-Stored n = record {
    at = λ w e.
        also-Post (λ _. Persisted n w) (Unharmed w) (λ _. Stored n) Sound (persist_exact n w)
          (persist_exact-Persisted n w (sound w e))
          (λ b s. (
            s.1,
            marks_kept n (persist_exact n w).1.db
                (persist_exact-read n w (sound w e) ∙ ap (λ (d : Db). d.read n.id) e),
            s.2,
          ))
          (λ s. s.1);
  }

  announce_new-Runs :
      (size_of : Json → ℕ) (n : Notification) (new : Bool)
      → Runs
          (Stored n)
          (announce_new size_of n new)
          (λ sent. IsCreated size_of before (n, sent))
          Sound
  unfolding announce_new message
  announce_new-Runs size_of n false = record { at = λ w h. (h.0, h.1, h.2, inl refl) }
  announce_new-Runs size_of n true = record {
    at = λ w h. (h.0, h.1, h.2, sent_new-Shown size_of n (next_fate w.fates) w.db);
  }

  create-Runs :
      (size_of : Json → ℕ) (request : CreateRequest)
      → Runs Untouched (create size_of request) (IsCreated size_of before) Sound
  unfolding create
  create-Runs size_of request = record {
    at = λ w e.
        (Runs-bind (λ _. Untouched) _ _
            (Runs-weaken (λ _. Untouched) Untouched (λ _. Untouched) Sound
              (identified-Runs (validate_create size_of request w.clock)) (λ _ v h. h) sound)
            (λ n.
              Runs-bind (λ _. Stored n) _ _ (persist_exact-Stored n)
                (λ new.
                  Runs-bind (λ sent. IsCreated size_of before (n, sent)) _ _
                    (announce_new-Runs size_of n new) (λ sent. record { at = λ v h. h })))).at
          w e;
  }

-- On a consistent database, a successful Create has its notification stored, with no time of reading
-- in it, under its identifier; the read mark of that identifier is as before the call, and there is
-- none if the identifier was not stored before. It has sent nothing or one broadcast, which shows the
-- database as it then is. The database is consistent after it, also if Create fails, whatever call of
-- Valkey fails.
pub create-IsCreated :
    (size_of : Json → ℕ) (request : CreateRequest) (w : World)
    → IsConsistent w.db
    → Post (IsCreated size_of w.db) (λ v. IsConsistent v.db) (create size_of request w)
create-IsCreated size_of request w c = (create-Runs w.db c size_of request).at w refl
