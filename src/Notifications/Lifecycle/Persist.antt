-- ===== src/Notifications/Lifecycle/Persist.antt =====
-- What persistExact leaves in the database.
use virtualme.Prelude.{◌≡◌, refl, ◌⊎◌, inl, inr, some}
use virtualme.Text.{Text}
use virtualme.Notifications.Validate.{Notification}
use virtualme.Notifications.Store.{Db, row, Created, created, present, id_conflict, create_script}
use virtualme.Notifications.Store.Consistent.{IsConsistent, create_script-IsConsistent}
use virtualme.Notifications.Store.Stored.{create_script-stored, create_script-read}
use virtualme.Notifications.Lifecycle.{
  World, Fate, done, failed_before, failed_after, persisted, persist_exact, next_fate, later_fates,
}
use virtualme.Notifications.Lifecycle.Runs.{Post}

-- The database has the notification, with no time of reading in it, under its identifier.
abbrev pub IsPersisted : Notification → Db → Type 0
IsPersisted n db = db.items n.id ≡ some (row (record n { read_at_ms = 0 }))

abbrev pub Persisted : Notification → World → World → Type 0
Persisted n w v = (v.file ≡ w.file) × IsPersisted n v.db × IsConsistent v.db

abbrev pub Unharmed : World → World → Type 0
Unharmed w v = (v.file ≡ w.file) × IsConsistent v.db

persisted-Persisted :
    (f : Fate) (n : Notification) (c : Created) (db' : Db) (w : World)
    → (c ≡ id_conflict) ⊎ IsPersisted n db'
    → IsConsistent w.db
    → IsConsistent db'
    → Post
        (λ _. Persisted n w)
        (Unharmed w)
        (let (r, z) = persisted f (c, db') w.db in
          (r, record w { db = z; fates = later_fates w.fates }))
unfolding persisted
persisted-Persisted done n created db' w (inr s) before after = (refl, s, after)
persisted-Persisted done n created db' w (inl e) before after = absurd (cc)
persisted-Persisted done n present db' w (inr s) before after = (refl, s, after)
persisted-Persisted done n present db' w (inl e) before after = absurd (cc)
persisted-Persisted done n id_conflict db' w s before after = (refl, after)
persisted-Persisted failed_before n c db' w s before after = (refl, before)
persisted-Persisted failed_after n c db' w s before after = (refl, after)

pub persist_exact-Persisted :
    (n : Notification) (w : World)
    → IsConsistent w.db
    → Post (λ _. Persisted n w) (Unharmed w) (persist_exact n w)
unfolding persist_exact
persist_exact-Persisted n w c =
    let body = row (record n { read_at_ms = 0 }) in
    let (k, db') = create_script n.id body w.db in
    persisted-Persisted (next_fate w.fates) n k db' w (create_script-stored w.db n.id body c) c
      (create_script-IsConsistent w.db n.id body c)

persisted-read :
    (f : Fate) (c : Created) (id : Text) (db' db : Db)
    → db'.read id ≡ db.read id
    → (persisted f (c, db') db).1.read id ≡ db.read id
unfolding persisted
persisted-read done created id db' db h = h
persisted-read done present id db' db h = h
persisted-read done id_conflict id db' db h = h
persisted-read failed_before c id db' db h = refl
persisted-read failed_after c id db' db h = h

-- Whatever comes of it, the read mark of the notification is as before.
pub persist_exact-read :
    (n : Notification) (w : World)
    → IsConsistent w.db
    → (persist_exact n w).1.db.read n.id ≡ w.db.read n.id
unfolding persist_exact
persist_exact-read n w c =
    let body = row (record n { read_at_ms = 0 }) in
    let (k, db') = create_script n.id body w.db in
    persisted-read (next_fate w.fates) k n.id db' w.db (create_script-read w.db n.id body c)
