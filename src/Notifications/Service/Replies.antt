-- ===== src/Notifications/Service/Replies.antt =====
-- What handleRead of service.go replies, on every branch.
use virtualme.Prelude.{
  ℕ, zero, suc, ◌≡◌, refl, ap, subst, inl, inr, true, false, ◌||◌, not, Option, some, List,
  Bool-cases,
}
use virtualme.Text.{Text, text_eq, text_eq_iff}
use virtualme.Notifications.Ulid.{valid_ulid}
use virtualme.Notifications.Detail.{Json}
use virtualme.Notifications.Store.{
  Db, Mark, at, Marked, missing, changed, mark_one_script, set_new, is_some, write,
}
use virtualme.Notifications.Snapshot.{state_frame, snapshot_locked, valid_request_id}
use virtualme.Notifications.Lifecycle.{
  World, Fate, done, failed_before, failed_after, next_fate, later_fates,
}
use virtualme.Notifications.Service.{
  was_read, invalid_request, not_found, persistence_failed, Output, broadcast, answer, refusal,
  called, read_frame, message, send_snapshot, broadcast_change, handle_read, after_mark_one,
  answered, told,
}

-- A mark that is there stays as it is.
abbrev pub KeepsMarks : Db → Db → Type 0
KeepsMarks db db' = (j : Text) → is_some (db.read j) ≡ true → db'.read j ≡ db.read j

abbrev MarkedOne : Text → Mark → Db → Marked × Db → Type 0
MarkedOne id mark db (missing, db') = (is_some (db.items id) ≡ false) × (db' ≡ db)
MarkedOne id mark db (changed zero, db') = (is_some (db.read id) ≡ true) × (db' ≡ db)
MarkedOne id mark db (changed (suc k), db') =
    (is_some (db.read id) ≡ false) × (db'.read id ≡ some mark) × KeepsMarks db db'

marked_now :
    (read : Text → Option Mark) (id : Text) (mark : Mark) → write read id mark id ≡ some mark
marked_now read id mark =
    let same : text_eq id id ≡ true = (text_eq_iff id id).1 refl in rw same refl

write-KeepsMarks :
    (db : Db) (id : Text) (mark : Mark)
    → is_some (db.read id) ≡ false
    → KeepsMarks db (record db { read = write db.read id mark })
write-KeepsMarks db id mark fresh j there = elim (Bool-cases (text_eq id j)) [
  | inl e ↦
      let same : id ≡ j = (text_eq_iff id j).0 e in
      let gone : is_some (db.read j) ≡ false =
        subst (λ k. is_some (db.read k) ≡ false) same fresh in
      absurd (cc)
  | inr e ↦ rw e refl
]

mark_one_script-MarkedOne :
    (id : Text) (mark : Mark) (db : Db) → MarkedOne id mark db (mark_one_script id mark db)
unfolding mark_one_script set_new
mark_one_script-MarkedOne id mark db = elim (Bool-cases (is_some (db.items id))) [
  | inr e ↦ rw (e, mark_one_script) (e, refl)
  | inl e ↦ elim (Bool-cases (is_some (db.read id))) [
    | inl f ↦ rw (e, mark_one_script, f, set_new) (f, refl)
    | inr f ↦
        rw (e, mark_one_script, f, set_new)
          (f, marked_now db.read id mark, write-KeepsMarks db id mark f)
  ]
]

module _ (size_of : Json → ℕ) where
  -- What a reply says of the world before and after it: a broadcast comes with the new mark of a
  -- notification that had none, an answer with no change, and a refusal loses no mark.
  abbrev pub IsReply : Text → World → Output × World → Type 0
  IsReply id w (broadcast f c, w') =
      (f ≡ state_frame (snapshot_locked size_of w'.db))
      × (c ≡ was_read id w.clock)
      × (is_some (w.db.read id) ≡ false)
      × (w'.db.read id ≡ some (at w.clock))
      × KeepsMarks w.db w'.db
  IsReply id w (answer f, w') =
      (f ≡ state_frame (snapshot_locked size_of w'.db))
      × (is_some (w.db.read id) ≡ true)
      × (w'.db ≡ w.db)
  IsReply id w (refusal r invalid_request, w') = w' ≡ w
  IsReply id w (refusal r not_found, w') = (is_some (w.db.items id) ≡ false) × (w'.db ≡ w.db)
  IsReply id w (refusal r persistence_failed, w') = KeepsMarks w.db w'.db

  told-IsReply :
      (request_id id : Text) (w : World) (db : Db) (fs : List Fate) (g : Fate)
      → is_some (w.db.read id) ≡ false
      → db.read id ≡ some (at w.clock)
      → KeepsMarks w.db db
      → IsReply id w (
        told request_id
            (was_read id w.clock)
            (read_frame g (state_frame (snapshot_locked size_of db))),
        record w { db = db; fates = fs },
      )
  unfolding told read_frame
  told-IsReply request_id id w db fs done new marked kept = (refl, refl, new, marked, kept)
  told-IsReply request_id id w db fs failed_before new marked kept = kept
  told-IsReply request_id id w db fs failed_after new marked kept = kept

  answered-IsReply :
      (request_id id : Text) (w : World) (db : Db) (fs : List Fate) (g : Fate)
      → is_some (w.db.read id) ≡ true
      → db ≡ w.db
      → IsReply id w (
        answered request_id (read_frame g (state_frame (snapshot_locked size_of db))),
        record w { db = db; fates = fs },
      )
  unfolding answered read_frame
  answered-IsReply request_id id w db fs done there same = (refl, there, same)
  answered-IsReply request_id id w db fs failed_before there same = λ j h. ap (λ d. d.read j) same
  answered-IsReply request_id id w db fs failed_after there same = λ j h. ap (λ d. d.read j) same

  after_mark_one-IsReply :
      (request_id id : Text) (w : World) (m : Marked) (db : Db) (fs : List Fate)
      → MarkedOne id (at w.clock) w.db (m, db)
      → IsReply id w
          (after_mark_one size_of request_id id (some m) (record w { db = db; fates = fs }))
  unfolding after_mark_one send_snapshot broadcast_change message
  after_mark_one-IsReply request_id id w missing db fs h = h
  after_mark_one-IsReply request_id id w (changed zero) db fs h =
      answered-IsReply request_id id w db (later_fates fs) (next_fate fs) h.0 h.1
  after_mark_one-IsReply request_id id w (changed (suc k)) db fs h =
      let (new, marked, kept) = h in
      told-IsReply request_id id w db (later_fates fs) (next_fate fs) new marked kept

  kept_by_script :
      (id : Text) (w : World) (r : Marked × Db)
      → MarkedOne id (at w.clock) w.db r
      → KeepsMarks w.db r.1
  kept_by_script id w (missing, db) h j there = ap (λ d. d.read j) h.1
  kept_by_script id w (changed zero, db) h j there = ap (λ d. d.read j) h.1
  kept_by_script id w (changed (suc k), db) h j there = let (new, marked, kept) = h in kept j there

  called-IsReply :
      (request_id id : Text) (w : World) (f : Fate) (fs : List Fate) (r : Marked × Db)
      → MarkedOne id (at w.clock) w.db r
      → IsReply id w (
          let (m, db) = called f r w.db in
          after_mark_one size_of request_id id m (record w { db = db; fates = fs }))
  unfolding called after_mark_one
  called-IsReply request_id id w done fs (m, db) h =
      after_mark_one-IsReply request_id id w m db fs h
  called-IsReply request_id id w failed_before fs r h = λ j there. refl
  called-IsReply request_id id w failed_after fs (m, db) h = kept_by_script id w (m, db) h

  -- Every reply of handleRead, whatever call of Valkey fails: a broadcast shows the database with a
  -- new mark of the notification at the clock's time, where it had none; an answer to the requester
  -- shows the database, which is unchanged, since the notification was read; `not_found` is for a
  -- notification that is not stored; an invalid request changes nothing; and no reply loses or
  -- changes a mark that was there.
  pub handle_read-IsReply :
      (request_id id : Text) (w : World) → IsReply id w (handle_read size_of request_id id w)
  unfolding handle_read
  handle_read-IsReply request_id id w =
      let script = mark_one_script-MarkedOne id (at w.clock) w.db in
      elim (Bool-cases (not (valid_request_id request_id) || not (valid_ulid id))) [
        | inl e ↦ rw (e, handle_read) refl
        | inr e ↦ simp e (
            called-IsReply request_id id w (next_fate w.fates) (later_fates w.fates)
              (mark_one_script id (at w.clock) w.db) script)
      ]
