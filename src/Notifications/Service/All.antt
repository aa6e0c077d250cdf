-- ===== src/Notifications/Service/All.antt =====
-- What handleReadAll of service.go replies, on every branch.
use virtualme.Prelude.{
  ℕ, zero, suc, ◌≡◌, ◌<◌, refl, sym, ◌⊎◌, inl, inr, not, List, some, Bool-cases, arith,
}
use virtualme.Text.{Text}
use virtualme.Notifications.Detail.{Json}
use virtualme.Notifications.Store.{Db, at, mark_all_script}
use virtualme.Notifications.Store.Consistent.{IsConsistent}
use virtualme.Notifications.Store.Marks.{unread_of, or_mark, mark_all_script_lem}
use virtualme.Notifications.Snapshot.{state_frame, snapshot_locked, valid_request_id}
use virtualme.Notifications.Lifecycle.{
  World, Fate, done, failed_before, failed_after, next_fate, later_fates,
}
use virtualme.Notifications.Service.{
  all_read, invalid_request, not_found, persistence_failed, Output, broadcast, answer, refusal,
  called, read_frame, message, send_snapshot, broadcast_change, handle_read_all, after_mark_all,
  answered, told,
}

-- Every notification of the list that had no mark has one of the clock's time.
abbrev pub AllMarked : World → Db → Type 0
AllMarked w db = (j : Text) → db.read j ≡ or_mark w.db.order (at w.clock) w.db.read j

abbrev pub Unchanged : World → Db → Type 0
Unchanged w db = (j : Text) → db.read j ≡ w.db.read j

module _ (size_of : Json → ℕ) where
  abbrev pub IsReplyToAll : World → Output × World → Type 0
  IsReplyToAll w (broadcast f c, w') =
      (f ≡ state_frame (snapshot_locked size_of w'.db))
      × (c ≡ all_read w.clock)
      × (0 < unread_of w.db.order w.db.read)
      × AllMarked w w'.db
  IsReplyToAll w (answer f, w') =
      (f ≡ state_frame (snapshot_locked size_of w'.db))
      × (unread_of w.db.order w.db.read ≡ 0)
      × AllMarked w w'.db
  IsReplyToAll w (refusal r invalid_request, w') = w' ≡ w
  IsReplyToAll w (refusal r not_found, w') = ⊥
  IsReplyToAll w (refusal r persistence_failed, w') = Unchanged w w'.db ⊎ AllMarked w w'.db

  frame-IsReplyToAll :
      (request_id : Text) (w : World) (db : Db) (fs : List Fate) (g : Fate)
      → 0 < unread_of w.db.order w.db.read
      → AllMarked w db
      → IsReplyToAll w (
        told request_id
            (all_read w.clock)
            (read_frame g (state_frame (snapshot_locked size_of db))),
        record w { db = db; fates = fs },
      )
  unfolding told read_frame
  frame-IsReplyToAll request_id w db fs done some_unread marked = (refl, refl, some_unread, marked)
  frame-IsReplyToAll request_id w db fs failed_before some_unread marked = inr marked
  frame-IsReplyToAll request_id w db fs failed_after some_unread marked = inr marked

  answered-IsReplyToAll :
      (request_id : Text) (w : World) (db : Db) (fs : List Fate) (g : Fate)
      → unread_of w.db.order w.db.read ≡ 0
      → AllMarked w db
      → IsReplyToAll w (
        answered request_id (read_frame g (state_frame (snapshot_locked size_of db))),
        record w { db = db; fates = fs },
      )
  unfolding answered read_frame
  answered-IsReplyToAll request_id w db fs done no_unread marked = (refl, no_unread, marked)
  answered-IsReplyToAll request_id w db fs failed_before no_unread marked = inr marked
  answered-IsReplyToAll request_id w db fs failed_after no_unread marked = inr marked

  after_mark_all-IsReplyToAll :
      (request_id : Text) (w : World) (n : ℕ) (db : Db) (fs : List Fate)
      → n ≡ unread_of w.db.order w.db.read
      → AllMarked w db
      → IsReplyToAll w
          (after_mark_all size_of request_id (some n) (record w { db = db; fates = fs }))
  unfolding after_mark_all send_snapshot broadcast_change message
  after_mark_all-IsReplyToAll request_id w zero db fs e marked =
      answered-IsReplyToAll request_id w db (later_fates fs) (next_fate fs) (sym e) marked
  after_mark_all-IsReplyToAll request_id w (suc k) db fs e marked =
      frame-IsReplyToAll request_id w db (later_fates fs) (next_fate fs) (omega (arith, e)) marked

  called-IsReplyToAll :
      (request_id : Text) (w : World) (f : Fate) (fs : List Fate) (r : ℕ × Db)
      → r.0 ≡ unread_of w.db.order w.db.read
      → AllMarked w r.1
      → IsReplyToAll w (
          let (n, db) = called f r w.db in
          after_mark_all size_of request_id n (record w { db = db; fates = fs }))
  unfolding called after_mark_all
  called-IsReplyToAll request_id w done fs (n, db) e marked =
      after_mark_all-IsReplyToAll request_id w n db fs e marked
  called-IsReplyToAll request_id w failed_before fs r e marked = inl (λ j. refl)
  called-IsReplyToAll request_id w failed_after fs (n, db) e marked = inr marked

  -- Every reply of handleReadAll on a consistent database, whatever call of Valkey fails: if there
  -- are unread notifications, all of them are marked with the clock's time and a broadcast shows the
  -- database after it; if there is none, an answer shows it to the requester; an invalid request
  -- changes nothing; and if a call fails, all of them are marked or none is. Earlier marks stay.
  pub handle_read_all-IsReplyToAll :
      (request_id : Text) (w : World)
      → IsConsistent w.db
      → IsReplyToAll w (handle_read_all size_of request_id w)
  unfolding handle_read_all
  handle_read_all-IsReplyToAll request_id w c =
      let script = mark_all_script_lem w.db (at w.clock) c in
      elim (Bool-cases (not (valid_request_id request_id))) [
        | inl e ↦ rw (e, handle_read_all) refl
        | inr e ↦ simp e (
            called-IsReplyToAll request_id w (next_fate w.fates) (later_fates w.fates)
              (mark_all_script (at w.clock) w.db) script.0 script.1)
      ]
