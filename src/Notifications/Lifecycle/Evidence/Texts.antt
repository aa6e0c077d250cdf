-- ===== src/Notifications/Lifecycle/Evidence/Texts.antt =====
-- What a valid marker says of the notification that it holds.
use virtualme.Prelude.{ℕ, ◌≡◌, refl, subst, true, false, ◌||◌, not, ◌==◌, some, arith}
use virtualme.Text.{codes, text_eq, text_eq_iff}
use virtualme.Notifications.Ulid.{valid_ulid}
use virtualme.Notifications.Detail.{Json}
use virtualme.Notifications.Result.{Result, ok, err, invalid_exact, refuse_if-eq-ok}
use virtualme.Notifications.Validate.{Notification, validate_exact}
use virtualme.Notifications.Lifecycle.Evidence.{
  Marker, valid_marker, valid_state, valid_pending, has_texts, expected, is_ok, clean_pending,
  unclean_recovery,
}

-- A pending marker of the unclean recovery, with its notification.
pub record Announces (size_of : Json → ℕ) (m : Marker) (n : Notification) : Type 0 where
  pub checks : valid_marker size_of m ≡ true
  pub waits : m.state ≡ clean_pending
  pub why : m.reason ≡ unclean_recovery
  pub holds : m.pending_notification ≡ some n

abbrev pub IsUnclean : Notification → Type 0
IsUnclean n = (n.type ≡ codes "error") × (n.subtype ≡ codes "unclean-startup")

exact_ok : (r : Result (Unit {0})) → is_ok r ≡ true → r ≡ ok tt
unfolding is_ok
exact_ok (ok tt) h = refl
exact_ok (err e) h = absurd (cc)

-- An exact notification is unread.
pub exact_unread :
    (size_of : Json → ℕ) (n : Notification) → validate_exact size_of n ≡ ok tt → n.read_at_ms ≡ 0
unfolding validate_exact
exact_unread size_of n h =
    let inexact = not (valid_ulid n.id) || (not (n.read_at_ms == 0) || n.created_at_ms == 0) in
    let e : inexact ≡ false = (refuse_if-eq-ok inexact invalid_exact _ h).0 in ground arith

module _ {size_of : Json → ℕ} {m : Marker} {n : Notification} (a : Announces size_of m n) where
  pending_is_valid : valid_pending size_of m (some n) ≡ true
  unfolding valid_marker valid_state
  pending_is_valid =
      let v = a.checks in
      let s : valid_state size_of m.state m ≡ true = ground arith in
      let p : valid_state size_of clean_pending m ≡ true =
        subst (λ z. valid_state size_of z m ≡ true) a.waits s in
      let q : valid_pending size_of m m.pending_notification ≡ true = ground arith in
      subst (λ z. valid_pending size_of m z ≡ true) a.holds q

  -- Its notification is exact, and of an unclean start.
  pub announced_exact : validate_exact size_of n ≡ ok tt
  unfolding valid_pending
  announced_exact = let p = pending_is_valid in exact_ok (validate_exact size_of n) (ground arith)

  pub announced-IsUnclean : IsUnclean n
  unfolding valid_pending has_texts expected
  announced-IsUnclean =
      let p = pending_is_valid in
      let t : has_texts (expected m.reason) n ≡ true = ground arith in
      let u : has_texts (expected unclean_recovery) n ≡ true =
        subst (λ z. has_texts (expected z) n ≡ true) a.why t in
      let e : text_eq n.type (codes "error") ≡ true = ground arith in
      let f : text_eq n.subtype (codes "unclean-startup") ≡ true = ground arith in
      (
        (text_eq_iff n.type (codes "error")).0 e,
        (text_eq_iff n.subtype (codes "unclean-startup")).0 f,
      )

  pub announced_id : text_eq m.notification_id n.id ≡ true
  unfolding valid_pending
  announced_id = let p = pending_is_valid in ground arith
