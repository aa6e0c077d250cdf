-- ===== src/Notifications/Store/Marks.antt =====
-- What markAllScript of service.go marks and counts.
use virtualme.Prelude.{
  ℕ, suc, ◌+◌, ◌≡◌, refl, sym, ap, ◌∙◌, inl, inr, true, false, Option, none, some, List, [], ◌∷◌,
  arith, if◌then◌else◌, Bool-cases,
}
use virtualme.Text.{Text, text_eq, text_eq_iff}
use virtualme.Notifications.Validate.{member}
use virtualme.Notifications.Store.{
  Row, Mark, Db, is_some, write, set_new, mark_each, mark_all_script,
}
use virtualme.Notifications.Store.Consistent.{IsDistinct, IsConsistent}

-- The identifiers of a list without a mark.
abbrev pub unread_of : List Text → (Text → Option Mark) → ℕ
unread_of [] read = 0
unread_of (id ∷ ids) read =
    if is_some (read id) then unread_of ids read else suc (unread_of ids read)

-- A mark is kept, and every identifier of the list is marked.
abbrev pub or_mark : List Text → Mark → (Text → Option Mark) → Text → Option Mark
or_mark ids mark read j =
    if is_some (read j) then read j else if member j ids then some mark else none

unread_of-write :
    (ids : List Text) (id : Text) (mark : Mark) (read : Text → Option Mark)
    → member id ids ≡ false
    → unread_of ids (write read id mark) ≡ unread_of ids read
unfolding member
unread_of-write [] id mark read h = refl
unread_of-write (x ∷ xs) id mark read h = elim (Bool-cases (text_eq id x)) [
  | inl e ↦
      let back : text_eq x id ≡ true = (text_eq_iff x id).1 (sym ((text_eq_iff id x).0 e)) in
      absurd (ground arith)
  | inr e ↦ let ih = unread_of-write xs id mark read (ground arith) in rw (e, ih)
]

none_of_is_some : (o : Option Mark) → is_some o ≡ false → o ≡ none
none_of_is_some none h = refl
none_of_is_some (some m) h = absurd (cc)

-- A marked head adds nothing.
or_mark_marked :
    (ids : List Text) (id j : Text) (mark : Mark) (read : Text → Option Mark)
    → is_some (read id) ≡ true
    → or_mark ids mark read j ≡ or_mark (id ∷ ids) mark read j
unfolding member
or_mark_marked ids id j mark read e = elim (Bool-cases (text_eq id j)) [
  | inl same ↦
      let f : is_some (read j) ≡ true =
        ap (λ (k : Text). is_some (read k)) (sym ((text_eq_iff id j).0 same)) ∙ e in
      rw f
  | inr other ↦ rw other
]

-- A head without a mark gets it.
or_mark_new :
    (ids : List Text) (id j : Text) (mark : Mark) (read : Text → Option Mark)
    → is_some (read id) ≡ false
    → or_mark ids mark (write read id mark) j ≡ or_mark (id ∷ ids) mark read j
unfolding member
or_mark_new ids id j mark read e = elim (Bool-cases (text_eq id j)) [
  | inl same ↦
      let f : is_some (read j) ≡ false =
        ap (λ (k : Text). is_some (read k)) (sym ((text_eq_iff id j).0 same)) ∙ e in
      rw (same, f)
  | inr other ↦ rw other
]

mark_each_lem :
    (ids : List Text) (mark : Mark) (items : Text → Option Row) (n : ℕ) (read : Text → Option Mark)
    → IsDistinct ids
    → ((k : Text) → member k ids ≡ true → is_some (items k) ≡ true)
    → ((mark_each ids mark items n read).0 ≡ n + unread_of ids read)
      × ((j : Text) → (mark_each ids mark items n read).1 j ≡ or_mark ids mark read j)
unfolding mark_each member set_new
mark_each_lem [] mark items n read d listed = (
  omega arith,
  λ j. elim (Bool-cases (is_some (read j))) [
    | inl e ↦ rw e
    | inr e ↦ rw e (none_of_is_some (read j) e)
  ],
)
mark_each_lem (id ∷ ids) mark items n read d listed =
    let here = listed id (let r = (text_eq_iff id id).1 refl in ground arith) in
    elim (Bool-cases (is_some (read id))) [
      | inl e ↦
          let ih = mark_each_lem ids mark items (n + 0) read d.1 (λ k h. listed k (ground arith)) in
          rw (here, mark_each, e, set_new)
            (omega (arith, ih.0), λ j. ih.1 j ∙ or_mark_marked ids id j mark read e)
      | inr e ↦
          let ih =
            mark_each_lem ids mark items (n + 1) (write read id mark) d.1
              (λ k h. listed k (ground arith)) in
          rw (here, mark_each, e, set_new)
            (
              omega (arith, ih.0, unread_of-write ids id mark read d.0),
              λ j. ih.1 j ∙ or_mark_new ids id j mark read e,
            )
    ]

-- On a consistent database, the mark of all notifications counts those of the list that had no mark,
-- gives each of them the new one, and keeps every mark that was there.
pub mark_all_script_lem :
    (db : Db) (mark : Mark)
    → IsConsistent db
    → ((mark_all_script mark db).0 ≡ unread_of db.order db.read)
      × ((j : Text) → (mark_all_script mark db).1.read j ≡ or_mark db.order mark db.read j)
unfolding mark_all_script
mark_all_script_lem db mark c =
    let r = mark_each_lem db.order mark db.items 0 db.read c.distinct (λ k h. c.listed k ∙ h) in
    (omega (arith, r.0), r.1)
