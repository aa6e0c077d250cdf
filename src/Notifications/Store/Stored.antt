-- ===== src/Notifications/Store/Stored.antt =====
-- What createScript leaves under the identifier of its argument.
use virtualme.Prelude.{
  ℕ, ◌≡◌, refl, sym, ap, ◌∙◌, ◌⊎◌, inl, inr, Option, none, some, List, ◌∷◌, arith, true, false,
  drop, Bool-cases, by_test,
}
use virtualme.Text.{Text, text_eq, text_eq_iff}
use virtualme.Notifications.Validate.{member}
use virtualme.Notifications.Store.{
  Row, Row-discrete, Mark, Db, retain, push_new, Created, present, id_conflict, create_script,
  create_at, write, without, is_some,
}
use virtualme.Notifications.Store.Consistent.{
  IsConsistent, create_script-IsConsistent, member-take-drop,
}

written_here :
    (items : Text → Option Row) (id : Text) (body : Row) (lost : List Text)
    → is_some (without (write items id body) lost id) ≡ true
    → without (write items id body) lost id ≡ some body
written_here items id body lost h =
    let same : text_eq id id ≡ true = (text_eq_iff id id).1 refl in ground arith

listed_first :
    (db : Db) (id : Text) (body : Row)
    → IsConsistent (push_new id body db)
    → (push_new id body db).items id ≡ some body
unfolding push_new member
listed_first db id body c =
    let same : text_eq id id ≡ true = (text_eq_iff id id).1 refl in
    let listed = c.listed id in
    written_here db.items id body (drop retain (id ∷ db.order)) (listed ∙ ground arith)

create_at-stored :
    (db : Db) (id : Text) (body : Row) (o : Option Row)
    → db.items id ≡ o
    → IsConsistent (create_at o id body db).1
    → ((create_at o id body db).0 ≡ id_conflict) ⊎ ((create_at o id body db).1.items id ≡ some body)
unfolding create_at
create_at-stored db id body none e c = inr (listed_first db id body c)
create_at-stored db id body (some old) e c =
    elim (Row-discrete old body)
      as (λ d.
        ((elim d as (λ _. Created × Db) [ yes p ↦ (present, db) | no p ↦ (id_conflict, db) ]).0
          ≡ id_conflict)
        ⊎ ((elim d as (λ _. Created × Db) [
          | yes p ↦ (present, db)
          | no p ↦ (id_conflict, db)
        ]).1.items
              id
            ≡ some body)) [ yes p ↦ inr (e ∙ ap some p) | no p ↦ inl refl ]

-- What createScript accepts it stores.
pub create_script-stored :
    (db : Db) (id : Text) (body : Row)
    → IsConsistent db
    → ((create_script id body db).0 ≡ id_conflict)
      ⊎ ((create_script id body db).1.items id ≡ some body)
unfolding create_script
create_script-stored db id body c =
    create_at-stored db id body (db.items id) refl (create_script-IsConsistent db id body c)

member-drop :
    (x : Text) (xs : List Text) (n : ℕ) → member x xs ≡ false → member x (drop n xs) ≡ false
member-drop x xs n h = let e = member-take-drop n x xs in ground arith

-- Without an item there is no mark.
pub read_fresh : (db : Db) (id : Text) → IsConsistent db → db.items id ≡ none → db.read id ≡ none
read_fresh db id c e =
    let absent : member id db.order ≡ false = sym (c.listed id) ∙ ap is_some e in
    elim (Bool-cases (is_some (db.read id))) [
      | inl h ↦ let present = c.marked id h in absurd (cc)
      | inr h ↦ none_of (db.read id) h
    ]
  where
    none_of : (o : Option Mark) → (is_some o ≡ false) → o ≡ none
    none_of none h = refl
    none_of (some m) h = absurd (cc)

without-read :
    (read : Text → Option Mark) (id : Text) (lost : List Text)
    → read id ≡ none
    → without read lost id ≡ read id
without-read read id lost h =
    by_test (λ (o : Option Mark). o ≡ read id) (member id lost) (λ e. sym h) (λ e. refl)

create_at-read :
    (db : Db) (id : Text) (body : Row) (o : Option Row)
    → IsConsistent db
    → db.items id ≡ o
    → (create_at o id body db).1.read id ≡ db.read id
unfolding create_at push_new
create_at-read db id body none c e =
    without-read db.read id (drop retain (id ∷ db.order)) (read_fresh db id c e)
create_at-read db id body (some old) c e =
    elim (Row-discrete old body)
      as (λ d.
        (elim d as (λ _. Created × Db) [ yes p ↦ (present, db) | no p ↦ (id_conflict, db) ]).1.read
          id
        ≡ db.read id) [ yes p ↦ refl | no p ↦ refl ]

-- createScript marks nothing, and unmarks nothing under its identifier.
pub create_script-read :
    (db : Db) (id : Text) (body : Row)
    → IsConsistent db
    → (create_script id body db).1.read id ≡ db.read id
unfolding create_script
create_script-read db id body c = create_at-read db id body (db.items id) c refl
