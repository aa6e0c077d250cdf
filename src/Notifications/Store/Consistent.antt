-- ===== src/Notifications/Store/Consistent.antt =====
-- What the scripts of service.go keep true of the list and the two hashes.
use virtualme.Prelude.{
  ℕ, zero, suc, ◌+◌, ◌≤◌, ◌≡◌, refl, sym, ap, ◌∙◌, ◌⊎◌, inl, inr, true, false, ◌||◌, Option, none,
  some, List, [], ◌∷◌, arith, Bool-cases, length, take, drop, length-take,
}
use virtualme.Text.{Text, text_eq, text_eq_iff}
use virtualme.Notifications.Validate.{member}
use virtualme.Notifications.Store.{
  Row, Row-discrete, Mark, Db, is_some, write, without, retain, Created, present, id_conflict,
  push_new, create_at, create_script, set_new, mark_one_script, mark_each, mark_all_script,
}

-- No identifier stands twice in the list.
abbrev pub IsDistinct : List Text → Type 0
IsDistinct [] = Unit
IsDistinct (x ∷ xs) = (member x xs ≡ false) × IsDistinct xs

-- The list is bounded and has no identifier twice; the items are those of the list; and only those
-- have read marks.
pub record IsConsistent (db : Db) : Type 0 where
  pub bounded : length db.order ≤ retain
  pub distinct : IsDistinct db.order
  pub listed : (id : Text) → is_some (db.items id) ≡ member id db.order
  pub marked : (id : Text) → is_some (db.read id) ≡ true → member id db.order ≡ true

pub member-take-drop :
    (n : ℕ) (x : Text) (xs : List Text)
    → member x xs ≡ (member x (take n xs) || member x (drop n xs))
unfolding member
member-take-drop zero x xs = refl
member-take-drop (suc n) x [] = refl
member-take-drop (suc n) x (y ∷ ys) = ground (arith, member-take-drop n x ys)

-- What the list keeps it has not lost.
IsDistinct-take-drop :
    (n : ℕ) (x : Text) (xs : List Text)
    → IsDistinct xs
    → member x (take n xs) ≡ true
    → member x (drop n xs) ≡ false
unfolding member
IsDistinct-take-drop zero x xs d h = absurd (cc)
IsDistinct-take-drop (suc n) x [] d h = absurd (cc)
IsDistinct-take-drop (suc n) x (y ∷ ys) d h = elim (Bool-cases (text_eq y x)) [
  | inl e ↦
      let same = (text_eq_iff y x).0 e in
      let absent : member x ys ≡ false = ap (λ (z : Text). member z ys) (sym same) ∙ d.0 in
      ground (arith, member-take-drop n x ys)
  | inr e ↦ IsDistinct-take-drop n x ys d.1 (ground arith)
]

IsDistinct-take : (n : ℕ) (xs : List Text) → IsDistinct xs → IsDistinct (take n xs)
unfolding member
IsDistinct-take zero xs d = tt
IsDistinct-take (suc n) [] d = tt
IsDistinct-take (suc n) (x ∷ xs) d =
    (let absent = d.0 in ground (arith, member-take-drop n x xs), IsDistinct-take n xs d.1)

module _ (db : Db) (c : IsConsistent db) (id : Text) (body : Row) (fresh : db.items id ≡ none) where
  absent_id : member id db.order ≡ false
  absent_id = sym (c.listed id) ∙ ap is_some fresh

  order' : List Text
  order' = id ∷ db.order

  distinct' : IsDistinct order'
  unfolding order'
  distinct' = (absent_id, c.distinct)

  listed' : (j : Text) → is_some (write db.items id body j) ≡ member j order'
  unfolding order' member
  listed' j = let h = c.listed j in ground arith

  kept_or_lost :
      (j : Text)
      → ((member j (drop retain order') ≡ true) × (member j (take retain order') ≡ false))
        ⊎ ((member j (drop retain order') ≡ false)
            × (member j (take retain order') ≡ member j order'))
  kept_or_lost j =
      let e = member-take-drop retain j order' in
      let d = IsDistinct-take-drop retain j order' distinct' in
      elim (Bool-cases (member j (take retain order'))) [
        | inl h ↦ inr (d h, ground arith)
        | inr h ↦ elim (Bool-cases (member j (drop retain order'))) [
          | inl k ↦ inl (k, h)
          | inr k ↦ inr (k, ground arith)
        ]
      ]

  listed_after :
      (j : Text)
      → is_some (without (write db.items id body) (drop retain order') j)
        ≡ member j (take retain order')
  listed_after j = elim (kept_or_lost j) [
    | inl h ↦ rw (h.0, h.1)
    | inr h ↦ rw (h.0, h.1) (listed' j)
  ]

  marked_after :
      (j : Text)
      → is_some (without db.read (drop retain order') j) ≡ true
      → member j (take retain order') ≡ true
  unfolding order' member
  marked_after j m = elim (kept_or_lost j) [
    | inl h ↦ absurd (let e = h.0 in ground arith)
    | inr h ↦
        let still : is_some (db.read j) ≡ true = (let e = h.0 in ground arith) in
        let old = c.marked j still in rw h.1 (ground arith)
  ]

  pub push_new-IsConsistent : IsConsistent (push_new id body db)
  unfolding push_new order'
  push_new-IsConsistent = record {
    bounded = omega (arith, length-take retain order');
    distinct = IsDistinct-take retain order' distinct';
    listed = listed_after;
    marked = marked_after;
  }

create_at-IsConsistent :
    (db : Db) (o : Option Row) (id : Text) (body : Row)
    → IsConsistent db
    → db.items id ≡ o
    → IsConsistent (create_at o id body db).1
unfolding create_at
create_at-IsConsistent db none id body c e = push_new-IsConsistent db c id body e
create_at-IsConsistent db (some old) id body c e =
    elim (Row-discrete old body)
      as (λ d.
        IsConsistent
          (elim d as (λ _. Created × Db) [ yes p ↦ (present, db) | no p ↦ (id_conflict, db) ]).1) [
            | yes p ↦ c
            | no p ↦ c
          ]

pub create_script-IsConsistent :
    (db : Db) (id : Text) (body : Row) → IsConsistent db → IsConsistent (create_script id body db).1
unfolding create_script
create_script-IsConsistent db id body c = create_at-IsConsistent db (db.items id) id body c refl

-- A mark for a listed identifier.
set_new_marked :
    (order : List Text) (id j : Text) (mark : Mark) (read : Text → Option Mark)
    → member id order ≡ true
    → ((k : Text) → is_some (read k) ≡ true → member k order ≡ true)
    → is_some ((set_new id mark read).1 j) ≡ true
    → member j order ≡ true
unfolding set_new
set_new_marked order id j mark read here h m = elim (Bool-cases (is_some (read id))) [
  | inl e ↦ h j (rw (e, set_new) at m)
  | inr e ↦ elim (Bool-cases (text_eq id j)) [
    | inl f ↦ ap (λ (z : Text). member z order) (sym ((text_eq_iff id j).0 f)) ∙ here
    | inr f ↦ h j (rw (e, f, set_new) at m)
  ]
]

mark_each_marked :
    (order ids : List Text) (mark : Mark) (items : Text → Option Row) (n : ℕ)
    (read : Text → Option Mark)
    → ((k : Text) → is_some (items k) ≡ member k order)
    → ((k : Text) → is_some (read k) ≡ true → member k order ≡ true)
    → (j : Text) → is_some ((mark_each ids mark items n read).1 j) ≡ true
    → member j order ≡ true
unfolding mark_each
mark_each_marked order [] mark items n read listed marked j m = marked j m
mark_each_marked order (id ∷ ids) mark items n read listed marked j m =
    elim (Bool-cases (is_some (items id))) [
      | inl e ↦
          mark_each_marked order ids mark items (n + (set_new id mark read).0)
            (set_new id mark read).1 listed
            (λ k h. set_new_marked order id k mark read (sym (listed id) ∙ e) marked h) j
            (rw (e, mark_each) at m)
      | inr e ↦
          mark_each_marked order ids mark items n read listed marked j (rw (e, mark_each) at m)
    ]

pub mark_all_script-IsConsistent :
    (db : Db) (mark : Mark) → IsConsistent db → IsConsistent (mark_all_script mark db).1
unfolding mark_all_script
mark_all_script-IsConsistent db mark c = record {
  bounded = c.bounded;
  distinct = c.distinct;
  listed = c.listed;
  marked = mark_each_marked db.order db.order mark db.items 0 db.read c.listed c.marked;
}

pub mark_one_script-IsConsistent :
    (db : Db) (id : Text) (mark : Mark)
    → IsConsistent db
    → IsConsistent (mark_one_script id mark db).1
unfolding mark_one_script
mark_one_script-IsConsistent db id mark c = elim (Bool-cases (is_some (db.items id))) [
  | inl e ↦
      rw (e, mark_one_script)
        (record {
          bounded = c.bounded;
          distinct = c.distinct;
          listed = c.listed;
          marked =
              λ j m. set_new_marked db.order id j mark db.read (sym (c.listed id) ∙ e) c.marked m;
        })
  | inr e ↦ rw (e, mark_one_script) c
]

-- A script that changes the database.
pub data Script : Type 0 where
  creation : Text → Row → Script
  mark_one : Text → Mark → Script
  mark_all : Mark → Script

abbrev pub run_script : Script → Db → Db
run_script (creation id body) db = (create_script id body db).1
run_script (mark_one id mark) db = (mark_one_script id mark db).1
run_script (mark_all mark) db = (mark_all_script mark db).1

abbrev pub run_scripts : List Script → Db → Db
run_scripts [] db = db
run_scripts (s ∷ ss) db = run_scripts ss (run_script s db)

abbrev pub empty_db : Db
empty_db = record { order = []; items = λ k. none; read = λ k. none }

run_script-IsConsistent : (s : Script) (db : Db) → IsConsistent db → IsConsistent (run_script s db)
run_script-IsConsistent (creation id body) db c = create_script-IsConsistent db id body c
run_script-IsConsistent (mark_one id mark) db c = mark_one_script-IsConsistent db id mark c
run_script-IsConsistent (mark_all mark) db c = mark_all_script-IsConsistent db mark c

run_scripts-from : (ss : List Script) (db : Db) → IsConsistent db → IsConsistent (run_scripts ss db)
run_scripts-from [] db c = c
run_scripts-from (s ∷ ss) db c =
    run_scripts-from ss (run_script s db) (run_script-IsConsistent s db c)

empty-IsConsistent : IsConsistent empty_db
unfolding member
empty-IsConsistent = record {
  bounded = omega arith;
  distinct = tt;
  listed = λ id. refl;
  marked = λ id h. absurd (cc);
}

-- From an empty database on, whatever creations and read marks the scripts are called for and in
-- whatever order: the list has at most 500 identifiers and none twice, the items are exactly those
-- of the list, and every read mark belongs to an identifier of the list.
pub run_scripts-IsConsistent : (ss : List Script) → IsConsistent (run_scripts ss empty_db)
run_scripts-IsConsistent ss = run_scripts-from ss empty_db empty-IsConsistent
