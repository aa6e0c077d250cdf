-- ===== src/Projects/Records/Tables.antt =====
-- What holds of all entries of a hash, through the calls that write it.
use virtualme.Prelude.{
  ◌≡◌, ◌≢◌, refl, sym, ◌∙◌, subst, true, false, Option, List, [], ◌∷◌, All, by_test,
}
use virtualme.Text.{Text, text_eq, text_eq_iff}
use virtualme.Projects.Records.{
  Project, Stored, project, junk, Fate, done, failed_before, failed_after, Table, World, Result, ok,
  err, next_fate, after_call, put, find, without, decoded, read_project, get, write_project, save,
  projects_of, precedes, insert, sort, listed, list,
}

abbrev pub Entry : Type 0
Entry = Text × Stored

module _ (P : Entry → Type 0) where
  pub put-All :
      (key : Text) (v : Stored) (table : Table) → P (key, v) → All P table → All P (put key v table)
  put-All key v [] h hs = (h, tt)
  put-All key v ((k, u) ∷ rest) h (g, hs) =
      by_test (All P) (text_eq k key)
        (λ e. (subst (λ t. P (t, v)) (sym ((text_eq_iff k key).0 e)) h, hs))
        (λ e. (g, put-All key v rest h hs))

  pub without-All : (key : Text) (table : Table) → All P table → All P (without key table)
  without-All key [] hs = tt
  without-All key ((k, u) ∷ rest) (g, hs) =
      by_test (All P) (text_eq k key) (λ e. without-All key rest hs)
        (λ e. (g, without-All key rest hs))

  -- A save, whatever its fate.
  write_project-All :
      (f : Fate) (p : Project) (w : World)
      → P (p.id, project p)
      → All P w.table
      → All P ((write_project f p w).1).table
  unfolding write_project
  write_project-All done p w h hs = put-All p.id (project p) w.table h hs
  write_project-All failed_before p w h hs = hs
  write_project-All failed_after p w h hs = put-All p.id (project p) w.table h hs

  pub save-All :
      (p : Project) (w : World) → P (p.id, project p) → All P w.table → All P ((save p w).1).table
  unfolding save
  save-All p w h hs = write_project-All (next_fate w.fates) p (after_call w) h hs

-- A project is stored under its id, and no key occurs twice.
abbrev IsKeyed : Entry → Type 0
IsKeyed (k, project p) = p.id ≡ k
IsKeyed (k, junk t) = Unit

abbrev pub IsHash : Table → Type 0
IsHash [] = Unit
IsHash ((k, v) ∷ rest) = IsKeyed (k, v) × All (λ e. e.0 ≢ k) rest × IsHash rest

true_ne_false : true ≢ false
true_ne_false = λ h. cc

pub apart : (k key : Text) → text_eq k key ≡ false → k ≢ key
apart k key e = λ same. absurd (true_ne_false (sym ((text_eq_iff k key).1 same) ∙ e))

put-IsHash : (p : Project) (table : Table) → IsHash table → IsHash (put p.id (project p) table)
put-IsHash p [] h = (refl, tt, tt)
put-IsHash p ((k, u) ∷ rest) (g, fresh, h) =
    by_test IsHash (text_eq k p.id) (λ e. (sym ((text_eq_iff k p.id).0 e), fresh, h))
      (λ e. (
        g,
        put-All (λ e. e.0 ≢ k) p.id (project p) rest (λ same. apart k p.id e (sym same)) fresh,
        put-IsHash p rest h,
      ))

write_project-IsHash :
    (f : Fate) (p : Project) (w : World) → IsHash w.table → IsHash ((write_project f p w).1).table
unfolding write_project
write_project-IsHash done p w h = put-IsHash p w.table h
write_project-IsHash failed_before p w h = h
write_project-IsHash failed_after p w h = put-IsHash p w.table h

pub save-IsHash : (p : Project) (w : World) → IsHash w.table → IsHash ((save p w).1).table
unfolding save
save-IsHash p w h = write_project-IsHash (next_fate w.fates) p (after_call w) h

-- A property of the projects with some id.
abbrev pub OfId : (Project → Type 0) → Text → Entry → Type 0
OfId Q id (k, project p) = p.id ≡ id → Q p
OfId Q id (k, junk t) = Unit

module _ (Q : Project → Type 0) where
  others : (k : Text) (rest : Table) → All (λ e. e.0 ≢ k) rest → IsHash rest → All (OfId Q k) rest
  others k [] fresh h = tt
  others k ((j, junk t) ∷ rest) (ne, fresh) (g, fresh', h) = (tt, others k rest fresh h)
  others k ((j, project q) ∷ rest) (ne, fresh) (g, fresh', h) =
      (λ e. absurd (ne (sym g ∙ e)), others k rest fresh h)

  other_entry : (k id : Text) (u : Stored) → IsKeyed (k, u) → k ≢ id → OfId Q id (k, u)
  other_entry k id (junk t) g ne = tt
  other_entry k id (project q) g ne = λ e. absurd (ne (sym g ∙ e))

  pub put-own :
      (p : Project) (table : Table)
      → Q p
      → IsHash table
      → All (OfId Q p.id) (put p.id (project p) table)
  put-own p [] q h = (λ e. q, tt)
  put-own p ((k, u) ∷ rest) q (g, fresh, h) =
      by_test (All (OfId Q p.id)) (text_eq k p.id)
        (λ e. (
          λ _. q,
          subst (λ t. All (OfId Q t) rest) ((text_eq_iff k p.id).0 e) (others k rest fresh h),
        ))
        (λ e. (other_entry k p.id u g (apart k p.id e), put-own p rest q h))

  -- The list of the projects, in any order.
  projects_of-All :
      (id : Text) (table : Table)
      → All (OfId Q id) table
      → All (λ p. p.id ≡ id → Q p) (projects_of table)
  unfolding projects_of
  projects_of-All id [] h = tt
  projects_of-All id ((k, project p) ∷ rest) (g, h) = (g, projects_of-All id rest h)
  projects_of-All id ((k, junk t) ∷ rest) (g, h) = projects_of-All id rest h

  insert-All :
      (lower : Text → Text) (p : Project) (ps : List Project)
      → Q p
      → All Q ps
      → All Q (insert lower p ps)
  unfolding insert
  insert-All lower p [] h hs = (h, tt)
  insert-All lower p (q ∷ qs) h (g, hs) =
      by_test (All Q) (precedes lower q p) (λ e. (g, insert-All lower p qs h hs))
        (λ e. (h, (g, hs)))

  sort-All : (lower : Text → Text) (ps : List Project) → All Q ps → All Q (sort lower ps)
  unfolding sort
  sort-All lower [] h = tt
  sort-All lower (p ∷ ps) (h, hs) = insert-All lower p (sort lower ps) h (sort-All lower ps hs)

abbrev pub Listed : (Project → Type 0) → Result (List Project) → Type 0
Listed Q (ok ps) = All Q ps
Listed Q (err e) = Unit

listed-Listed :
    (lower : Text → Text) (Q : Project → Type 0) (id : Text) (f : Fate) (table : Table)
    → All (OfId Q id) table
    → Listed (λ p. p.id ≡ id → Q p) (listed lower f table)
unfolding listed
listed-Listed lower Q id done table h =
    sort-All (λ p. p.id ≡ id → Q p) lower (projects_of table) (projects_of-All Q id table h)
listed-Listed lower Q id failed_before table h = tt
listed-Listed lower Q id failed_after table h = tt

pub list-Listed :
    (lower : Text → Text) (Q : Project → Type 0) (id : Text) (w : World)
    → All (OfId Q id) w.table
    → Listed (λ p. p.id ≡ id → Q p) ((list lower w).0)
unfolding list
list-Listed lower Q id w h = listed-Listed lower Q id (next_fate w.fates) w.table h

pub list-IsHash :
    (lower : Text → Text) (w : World) → IsHash w.table → IsHash ((list lower w).1).table
unfolding list
list-IsHash lower w h = h

-- What a project that is read satisfies.
module _ (Q : Project → Type 0) where
  abbrev pub OnProject : Entry → Type 0
  OnProject (k, project p) = Q p
  OnProject (k, junk t) = Unit

  abbrev pub Read : Result Project → Type 0
  Read (ok p) = Q p
  Read (err e) = Unit

  decoded-Read : (id : Text) (table : Table) → All OnProject table → Read (decoded (find id table))
  unfolding decoded
  decoded-Read id [] h = tt
  decoded-Read id ((k, project p) ∷ rest) (g, h) =
      by_test (λ (o : Option Stored). Read (decoded o)) (text_eq k id) (λ e. g)
        (λ e. decoded-Read id rest h)
  decoded-Read id ((k, junk t) ∷ rest) (g, h) =
      by_test (λ (o : Option Stored). Read (decoded o)) (text_eq k id) (λ e. tt)
        (λ e. decoded-Read id rest h)

  read_project-Read :
      (f : Fate) (id : Text) (table : Table) → All OnProject table → Read (read_project f id table)
  unfolding read_project
  read_project-Read done id table h = decoded-Read id table h
  read_project-Read failed_before id table h = tt
  read_project-Read failed_after id table h = tt

  pub get-Read : (id : Text) (w : World) → All OnProject w.table → Read ((get id w).0)
  unfolding get
  get-Read id w h = read_project-Read (next_fate w.fates) id w.table h

  projects_of-every : (table : Table) → All OnProject table → All Q (projects_of table)
  unfolding projects_of
  projects_of-every [] h = tt
  projects_of-every ((k, project p) ∷ rest) (g, h) = (g, projects_of-every rest h)
  projects_of-every ((k, junk t) ∷ rest) (g, h) = projects_of-every rest h

  listed-every :
      (lower : Text → Text) (f : Fate) (table : Table)
      → All OnProject table
      → Listed Q (listed lower f table)
  unfolding listed
  listed-every lower done table h = sort-All Q lower (projects_of table) (projects_of-every table h)
  listed-every lower failed_before table h = tt
  listed-every lower failed_after table h = tt

  pub list-every :
      (lower : Text → Text) (w : World) → All OnProject w.table → Listed Q ((list lower w).0)
  unfolding list
  list-every lower w h = listed-every lower (next_fate w.fates) w.table h

pub without-IsHash : (key : Text) (table : Table) → IsHash table → IsHash (without key table)
without-IsHash key [] h = tt
without-IsHash key ((k, u) ∷ rest) (g, fresh, h) =
    by_test IsHash (text_eq k key) (λ e. without-IsHash key rest h)
      (λ e. (g, without-All (λ e. e.0 ≢ k) key rest fresh, without-IsHash key rest h))
