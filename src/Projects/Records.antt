-- ===== src/Projects/Records.antt =====
-- projects.go's records and the calls of Valkey that read and write them. A hash is a list of keys
-- with values, one for each key; each call takes its fate from a list in the world. The JSON of a
-- record is the record itself, or a text that does not decode to one.
pub mod Tables
use virtualme.Prelude.{
  ℕ, ◌+◌, Bool, true, false, Option, none, some, List, [], ◌∷◌, ltb, ◌==◌, if◌then◌else◌,
}
use virtualme.Decimal.{ℤ}
use virtualme.Text.{Text, text_eq, to_lower}

pub record Project : Type 0 where
  pub id : Text
  pub name : Text
  pub task : Text
  pub selector : Text
  pub enabled : Bool
  pub created_ts : ℕ
  pub last_run_ts : ℕ
  pub last_enqueued_bucket : Text

pub record RunSummary : Type 0 where
  pub ts : ℕ
  pub job_id : Text
  pub ok : Bool
  pub summary : Text
  pub duration_ms : ℤ
  pub manual : Bool

pub data Stored : Type 0 where
  project : Project → Stored
  junk : Text → Stored

pub data Fate : Type 0 where
  done failed_before failed_after : Fate

abbrev pub Table : Type 0
Table = List (Text × Stored)

pub record World : Type 0 where
  pub table : Table
  pub runs : List (Text × List RunSummary)
  pub fates : List Fate

pub data Error : Type 0 where
  unavailable not_found undecodable bad_name bad_task bad_selector no_task bad_payload
        no_directory :
      Error

pub data Result (A : Type 0) : Type 0 where
  ok : A → Result A
  err : Error → Result A

infixl 5 ◌>>=◌ ◌>>◌
abbrev pub ◌>>=◌ : {A B : Type 0} → Result A → (A → Result B) → Result B
ok a >>= f = f a
err e >>= f = err e

abbrev pub ◌>>◌ : {A B : Type 0} → Result A → Result B → Result B
m >> k = m >>= λ _. k

abbrev pub next_fate : List Fate → Fate
next_fate [] = done
next_fate (f ∷ fs) = f

abbrev pub later_fates : List Fate → List Fate
later_fates [] = []
later_fates (f ∷ fs) = fs

abbrev pub after_call : World → World
after_call w = record w { fates = later_fates w.fates }

abbrev pub find : {A : Type 0} → Text → List (Text × A) → Option A
find key [] = none
find key ((k, v) ∷ rest) = if text_eq k key then some v else find key rest

-- HSET on a key.
abbrev pub put : {A : Type 0} → Text → A → List (Text × A) → List (Text × A)
put key v [] = (key, v) ∷ []
put key v ((k, u) ∷ rest) =
    let later = put key v rest in if text_eq k key then (k, v) ∷ rest else (k, u) ∷ later

-- HDEL and DEL.
abbrev pub without : {A : Type 0} → Text → List (Text × A) → List (Text × A)
without key [] = []
without key ((k, v) ∷ rest) =
    let later = without key rest in if text_eq k key then later else (k, v) ∷ later

decoded : Option Stored → Result Project
decoded none = err not_found
decoded (some (junk t)) = err undecodable
decoded (some (project p)) = ok p

read_project : Fate → Text → Table → Result Project
unfolding decoded
read_project done id table = decoded (find id table)
read_project failed_before id table = err unavailable
read_project failed_after id table = err unavailable

unfoldable pub get : Text → World → Result Project × World
unfolding read_project
get id w = (read_project (next_fate w.fates) id w.table, after_call w)

unfoldable pub write_project : Fate → Project → World → Result Unit × World
write_project done p w = (ok tt, record w { table = put p.id (project p) w.table })
write_project failed_before p w = (err unavailable, w)
write_project failed_after p w =
    (err unavailable, record w { table = put p.id (project p) w.table })

unfoldable pub save : Project → World → Result Unit × World
unfolding write_project
save p w = write_project (next_fate w.fates) p (after_call w)

projects_of : Table → List Project
projects_of [] = []
projects_of ((k, project p) ∷ rest) = p ∷ projects_of rest
projects_of ((k, junk t) ∷ rest) = projects_of rest

-- `<` on texts.
unfoldable pub text_lt : Text → Text → Bool
text_lt [] [] = false
text_lt [] (d ∷ t) = true
text_lt (c ∷ s) [] = false
text_lt (c ∷ s) (d ∷ t) = let later = text_lt s t in if c == d then later else ltb c d

-- The order of the list, with strings.ToLower as a parameter.
unfoldable pub precedes : (Text → Text) → Project → Project → Bool
unfolding text_lt
precedes lower p q =
    if text_eq (lower p.name) (lower q.name)
    then text_lt p.id q.id
    else text_lt (lower p.name) (lower q.name)

insert : (Text → Text) → Project → List Project → List Project
insert lower p [] = p ∷ []
insert lower p (q ∷ qs) =
    let later = insert lower p qs in if precedes lower q p then q ∷ later else p ∷ q ∷ qs

unfoldable pub sort : (Text → Text) → List Project → List Project
unfolding insert precedes
sort lower [] = []
sort lower (p ∷ ps) = insert lower p (sort lower ps)

listed : (Text → Text) → Fate → Table → Result (List Project)
unfolding sort projects_of
listed lower done table = ok (sort lower (projects_of table))
listed lower failed_before table = err unavailable
listed lower failed_after table = err unavailable

unfoldable pub list : (Text → Text) → World → Result (List Project) × World
unfolding listed
list lower w = (listed lower (next_fate w.fates) w.table, after_call w)
