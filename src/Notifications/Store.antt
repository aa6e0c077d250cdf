-- ===== src/Notifications/Store.antt =====
-- The Lua scripts of service.go over the list and the two hashes that they share in Valkey. A script
-- runs alone, so each is one function of the database.
pub mod Consistent
pub mod Marks
pub mod Stored
use native.Mathlib.Decide.{ℕ_discrete}
use virtualme.Prelude.{
  ℕ, ◌+◌, Bool, true, false, Option, none, some, List, [], ◌∷◌, if◌then◌else◌, take, drop,
}
use virtualme.Text.{Text, text_eq}
use virtualme.Notifications.Validate.{Notification, Notification-discrete, member}

-- A value of the items: the JSON of a notification, or a text that does not decode to one.
pub data Row : Type 0 where
  row : Notification → Row
  junk : Text → Row

pub Row-discrete : Discrete Row
Row-discrete = hlevel (ℕ_discrete, Notification-discrete)

-- A value of the read marks: the decimal print of a time, or another text.
pub data Mark : Type 0 where
  at : ℕ → Mark
  garbled : Text → Mark

-- The keys orderKey, itemsKey and readKey.
pub record Db : Type 0 where
  pub order : List Text
  pub items : Text → Option Row
  pub read : Text → Option Mark

abbrev pub is_some {ℓ} : {A : Type ℓ} → Option A → Bool
is_some none = false
is_some (some a) = true

-- HSET
abbrev pub write {ℓ} : {A : Type ℓ} → (Text → Option A) → Text → A → Text → Option A
write f k a j = if text_eq k j then some a else f j

-- HDEL of each of the fields.
abbrev pub without {ℓ} : {A : Type ℓ} → (Text → Option A) → List Text → Text → Option A
without f ks j = if member j ks then none else f j

-- retain
abbrev pub retain : ℕ
retain = 500

pub data Created : Type 0 where
  created : Created
  present : Created
  id_conflict : Created

-- HSET, LPUSH, LRANGE, LTRIM, and the HDEL of what the list lost.
unfoldable pub push_new : Text → Row → Db → Db
push_new id body db =
    let order = id ∷ db.order in
    let evicted = drop retain order in
    record {
      order = take retain order;
      items = without (write db.items id body) evicted;
      read = without db.read evicted;
    }

create_at : Option Row → Text → Row → Db → Created × Db
unfolding push_new
create_at (some old) id body db = elim (Row-discrete old body) [
  | yes e ↦ (present, db)
  | no e ↦ (id_conflict, db)
]
create_at none id body db = (created, push_new id body db)

-- createScript
unfoldable pub create_script : Text → Row → Db → Created × Db
unfolding create_at
create_script id body db = create_at (db.items id) id body db

pub data Marked : Type 0 where
  missing : Marked
  changed : ℕ → Marked

-- HSETNX on the read marks, and the number that it replies.
unfoldable pub set_new : Text → Mark → (Text → Option Mark) → ℕ × (Text → Option Mark)
set_new id mark read = if is_some (read id) then (0, read) else (1, write read id mark)

-- markOneScript
unfoldable pub mark_one_script : Text → Mark → Db → Marked × Db
unfolding set_new
mark_one_script id mark db =
    if is_some (db.items id)
    then (let (n, read) = set_new id mark db.read in (changed n, record db { read = read }))
    else (missing, db)

-- The loop of markAllScript, with the number of marks so far.
mark_each :
    List Text → Mark → (Text → Option Row) → ℕ → (Text → Option Mark) → ℕ × (Text → Option Mark)
unfolding set_new
mark_each [] mark items n read = (n, read)
mark_each (id ∷ ids) mark items n read = elim (is_some (items id)) [
  | true ↦ (let (k, read') = set_new id mark read in mark_each ids mark items (n + k) read')
  | false ↦ mark_each ids mark items n read
]

-- markAllScript
unfoldable pub mark_all_script : Mark → Db → ℕ × Db
unfolding mark_each
mark_all_script mark db =
    let (n, read) = mark_each db.order mark db.items 0 db.read in (n, record db { read = read })

rows_of : List Text → Db → List (Row × Option Mark)
rows_of [] db = []
rows_of (id ∷ ids) db = elim (db.items id) [
  | none ↦ rows_of ids db
  | some body ↦ (body, db.read id) ∷ rows_of ids db
]

-- snapshotScript; an absent mark is the empty text of a row.
unfoldable pub snapshot_script : Db → List (Row × Option Mark)
unfolding rows_of
snapshot_script db = rows_of db.order db
