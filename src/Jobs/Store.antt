-- ===== src/Jobs/Store.antt =====
-- The Valkey commands that manager.go sends, and what the service promises about them. The service
-- is not part of the repository: it is a parameter.
use virtualme.Prelude.{
  ℕ, ◌+◌, ◌-◌, min, ◌≡◌, ◌⊎◌, Bool, true, false, Option, none, some, List, [], ◌∷◌, ◌++◌,
  if◌then◌else◌, length, take, take_last,
}
use virtualme.Text.{Text}
use virtualme.Jobs.Envelope.{Item, Item-discrete}

-- The key constants of manager.go.
pub data Key : Type 0 where
  ready_interactive ready_scheduled inflight inflight_since done dead scheduler_paused : Key

pub Key-discrete : Discrete Key
Key-discrete = hlevel

-- A string value: the decimal print of a number, or another text.
pub data Value : Type 0 where
  number : ℕ → Value
  text : Text → Value

-- What a reader of the service sees.
pub record View : Type 0 where
  pub lists : Key → List Item
  pub values : Key → Option Value

pub data Command : Type 0 where
  -- RPUSH key item
  rpush : Key → Item → Command
  -- LMOVE src dst LEFT LEFT
  lmove : Key → Key → Command
  -- DEL key key
  del : Key → Key → Command
  -- LTRIM key -n -1
  ltrim_last : Key → ℕ → Command
  -- LRANGE key 0 n-1
  range_first : Key → ℕ → Command
  -- LRANGE key -n -1
  range_last : Key → ℕ → Command
  -- LRANGE key 0 -1
  range_all : Key → Command
  -- LLEN key
  llen : Key → Command
  -- LREM key 0 item
  lrem : Key → Item → Command
  -- GET key
  get : Key → Command
  -- SET key value
  set : Key → Value → Command

pub data Reply : Type 0 where
  status : Reply
  count : ℕ → Reply
  element : Option Item → Reply
  elements : List Item → Reply
  string : Option Value → Reply

abbrev pub key_eq : Key → Key → Bool
key_eq ready_interactive ready_interactive = true
key_eq ready_scheduled ready_scheduled = true
key_eq inflight inflight = true
key_eq inflight_since inflight_since = true
key_eq done done = true
key_eq dead dead = true
key_eq scheduler_paused scheduler_paused = true
key_eq _ _ = false

abbrev pub write {ℓ} : {A : Type ℓ} → (Key → A) → Key → A → Key → A
write f k a j = if key_eq k j then a else f j

-- All occurrences of one item taken out.
unfoldable pub remove_all : Item → List Item → List Item
remove_all x [] = []
remove_all x (y ∷ ys) =
    let rest = remove_all x ys in elim (Item-discrete y x) [ yes e ↦ rest | no e ↦ y ∷ rest ]

unfoldable pub move_first : List Item → Key → Key → View → View
move_first [] src dst v = v
move_first (x ∷ xs) src dst v =
    let taken = write v.lists src xs in record v { lists = write taken dst (x ∷ taken dst) }

unfoldable pub first_of_list : List Item → Option Item
first_of_list [] = none
first_of_list (x ∷ xs) = some x

-- The documented effect of a command.
unfoldable pub apply : Command → View → View
unfolding move_first
apply (rpush k x) v = record v { lists = write v.lists k (v.lists k ++ x ∷ []) }
apply (lmove src dst) v = move_first (v.lists src) src dst v
apply (del j k) v = record {
  lists = write (write v.lists j []) k [];
  values = write (write v.values j none) k none;
}
apply (ltrim_last k n) v = record v { lists = write v.lists k (take_last n (v.lists k)) }
apply (lrem k x) v = record v { lists = write v.lists k (remove_all x (v.lists k)) }
apply (set k s) v = record v { values = write v.values k (some s) }
apply _ v = v

-- Whether a key holds a list or a string.
held : View → Key → ℕ
held v k = elim (v.values k) [ some s ↦ 1 | none ↦ min 1 (length (v.lists k)) ]

-- The documented reply to a command.
unfoldable pub answer : Command → View → Reply
unfolding first_of_list held
answer (rpush k x) v = count (length (v.lists k) + 1)
answer (lmove src dst) v = element (first_of_list (v.lists src))
answer (del j k) v = count (held v j + (if key_eq j k then 0 else held v k))
answer (ltrim_last k n) v = status
answer (range_first k n) v = elements (take n (v.lists k))
answer (range_last k n) v = elements (take_last n (v.lists k))
answer (range_all k) v = elements (v.lists k)
answer (llen k) v = count (length (v.lists k))
answer (lrem k x) v = count (length (v.lists k) - length (remove_all x (v.lists k)))
answer (get k) v = string (v.values k)
answer (set k s) v = status

-- How a call may end: with the documented reply and effect, or without a reply, and then the effect
-- may have been taken all the same.
abbrev pub Effect : Command → View → View → Option Reply → Type 0
Effect c before after reply =
    ((reply ≡ some (answer c before)) × (after ≡ apply c before))
    ⊎ ((reply ≡ none) × ((after ≡ apply c before) ⊎ (after ≡ before)))

-- The service behind the client.
pub record Service : Type 1 where
  pub Db : Type 0
  pub view : Db → View
  pub call : Command → Db → Option Reply × Db
  pub effect : (c : Command) (d : Db) → Effect c (view d) (view (call c d).1) (call c d).0
