-- ===== src/Telegram/Users.antt =====
-- userlist.go, the list of the Telegram users who may talk to the agent, and AuthorizeSender of
-- service.go. The JSON of a list is the list itself, or a text that does not decode to one. Each call
-- of the store takes its fate from a list; whether there is a store is not modelled, nor are frames.
pub mod Allowed
pub mod Refused
use virtualme.Prelude.{
  ℕ, ◌+◌, ◌-◌, ◌^◌, Bool, true, false, ◌&&◌, ◌||◌, not, Option, none, some, List, [], ◌∷◌, ◌++◌,
  map, ltb, leb, if◌then◌else◌,
}
use virtualme.Text.{Text, text_eq, trim_space}
use virtualme.Decimal.{pos, negsuc, parse_int, is_digit}

unfoldable pub contains : List Text → Text → Bool
contains [] value = false
contains (candidate ∷ rest) value = text_eq candidate value || contains rest value

abbrev pub is_nil : List Text → Bool
is_nil [] = true
is_nil (t ∷ ts) = false

unfoldable pub authorize_sender : List Text → List Text → Text → Text → Bool → Bool
unfolding contains
authorize_sender chat_ids allowed chat user is_bot =
    if is_bot || text_eq chat [] || text_eq user [] || not (contains chat_ids chat)
    then false
    else is_nil allowed || contains allowed user

unfoldable pub all_digits : Text → Bool
all_digits [] = true
all_digits (c ∷ t) = is_digit c && all_digits t

-- ^[1-9][0-9]*$
unfoldable pub is_canonical : Text → Bool
unfolding all_digits
is_canonical [] = false
is_canonical (c ∷ t) = (leb b'1' c && leb c b'9') && all_digits t

pub data Result (A : Type 0) : Type 0 where
  ok : A → Result A
  invalid_id : Text → Result A
  unavailable undecodable : Result A

-- The loop of normalizeUserIDs over the values without the spaces around them; what is in `seen` is
-- what is in the result so far.
unfoldable pub kept : List Text → List Text → Result (List Text)
unfolding is_canonical
kept [] result = ok result
kept ([] ∷ values) result = kept values result
kept ((c ∷ t) ∷ values) result = elim (is_canonical (c ∷ t)) [
  | false ↦ invalid_id (c ∷ t)
  | true ↦ kept values (if contains result (c ∷ t) then result else result ++ (c ∷ t) ∷ [])
]

-- What ParseInt returns with its error for a number out of range is the largest one.
unfoldable pub sort_key : Text → ℕ
sort_key t = elim (parse_int t) [ none ↦ 2 ^ 63 - 1 | some (pos n) ↦ n | some (negsuc n) ↦ 0 ]

unfoldable pub insert : Text → List Text → List Text
unfolding sort_key
insert x [] = x ∷ []
insert x (y ∷ ys) =
    let later = insert x ys in if ltb (sort_key y) (sort_key x) then y ∷ later else x ∷ y ∷ ys

-- sort.Slice, which may leave equal keys in another order.
unfoldable pub sort : List Text → List Text
unfolding insert
sort [] = []
sort (x ∷ xs) = insert x (sort xs)

unfoldable pub sorted_ids : Result (List Text) → Result (List Text)
unfolding sort
sorted_ids (ok result) = ok (sort result)
sorted_ids (invalid_id t) = invalid_id t
sorted_ids unavailable = unavailable
sorted_ids undecodable = undecodable

unfoldable pub normalize_user_ids : List Text → Result (List Text)
unfolding kept sorted_ids
normalize_user_ids values = sorted_ids (kept (map trim_space values) [])

pub data Saved : Type 0 where
  ids : List Text → Saved
  junk : Text → Saved

pub data Fate : Type 0 where
  done failed_before failed_after : Fate

pub record Users : Type 0 where
  pub allowed : List Text
  -- the value in the store
  pub saved : Option Saved
  pub fates : List Fate

abbrev next_fate : List Fate → Fate
next_fate [] = done
next_fate (f ∷ fs) = f

abbrev later_fates : List Fate → List Fate
later_fates [] = []
later_fates (f ∷ fs) = fs

-- isAuthorized, with the configured chats.
unfoldable pub is_authorized : List Text → Users → Text → Text → Bool → Bool
unfolding authorize_sender
is_authorized chat_ids u chat user is_bot = authorize_sender chat_ids u.allowed chat user is_bot

-- The rest of a load or a change behind normalizeUserIDs.
unfoldable pub accepted : Result (List Text) → Users → Result Unit × Users
accepted (ok list) u = (ok tt, record u { allowed = list })
accepted (invalid_id t) u = (invalid_id t, u)
accepted unavailable u = (unavailable, u)
accepted undecodable u = (undecodable, u)

unfoldable pub load_value : Option Saved → Users → Result Unit × Users
unfolding accepted normalize_user_ids
load_value none u = (ok tt, record u { allowed = [] })
load_value (some (junk t)) u = (undecodable, u)
load_value (some (ids values)) u = accepted (normalize_user_ids values) u

load_after : Fate → Users → Result Unit × Users
unfolding load_value
load_after done u = load_value u.saved u
load_after failed_before u = (unavailable, u)
load_after failed_after u = (unavailable, u)

unfoldable pub load_allowed_users : Users → Result Unit × Users
unfolding load_after
load_allowed_users u = load_after (next_fate u.fates) (record u { fates = later_fates u.fates })

persist_after : Fate → List Text → Users → Result Unit × Users
persist_after done values u = (ok tt, record u { saved = some (ids values) })
persist_after failed_before values u = (unavailable, u)
persist_after failed_after values u = (unavailable, record u { saved = some (ids values) })

unfoldable pub persist_allowed_users : List Text → Users → Result Unit × Users
unfolding persist_after
persist_allowed_users values u =
    persist_after (next_fate u.fates) values (record u { fates = later_fates u.fates })

-- The list is taken over if it has been saved.
after_persist : List Text → Result Unit × Users → Result Unit × Users
after_persist list (ok tt, u) = (ok tt, record u { allowed = list })
after_persist list (invalid_id t, u) = (invalid_id t, u)
after_persist list (unavailable, u) = (unavailable, u)
after_persist list (undecodable, u) = (undecodable, u)

change_to : Result (List Text) → Users → Result Unit × Users
unfolding after_persist persist_allowed_users
change_to (ok list) u = after_persist list (persist_allowed_users list u)
change_to (invalid_id t) u = (invalid_id t, u)
change_to unavailable u = (unavailable, u)
change_to undecodable u = (undecodable, u)

-- handleUserListSet, behind the decoding of the request.
unfoldable pub set_users : List Text → Users → Result Unit × Users
unfolding change_to normalize_user_ids
set_users values u = change_to (normalize_user_ids values) u

migrate_value : Option Saved → List Text → Users → Result Unit × Users
unfolding load_allowed_users set_users
migrate_value (some v) legacy u = load_allowed_users u
migrate_value none legacy u = set_users legacy u

migrate_after : Fate → List Text → Users → Result Unit × Users
unfolding migrate_value
migrate_after done legacy u = migrate_value u.saved legacy u
migrate_after failed_before legacy u = (unavailable, u)
migrate_after failed_after legacy u = (unavailable, u)

unfoldable pub migrate_allowed_users : List Text → Users → Result Unit × Users
unfolding migrate_after
migrate_allowed_users legacy u =
    migrate_after (next_fate u.fates) legacy (record u { fates = later_fates u.fates })
