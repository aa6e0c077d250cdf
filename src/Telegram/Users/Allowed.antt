-- ===== src/Telegram/Users/Allowed.antt =====
-- Who is authorized after a change of the list, and which changes are refused.
use virtualme.Prelude.{
  ◌≡◌, ◌≢◌, refl, sym, ap, ◌∙◌, subst, Bool, true, false, ◌||◌, some, List, [], ◌∷◌, ◌++◌, map, ltb,
  if◌then◌else◌, by_test, Bool-cases, inl, inr, All,
}
use virtualme.Text.{Text, text_eq, text_eq_iff, trim_space}
use virtualme.Telegram.Users.Refused.{named, IsUserId, IsJudged, normalize_user_ids-IsJudged}
use virtualme.Telegram.Users.{
  contains, is_nil, authorize_sender, is_canonical, Result, ok, invalid_id, unavailable,
  undecodable, kept, sort_key, insert, sort, sorted_ids, normalize_user_ids, ids, Fate, done,
  failed_before, failed_after, Users, next_fate, is_authorized, persist_after,
  persist_allowed_users, after_persist, change_to, set_users,
}

or_swap : (a b c : Bool) → (a || (b || c)) ≡ (b || (a || c))
or_swap true true c = refl
or_swap true false c = refl
or_swap false true c = refl
or_swap false false c = refl

or_rotate : (a b c : Bool) → (a || (b || c)) ≡ ((b || a) || c)
or_rotate true true c = refl
or_rotate true false c = refl
or_rotate false true c = refl
or_rotate false false c = refl

contains-append :
    (xs : List Text) (x v : Text) → contains (xs ++ x ∷ []) v ≡ (text_eq x v || contains xs v)
unfolding contains
contains-append [] x v = refl
contains-append (y ∷ xs) x v =
    ap (λ b. text_eq y v || b) (contains-append xs x v)
    ∙ or_swap (text_eq y v) (text_eq x v) (contains xs v)

contains-insert :
    (x : Text) (xs : List Text) (v : Text)
    → contains (insert x xs) v ≡ (text_eq x v || contains xs v)
unfolding contains insert
contains-insert x [] v = refl
contains-insert x (y ∷ ys) v =
    by_test (λ l. contains l v ≡ (text_eq x v || contains (y ∷ ys) v))
      (ltb (sort_key y) (sort_key x))
      (λ e.
        ap (λ b. text_eq y v || b) (contains-insert x ys v)
        ∙ or_swap (text_eq y v) (text_eq x v) (contains ys v))
      (λ e. refl)

contains-sort : (xs : List Text) (v : Text) → contains (sort xs) v ≡ contains xs v
unfolding contains sort
contains-sort [] v = refl
contains-sort (x ∷ xs) v =
    contains-insert x (sort xs) v ∙ ap (λ b. text_eq x v || b) (contains-sort xs v)

-- A value that is there already adds nothing.
contains-again :
    (xs : List Text) (x v : Text)
    → contains xs x ≡ true
    → contains xs v ≡ (text_eq x v || contains xs v)
contains-again xs x v h = elim (Bool-cases (text_eq x v)) [
  | inl e ↦ rw e (subst (λ t. contains xs t ≡ true) ((text_eq_iff x v).0 e) h)
  | inr e ↦ rw e refl
]

abbrev Holds : {A : Type 0} → (A → Type 0) → Result A → Type 0
Holds P (ok a) = P a
Holds P (invalid_id t) = Unit
Holds P unavailable = Unit
Holds P undecodable = Unit

Holds-map :
    {A : Type 0} (P Q : A → Type 0) (r : Result A) → ((a : A) → P a → Q a) → Holds P r → Holds Q r
Holds-map P Q (ok a) f h = f a h
Holds-map P Q (invalid_id t) f h = tt
Holds-map P Q unavailable f h = tt
Holds-map P Q undecodable f h = tt

kept-step :
    (xs : List Text) (x v : Text)
    → contains (if contains xs x then xs else xs ++ x ∷ []) v ≡ (text_eq x v || contains xs v)
kept-step xs x v =
    by_test (λ l. contains l v ≡ (text_eq x v || contains xs v)) (contains xs x)
      (λ e. contains-again xs x v e) (λ e. contains-append xs x v)

-- What is in the result: what was there and what is named.
abbrev Gathered : List Text → List Text → Text → List Text → Type 0
Gathered values xs v result = contains result v ≡ (contains xs v || contains (named values) v)

or_false : (a : Bool) → a ≡ (a || false)
or_false true = refl
or_false false = refl

kept-Gathered : (values xs : List Text) (v : Text) → Holds (Gathered values xs v) (kept values xs)
unfolding kept contains
kept-Gathered [] xs v = or_false (contains xs v)
kept-Gathered ([] ∷ values) xs v = kept-Gathered values xs v
kept-Gathered ((c ∷ t) ∷ values) xs v =
    let next = if contains xs (c ∷ t) then xs else xs ++ (c ∷ t) ∷ [] in
    elim (is_canonical (c ∷ t))
      as (λ b. Holds (Gathered ((c ∷ t) ∷ values) xs v) (elim b as (λ _. Result (List Text)) [
        | false ↦ invalid_id (c ∷ t)
        | true ↦ kept values next
      ])) [
        | false ↦ tt
        | true ↦
            Holds-map (Gathered values next v) (Gathered ((c ∷ t) ∷ values) xs v) (kept values next)
              (λ r h.
                h
                ∙ ap (λ b. b || contains (named values) v) (kept-step xs (c ∷ t) v)
                ∙ sym (or_rotate (contains xs v) (text_eq (c ∷ t) v) (contains (named values) v)))
              (kept-Gathered values next v)
      ]

sorted_ids-Holds :
    (P Q : List Text → Type 0) (r : Result (List Text))
    → ((l : List Text) → P l → Q (sort l))
    → Holds P r
    → Holds Q (sorted_ids r)
unfolding sorted_ids
sorted_ids-Holds P Q (ok l) f h = f l h
sorted_ids-Holds P Q (invalid_id t) f h = tt
sorted_ids-Holds P Q unavailable f h = tt
sorted_ids-Holds P Q undecodable f h = tt

normalize_user_ids-contains :
    (values : List Text) (v : Text)
    → Holds
        (λ l. contains l v ≡ contains (named (map trim_space values)) v)
        (normalize_user_ids values)
unfolding normalize_user_ids contains
normalize_user_ids-contains values v =
    sorted_ids-Holds (Gathered (map trim_space values) [] v)
      (λ l. contains l v ≡ contains (named (map trim_space values)) v)
      (kept (map trim_space values) []) (λ l h. contains-sort l v ∙ h)
      (kept-Gathered (map trim_space values) [] v)

every :
    {A B : Type 0} (P : B → A → Type 0) (r : Result A)
    → ((b : B) → Holds (P b) r)
    → Holds (λ a. (b : B) → P b a) r
every P (ok a) h = h
every P (invalid_id t) h = tt
every P unavailable h = tt
every P undecodable h = tt

true_ne_false : true ≢ false
true_ne_false h = cc

contains-head : (x : Text) (xs : List Text) → contains (x ∷ xs) x ≡ true
unfolding contains
contains-head x xs = rw ((text_eq_iff x x).1 refl) refl

-- The same members, the same authorizations.
abbrev Alike : List Text → List Text → Type 0
Alike a b = (v : Text) → contains a v ≡ contains b v

Alike-is_nil : (a b : List Text) → Alike a b → is_nil a ≡ is_nil b
unfolding contains
Alike-is_nil [] [] h = refl
Alike-is_nil [] (y ∷ ys) h = absurd (true_ne_false (sym (contains-head y ys) ∙ sym (h y)))
Alike-is_nil (x ∷ xs) [] h = absurd (true_ne_false (sym (contains-head x xs) ∙ h x))
Alike-is_nil (x ∷ xs) (y ∷ ys) h = refl

Alike-authorize_sender :
    (chat_ids a b : List Text) (chat user : Text) (is_bot : Bool)
    → Alike a b
    → authorize_sender chat_ids a chat user is_bot ≡ authorize_sender chat_ids b chat user is_bot
unfolding authorize_sender
Alike-authorize_sender chat_ids a b chat user is_bot h = rw (Alike-is_nil a b h, h user) refl

-- A change is refused only where a value is no user identifier. One that succeeds is in the store and
-- authorizes as the named values do; one that fails leaves the list as it was.
abbrev pub IsChange : List Text → Users → Result Unit × Users → Type 0
IsChange values u (ok x, u') =
    All IsUserId (named (map trim_space values))
    × ((chat_ids : List Text) (chat user : Text) (is_bot : Bool)
        → is_authorized chat_ids u' chat user is_bot
          ≡ authorize_sender chat_ids (named (map trim_space values)) chat user is_bot)
    × (u'.saved ≡ some (ids u'.allowed))
IsChange values u (invalid_id t, u') =
    (contains (named (map trim_space values)) t ≡ true)
    × (IsUserId t → ⊥)
    × (u'.allowed ≡ u.allowed)
    × (u'.saved ≡ u.saved)
IsChange values u (unavailable, u') =
    All IsUserId (named (map trim_space values)) × (u'.allowed ≡ u.allowed)
IsChange values u (undecodable, u') = ⊥

after_persist-IsChange :
    (f : Fate) (values list : List Text) (u v : Users)
    → v.allowed ≡ u.allowed
    → All IsUserId (named (map trim_space values))
    → Alike list (named (map trim_space values))
    → IsChange values u (after_persist list (persist_after f list v))
unfolding after_persist persist_after is_authorized
after_persist-IsChange done values list u v e p h = (
  p,
  λ chat_ids chat user is_bot.
      Alike-authorize_sender chat_ids list (named (map trim_space values)) chat user is_bot h,
  refl,
)
after_persist-IsChange failed_before values list u v e p h = (p, e)
after_persist-IsChange failed_after values list u v e p h = (p, e)

change_to-IsChange :
    (r : Result (List Text)) (values : List Text) (u : Users)
    → IsJudged (map trim_space values) r
    → Holds (λ l. Alike l (named (map trim_space values))) r
    → IsChange values u (change_to r u)
unfolding change_to persist_allowed_users
change_to-IsChange (ok list) values u p h =
    after_persist-IsChange (next_fate u.fates) values list u _ refl p h
change_to-IsChange (invalid_id t) values u (named_here, not_id) h = (named_here, not_id, refl, refl)
change_to-IsChange unavailable values u p h = absurd p
change_to-IsChange undecodable values u p h = absurd p

-- Every result of a change of the user list. It succeeds, or fails for the store, only if each value
-- that is not blank, without the spaces around it, is a user identifier: decimal digits, the first not
-- zero. If it succeeds, then exactly those are authorized from then on whom AuthorizeSender would
-- admit for these values, and the store has the new list. If it names an invalid identifier, then that
-- is one of these values and no user identifier, and the list and the store are as before. If the
-- store fails, then the list is as before.
pub set_users-IsChange : (values : List Text) (u : Users) → IsChange values u (set_users values u)
unfolding set_users
set_users-IsChange values u =
    change_to-IsChange (normalize_user_ids values) values u (normalize_user_ids-IsJudged values) (
      every (λ v l. contains l v ≡ contains (named (map trim_space values)) v)
        (normalize_user_ids values) (normalize_user_ids-contains values))
