-- ===== src/Telegram/Users/Refused.antt =====
-- Which values normalizeUserIDs refuses.
use virtualme.Prelude.{
  ℕ, ◌≤◌, ◌≡◌, refl, true, false, List, [], ◌∷◌, ◌++◌, map, if◌then◌else◌, arith, All, Bool-cases,
  inl, inr,
}
use virtualme.Text.{Text, text_eq_iff, trim_space}
use virtualme.Decimal.{is_digit}
use virtualme.Telegram.Users.{
  contains, is_canonical, all_digits, Result, ok, invalid_id, unavailable, undecodable, kept,
  sorted_ids, normalize_user_ids,
}

-- The values that are not blank.
abbrev pub named : List Text → List Text
named [] = []
named ([] ∷ values) = named values
named ((c ∷ t) ∷ values) = (c ∷ t) ∷ named values

abbrev IsDigit : ℕ → Type 0
IsDigit c = (48 ≤ c) × (c ≤ 57)

-- Decimal digits, the first of them not zero.
abbrev pub IsUserId : Text → Type 0
IsUserId [] = ⊥
IsUserId (c ∷ t) = (49 ≤ c) × (c ≤ 57) × All IsDigit t

all_digits-true : (t : Text) → all_digits t ≡ true → All IsDigit t
unfolding all_digits is_digit
all_digits-true [] h = tt
all_digits-true (c ∷ t) h = ((ground arith, ground arith), all_digits-true t (ground arith))

all_digits-All : (t : Text) → All IsDigit t → all_digits t ≡ true
unfolding all_digits is_digit
all_digits-All [] h = refl
all_digits-All (c ∷ t) ((a, b), h) = let e = all_digits-All t h in ground arith

is_canonical-IsUserId : (t : Text) → is_canonical t ≡ true → IsUserId t
unfolding is_canonical
is_canonical-IsUserId [] h = absurd (cc)
is_canonical-IsUserId (c ∷ t) h = (ground arith, ground arith, all_digits-true t (ground arith))

IsUserId-is_canonical : (t : Text) → IsUserId t → is_canonical t ≡ true
unfolding is_canonical
IsUserId-is_canonical [] h = absurd h
IsUserId-is_canonical (c ∷ t) (a, b, h) = let e = all_digits-All t h in ground arith

-- A result without a refused value is one of user identifiers only; a refused value is named and is no
-- user identifier.
abbrev pub IsJudged : {A : Type 0} → List Text → Result A → Type 0
IsJudged values (ok a) = All IsUserId (named values)
IsJudged values (invalid_id t) = (contains (named values) t ≡ true) × (IsUserId t → ⊥)
IsJudged values unavailable = ⊥
IsJudged values undecodable = ⊥

contains-later :
    (x : Text) (xs : List Text) (t : Text) → contains xs t ≡ true → contains (x ∷ xs) t ≡ true
unfolding contains
contains-later x xs t h = ground arith

later_judged :
    {A : Type 0} (c : ℕ) (t : Text) (values : List Text) (r : Result A)
    → IsUserId (c ∷ t)
    → IsJudged values r
    → IsJudged ((c ∷ t) ∷ values) r
later_judged c t values (ok a) p h = (p, h)
later_judged c t values (invalid_id u) p (h, q) = (contains-later (c ∷ t) (named values) u h, q)
later_judged c t values unavailable p h = h
later_judged c t values undecodable p h = h

refused :
    (c : ℕ) (t : Text) (values : List Text)
    → is_canonical (c ∷ t) ≡ false
    → IsJudged {A = List Text} ((c ∷ t) ∷ values) (invalid_id (c ∷ t))
unfolding contains
refused c t values e = (
  rw ((text_eq_iff (c ∷ t) (c ∷ t)).1 refl) refl,
  λ h. let f = IsUserId-is_canonical (c ∷ t) h in absurd (cc),
)

kept-IsJudged : (values xs : List Text) → IsJudged values (kept values xs)
unfolding kept
kept-IsJudged [] xs = tt
kept-IsJudged ([] ∷ values) xs = kept-IsJudged values xs
kept-IsJudged ((c ∷ t) ∷ values) xs = elim (Bool-cases (is_canonical (c ∷ t))) [
  | inl e ↦
      rw (e, kept)
        (later_judged c t values
          (kept values (if contains xs (c ∷ t) then xs else xs ++ (c ∷ t) ∷ []))
          (is_canonical-IsUserId (c ∷ t) e)
          (kept-IsJudged values (if contains xs (c ∷ t) then xs else xs ++ (c ∷ t) ∷ [])))
  | inr e ↦ rw (e, kept) (refused c t values e)
]

sorted_ids-IsJudged :
    (values : List Text) (r : Result (List Text))
    → IsJudged values r
    → IsJudged values (sorted_ids r)
unfolding sorted_ids
sorted_ids-IsJudged values (ok l) h = h
sorted_ids-IsJudged values (invalid_id t) h = h
sorted_ids-IsJudged values unavailable h = h
sorted_ids-IsJudged values undecodable h = h

pub normalize_user_ids-IsJudged :
    (values : List Text) → IsJudged (map trim_space values) (normalize_user_ids values)
unfolding normalize_user_ids
normalize_user_ids-IsJudged values =
    sorted_ids-IsJudged (map trim_space values) (kept (map trim_space values) [])
      (kept-IsJudged (map trim_space values) [])
