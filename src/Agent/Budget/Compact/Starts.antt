-- ===== src/Agent/Budget/Compact/Starts.antt =====
-- Where toolRoundStarts finds the first and the newest tool round.
use virtualme.Prelude.{
  ℕ, ◌+◌, ◌≡◌, refl, ap, true, false, List, [], ◌∷◌, ◌++◌, length, if◌then◌else◌, arith, All,
  Bool-cases, inl, inr,
}
use virtualme.Agent.Budget.{PromptMessage, starts_round, starts_from, last_of}

-- How many messages start a tool round.
abbrev pub count_rounds : List PromptMessage → ℕ
count_rounds [] = 0
count_rounds (m ∷ ms) = let later = count_rounds ms in if starts_round m then later + 1 else later

abbrev pub IsStart : PromptMessage → Type 0
IsStart m = starts_round m ≡ true

abbrev pub NoStarts : List PromptMessage → Type 0
NoStarts = All (λ m. starts_round m ≡ false)

-- A list with its first start, which has the index `s` where the list begins at `i`; `ss` are the
-- indices of the later ones.
pub record First (i : ℕ) (xs : List PromptMessage) (s : ℕ) (ss : List ℕ) : Type 0 where
  pub before : List PromptMessage
  pub start : PromptMessage
  pub after : List PromptMessage
  pub split : xs ≡ before ++ start ∷ after
  pub index : s ≡ i + length before
  pub none_before : NoStarts before
  pub is_start : IsStart start
  pub later : starts_from (s + 1) after ≡ ss

-- A list with its last start, which has the index `s`.
pub record Last (i : ℕ) (xs : List PromptMessage) (s : ℕ) : Type 0 where
  pub before : List PromptMessage
  pub start : PromptMessage
  pub after : List PromptMessage
  pub split : xs ≡ before ++ start ∷ after
  pub index : s ≡ i + length before
  pub is_start : IsStart start
  pub none_after : NoStarts after

abbrev pub HasFirst : ℕ → List PromptMessage → List ℕ → Type 0
HasFirst i xs [] = NoStarts xs
HasFirst i xs (s ∷ ss) = First i xs s ss

abbrev pub HasLast : ℕ → List PromptMessage → List ℕ → Type 0
HasLast i xs [] = NoStarts xs
HasLast i xs (s ∷ ss) = Last i xs (last_of s ss)

skip_first :
    (i : ℕ) (m : PromptMessage) (xs : List PromptMessage) (l : List ℕ)
    → starts_round m ≡ false
    → HasFirst (i + 1) xs l
    → HasFirst i (m ∷ xs) l
skip_first i m xs [] e h = (e, h)
skip_first i m xs (s ∷ ss) e h = record {
  before = m ∷ h.before;
  start = h.start;
  after = h.after;
  split = ap (λ (t : List PromptMessage). m ∷ t) h.split;
  index = (let k = h.index in omega arith);
  none_before = (e, h.none_before);
  is_start = h.is_start;
  later = h.later;
}

pub starts_from-HasFirst : (i : ℕ) (xs : List PromptMessage) → HasFirst i xs (starts_from i xs)
unfolding starts_from
starts_from-HasFirst i [] = tt
starts_from-HasFirst i (m ∷ xs) = elim (Bool-cases (starts_round m)) [
  | inl e ↦
      rw (e, starts_from)
        record {
          before = [];
          start = m;
          after = xs;
          split = refl;
          index = omega arith;
          none_before = tt;
          is_start = e;
          later = refl;
        }
  | inr e ↦
      rw (e, starts_from)
        (skip_first i m xs (starts_from (i + 1) xs) e (starts_from-HasFirst (i + 1) xs))
]

later-Last :
    (i s : ℕ) (m : PromptMessage) (xs : List PromptMessage) → Last (i + 1) xs s → Last i (m ∷ xs) s
later-Last i s m xs h = record {
  before = m ∷ h.before;
  start = h.start;
  after = h.after;
  split = ap (λ (t : List PromptMessage). m ∷ t) h.split;
  index = (let k = h.index in omega arith);
  is_start = h.is_start;
  none_after = h.none_after;
}

skip_last :
    (i : ℕ) (m : PromptMessage) (xs : List PromptMessage) (l : List ℕ)
    → starts_round m ≡ false
    → HasLast (i + 1) xs l
    → HasLast i (m ∷ xs) l
skip_last i m xs [] e h = (e, h)
skip_last i m xs (s ∷ ss) e h = later-Last i (last_of s ss) m xs h

start_last :
    (i : ℕ) (m : PromptMessage) (xs : List PromptMessage) (l : List ℕ)
    → IsStart m
    → HasLast (i + 1) xs l
    → HasLast i (m ∷ xs) (i ∷ l)
unfolding last_of
start_last i m xs [] e h = record {
  before = [];
  start = m;
  after = xs;
  split = refl;
  index = omega arith;
  is_start = e;
  none_after = h;
}
start_last i m xs (s ∷ ss) e h = later-Last i (last_of s ss) m xs h

pub starts_from-HasLast : (i : ℕ) (xs : List PromptMessage) → HasLast i xs (starts_from i xs)
unfolding starts_from
starts_from-HasLast i [] = tt
starts_from-HasLast i (m ∷ xs) = elim (Bool-cases (starts_round m)) [
  | inl e ↦
      rw (e, starts_from)
        (start_last i m xs (starts_from (i + 1) xs) e (starts_from-HasLast (i + 1) xs))
  | inr e ↦
      rw (e, starts_from)
        (skip_last i m xs (starts_from (i + 1) xs) e (starts_from-HasLast (i + 1) xs))
]

pub starts_from-count :
    (i : ℕ) (xs : List PromptMessage) → length (starts_from i xs) ≡ count_rounds xs
unfolding starts_from
starts_from-count i [] = refl
starts_from-count i (m ∷ xs) = elim (Bool-cases (starts_round m)) [
  | inl e ↦ rw (e, starts_from) (let h = starts_from-count (i + 1) xs in omega arith)
  | inr e ↦ rw (e, starts_from) (starts_from-count (i + 1) xs)
]
