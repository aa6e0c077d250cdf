-- ===== src/Agent/Budget/Rounds.antt =====
-- The loop that drops the oldest tool rounds ends, and what it leaves.
use virtualme.Prelude.{
  ℕ, zero, suc, ◌+◌, ◌-◌, ◌≤◌, ◌<◌, ◌≡◌, ◌⊎◌, inl, inr, refl, ap, ◌∙◌, Bool, true, false, Option,
  none, some, List, [], ◌∷◌, ◌++◌, length, take, drop, length-take, length-drop, length-append,
  arith, by_test,
}
use virtualme.Agent.Budget.{
  context_token_margin, adaptive_max_tokens, PromptMessage, starts_round, starts_from,
  tool_round_starts, dropped, drop_oldest_tool_round, is_over, drop_loop, drop_rounds,
}
use virtualme.Agent.Budget.Sizes.{adaptive_max_tokens-le}

-- Indices in order, from one on and below another.
abbrev Ascend : ℕ → ℕ → List ℕ → Type 0
Ascend low top [] = Unit
Ascend low top (s ∷ ss) = (low ≤ s) × (s < top) × Ascend (s + 1) top ss

Ascend-lower :
    (low low' top : ℕ) (ss : List ℕ) → low' ≤ low → Ascend low top ss → Ascend low' top ss
Ascend-lower low low' top [] le h = tt
Ascend-lower low low' top (s ∷ ss) le (h, h', hs) = (omega arith, h', hs)

starts_from-Ascend :
    (i top : ℕ) (ms : List PromptMessage) → top ≡ i + length ms → Ascend i top (starts_from i ms)
unfolding starts_from
starts_from-Ascend i top [] h = tt
starts_from-Ascend i top (m ∷ ms) h =
    let later = starts_from-Ascend (i + 1) top ms (omega arith) in
    by_test (Ascend i top) (starts_round m) (λ e. (omega arith, omega arith, later))
      (λ e. Ascend-lower (i + 1) i top (starts_from (i + 1) ms) (omega arith) later)

-- Fewer messages, with the same history.
abbrev pub IsShorter : ℕ → List PromptMessage → List PromptMessage → Type 0
IsShorter history_end ms fewer =
    (length fewer < length ms) × (take history_end fewer ≡ take history_end ms)

abbrev ShorterIf : ℕ → List PromptMessage → Option (List PromptMessage) → Type 0
ShorterIf history_end ms none = Unit
ShorterIf history_end ms (some fewer) = IsShorter history_end ms fewer

take-cut :
    {A : Type 0} (n s : ℕ) (xs ys : List A)
    → n ≤ s
    → s < length xs
    → take n (take s xs ++ ys) ≡ take n xs
take-cut zero s xs ys le lt = refl
take-cut (suc n) zero xs ys le lt = absurd (omega arith)
take-cut (suc n) (suc s) [] ys le lt = absurd (omega arith)
take-cut (suc n) (suc s) (x ∷ xs) ys le lt =
    ap (λ r. x ∷ r) (take-cut n s xs ys (omega arith) (omega arith))

dropped-ShorterIf :
    (history_end : ℕ) (ss : List ℕ) (ms : List PromptMessage)
    → Ascend history_end (history_end + (length ms - history_end)) ss
    → ShorterIf history_end ms (dropped ss ms)
unfolding dropped
dropped-ShorterIf history_end [] ms h = tt
dropped-ShorterIf history_end (s ∷ []) ms h = tt
dropped-ShorterIf history_end (s ∷ t ∷ ss) ms (low, top, (low', top', h)) = (
  omega (arith, length-append (take s ms) (drop t ms), length-take s ms, length-drop t ms),
  take-cut history_end s ms (drop t ms) low (omega arith),
)

drop_oldest-ShorterIf :
    (history_end : ℕ) (ms : List PromptMessage)
    → ShorterIf history_end ms (drop_oldest_tool_round ms history_end)
unfolding drop_oldest_tool_round tool_round_starts
drop_oldest-ShorterIf history_end ms = dropped-ShorterIf history_end _ ms (
    starts_from-Ascend history_end _ (drop history_end ms)
      (omega (arith, length-drop history_end ms)))

module _ (estimate : List PromptMessage → ℕ) (context_tokens : ℕ) where
  -- The history is as before, and the prompt fits with its completion or has one tool round at most.
  abbrev pub IsReduced : ℕ → List PromptMessage → List PromptMessage → Type 0
  IsReduced history_end ms result =
      (take history_end result ≡ take history_end ms)
      × ((estimate result
              + adaptive_max_tokens context_tokens (estimate result)
              + context_token_margin
            ≤ context_tokens)
          ⊎ (drop_oldest_tool_round result history_end ≡ none))

  abbrev pub Reduces : ℕ → List PromptMessage → Option (List PromptMessage) → Type 0
  Reduces history_end ms none = ⊥
  Reduces history_end ms (some result) = IsReduced history_end ms result

  Reduces-same :
      (history_end : ℕ) (ms fewer : List PromptMessage) (o : Option (List PromptMessage))
      → take history_end fewer ≡ take history_end ms
      → Reduces history_end fewer o
      → Reduces history_end ms o
  Reduces-same history_end ms fewer none e h = h
  Reduces-same history_end ms fewer (some r) e (k, f) = (k ∙ e, f)

  fits :
      (ms : List PromptMessage)
      → is_over estimate context_tokens ms ≡ false
      → estimate ms + adaptive_max_tokens context_tokens (estimate ms) + context_token_margin
        ≤ context_tokens
  fits ms e = (adaptive_max_tokens-le context_tokens (estimate ms) (ground arith)).0

  abbrev next :
      ℕ → ℕ → List PromptMessage → Option (List PromptMessage) → Option (List PromptMessage)
  next rounds history_end ms o = elim o [
    | none ↦ some ms
    | some fewer ↦ drop_loop estimate context_tokens rounds history_end fewer
  ]

  next-Reduces :
      (rounds history_end : ℕ) (ms : List PromptMessage) (o : Option (List PromptMessage))
      → drop_oldest_tool_round ms history_end ≡ o
      → ShorterIf history_end ms o
      → ((fewer : List PromptMessage)
          → length fewer < length ms
          → Reduces history_end fewer (drop_loop estimate context_tokens rounds history_end fewer))
      → Reduces history_end ms (next rounds history_end ms o)
  next-Reduces rounds history_end ms none e s h = (refl, inr e)
  next-Reduces rounds history_end ms (some fewer) e s h =
      Reduces-same history_end ms fewer (drop_loop estimate context_tokens rounds history_end fewer)
        (s.1) (h fewer (s.0))

  abbrev branch : ℕ → ℕ → List PromptMessage → Bool → Option (List PromptMessage)
  branch rounds history_end ms b = elim b [
    | false ↦ some ms
    | true ↦ next rounds history_end ms (drop_oldest_tool_round ms history_end)
  ]

  branch-Reduces :
      (rounds history_end : ℕ) (ms : List PromptMessage) (b : Bool)
      → is_over estimate context_tokens ms ≡ b
      → ((fewer : List PromptMessage)
          → length fewer < length ms
          → Reduces history_end fewer (drop_loop estimate context_tokens rounds history_end fewer))
      → Reduces history_end ms (branch rounds history_end ms b)
  branch-Reduces rounds history_end ms false e h = (refl, inl (fits ms e))
  branch-Reduces rounds history_end ms true e h =
      next-Reduces rounds history_end ms (drop_oldest_tool_round ms history_end) refl
        (drop_oldest-ShorterIf history_end ms) h

  drop_loop-Reduces :
      (rounds history_end : ℕ) (ms : List PromptMessage)
      → length ms < rounds
      → Reduces history_end ms (drop_loop estimate context_tokens rounds history_end ms)
  unfolding drop_loop
  drop_loop-Reduces zero history_end ms h = absurd (omega arith)
  drop_loop-Reduces (suc rounds) history_end ms h =
      branch-Reduces rounds history_end ms (is_over estimate context_tokens ms) refl
        (λ fewer lt. drop_loop-Reduces rounds history_end fewer (omega arith))

  -- Whatever the estimates are, the loop of preparePrompt that drops the oldest tool rounds ends; the
  -- history in front is as before, and the prompt, with the completion that adaptiveMaxTokens allows
  -- for it and the margin, fits the context, or no round is left that can be dropped.
  pub drop_rounds-Reduces :
      (history_end : ℕ) (ms : List PromptMessage)
      → Reduces history_end ms (drop_rounds estimate context_tokens history_end ms)
  unfolding drop_rounds
  drop_rounds-Reduces history_end ms =
      drop_loop-Reduces (length ms + 1) history_end ms (omega arith)
