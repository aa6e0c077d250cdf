-- ===== src/Agent/Budget/Sizes.antt =====
-- Bounds of the sizes.
use virtualme.Prelude.{
  ℕ, ◌+◌, ◌-◌, ◌≤◌, leb, length, take, length-take, length-append, arith, by_test,
}
use virtualme.Text.{Text}
use virtualme.Agent.Budget.{
  context_token_margin, min_completion_tokens, adaptive_max_tokens, truncation_suffix,
  truncate_prompt_text,
}

-- Where a prompt is within the budget, that is, no more tokens than the context has without the margin
-- and the least completion, then the prompt, the tokens that adaptiveMaxTokens allows for the
-- completion and the margin fit the context, and one token is allowed at least.
pub adaptive_max_tokens-le :
    (context_tokens estimated : ℕ)
    → estimated + context_token_margin + min_completion_tokens ≤ context_tokens
    → (estimated + adaptive_max_tokens context_tokens estimated + context_token_margin
        ≤ context_tokens)
      × (1 ≤ adaptive_max_tokens context_tokens estimated)
unfolding adaptive_max_tokens
adaptive_max_tokens-le context_tokens estimated h = (omega arith, omega arith)

pub truncate_prompt_text-le : (t : Text) (limit : ℕ) → length (truncate_prompt_text t limit) ≤ limit
unfolding truncate_prompt_text
truncate_prompt_text-le t limit =
    by_test (λ (r : Text). length r ≤ limit) (leb (length t) limit) (λ e. ground arith)
      (λ e.
        by_test (λ (r : Text). length r ≤ limit) (leb limit (length truncation_suffix))
          (λ f. omega (arith, length-take limit t))
          (λ f. ground (
            arith,
            length-append (take (limit - length truncation_suffix) t) truncation_suffix,
            length-take (limit - length truncation_suffix) t,
          )))
