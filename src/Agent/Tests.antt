-- ===== src/Agent/Tests.antt =====
-- Runs of budget.go.
use virtualme.Prelude.{ℕ, ◌+◌, ◌*◌, ◌≤◌, ◌≡◌, refl, some, List, [], ◌∷◌, length, arith}
use virtualme.Text.{codes, text_eq}
use virtualme.Agent.Budget.{
  PromptMessage, text, context_token_margin, adaptive_max_tokens, observation_prompt_cap,
  tool_round_starts, drop_oldest_tool_round, drop_rounds, compact_older_tool_text,
}
use virtualme.Agent.Budget.Sizes.{adaptive_max_tokens-le}
use virtualme.Agent.Budget.Rounds.{Reduces, drop_rounds-Reduces}
use virtualme.Agent.Budget.Compact.{IsCompaction, compact_older_tool_text-IsCompaction}

abbrev asks : PromptMessage
asks = record {
  role = codes "user";
  content = text (codes "do it");
  tool_calls = [];
  tool_call_id = [];
}

abbrev calls : PromptMessage
calls = record {
  role = codes "assistant";
  content = text [];
  tool_calls = codes "{}" ∷ [];
  tool_call_id = [];
}

abbrev answers : PromptMessage
answers = record {
  role = codes "tool";
  content = text (codes "a\nb");
  tool_calls = [];
  tool_call_id = codes "1";
}

abbrev talk : List PromptMessage
talk = asks ∷ calls ∷ answers ∷ calls ∷ answers ∷ calls ∷ answers ∷ []

rounds_found : tool_round_starts talk 1 ≡ 1 ∷ 3 ∷ 5 ∷ []
unfolding tool_round_starts text_eq
rounds_found = refl

-- Each message is taken for 500 tokens.
abbrev estimate : List PromptMessage → ℕ
estimate ms = 500 * length ms

one_round_dropped :
    drop_rounds estimate 4096 1 talk ≡ some (asks ∷ calls ∷ answers ∷ calls ∷ answers ∷ [])
unfolding drop_rounds drop_oldest_tool_round tool_round_starts text_eq
one_round_dropped = refl

cap_of_default : observation_prompt_cap 0 ≡ 24576
unfolding observation_prompt_cap
cap_of_default = refl

adaptive_max_tokens-le_example :
    (20000 + adaptive_max_tokens 32768 20000 + context_token_margin ≤ 32768)
    × (1 ≤ adaptive_max_tokens 32768 20000)
adaptive_max_tokens-le_example = adaptive_max_tokens-le 32768 20000 (omega arith)

drop_rounds-Reduces_example : Reduces estimate 4096 1 talk (drop_rounds estimate 4096 1 talk)
drop_rounds-Reduces_example = drop_rounds-Reduces estimate 4096 1 talk

compact_older_tool_text-IsCompaction_example : IsCompaction 1 talk (compact_older_tool_text talk 1)
compact_older_tool_text-IsCompaction_example = compact_older_tool_text-IsCompaction talk 1
