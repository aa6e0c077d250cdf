-- ===== src/Agent/Budget.antt =====
-- budget.go: the sizes of a prompt and the removal of its oldest tool rounds. Texts are bytes here; a
-- number of tokens is natural, where 0 stands for the negative ones too, and has fewer than 62 bits.
pub mod Sizes
pub mod Rounds
pub mod Compact
use virtualme.Prelude.{
  ℕ, zero, suc, ◌+◌, ◌-◌, ◌*◌, ◌/◌, min, max, Bool, true, false, ◌&&◌, ◌||◌, not, Option, none,
  some, List, [], ◌∷◌, ◌++◌, ltb, leb, ◌==◌, if◌then◌else◌, length, take, drop,
}
use virtualme.Text.{Text, codes, text_eq}

abbrev pub context_token_margin : ℕ
context_token_margin = 512

abbrev pub min_completion_tokens : ℕ
min_completion_tokens = 1024

abbrev pub older_tool_text_cap : ℕ
older_tool_text_cap = 512

unfoldable pub observation_prompt_cap : ℕ → ℕ
observation_prompt_cap context_tokens =
    let tokens = if context_tokens == 0 then 32768 else context_tokens in
    min (max (tokens * 3 / 4) 4096) 65536

unfoldable pub adaptive_max_tokens : ℕ → ℕ → ℕ
adaptive_max_tokens context_tokens estimated_prompt =
    let available = context_tokens - estimated_prompt - context_token_margin in
    min (max available min_completion_tokens) (max 1 (context_tokens / 4))

-- The bytes of promptTruncationSuffix: a line end and three for the ellipsis.
abbrev pub truncation_suffix : Text
truncation_suffix = 10 ∷ 0xe2 ∷ 0x80 ∷ 0xa6 ∷ codes "[truncated to fit model context]"

unfoldable pub truncate_prompt_text : Text → ℕ → Text
truncate_prompt_text text limit =
    if leb (length text) limit
    then text
    else if leb limit (length truncation_suffix)
    then take limit text
    else take (limit - length truncation_suffix) text ++ truncation_suffix

-- Up to the first line end.
unfoldable pub first_line : Text → Text
first_line [] = []
first_line (c ∷ t) = let later = first_line t in if c == 10 then [] else c ∷ later

unfoldable pub first_line_capped : Text → ℕ → Text
unfolding first_line truncate_prompt_text
first_line_capped text limit = truncate_prompt_text (first_line text) limit

pub data Content : Type 0 where
  text : Text → Content
  -- a list of parts or another value, as JSON
  other : Text → Content

pub record PromptMessage : Type 0 where
  pub role : Text
  pub content : Content
  pub tool_calls : List Text
  pub tool_call_id : Text

abbrev pub has_calls : List Text → Bool
has_calls [] = false
has_calls (c ∷ cs) = true

abbrev pub starts_round : PromptMessage → Bool
starts_round m = text_eq m.role (codes "assistant") && has_calls m.tool_calls

unfoldable pub starts_from : ℕ → List PromptMessage → List ℕ
starts_from index [] = []
starts_from index (m ∷ ms) =
    let later = starts_from (index + 1) ms in if starts_round m then index ∷ later else later

unfoldable pub tool_round_starts : List PromptMessage → ℕ → List ℕ
unfolding starts_from
tool_round_starts messages history_end = starts_from history_end (drop history_end messages)

unfoldable pub observation_tool_stub : Text
observation_tool_stub = codes "Observation captured; use the following observation message."

unfoldable pub superseded_tool_stub : Text
superseded_tool_stub = codes "[observation superseded]"

unfoldable pub compact_content : Content → Content
unfolding observation_tool_stub superseded_tool_stub first_line_capped
compact_content (other json) = other json
compact_content (text t) =
    if text_eq t observation_tool_stub || text_eq t superseded_tool_stub
    then text t
    else text (first_line_capped t older_tool_text_cap)

unfoldable pub compact_message : PromptMessage → PromptMessage
unfolding compact_content
compact_message m =
    if text_eq m.role (codes "tool") then record m { content = compact_content m.content } else m

unfoldable pub compact_first : ℕ → List PromptMessage → List PromptMessage
unfolding compact_message
compact_first zero ms = ms
compact_first (suc n) [] = []
compact_first (suc n) (m ∷ ms) = compact_message m ∷ compact_first n ms

-- The loop over the indices from one up to another.
unfoldable pub compact_between : ℕ → ℕ → List PromptMessage → List PromptMessage
unfolding compact_first
compact_between from to ms = take from ms ++ compact_first (to - from) (drop from ms)

unfoldable pub last_of : ℕ → List ℕ → ℕ
last_of s [] = s
last_of s (t ∷ ts) = last_of t ts

unfoldable pub compact_starts : List ℕ → List PromptMessage → List PromptMessage
unfolding compact_between last_of
compact_starts [] ms = ms
compact_starts (s ∷ []) ms = ms
compact_starts (s ∷ t ∷ ts) ms = compact_between s (last_of t ts) ms

-- The messages of compactOlderToolText; its other result, whether they differ, is left out.
unfoldable pub compact_older_tool_text : List PromptMessage → ℕ → List PromptMessage
unfolding compact_starts tool_round_starts
compact_older_tool_text messages history_end =
    compact_starts (tool_round_starts messages history_end) messages

dropped : List ℕ → List PromptMessage → Option (List PromptMessage)
dropped [] ms = none
dropped (s ∷ []) ms = none
dropped (s ∷ t ∷ ts) ms = some (take s ms ++ drop t ms)

-- `none` where nothing is dropped.
unfoldable pub drop_oldest_tool_round : List PromptMessage → ℕ → Option (List PromptMessage)
unfolding dropped tool_round_starts
drop_oldest_tool_round messages history_end =
    dropped (tool_round_starts messages history_end) messages

-- The first loop of preparePrompt. How many tokens messages are estimated at is a parameter, since that
-- is a calculation with floating-point numbers. The result is `none` only when the rounds run out.
module _ (estimate : List PromptMessage → ℕ) (context_tokens : ℕ) where
  abbrev pub is_over : List PromptMessage → Bool
  is_over ms = ltb context_tokens (estimate ms + context_token_margin + min_completion_tokens)

  drop_loop : ℕ → ℕ → List PromptMessage → Option (List PromptMessage)
  unfolding drop_oldest_tool_round
  drop_loop zero history_end ms = none
  drop_loop (suc rounds) history_end ms = elim (is_over ms) [
    | false ↦ some ms
    | true ↦ elim (drop_oldest_tool_round ms history_end) [
      | none ↦ some ms
      | some fewer ↦ drop_loop rounds history_end fewer
    ]
  ]

  unfoldable pub drop_rounds : ℕ → List PromptMessage → Option (List PromptMessage)
  unfolding drop_loop
  drop_rounds history_end ms = drop_loop (length ms + 1) history_end ms
