-- ===== src/Agent/Budget/Compact.antt =====
-- Which messages the compaction of older tool results changes, and to what.
pub mod Starts
use virtualme.Prelude.{
  ℕ, zero, suc, ◌+◌, ◌-◌, ◌≤◌, ◌<◌, ◌≡◌, ◌≢◌, ◌⊎◌, inl, inr, refl, sym, ap, ◌∙◌, subst, Bool, true,
  false, ◌||◌, ◌==◌, ==_iff, List, [], ◌∷◌, ◌++◌, map, length, take, drop, take-append, drop-append,
  take-append-drop, length-append, append_assoc, arith, All, Bool-cases, by_test, ltb, leb,
  if◌then◌else◌,
}
use virtualme.Text.{Text, codes, text_eq, text_eq_iff}
use virtualme.Agent.Budget.{
  PromptMessage, Content, text, other, first_line, first_line_capped, truncate_prompt_text,
  truncation_suffix, observation_tool_stub, superseded_tool_stub, compact_content, compact_message,
  compact_first, compact_between, compact_starts, last_of, tool_round_starts, starts_from,
  compact_older_tool_text,
}
use virtualme.Agent.Budget.Compact.Starts.{
  count_rounds, IsStart, NoStarts, First, Last, HasFirst, HasLast, starts_from-HasFirst,
  starts_from-HasLast, starts_from-count,
}

-- What stands before the first line end, or the whole text if it has none.
abbrev pub IsFirstLine : Text → Text → Type 0
IsFirstLine t line =
    All (λ c. c ≢ 10) line × ((t ≡ line) ⊎ ((rest : Text) × (t ≡ line ++ 10 ∷ rest)))

-- The first line if it has at most 512 bytes, else its first 476 bytes and the suffix of 36.
abbrev pub IsCapped : Text → Text → Type 0
IsCapped t u =
    (line : Text) × IsFirstLine t line
    × (((length line ≤ 512) × (u ≡ line))
        ⊎ ((512 < length line) × (u ≡ take 476 line ++ truncation_suffix)))

abbrev IsStub : Text → Type 0
IsStub t = (t ≡ observation_tool_stub) ⊎ (t ≡ superseded_tool_stub)

-- A content that is no text stays, and so do the two stubs; another text is capped.
abbrev pub IsShortened : Content → Content → Type 0
IsShortened (other json) c = c ≡ other json
IsShortened (text t) (other json) = ⊥
IsShortened (text t) (text u) = (IsStub t × (u ≡ t)) ⊎ ((IsStub t → ⊥) × IsCapped t u)

-- Only the content of a message of a tool changes.
abbrev pub IsCompacted : PromptMessage → PromptMessage → Type 0
IsCompacted m n =
    ((m.role ≡ codes "tool")
      × (n ≡ record m { content = n.content })
      × IsShortened m.content n.content)
    ⊎ ((m.role ≢ codes "tool") × (n ≡ m))

abbrev pub AreCompacted : List PromptMessage → List PromptMessage → Type 0
AreCompacted [] [] = Unit
AreCompacted [] (n ∷ ns) = ⊥
AreCompacted (m ∷ ms) [] = ⊥
AreCompacted (m ∷ ms) (n ∷ ns) = IsCompacted m n × AreCompacted ms ns

first_line-IsFirstLine : (t : Text) → IsFirstLine t (first_line t)
unfolding first_line
first_line-IsFirstLine [] = (tt, inl refl)
first_line-IsFirstLine (c ∷ t) = elim (Bool-cases (c == 10)) [
  | inl e ↦ rw (e, first_line) (tt, inr (t, ap (λ (d : ℕ). d ∷ t) ((==_iff c 10).0 e)))
  | inr e ↦ rw (e, first_line) (other_rune e (first_line-IsFirstLine t))
]
  where
    other_rune :
        c == 10 ≡ false → IsFirstLine t (first_line t) → IsFirstLine (c ∷ t) (c ∷ first_line t)
    other_rune e (h, inl k) =
        ((λ f. let g = (==_iff c 10).1 f in absurd (cc), h), inl (ap (λ (u : Text). c ∷ u) k))
    other_rune e (h, inr (rest, k)) =
        ((λ f. let g = (==_iff c 10).1 f in absurd (cc), h), inr (rest, ap (λ (u : Text). c ∷ u) k))

first_line_capped-IsCapped : (t : Text) → IsCapped t (first_line_capped t 512)
unfolding first_line_capped truncate_prompt_text
first_line_capped-IsCapped t =
    let line = first_line t in
    elim (Bool-cases (leb (length line) 512)) [
      | inl e ↦ (line, first_line-IsFirstLine t, rw e (inl (ground arith, refl)))
      | inr e ↦ (line, first_line-IsFirstLine t, rw e (inr (ground arith, refl)))
    ]

IsStub-or_not :
    (t : Text)
    → (((text_eq t observation_tool_stub || text_eq t superseded_tool_stub) ≡ true) × IsStub t)
      ⊎ (((text_eq t observation_tool_stub || text_eq t superseded_tool_stub) ≡ false)
          × (IsStub t → ⊥))
IsStub-or_not t = elim (Bool-cases (text_eq t observation_tool_stub)) [
  | inl e ↦ inl (rw e refl, inl ((text_eq_iff t observation_tool_stub).0 e))
  | inr e ↦ elim (Bool-cases (text_eq t superseded_tool_stub)) [
    | inl f ↦ inl (rw (e, f) refl, inr ((text_eq_iff t superseded_tool_stub).0 f))
    | inr f ↦ inr (
      rw (e, f) refl,
      λ h. elim h [
        | inl k ↦ let g = (text_eq_iff t observation_tool_stub).1 k in absurd (cc)
        | inr k ↦ let g = (text_eq_iff t superseded_tool_stub).1 k in absurd (cc)
      ],
    )
  ]
]

compact_content-IsShortened : (c : Content) → IsShortened c (compact_content c)
unfolding compact_content
compact_content-IsShortened (other json) = refl
compact_content-IsShortened (text t) = elim (IsStub-or_not t) [
  | inl (e, s) ↦ rw e (inl (s, refl))
  | inr (e, s) ↦ rw e (inr (s, first_line_capped-IsCapped t))
]

compact_message-IsCompacted : (m : PromptMessage) → IsCompacted m (compact_message m)
unfolding compact_message
compact_message-IsCompacted m = elim (Bool-cases (text_eq m.role (codes "tool"))) [
  | inl e ↦
      rw e
        (inl ((text_eq_iff m.role (codes "tool")).0 e, refl, compact_content-IsShortened m.content))
  | inr e ↦ rw e (inr (λ h. let g = (text_eq_iff m.role (codes "tool")).1 h in absurd (cc), refl))
]

map-AreCompacted : (ms : List PromptMessage) → AreCompacted ms (map compact_message ms)
map-AreCompacted [] = tt
map-AreCompacted (m ∷ ms) = (compact_message-IsCompacted m, map-AreCompacted ms)

compact_first-append :
    (xs ys : List PromptMessage)
    → compact_first (length xs) (xs ++ ys) ≡ map compact_message xs ++ ys
unfolding compact_first
compact_first-append [] ys = refl
compact_first-append (x ∷ xs) ys =
    ap (λ (t : List PromptMessage). compact_message x ∷ t) (compact_first-append xs ys)

compact_between-append :
    (xs ys zs : List PromptMessage) (to : ℕ)
    → to ≡ length xs + length ys
    → compact_between (length xs) to (xs ++ (ys ++ zs)) ≡ xs ++ (map compact_message ys ++ zs)
unfolding compact_between
compact_between-append xs ys zs to e =
    let size : to - length xs ≡ length ys = omega arith in
    ap (λ t. t ++ compact_first (to - length xs) (drop (length xs) (xs ++ (ys ++ zs))))
      (take-append xs (ys ++ zs))
    ∙ ap (λ t. xs ++ compact_first (to - length xs) t)
        (drop-append xs (ys ++ zs) (length xs) 0 (omega arith))
    ∙ ap (λ n. xs ++ compact_first n (ys ++ zs)) size
    ∙ ap (λ t. xs ++ t) (compact_first-append ys zs)

-- From the first tool round behind the history up to the newest one, the messages are compacted; the
-- history, what stands before the first round and the newest round stay.
pub record CompactsOlder (history_end : ℕ) (ms result : List PromptMessage) : Type 0 where
  pub before : List PromptMessage
  pub first : PromptMessage
  pub older : List PromptMessage
  pub newest : PromptMessage
  pub rest : List PromptMessage
  pub compacted : List PromptMessage
  pub split : ms ≡ before ++ ((first ∷ older) ++ (newest ∷ rest))
  pub behind_history : history_end ≤ length before
  pub none_before : NoStarts (drop history_end before)
  pub first_starts : IsStart first
  pub newest_starts : IsStart newest
  pub newest_last : NoStarts rest
  pub kept : result ≡ before ++ (compacted ++ (newest ∷ rest))
  pub are_compacted : AreCompacted (first ∷ older) compacted

-- Where there are not two tool rounds behind the history, nothing changes.
abbrev pub IsCompaction : ℕ → List PromptMessage → List PromptMessage → Type 0
IsCompaction history_end ms result =
    ((count_rounds (drop history_end ms) ≤ 1) × (result ≡ ms)) ⊎ CompactsOlder history_end ms result

history_length :
    (n : ℕ) (ms xs ys : List PromptMessage) (m : PromptMessage)
    → drop n ms ≡ xs ++ m ∷ ys
    → length (take n ms) ≡ n
history_length zero ms xs ys m e = refl
history_length (suc n) [] [] ys m e = absurd (cc)
history_length (suc n) [] (x ∷ xs) ys m e = absurd (cc)
history_length (suc n) (k ∷ ms) xs ys m e = ap suc (history_length n ms xs ys m e)

compacts_older :
    (history_end : ℕ) (ms : List PromptMessage) (s last : ℕ) (ss : List ℕ)
    → (f : First history_end (drop history_end ms) s ss) → Last (s + 1) f.after last
    → CompactsOlder history_end ms (compact_between s last ms)
compacts_older history_end ms s last ss f l =
    let front = take history_end ms in
    let before = front ++ f.before in
    let older = f.start ∷ l.before in
    let newest = l.start ∷ l.after in
    let size = history_length history_end ms f.before f.after f.start f.split in
    let all = length-append front f.before in
    let here = f.index in
    let there = l.index in
    let split : ms ≡ before ++ (older ++ newest) =
      sym (take-append-drop history_end ms)
      ∙ ap (λ t. front ++ t)
          (f.split ∙ ap (λ (t : List PromptMessage). f.before ++ (f.start ∷ t)) l.split)
      ∙ sym (append_assoc front f.before (older ++ newest)) in
    let at : s ≡ length before = omega arith in
    record {
      before = before;
      first = f.start;
      older = l.before;
      newest = l.start;
      rest = l.after;
      compacted = map compact_message older;
      split = split;
      behind_history = omega arith;
      none_before =
          subst NoStarts (sym (drop-append front f.before history_end 0 (omega arith)))
            f.none_before;
      first_starts = f.is_start;
      newest_starts = l.is_start;
      newest_last = l.none_after;
      kept =
          ap (λ n. compact_between n last ms) at
          ∙ ap (compact_between (length before) last) split
          ∙ compact_between-append before older newest last (omega arith);
      are_compacted = map-AreCompacted older;
    }

compact_starts-IsCompaction :
    (history_end : ℕ) (ms : List PromptMessage) (ss : List ℕ)
    → HasFirst history_end (drop history_end ms) ss
    → length ss ≡ count_rounds (drop history_end ms)
    → IsCompaction history_end ms (compact_starts ss ms)
unfolding compact_starts
compact_starts-IsCompaction history_end ms [] h n = inl (omega arith, refl)
compact_starts-IsCompaction history_end ms (s ∷ []) h n = inl (omega arith, refl)
compact_starts-IsCompaction history_end ms (s ∷ t ∷ ts) h n = inr (
    compacts_older history_end ms s (last_of t ts) (t ∷ ts) h
      (subst (HasLast (s + 1) h.after) h.later (starts_from-HasLast (s + 1) h.after)))

-- compactOlderToolText changes nothing where fewer than two tool rounds start behind the history.
-- Otherwise the history, the messages before the first round and those from the start of the newest
-- round on stay as they are, and between them each message of a tool whose content is a text and none
-- of the two stubs gets the first line of that text, cut to 476 bytes and a suffix of 36 if it has
-- more than 512; all else stays.
pub compact_older_tool_text-IsCompaction :
    (ms : List PromptMessage) (history_end : ℕ)
    → IsCompaction history_end ms (compact_older_tool_text ms history_end)
unfolding compact_older_tool_text tool_round_starts
compact_older_tool_text-IsCompaction ms history_end =
    let later = drop history_end ms in
    compact_starts-IsCompaction history_end ms (starts_from history_end later)
      (starts_from-HasFirst history_end later) (starts_from-count history_end later)
