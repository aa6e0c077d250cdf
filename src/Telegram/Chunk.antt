-- ===== src/Telegram/Chunk.antt =====
-- ChunkText and preferredBoundary of chunk.go: the division of a text into messages of at most 4096
-- UTF-16 units.
pub mod Division
use virtualme.Prelude.{
  ℕ, zero, suc, ◌+◌, ◌-◌, Bool, ◌&&◌, not, List, [], ◌∷◌, leb, ltb, ◌==◌, if◌then◌else◌, length,
  take, drop, get_or,
}
use virtualme.Text.{Text, text_eq, is_space}

-- The UTF-16 units of a rune.
unfoldable pub units_of : ℕ → ℕ
units_of c = if ltb 0xFFFF c then 2 else 1

unfoldable pub units : Text → ℕ
unfolding units_of
units [] = 0
units (c ∷ t) = units_of c + units t

-- The loop that finds `end`: how many runes fit behind `used` units.
unfoldable pub fitting : ℕ → Text → ℕ
unfolding units_of
fitting used [] = 0
fitting used (c ∷ t) =
    let rest = fitting (used + units_of c) t in if ltb 4096 (used + units_of c) then 0 else suc rest

-- The closure `latest`: the last place, at `i` or before, that matches behind enough units.
unfoldable pub latest : Text → ℕ → (ℕ → Bool) → ℕ → ℕ
unfolding units
latest runes floor match zero = 0
latest runes floor match (suc i) =
    let earlier = latest runes floor match i in
    if leb floor (units (take (suc i) runes)) && match (suc i) then suc i else earlier

ends_paragraph : Text → ℕ → Bool
ends_paragraph runes i = leb 2 i && text_eq (take 2 (drop (i - 2) runes)) (10 ∷ 10 ∷ [])

ends_line : Text → ℕ → Bool
ends_line runes i = get_or runes (i - 1) 0 == 10

ends_word : Text → ℕ → Bool
ends_word runes i = is_space (get_or runes (i - 1) 0) && not (get_or runes (i - 1) 0 == 10)

-- preferredBoundary
unfoldable pub preferred_boundary : Text → ℕ → ℕ
unfolding ends_paragraph ends_line ends_word latest
preferred_boundary runes floor =
    let paragraph = latest runes floor (ends_paragraph runes) (length runes) in
    let line = latest runes floor (ends_line runes) (length runes) in
    let word = latest runes floor (ends_word runes) (length runes) in
    if ltb 0 paragraph then paragraph else if ltb 0 line then line else word

-- Where a text is cut of which `end` runes fit.
unfoldable pub cut_at : Text → ℕ → ℕ
unfolding preferred_boundary
cut_at text end =
    let boundary = preferred_boundary (take end text) 3072 in
    if ltb 0 boundary then boundary else end

unfoldable pub chunks_from : ℕ → Text → List Text
chunks_from zero text = []
chunks_from (suc fuel) [] = []
chunks_from (suc fuel) (c ∷ t) =
    let text = c ∷ t in
    let end = fitting 0 text in
    let cut = cut_at text end in
    let rest = chunks_from fuel (drop cut text) in
    if end == length text then text ∷ [] else take cut text ∷ rest

-- ChunkText; each round takes a rune at least, so that the text's length is enough for the rounds.
unfoldable pub chunk_text : Text → List Text
unfolding chunks_from
chunk_text text = chunks_from (length text) text
