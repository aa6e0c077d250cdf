-- ===== src/Notifications/Sanitize/Words.antt =====
-- sanitizeText as the words of the input without the removed runes.
use virtualme.Prelude.{
  ℕ, ◌≡◌, ◌≢◌, refl, sym, ap, ◌∙◌, Bool, true, false, ◌&&◌, ◌||◌, not, List, [], ◌∷◌, ◌++◌, leb,
  if◌then◌else◌, arith, Bool-cases, inl, inr, All, append-nil, append_assoc,
}
use virtualme.Text.{Text, is_space, trim_right, keep_unless_space, fields, fields_from, flush, join}
use virtualme.Notifications.Sanitize.{
  is_removed_rune, squeeze, sanitize_text, squeeze-IsSqueezed, trim_space-eq, sanitize_text_idem,
}

-- The ranges of the runes that are removed: the control characters, the embeddings and overrides of
-- direction, the isolates, and the byte order mark.
abbrev removed_ranges : List (ℕ × ℕ)
removed_ranges =
    (0, 0x1f) ∷ (0x7f, 0x9f) ∷ (0x202a, 0x202e) ∷ (0x2066, 0x2069) ∷ (0xfeff, 0xfeff) ∷ []

abbrev in_ranges : ℕ → List (ℕ × ℕ) → Bool
in_ranges r [] = false
in_ranges r ((low, high) ∷ ranges) = (leb low r && leb r high) || in_ranges r ranges

-- The input without the removed runes; white space stays.
abbrev pub shown : Text → Text
shown [] = []
shown (r ∷ s) = if is_space r || not (in_ranges r removed_ranges) then r ∷ shown s else shown s

is_removed_rune-ranges : (r : ℕ) → is_removed_rune r ≡ in_ranges r removed_ranges
unfolding is_removed_rune
is_removed_rune-ranges r = ground (arith)

shown-space : (r : ℕ) (s : Text) → is_space r ≡ true → shown (r ∷ s) ≡ r ∷ shown s
shown-space r s e = rw e refl

shown-removed :
    (r : ℕ) (s : Text) → is_space r ≡ false → is_removed_rune r ≡ true → shown (r ∷ s) ≡ shown s
shown-removed r s e f =
    let g : in_ranges r removed_ranges ≡ true = sym (is_removed_rune-ranges r) ∙ f in rw (e, g) refl

shown-plain :
    (r : ℕ) (s : Text)
    → is_space r ≡ false
    → is_removed_rune r ≡ false
    → shown (r ∷ s) ≡ r ∷ shown s
shown-plain r s e f =
    let g : in_ranges r removed_ranges ≡ false = sym (is_removed_rune-ranges r) ∙ f in
    rw (e, g) refl

abbrev IsWord : Text → Type 0
IsWord w = w ≢ []

flush-words : (w : Text) (ws : List Text) → All IsWord ws → All IsWord (flush w ++ ws)
unfolding flush
flush-words [] ws h = h
flush-words (c ∷ w) ws h = (λ e. cc, h)

fields_from-words : (w s : Text) → All IsWord (fields_from w s)
unfolding fields_from flush
fields_from-words [] [] = flush-words [] [] tt
fields_from-words (c ∷ w) [] = (λ e. cc, tt)
fields_from-words w (c ∷ s) = elim (Bool-cases (is_space c)) [
  | inl e ↦ rw (e, fields_from) (flush-words w (fields_from [] s) (fields_from-words [] s))
  | inr e ↦ rw (e, fields_from) (fields_from-words (w ++ c ∷ []) s)
]

space_is_space : is_space 32 ≡ true
unfolding is_space
space_is_space = refl

-- A space stands before what is left, unless nothing is.
spaced-join :
    (ws : List Text) (w : Text)
    → All IsWord ws
    → w ++ keep_unless_space 32 (join ws 32) ≡ join (w ∷ ws) 32
unfolding join keep_unless_space
spaced-join [] w h = rw space_is_space (append-nil w)
spaced-join ([] ∷ ws) w (h, hs) = absurd (h refl)
spaced-join ((c ∷ v) ∷ []) w h = refl
spaced-join ((c ∷ v) ∷ u ∷ ws) w h = refl

plain-kept : (r : ℕ) (u : Text) → is_space r ≡ false → keep_unless_space r u ≡ r ∷ u
unfolding keep_unless_space
plain-kept r [] e = rw e refl
plain-kept r (d ∷ u) e = refl

squeeze-space :
    (r : ℕ) (s : Text) (b : Bool)
    → is_space r ≡ true
    → squeeze b (r ∷ s) ≡ (if b then squeeze true s else 32 ∷ squeeze true s)
unfolding squeeze
squeeze-space r s b e = rw (e, squeeze) refl

squeeze-removed :
    (r : ℕ) (s : Text) (b : Bool)
    → is_space r ≡ false
    → is_removed_rune r ≡ true
    → squeeze b (r ∷ s) ≡ squeeze b s
unfolding squeeze
squeeze-removed r s b e f = rw (e, f, squeeze) refl

squeeze-plain :
    (r : ℕ) (s : Text) (b : Bool)
    → is_space r ≡ false
    → is_removed_rune r ≡ false
    → trim_right (squeeze b (r ∷ s)) ≡ r ∷ trim_right (squeeze false s)
unfolding squeeze trim_right
squeeze-plain r s b e f = rw (e, f, squeeze) (plain-kept r (trim_right (squeeze false s)) e)

fields_from-space :
    (w s : Text) (r : ℕ) → is_space r ≡ true → fields_from w (r ∷ s) ≡ flush w ++ fields_from [] s
unfolding fields_from
fields_from-space w s r e = rw (e, fields_from) refl

fields_from-plain :
    (w s : Text) (r : ℕ) → is_space r ≡ false → fields_from w (r ∷ s) ≡ fields_from (w ++ r ∷ []) s
unfolding fields_from
fields_from-plain w s r e = rw (e, fields_from) refl

abbrev joined : Text → Text → Text
joined w s = join (fields_from w (shown s)) 32

-- Between words, and in a word.
abbrev AreWords : Text → Type 0
AreWords s =
    (trim_right (squeeze true s) ≡ joined [] s)
    × ((c : ℕ) (w : Text) → (c ∷ w) ++ trim_right (squeeze false s) ≡ joined (c ∷ w) s)

space-AreWords : (r : ℕ) (s : Text) → is_space r ≡ true → AreWords s → AreWords (r ∷ s)
unfolding trim_right flush
space-AreWords r s e h = (
  ap trim_right (squeeze-space r s true e)
      ∙ h.0
      ∙ sym (
          ap (λ t. join t 32)
            (ap (fields_from []) (shown-space r s e) ∙ fields_from-space [] (shown s) r e)),
  λ c w.
      ap (λ t. (c ∷ w) ++ trim_right t) (squeeze-space r s false e)
      ∙ ap (λ t. (c ∷ w) ++ keep_unless_space 32 t) h.0
      ∙ spaced-join (fields_from [] (shown s)) (c ∷ w) (fields_from-words [] (shown s))
      ∙ sym (
          ap (λ t. join t 32)
            (ap (fields_from (c ∷ w)) (shown-space r s e)
              ∙ fields_from-space (c ∷ w) (shown s) r e)),
)

plain-AreWords :
    (r : ℕ) (s : Text)
    → is_space r ≡ false
    → is_removed_rune r ≡ false
    → AreWords s
    → AreWords (r ∷ s)
plain-AreWords r s e f h =
    let next : (w : Text) → joined w (r ∷ s) ≡ joined (w ++ r ∷ []) s = λ w.
      ap (λ t. join t 32)
        (ap (fields_from w) (shown-plain r s e f) ∙ fields_from-plain w (shown s) r e) in
    (
      squeeze-plain r s true e f ∙ h.1 r [] ∙ sym (next []),
      λ c w.
          ap (λ t. (c ∷ w) ++ t) (squeeze-plain r s false e f)
          ∙ sym (append_assoc (c ∷ w) (r ∷ []) (trim_right (squeeze false s)))
          ∙ h.1 c (w ++ r ∷ [])
          ∙ sym (next (c ∷ w)),
    )

removed-AreWords :
    (r : ℕ) (s : Text)
    → is_space r ≡ false
    → is_removed_rune r ≡ true
    → AreWords s
    → AreWords (r ∷ s)
removed-AreWords r s e f h = (
  ap trim_right (squeeze-removed r s true e f)
      ∙ h.0
      ∙ sym (ap (λ t. join (fields_from [] t) 32) (shown-removed r s e f)),
  λ c w.
      ap (λ t. (c ∷ w) ++ trim_right t) (squeeze-removed r s false e f)
      ∙ h.1 c w
      ∙ sym (ap (λ t. join (fields_from (c ∷ w) t) 32) (shown-removed r s e f)),
)

squeeze-AreWords : (s : Text) → AreWords s
unfolding squeeze fields_from flush join trim_right
squeeze-AreWords [] = (refl, λ c w. append-nil (c ∷ w))
squeeze-AreWords (r ∷ s) = elim (Bool-cases (is_space r)) [
  | inl e ↦ space-AreWords r s e (squeeze-AreWords s)
  | inr e ↦ elim (Bool-cases (is_removed_rune r)) [
    | inl f ↦ removed-AreWords r s e f (squeeze-AreWords s)
    | inr f ↦ plain-AreWords r s e f (squeeze-AreWords s)
  ]
]

-- sanitizeText takes from the input the runes of the removed ranges that are not white space, and
-- leaves the words of the rest (strings.Fields) joined by one space (strings.Join). A second pass
-- changes nothing.
pub sanitize_text-words :
    (input : Text)
    → (sanitize_text input ≡ join (fields (shown input)) 32)
      × (sanitize_text (sanitize_text input) ≡ sanitize_text input)
unfolding sanitize_text fields
sanitize_text-words input = (
  trim_space-eq (squeeze true input) (squeeze-IsSqueezed true input) ∙ (squeeze-AreWords input).0,
  sanitize_text_idem input,
)
