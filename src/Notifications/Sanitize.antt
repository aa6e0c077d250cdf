-- ===== src/Notifications/Sanitize.antt =====
-- sanitizeText and isRemovedRune of notifications.go.
pub mod Words
use virtualme.Prelude.{
  ℕ, ◌≡◌, refl, sym, ap, ◌∙◌, ◌⊎◌, inl, inr, Bool, true, false, ◌&&◌, ◌||◌, [], ◌∷◌, leb, ◌==◌,
  if◌then◌else◌, Bool-cases,
}
use virtualme.Text.{Text, is_space, trim_left, trim_right, keep_unless_space, trim_space}

-- isRemovedRune
unfoldable pub is_removed_rune : ℕ → Bool
is_removed_rune r =
    leb r 0x1f
    || (leb 0x7f r && leb r 0x9f)
    || (leb 0x202a r && leb r 0x202e)
    || (leb 0x2066 r && leb r 0x2069)
    || r == 0xfeff

-- The loop of sanitizeText, with its flag for a space before; what it writes to the builder is the
-- result.
unfoldable pub squeeze : Bool → Text → Text
squeeze space [] = []
squeeze space (r ∷ s) = elim (is_space r) [
  | true ↦ (let rest = squeeze true s in if space then rest else 32 ∷ rest)
  | false ↦ elim (is_removed_rune r) [ true ↦ squeeze space s | false ↦ r ∷ squeeze false s ]
]

-- sanitizeText. A text is code points, so it is valid UTF-8.
unfoldable pub sanitize_text : Text → Text
unfolding squeeze
sanitize_text input = trim_space (squeeze true input)

-- A rune that sanitizeText keeps as it is.
abbrev pub IsPlain : ℕ → Type 0
IsPlain r = (is_space r ≡ false) × (is_removed_rune r ≡ false)

-- Plain runes and single spaces between them; a space may end the text, and one may begin it unless
-- a space is before it.
abbrev pub IsSqueezed : Bool → Text → Type 0
IsSqueezed space [] = Unit
IsSqueezed space (r ∷ s) =
    (IsPlain r × IsSqueezed false s) ⊎ ((r ≡ 32) × (space ≡ false) × IsSqueezed true s)

-- Words of plain runes, with one space between two of them.
abbrev IsClean : Text → Type 0
IsClean t = IsSqueezed true t × (trim_right t ≡ t)

pub squeeze-IsSqueezed : (space : Bool) (s : Text) → IsSqueezed space (squeeze space s)
unfolding squeeze
squeeze-IsSqueezed space [] = tt
squeeze-IsSqueezed space (r ∷ s) = elim (Bool-cases (is_space r)) [
  | inl e ↦ rw (e, squeeze) (spaced space (squeeze-IsSqueezed true s))
  | inr e ↦ elim (Bool-cases (is_removed_rune r)) [
    | inl f ↦ rw (e, f, squeeze) (squeeze-IsSqueezed space s)
    | inr f ↦ rw (e, f, squeeze) (inl ((e, f), squeeze-IsSqueezed false s))
  ]
]
  where
    spaced :
        (b : Bool)
        → IsSqueezed true (squeeze true s)
        → IsSqueezed b (if b then squeeze true s else 32 ∷ squeeze true s)
    spaced true h = h
    spaced false h = inr (refl, refl, h)

squeeze-eq : (space : Bool) (t : Text) → IsSqueezed space t → squeeze space t ≡ t
unfolding squeeze
squeeze-eq space [] h = refl
squeeze-eq space (r ∷ s) (inl (p, h)) =
    rw (p.0, p.1, squeeze) (ap (λ (u : Text). r ∷ u) (squeeze-eq false s h))
squeeze-eq space (r ∷ s) (inr (e, f, h)) =
    let g : is_space r ≡ true = rw e (unfold is_space in refl) in
    rw (g, f, squeeze) (λ i. sym e i ∷ squeeze-eq true s h i)

trim_left-eq : (t : Text) → IsSqueezed true t → trim_left t ≡ t
unfolding trim_left
trim_left-eq [] h = refl
trim_left-eq (r ∷ s) (inl (p, h)) = rw p.0
trim_left-eq (r ∷ s) (inr (e, f, h)) = absurd (cc)

trim_right-keep_unless_space :
    (c : ℕ) (u : Text)
    → trim_right u ≡ u
    → trim_right (keep_unless_space c u) ≡ keep_unless_space c u
unfolding trim_right keep_unless_space
trim_right-keep_unless_space c [] h = elim (Bool-cases (is_space c)) [
  | inl e ↦ rw e
  | inr e ↦ rw (e, e)
]
trim_right-keep_unless_space c (d ∷ u) h = ap (keep_unless_space c) h

trim_right_idem : (t : Text) → trim_right (trim_right t) ≡ trim_right t
unfolding trim_right
trim_right_idem [] = refl
trim_right_idem (c ∷ s) = trim_right-keep_unless_space c (trim_right s) (trim_right_idem s)

keep_unless_space-IsSqueezed :
    (space : Bool) (c : ℕ) (u : Text)
    → IsPlain c × IsSqueezed false u ⊎ (c ≡ 32) × (space ≡ false) × IsSqueezed true u
    → IsSqueezed space (keep_unless_space c u)
unfolding keep_unless_space
keep_unless_space-IsSqueezed space c [] (inl (p, h)) = rw p.0 (inl (p, tt))
keep_unless_space-IsSqueezed space c [] (inr (e, f, h)) =
    let g : is_space c ≡ true = rw e (unfold is_space in refl) in rw g tt
keep_unless_space-IsSqueezed space c (d ∷ u) h = h

trim_right-IsSqueezed :
    (space : Bool) (t : Text) → IsSqueezed space t → IsSqueezed space (trim_right t)
unfolding trim_right
trim_right-IsSqueezed space [] h = tt
trim_right-IsSqueezed space (c ∷ s) (inl (p, h)) =
    keep_unless_space-IsSqueezed space c (trim_right s) (inl (p, trim_right-IsSqueezed false s h))
trim_right-IsSqueezed space (c ∷ s) (inr (e, f, h)) =
    keep_unless_space-IsSqueezed space c (trim_right s) (inr (e, f, trim_right-IsSqueezed true s h))

pub trim_space-eq : (t : Text) → IsSqueezed true t → trim_space t ≡ trim_right t
unfolding trim_space
trim_space-eq t h = ap trim_right (trim_left-eq t h)

-- Sanitized text is words of kept runes with one space between two of them.
sanitize_text-IsClean : (input : Text) → IsClean (sanitize_text input)
unfolding sanitize_text
sanitize_text-IsClean input =
    let h = squeeze-IsSqueezed true input in
    let e = trim_space-eq (squeeze true input) h in
    rw e (trim_right-IsSqueezed true (squeeze true input) h, trim_right_idem (squeeze true input))

-- Text that is clean already is not changed.
sanitize_text-eq : (t : Text) → IsClean t → sanitize_text t ≡ t
unfolding sanitize_text
sanitize_text-eq t h = ap trim_space (squeeze-eq true t h.0) ∙ trim_space-eq t h.0 ∙ h.1

-- A second pass changes nothing.
pub sanitize_text_idem : (input : Text) → sanitize_text (sanitize_text input) ≡ sanitize_text input
sanitize_text_idem input = sanitize_text-eq (sanitize_text input) (sanitize_text-IsClean input)
