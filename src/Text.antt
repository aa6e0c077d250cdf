-- ===== src/Text.antt =====
-- Texts as lists of code points, and the functions of Go's package strings that the controller
-- calls: ToLower, TrimSpace, Fields, Join, Split and ReplaceAll. Go's texts are UTF-8; a byte that
-- is not valid UTF-8 is not modelled.
use Prim.Native.Char.{code}
use virtualme.Prelude.{
  ℕ, ◌+◌, ◌≡◌, ◌≢◌, refl, ◌↔◌, Bool, true, false, ◌&&◌, ◌||◌, List, [], ◌∷◌, ◌++◌, map, String,
  arith, leb, ◌==◌, if◌then◌else◌,
}

abbrev pub Text : Type 0
Text = List ℕ

-- A literal as code points.
abbrev pub codes : String → Text
codes String.[] = []
codes (String.◌∷◌ c s) = code c ∷ codes s

unfoldable pub text_eq : Text → Text → Bool
text_eq [] [] = true
text_eq [] (d ∷ t) = false
text_eq (c ∷ s) [] = false
text_eq (c ∷ s) (d ∷ t) = c == d && text_eq s t

pub text_eq_iff : (s t : Text) → (text_eq s t ≡ true) ↔ (s ≡ t)
unfolding text_eq
text_eq_iff [] [] = (λ h. refl, λ h. refl)
text_eq_iff [] (d ∷ t) = (λ h. cc, λ h. cc)
text_eq_iff (c ∷ s) [] = (λ h. cc, λ h. cc)
text_eq_iff (c ∷ s) (d ∷ t) =
    (λ h. ground (arith, text_eq_iff s t), λ h. ground (arith, text_eq_iff s t))

-- unicode.IsSpace.
unfoldable pub is_space : ℕ → Bool
is_space c =
    (leb 9 c && leb c 13)
    || c == 32
    || c == 0x85
    || c == 0xa0
    || c == 0x1680
    || (leb 0x2000 c && leb c 0x200a)
    || c == 0x2028
    || c == 0x2029
    || c == 0x202f
    || c == 0x205f
    || c == 0x3000

-- unicode.ToLower on ASCII and on the two letters beyond ASCII that have an ASCII lower case, İ and
-- the Kelvin sign. Other letters beyond ASCII are left as they are.
unfoldable pub lower_rune : ℕ → ℕ
lower_rune c =
    if leb b'A' c && leb c b'Z'
    then c + 32
    else if c == 0x130
    then b'i'
    else if c == 0x212a
    then b'k'
    else c

-- strings.ToLower.
unfoldable pub to_lower : Text → Text
unfolding lower_rune
to_lower = map lower_rune

unfoldable pub trim_left : Text → Text
trim_left [] = []
trim_left (c ∷ s) = if is_space c then trim_left s else c ∷ s

unfoldable pub keep_unless_space : ℕ → Text → Text
keep_unless_space c [] = if is_space c then [] else c ∷ []
keep_unless_space c (d ∷ s) = c ∷ d ∷ s

unfoldable pub trim_right : Text → Text
trim_right [] = []
trim_right (c ∷ s) = keep_unless_space c (trim_right s)

-- strings.TrimSpace.
unfoldable pub trim_space : Text → Text
unfolding trim_left trim_right keep_unless_space is_space
trim_space s = trim_right (trim_left s)

-- A word that has ended, if there is one.
unfoldable pub flush : Text → List Text
flush [] = []
flush (c ∷ w) = (c ∷ w) ∷ []

unfoldable pub fields_from : Text → Text → List Text
fields_from word [] = flush word
fields_from word (c ∷ s) = elim (is_space c) [
  | true ↦ flush word ++ fields_from [] s
  | false ↦ fields_from (word ++ c ∷ []) s
]

-- strings.Fields.
unfoldable pub fields : Text → List Text
unfolding fields_from flush is_space
fields s = fields_from [] s

-- strings.Join with a separator of one character.
unfoldable pub join : List Text → ℕ → Text
join [] sep = []
join (w ∷ []) sep = w
join (w ∷ v ∷ ws) sep = w ++ sep ∷ join (v ∷ ws) sep

split_from : ℕ → Text → Text → List Text
split_from sep part [] = part ∷ []
split_from sep part (c ∷ s) = elim (c == sep) [
  | true ↦ part ∷ split_from sep [] s
  | false ↦ split_from sep (part ++ c ∷ []) s
]

-- strings.Split at a separator of one character.
unfoldable pub split : Text → ℕ → List Text
unfolding split_from
split s sep = split_from sep [] s

-- strings.ReplaceAll(s, ", ", ",").
unfoldable pub close_commas : Text → Text
close_commas [] = []
close_commas (c ∷ []) = c ∷ []
close_commas (c ∷ d ∷ s) = elim (c == b',' && d == 32) [
  | true ↦ c ∷ close_commas s
  | false ↦ c ∷ close_commas (d ∷ s)
]

split_from-ne-nil : (sep : ℕ) (part s : Text) → split_from sep part s ≢ []
unfolding split_from
split_from-ne-nil sep part [] = λ h. cc
split_from-ne-nil sep part (c ∷ s) = ground (arith, split_from-ne-nil sep (part ++ c ∷ []) s)

pub split-ne-nil : (s : Text) (sep : ℕ) → split s sep ≢ []
unfolding split
split-ne-nil s sep = split_from-ne-nil sep [] s
