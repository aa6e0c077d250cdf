-- ===== src/Telegram/Chunk/Division.antt =====
-- ChunkText divides a text without loss.
use virtualme.Prelude.{
  ℕ, zero, suc, ◌+◌, ◌≤◌, ◌<◌, ◌≡◌, refl, ap, ◌∙◌, ◌⊎◌, inl, inr, Bool, true, false, ◌&&◌, List, [],
  ◌∷◌, ◌++◌, arith, by_test, leb, ltb, ◌==◌, ==_iff, if◌then◌else◌, Bool-cases, length, take, drop,
  length-take, length-drop, All, append-nil, take-append-drop,
}
use virtualme.Text.{Text}
use virtualme.Telegram.Chunk.{
  units_of, units, fitting, latest, preferred_boundary, ends_paragraph, ends_line, ends_word,
  cut_at, chunks_from, chunk_text,
}

fitting-le : (used : ℕ) (t : Text) → fitting used t ≤ length t
unfolding fitting
fitting-le used [] = omega arith
fitting-le used (c ∷ t) = ground (arith, fitting-le (used + units_of c) t)

units-take-fitting :
    (used : ℕ) (t : Text) → used ≤ 4096 → used + units (take (fitting used t) t) ≤ 4096
unfolding fitting units
units-take-fitting used [] h = omega arith
units-take-fitting used (c ∷ t) h = elim (Bool-cases (ltb 4096 (used + units_of c))) [
  | inl e ↦ rw e (omega arith)
  | inr e ↦
      (let fits : used + units_of c ≤ 4096 = ground arith in
        rw e (omega (arith, units-take-fitting (used + units_of c) t fits)))
]

fitting-first : (c : ℕ) (t : Text) → 0 < fitting 0 (c ∷ t)
unfolding fitting units_of
fitting-first c t = ground arith

latest-le : (runes : Text) (floor : ℕ) (match : ℕ → Bool) (i : ℕ) → latest runes floor match i ≤ i
unfolding latest
latest-le runes floor match zero = omega arith
latest-le runes floor match (suc i) = ground (arith, latest-le runes floor match i)

preferred_boundary-le : (runes : Text) (floor : ℕ) → preferred_boundary runes floor ≤ length runes
unfolding preferred_boundary
preferred_boundary-le runes floor =
    let a = latest-le runes floor (ends_paragraph runes) (length runes) in
    let b = latest-le runes floor (ends_line runes) (length runes) in
    let c = latest-le runes floor (ends_word runes) (length runes) in ground arith

units-take_mono : (k n : ℕ) (t : Text) → k ≤ n → units (take k t) ≤ units (take n t)
unfolding units
units-take_mono zero n t h = omega arith
units-take_mono (suc k) zero t h = absurd (omega arith)
units-take_mono (suc k) (suc n) [] h = omega arith
units-take_mono (suc k) (suc n) (c ∷ t) h = omega (arith, units-take_mono k n t (omega arith))

cut_at-le : (text : Text) (end : ℕ) → cut_at text end ≤ end
unfolding cut_at
cut_at-le text end =
    let p = preferred_boundary-le (take end text) 3072 in
    let l = length-take end text in ground arith

cut_at-pos : (text : Text) (end : ℕ) → 0 < end → 0 < cut_at text end
unfolding cut_at
cut_at-pos text end h = ground arith

-- If not all fits, no more than one unit is free.
fitting-full :
    (used : ℕ) (t : Text)
    → fitting used t < length t
    → 4095 ≤ used + units (take (fitting used t) t)
unfolding fitting units
fitting-full used [] h = absurd (omega arith)
fitting-full used (c ∷ t) h = elim (Bool-cases (ltb 4096 (used + units_of c))) [
  | inl e ↦
      let two : units_of c ≤ 2 = unfold units_of in ground arith in
      let over : 4096 < used + units_of c = ground arith in rw e (omega arith)
  | inr e ↦
      let h' : fitting (used + units_of c) t < length t = (let k = (rw e at h) in omega arith) in
      rw e (omega (arith, fitting-full (used + units_of c) t h'))
]

latest-floor :
    (runes : Text) (floor : ℕ) (match : ℕ → Bool) (i : ℕ)
    → (latest runes floor match i ≡ 0) ⊎ (floor ≤ units (take (latest runes floor match i) runes))
unfolding latest
latest-floor runes floor match zero = inl refl
latest-floor runes floor match (suc i) =
    elim (Bool-cases (leb floor (units (take (suc i) runes)) && match (suc i))) [
      | inl e ↦ rw e (inr (ground arith))
      | inr e ↦ rw e (latest-floor runes floor match i)
    ]

either_found : (P : ℕ → Type 0) (b : Bool) (i j : ℕ) → P i → P j → P (if b then i else j)
either_found P true i j p q = p
either_found P false i j p q = q

preferred_boundary-floor :
    (runes : Text) (floor : ℕ)
    → (preferred_boundary runes floor ≡ 0)
      ⊎ (floor ≤ units (take (preferred_boundary runes floor) runes))
unfolding preferred_boundary
preferred_boundary-floor runes floor =
    let P = λ (k : ℕ). (k ≡ 0) ⊎ (floor ≤ units (take k runes)) in
    let paragraph = latest runes floor (ends_paragraph runes) (length runes) in
    let line = latest runes floor (ends_line runes) (length runes) in
    let found = λ (match : ℕ → Bool). latest-floor runes floor match (length runes) in
    either_found P (ltb 0 paragraph) paragraph _ (found (ends_paragraph runes))
      (either_found P (ltb 0 line) line _ (found (ends_line runes)) (found (ends_word runes)))

take-take : (k n : ℕ) (t : Text) → k ≤ n → take k (take n t) ≡ take k t
take-take zero n t h = refl
take-take (suc k) zero t h = absurd (omega arith)
take-take (suc k) (suc n) [] h = refl
take-take (suc k) (suc n) (c ∷ t) h = ap (λ r. c ∷ r) (take-take k n t (omega arith))

cut_at-floor :
    (text : Text)
    → fitting 0 text < length text
    → 3072 ≤ units (take (cut_at text (fitting 0 text)) text)
unfolding cut_at
cut_at-floor text short =
    let end = fitting 0 text in
    let boundary = preferred_boundary (take end text) 3072 in
    let inside : boundary ≤ end =
      omega (arith, preferred_boundary-le (take end text) 3072, length-take end text) in
    let full = fitting-full 0 text short in
    elim (Bool-cases (ltb 0 boundary)) [
      | inr e ↦ rw e (omega arith)
      | inl e ↦ elim (preferred_boundary-floor (take end text) 3072) [
        | inl none ↦ absurd (ground arith)
        | inr enough ↦ rw e (rw (take-take boundary end text inside) at enough)
      ]
    ]

abbrev pub concat : List Text → Text
concat [] = []
concat (t ∷ ts) = t ++ concat ts

-- A message of Telegram.
abbrev pub IsMessage : Text → Type 0
IsMessage t = (0 < length t) × (units t ≤ 4096)

-- Each chunk but the last has three quarters of what a message may have.
abbrev pub IsFilled : List Text → Type 0
IsFilled [] = Unit
IsFilled (t ∷ []) = Unit
IsFilled (t ∷ u ∷ ts) = (3072 ≤ units t) × IsFilled (u ∷ ts)

cons-IsFilled : (t : Text) (ts : List Text) → 3072 ≤ units t → IsFilled ts → IsFilled (t ∷ ts)
cons-IsFilled t [] h k = tt
cons-IsFilled t (u ∷ ts) h k = (h, k)

pub record IsDivision (text : Text) (chunks : List Text) : Type 0 where
  pub whole : concat chunks ≡ text
  pub messages : All IsMessage chunks
  pub filled : IsFilled chunks

take_all : (t : Text) → take (length t) t ≡ t
take_all [] = refl
take_all (c ∷ t) = ap (λ r. c ∷ r) (take_all t)

chunks_from-IsDivision :
    (fuel : ℕ) (text : Text) → length text ≤ fuel → IsDivision text (chunks_from fuel text)
unfolding chunks_from
chunks_from-IsDivision zero [] h = record { whole = refl; messages = tt; filled = tt }
chunks_from-IsDivision zero (c ∷ t) h = absurd (omega arith)
chunks_from-IsDivision (suc fuel) [] h = record { whole = refl; messages = tt; filled = tt }
chunks_from-IsDivision (suc fuel) (c ∷ t) h =
    let text = c ∷ t in
    let end = fitting 0 text in
    let cut = cut_at text end in
    let pos = cut_at-pos text end (fitting-first c t) in
    let fits = units-take-fitting 0 text (omega arith) in
    let le = cut_at-le text end in
    by_test (IsDivision text) (end == length text)
      (λ e.
        let same : end ≡ length text = (==_iff end (length text)).0 e in
        let all : take end text ≡ text = ap (λ k. take k text) same ∙ take_all text in
        record {
          whole = append-nil text;
          messages = ((omega arith, omega (arith, ap units all)), tt);
          filled = tt;
        })
      (λ e.
        let rest =
          chunks_from-IsDivision fuel (drop cut text) (omega (arith, length-drop cut text)) in
        let short : end < length text = (let le' = fitting-le 0 text in ground arith) in
        record {
          whole = ap (λ r. take cut text ++ r) rest.whole ∙ take-append-drop cut text;
          messages = (
            (omega (arith, length-take cut text), omega (arith, units-take_mono cut end text le)),
            rest.messages,
          );
          filled = cons-IsFilled _ _ (cut_at-floor text short) rest.filled;
        })

-- ChunkText divides every text into messages, none of them empty and none over 4096 UTF-16 units,
-- that give the text back when they are joined; and each but the last has at least 3072 units, so
-- that there are not many of them.
pub chunk_text-IsDivision : (text : Text) → IsDivision text (chunk_text text)
unfolding chunk_text
chunk_text-IsDivision text = chunks_from-IsDivision (length text) text (omega arith)
