-- ===== src/Notifications/Lifecycle/Runs.antt =====
-- What holds after an action of lifecycle.go, of its value or of its error.
use virtualme.Prelude.{
  ℕ, ◌≡◌, refl, ◌⊎◌, inl, inr, Bool, true, false, if◌then◌else◌, Option, none, some, List, [], ◌∷◌,
}
use virtualme.Text.{Text}
use virtualme.Notifications.Detail.{Json}
use virtualme.Notifications.Result.{Result, ok, err}
use virtualme.Notifications.Validate.{validate_create}
use virtualme.Notifications.Validate.{CreateRequest, Notification}
use virtualme.Notifications.Lifecycle.Evidence.{Marker, valid_marker}
use virtualme.Notifications.Store.{Db}
use virtualme.Notifications.Lifecycle.{
  World, M, File, contents, Fate, done, failed_before, failed_after, continue, ◌>>=◌, rename,
  next_fate, later_fates, draw, write_marker, next_id, checked, reserve,
}

abbrev pub Post : {A : Type 0} → (A → World → Type 0) → (World → Type 0) → Option A × World → Type 0
Post Q E (some a, w) = Q a w
Post Q E (none, w) = E w

-- From `P` the action ends in `Q`, or with an error in `E`.
pub record Runs {A : Type 0} (P : World → Type 0) (m : M A) (Q : A → World → Type 0)
    (E : World → Type 0) : Type 0 where
  pub at : (w : World) → P w → Post Q E (m w)

module _ {A B : Type 0} {Q : B → World → Type 0} {E : World → Type 0} (R : A → World → Type 0) where
  bind-Post :
      (f : A → M B)
      → ((a : A) → Runs (R a) (f a) Q E)
      → (r : Option A) (w : World) → Post R E (r, w)
      → Post Q E (continue r f w)
  bind-Post f k (some a) w h = (k a).at w h
  bind-Post f k none w h = h

  pub Runs-bind :
      {P : World → Type 0} (m : M A) (f : A → M B)
      → Runs P m R E
      → ((a : A) → Runs (R a) (f a) Q E)
      → Runs P (m >>= f) Q E
  unfolding ◌>>=◌
  Runs-bind m f h k = record { at = λ w p. let (r, w') = m w in bind-Post f k r w' (h.at w p) }

module _ {A : Type 0} (Q : A → World → Type 0) (E : World → Type 0) (S : A → World → Type 0)
    (F : World → Type 0) where
  weaken_at :
      (r : Option A) (w : World)
      → Post Q E (r, w)
      → ((a : A) (v : World) → Q a v → S a v)
      → ((v : World) → E v → F v)
      → Post S F (r, w)
  weaken_at (some a) w h f g = f a w h
  weaken_at none w h f g = g w h

  pub weaken-Post :
      (p : Option A × World)
      → Post Q E p
      → ((a : A) (v : World) → Q a v → S a v)
      → ((v : World) → E v → F v)
      → Post S F p
  weaken-Post p = weaken_at p.0 p.1

  pub Runs-weaken :
      {P : World → Type 0} {m : M A}
      → Runs P m Q E
      → ((a : A) (v : World) → Q a v → S a v)
      → ((v : World) → E v → F v)
      → Runs P m S F
  Runs-weaken h f g = record { at = λ w p. weaken-Post _ (h.at w p) f g }

  also_at :
      (r : Option A) (w : World)
      → Post Q E (r, w)
      → ((a : A) → Q a w → S a w)
      → (E w → F w)
      → Post S F (r, w)
  also_at (some a) w h f g = f a h
  also_at none w h f g = g h

  -- The same with the world that the action left.
  pub also-Post :
      (p : Option A × World)
      → Post Q E p
      → ((a : A) → Q a p.1 → S a p.1)
      → (E p.1 → F p.1)
      → Post S F p
  also-Post p = also_at p.0 p.1

-- Written: the marker is valid, it is the file's, and the database is as before.
abbrev pub Wrote : (Json → ℕ) → Marker → World → World → Type 0
Wrote size_of m w w' = (valid_marker size_of m ≡ true) × (w'.file ≡ contents m) × (w'.db ≡ w.db)

abbrev pub Same : World → World → Type 0
Same w w' = (w'.file ≡ w.file) × (w'.db ≡ w.db)

renamed :
    (size_of : Json → ℕ) (f : Fate) (m : Marker) (w : World) (fs : List Fate)
    → valid_marker size_of m ≡ true
    → Post
        (λ _ w'. Wrote size_of m w w')
        (λ w'. Same w w' ⊎ Wrote size_of m w w')
        (let (r, file) = rename f m w.file in (r, record w { file = file; fates = fs }))
unfolding rename
renamed size_of done m w fs v = (v, refl, refl)
renamed size_of failed_before m w fs v = inl (refl, refl)
renamed size_of failed_after m w fs v = inr (v, refl, refl)

written :
    (size_of : Json → ℕ) (m : Marker) (w : World) (b : Bool)
    → valid_marker size_of m ≡ b
    → Post
        (λ _ w'. Wrote size_of m w w')
        (λ w'. Same w w' ⊎ Wrote size_of m w w')
        (if b
          then (let (r, file) = rename (next_fate w.fates) m w.file in
              (r, record w { file = file; fates = later_fates w.fates }))
          else (none, w))
written size_of m w true e = renamed size_of (next_fate w.fates) m w (later_fates w.fates) e
written size_of m w false e = inl (refl, refl)

pub write_marker-Post :
    (size_of : Json → ℕ) (m : Marker) (w : World)
    → Post
        (λ _ w'. Wrote size_of m w w')
        (λ w'. Same w w' ⊎ Wrote size_of m w w')
        (write_marker size_of m w)
unfolding write_marker
write_marker-Post size_of m w = written size_of m w (valid_marker size_of m) refl

-- What the file and the database have stays through the actions that draw an identifier.
module _ (P : File → Db → Type 0) where
  abbrev pub Kept : World → Type 0
  Kept w = P w.file w.db

  draw-Post : (ids : List (Option Text)) (w : World) → Kept w → Post (λ _. Kept) Kept (draw ids w)
  unfolding draw
  draw-Post [] w h = h
  draw-Post (some id ∷ rest) w h = h
  draw-Post (none ∷ rest) w h = h

  pub next_id-Runs : Runs Kept next_id (λ _. Kept) Kept
  unfolding next_id
  next_id-Runs = record { at = λ w. draw-Post w.ids w }

  checked-Runs : (r : Result Notification) → Runs Kept (checked r) (λ _. Kept) Kept
  unfolding checked
  checked-Runs (err e) = record { at = λ w h. h }
  checked-Runs (ok n) = Runs-bind (λ _. Kept) _ _ next_id-Runs (λ id. record { at = λ w h. h })

  pub reserve-Runs :
      (size_of : Json → ℕ) (request : CreateRequest)
      → Runs Kept (reserve size_of request) (λ _. Kept) Kept
  unfolding reserve
  reserve-Runs size_of request = record {
    at = λ w. (checked-Runs (validate_create size_of request w.clock)).at w;
  }
