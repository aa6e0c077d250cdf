-- ===== src/Jobs/Exec.antt =====
-- Go methods that change an object and may return an error, as functions from the object to a result
-- and the object after it. What was written before an error stays written.

pub data Error : Type 0 where
  -- the call failed
  unavailable : Error
  -- the client's `reply is %T` errors
  wrong_reply : Error
  undecodable : Error

pub data Result (A : Type 0) : Type 0 where
  ok : A → Result A
  err : Error → Result A

abbrev pub Exec : Type 0 → Type 0 → Type 0
Exec S A = S → Result A × S

abbrev otherwise : {A : Type 0} → A → Result A → A
otherwise d (ok a) = a
otherwise d (err e) = d

module _ {S A : Type 0} where
  abbrev pub pure : A → Exec S A
  pure a s = (ok a, s)

  abbrev pub fail : Error → Exec S A
  fail e s = (err e, s)

  abbrev pub gets : (S → A) → Exec S A
  gets f s = (ok (f s), s)

  -- `value, _ := f()`: an error becomes a default.
  abbrev pub attempt : A → Exec S A → Exec S A
  attempt d m s = let (r, s') = m s in (ok (otherwise d r), s')

abbrev pub modify : {S : Type 0} → (S → S) → Exec S Unit
modify f s = (ok tt, f s)

module _ {S A B : Type 0} where
  abbrev continue : Result A → (A → Exec S B) → Exec S B
  continue (ok a) f s = f a s
  continue (err e) f s = (err e, s)

  infixl 10 ◌>>=◌ ◌>>◌
  unfoldable pub ◌>>=◌ : Exec S A → (A → Exec S B) → Exec S B
  ◌>>=◌ m f s = let (r, s') = m s in continue r f s'

  abbrev pub ◌>>◌ : Exec S A → Exec S B → Exec S B
  m >> n = m >>= λ _. n

-- What holds after a run, of its value or of its error.
abbrev pub Post : {S A : Type 0} → (A → S → Type 0) → (S → Type 0) → Result A × S → Type 0
Post Q E (ok a, s) = Q a s
Post Q E (err e, s) = E s

module _ {S A : Type 0} where
  -- From `P` the run ends in `Q`, or with an error in `E`.
  pub record Runs (P : S → Type 0) (m : Exec S A) (Q : A → S → Type 0) (E : S → Type 0)
      : Type 0 where
    pub at : (s : S) → P s → Post Q E (m s)

module _ {S A : Type 0} {P : S → Type 0} {Q : A → S → Type 0} {E : S → Type 0} where
  pub Runs-pure : (a : A) → ((s : S) → P s → Q a s) → Runs P (pure a) Q E
  Runs-pure a h = record { at = h }

  pub Runs-fail : (e : Error) → ((s : S) → P s → E s) → Runs P (fail e) Q E
  Runs-fail e h = record { at = h }

module _ {S A B : Type 0} {Q : B → S → Type 0} {E : S → Type 0} (R : A → S → Type 0) where
  bind-Post :
      (f : A → Exec S B)
      → ((a : A) → Runs (R a) (f a) Q E)
      → (r : Result A) (s : S) → Post R E (r, s)
      → Post Q E (continue r f s)
  bind-Post f k (ok a) s h = (k a).at s h
  bind-Post f k (err e) s h = h

  pub Runs-bind :
      {P : S → Type 0} (m : Exec S A) (f : A → Exec S B)
      → Runs P m R E
      → ((a : A) → Runs (R a) (f a) Q E)
      → Runs P (m >>= f) Q E
  unfolding ◌>>=◌
  Runs-bind m f h k = record { at = λ s p. let (r, s') = m s in bind-Post f k r s' (h.at s p) }
