-- ===== src/Notifications/Ulid/Order.antt =====
-- The identifiers of ulidGenerator as numbers: each is greater than the one before it.
use virtualme.Prelude.{
  ℕ, suc, ◌+◌, ◌*◌, ◌%◌, ◌^◌, ◌<◌, ◌≡◌, refl, Bool, true, false, Option, none, some, List, [], ◌∷◌,
  arith, ltb, ltb→lt, ◌==◌, Bool-cases, inl, inr, length, All, ap, sym, ◌∙◌,
}
use virtualme.Notifications.Ulid.{
  Bytes, carry, increment_entropy, Generator, Read, full, failed, Outcome, made, entropy_error,
  waiting, wait_past, refill, after_wait, incremented, next,
}
use virtualme.Notifications.Ulid.Number.{number_from, bytes_from, IsEntropy, encode_ulid_number}

abbrev AreBytes : Bytes → Type 0
AreBytes = All (λ b. b < 256)

length-increment_entropy : (bs : Bytes) → length (increment_entropy bs).0 ≡ length bs
unfolding increment_entropy
length-increment_entropy [] = refl
length-increment_entropy (b ∷ bs) =
    length_carry (increment_entropy bs) (length-increment_entropy bs)
  where
    length_carry :
        (r : Bytes × Bool) → length r.0 ≡ length bs → length (carry b r).0 ≡ suc (length bs)
    length_carry (bs', false) e = ap suc e
    length_carry (bs', true) e = ap suc e

carry-AreBytes : (b : ℕ) (r : Bytes × Bool) → b < 256 → AreBytes r.0 → AreBytes (carry b r).0
unfolding carry
carry-AreBytes b (bs', false) h p = (h, p)
carry-AreBytes b (bs', true) h p = (omega arith, p)

increment_entropy-AreBytes : (bs : Bytes) → AreBytes bs → AreBytes (increment_entropy bs).0
unfolding increment_entropy
increment_entropy-AreBytes [] h = tt
increment_entropy-AreBytes (b ∷ bs) h =
    carry-AreBytes b (increment_entropy bs) h.0 (increment_entropy-AreBytes bs h.1)

-- What the bytes are worth after the call: one more, or, when they overflowed, one more in the place
-- before them.
abbrev Increments : ℕ → Bytes → Bytes × Bool → Type 0
Increments n bs (bs', false) = bytes_from n bs' ≡ bytes_from n bs + 1
Increments n bs (bs', true) = bytes_from (n + 1) bs' ≡ bytes_from n bs + 1

carry-Increments :
    (n b : ℕ) (bs : Bytes) (r : Bytes × Bool)
    → b < 256
    → Increments (n * 256 + b) bs r
    → Increments n (b ∷ bs) (carry b r)
unfolding carry bytes_from
carry-Increments n b bs (bs', false) h e = e
carry-Increments n b bs (bs', true) h e = elim (Bool-cases ((b + 1) % 256 == 0)) [
  | inl z ↦ rw z (ap (λ (m : ℕ). bytes_from m bs') (ground arith) ∙ e)
  | inr z ↦ rw z (ap (λ (m : ℕ). bytes_from m bs') (ground arith) ∙ e)
]

increment_entropy-Increments :
    (n : ℕ) (bs : Bytes) → AreBytes bs → Increments n bs (increment_entropy bs)
unfolding increment_entropy bytes_from
increment_entropy-Increments n [] h = refl
increment_entropy-Increments n (b ∷ bs) h =
    carry-Increments n b bs (increment_entropy bs) h.0
      (increment_entropy-Increments (n * 256 + b) bs h.1)

bytes_from_mono :
    (n m : ℕ) (xs ys : Bytes)
    → n < m
    → length xs ≡ length ys
    → AreBytes xs
    → AreBytes ys
    → bytes_from n xs < bytes_from m ys
unfolding bytes_from
bytes_from_mono n m [] [] lt e hx hy = lt
bytes_from_mono n m [] (y ∷ ys) lt e hx hy = absurd (omega arith)
bytes_from_mono n m (x ∷ xs) [] lt e hx hy = absurd (omega arith)
bytes_from_mono n m (x ∷ xs) (y ∷ ys) lt e hx hy =
    let a = hx.0 in
    bytes_from_mono (n * 256 + x) (m * 256 + y) xs ys (omega arith) (omega arith) hx.1 hy.1

-- The identifier that the generator's fields stand for, as a number.
abbrev pub position : Generator → ℕ
position g = bytes_from g.last_ms g.random

-- A generator that has made an identifier, of a time that fits its 48 bits.
pub record IsStarted (g : Generator) : Type 0 where
  pub started : g.seeded ≡ true
  pub fits : g.last_ms < 2 ^ 48
  pub size : length g.random ≡ 10
  pub bytes : All (λ b. b < 256) g.random

-- What a read of the entropy leaves is ten bytes.
abbrev pub Fills : Read → Type 0
Fills (full bytes) = IsEntropy bytes
Fills (failed bytes) = IsEntropy bytes

-- The identifier and the generator behind a call that made one.
abbrev pub Advances : Generator → Outcome × Generator → Type 0
Advances g (made id, g') =
    IsStarted g' × (number_from 0 id ≡ position g') × (position g < position g')
Advances g (entropy_error, g') = Unit
Advances g (waiting, g') = Unit

refill-Advances :
    (now : ℕ) (read : Read) (g g₀ : Generator)
    → IsStarted g
    → now < 2 ^ 48
    → Fills read
    → g.last_ms < now
    → g₀.seeded ≡ true
    → Advances g (refill now read g₀)
unfolding refill
refill-Advances now (full bytes) g g₀ s fits e lt h = (
  record { started = refl; fits = fits; size = e.0; bytes = e.1 },
  encode_ulid_number now bytes fits e.0 e.1,
  bytes_from_mono g.last_ms now g.random bytes lt (s.size ∙ sym e.0) s.bytes e.1,
)
refill-Advances now (failed bytes) g g₀ s fits e lt h = tt

wait_past_lem :
    (last : ℕ) (readings : List ℕ) (now : ℕ)
    → All (λ t. t < 2 ^ 48) readings
    → wait_past last readings ≡ some now
    → (last < now) × (now < 2 ^ 48)
unfolding wait_past
wait_past_lem last [] now all e = absurd (cc)
wait_past_lem last (t ∷ ts) now all e = elim (Bool-cases (ltb last t)) [
  | inl p ↦ let fits = all.0 in (ground (arith, ltb→lt last t p), ground arith)
  | inr p ↦ wait_past_lem last ts now all.1 (rw (p, wait_past) at e)
]

after_wait-Advances :
    (o : Option ℕ) (read : Read) (g : Generator) (bytes : Bytes)
    → IsStarted g
    → Fills read
    → ((now : ℕ) → o ≡ some now → (g.last_ms < now) × (now < 2 ^ 48))
    → Advances g (after_wait o read (record g { random = bytes }))
unfolding after_wait
after_wait-Advances none read g bytes s e h = tt
after_wait-Advances (some now) read g bytes s e h =
    let p = h now refl in
    refill-Advances now read g (record g { random = bytes }) s p.1 e p.0 s.started

incremented-Advances :
    (r : Bytes × Bool) (readings : List ℕ) (read : Read) (g : Generator)
    → IsStarted g
    → All (λ t. t < 2 ^ 48) readings
    → Fills read
    → Increments g.last_ms g.random r
    → IsEntropy r.0
    → Advances g (incremented r readings read g)
unfolding incremented
incremented-Advances (bytes, false) readings read g s all e i z = (
  record { started = s.started; fits = s.fits; size = z.0; bytes = z.1 },
  encode_ulid_number g.last_ms bytes s.fits z.0 z.1,
  omega (arith, i),
)
incremented-Advances (bytes, true) readings read g s all e i z =
    after_wait-Advances (wait_past g.last_ms readings) read g bytes s e
      (λ now p. wait_past_lem g.last_ms readings now all p)

-- A call of ulidGenerator.next right after one that made an identifier, if it makes one too, makes a
-- greater one, whatever the clock shows: the characters of the new identifier write, in base 32, the
-- number that the generator then stands for, which is greater than before. The clock's readings fit
-- 48 bits, and a read of the entropy leaves ten bytes.
pub next-Advances :
    (readings : List ℕ) (read : Read) (g : Generator)
    → IsStarted g
    → All (λ t. t < 2 ^ 48) readings
    → Fills read
    → Advances g (next readings read g)
unfolding next
next-Advances [] read g s all e = tt
next-Advances (now ∷ later) read g s all e = elim (Bool-cases (ltb g.last_ms now)) [
  | inl lt ↦
      simp (s.started, lt)
        (refill-Advances now read g g s all.0 e (ltb→lt g.last_ms now lt) s.started)
  | inr ge ↦
      simp (s.started, ge)
        (incremented-Advances (increment_entropy g.random) (now ∷ later) read g s all e
          (increment_entropy-Increments g.last_ms g.random s.bytes)
          (length-increment_entropy g.random ∙ s.size, increment_entropy-AreBytes g.random s.bytes))
]
