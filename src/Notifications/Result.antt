-- ===== src/Notifications/Result.antt =====
-- The errors of notifications.go as values. An error text that names a value has no argument here.
use virtualme.Prelude.{◌≡◌, refl, Bool, true, false}

pub data Error : Type 0 where
  invalid_id unknown_type invalid_sender invalid_subtype renderer_refused : Error
  title_required title_too_long summary_required summary_too_long : Error
  too_far_in_the_future : Error
  detail_too_large detail_too_deep invalid_detail bad_key forbidden_key duplicate_key : Error
  too_many_elements string_too_long not_an_object trailing_json : Error
  invalid_exact not_canonical : Error

pub data Result (A : Type 0) : Type 0 where
  ok : A → Result A
  err : Error → Result A

infixl 5 ◌>>=◌ ◌>>◌
abbrev pub ◌>>=◌ : {A B : Type 0} → Result A → (A → Result B) → Result B
ok a >>= f = f a
err e >>= f = err e

abbrev pub ◌>>◌ : {B : Type 0} → Result (Unit {0}) → Result B → Result B
m >> k = m >>= λ _. k

-- `if failed { return error }`.
abbrev pub refuse_if : Bool → Error → Result (Unit {0})
refuse_if true e = err e
refuse_if false e = ok tt

pub refuse_if-eq-ok :
    {B : Type 0} (b : Bool) (e : Error) (k : Result B) {x : B}
    → refuse_if b e >> k ≡ ok x
    → (b ≡ false) × (k ≡ ok x)
refuse_if-eq-ok true e k h = absurd (cc)
refuse_if-eq-ok false e k h = (refl, h)
