-- ===== src/Prelude/Results.antt =====
-- A Go function that returns a value and an error returns a `Result`.
use mathlib.Core.Path.{◌≡◌, refl}
use mathlib.Core.Logic.{◌⊎◌, inl, inr}
use mathlib.Core.Bool.{Bool, true, false}
use mathlib.Core.Option.{Option, none, some}

pub data Result {ℓ κ} (E : Type κ) (A : Type ℓ) : Type (ℓ ⊔ κ) where
  ok : A → Result E A
  err : E → Result E A

pub Result-cases {ℓ κ} :
    {E : Type κ} {A : Type ℓ} (r : Result E A) → ((a : A) × (r ≡ ok a)) ⊎ ((e : E) × (r ≡ err e))
Result-cases (ok a) = inl (a, refl)
Result-cases (err e) = inr (e, refl)

module _ {ε ℓ κ} {E : Type ε} {A : Type ℓ} {B : Type κ} where
  infixl 5 ◌>>=◌
  abbrev pub ◌>>=◌ : Result E A → (A → Result E B) → Result E B
  ok a >>= f = f a
  err e >>= f = err e

  -- Where the whole succeeds, the first step did.
  pub >>=-eq-ok :
      (m : Result E A) {b : B} (next : A → Result E B)
      → (m >>= next) ≡ ok b
      → (a : A) × (next a ≡ ok b) × (m ≡ ok a)
  >>=-eq-ok (ok a) next whole = (a, whole, refl)
  >>=-eq-ok (err e) next whole = cc

module _ {ε ℓ} {E : Type ε} {B : Type ℓ} where
  infixl 5 ◌>>◌
  abbrev pub ◌>>◌ : Result E (Unit {0}) → Result E B → Result E B
  m >> k = m >>= λ _. k

-- `if bad { return err }`.
abbrev pub refuse {ε} : {E : Type ε} → Bool → E → Result E (Unit {0})
refuse true e = err e
refuse false e = ok tt

-- A value that is there, or the error.
module _ {ε ℓ} {E : Type ε} {A : Type ℓ} where
  abbrev pub need : Option A → E → Result E A
  need none e = err e
  need (some a) e = ok a

  pub need-eq-ok : (o : Option A) (e : E) {a : A} → need o e ≡ ok a → o ≡ some a
  need-eq-ok none e h = cc
  need-eq-ok (some a) e h = cc
