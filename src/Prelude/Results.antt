-- ===== src/Prelude/Results.antt =====
-- What a call returns, or the exception that it raises; `do` chains such calls.
use mathlib.Core.Path.{◌≡◌, refl}

pub data Result {ℓ} (E A : Type ℓ) : Type ℓ where
  ok : A → Result E A
  err : E → Result E A

module _ {ℓ} {E A B : Type ℓ} where
  infixl 5 ◌>>=◌
  abbrev pub ◌>>=◌ : Result E A → (A → Result E B) → Result E B
  ok a >>= f = f a
  err e >>= f = err e

  pub >>=-eq-ok :
      (call : Result E A) (next : A → Result E B) {value : B}
      → (call >>= next) ≡ ok value
      → (found : A) × (call ≡ ok found) × (next found ≡ ok value)
  >>=-eq-ok (ok found) next returned = (found, refl, returned)
  >>=-eq-ok (err e) next returned = cc
