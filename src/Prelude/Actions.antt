-- ===== src/Prelude/Actions.antt =====
-- Handlers that change a state and may raise: what was changed before the exception stays changed.
use mathlib.Core.Path.{◌≡◌, refl}
use mathlib.Core.Bool.{Bool, true, false}
use mas_dsmb.Prelude.Tests.{if◌then◌else◌}
use mas_dsmb.Prelude.Results.{Result, ok, err}

abbrev pub Action {ℓ} : Type ℓ → Type ℓ → Type ℓ → Type ℓ
Action E S A = S → Result E A × S

module _ {ℓ} {E S A : Type ℓ} where
  abbrev pub give : A → Action E S A
  give a s = (ok a, s)

  abbrev pub throw : E → Action E S A
  throw e s = (err e, s)

  -- A computed value that reads the state, or an exception.
  abbrev pub try : (S → Result E A) → Action E S A
  try f s = (f s, s)

  -- An update that also returns a value.
  abbrev pub update : (S → S × A) → Action E S A
  update f s = let (s', a) = f s in (ok a, s')

module _ {ℓ} {E S A B : Type ℓ} where
  abbrev proceed : Result E A → (A → Action E S B) → Action E S B
  proceed (ok a) f s = f a s
  proceed (err e) f s = (err e, s)

  infixl 5 ◌>>=◌ ◌>>◌
  unfoldable pub ◌>>=◌ : Action E S A → (A → Action E S B) → Action E S B
  ◌>>=◌ m f s = let (r, s') = m s in proceed r f s'

  abbrev pub ◌>>◌ : Action E S A → Action E S B → Action E S B
  m >> n = m >>= λ _. n

-- `m` keeps the property, whether it returns or raises.
pub record Keeps {ℓ} {E S A : Type ℓ} (P : S → Type ℓ) (m : Action E S A) : Type ℓ where
  pub after : (s : S) → P s → P (m s).1

module _ {ℓ} {E S A B : Type ℓ} {P : S → Type ℓ} where
  pub Keeps->>= :
      {m : Action E S A} {f : A → Action E S B}
      → Keeps P m
      → ((a : A) → Keeps P (f a))
      → Keeps P (m >>= f)
  unfolding ◌>>=◌
  Keeps->>= {m} {f} km kf = record { after = λ s h. onward (m s).0 (m s).1 (km.after s h) }
    where
      onward : (r : Result E A) (s' : S) → P s' → P (proceed r f s').1
      onward (ok a) s' h = (kf a).after s' h
      onward (err e) s' h = h

module _ {ℓ} {E S A : Type ℓ} {P : S → Type ℓ} where
  pub Keeps-read : (f : S → Result E A) → Keeps P (try f)
  Keeps-read f = record { after = λ s h. h }

  pub Keeps-update : (f : S → S × A) → ((s : S) → P s → P (f s).0) → Keeps {E = E} P (update f)
  Keeps-update f keep = record { after = keep }

  pub Keeps-branch :
      (b : Bool) (m n : Action E S A)
      → (b ≡ true → Keeps P m)
      → (b ≡ false → Keeps P n)
      → Keeps P (if b then m else n)
  Keeps-branch true m n km kn = km refl
  Keeps-branch false m n km kn = kn refl

module _ {ℓ} {E S A B : Type ℓ} {P : S → Type ℓ} where
  -- What follows a read may use what was read.
  pub Keeps-read->>= :
      (f : S → Result E A) (k : A → Action E S B)
      → ((s : S) (a : A) → f s ≡ ok a → Keeps P (k a))
      → Keeps P (try f >>= k)
  unfolding ◌>>=◌
  Keeps-read->>= f k keep = record { after = λ s h. onward s h (f s) refl }
    where
      onward : (s : S) → P s → (r : Result E A) → f s ≡ r → P (proceed r k s).1
      onward s h (ok a) e = (keep s a e).after s h
      onward s h (err x) e = h

pub ruleset keeping = (Keeps->>=, Keeps-read, Keeps-update, Keeps-branch)
