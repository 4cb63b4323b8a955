-- ===== src/Domain/Scalar.antt =====
-- The numbers of positions and speeds. Python's floats are no code of the repository: the type, its
-- operations and the order that the program compares by are parameters. The laws are those of the
-- order on floats that are not NaN; nothing is assumed of the arithmetic.
use mas_dsmb.Prelude.{◌≡◌, ◌⊎◌, if◌then◌else◌, ℕ, inl, inr, Bool, true, false, not}

pub record Scalar : Type 1 where
  pub Number : Type 0
  pub ratio : ℕ → ℕ → Number
  pub plus : Number → Number → Number
  pub minus : Number → Number → Number
  pub times : Number → Number → Number
  pub neg : Number → Number
  pub le : Number → Number → Bool
  pub le_total : (a b : Number) → (le a b ≡ true) ⊎ (le b a ≡ true)
  pub le_trans : (a b c : Number) → le a b ≡ true → le b c ≡ true → le a c ≡ true

module _ (scalar : Scalar) where
  open scalar use {Number, ratio, le, le_total}

  -- `a < b`
  abbrev pub lt : Number → Number → Bool
  lt a b = not (le b a)

  abbrev pub of_nat : ℕ → Number
  of_nat n = ratio n 1

  -- `max(a, b)` and `min(a, b)`: the first argument if the two compare equal.
  abbrev pub larger : Number → Number → Number
  larger a b = if le b a then a else b

  abbrev pub smaller : Number → Number → Number
  smaller a b = if le a b then a else b

  pub le_refl : (a : Number) → le a a ≡ true
  le_refl a = elim (le_total a a) [ inl h ↦ h | inr h ↦ h ]

  pub le_of_not_le : (a b : Number) → le a b ≡ false → le b a ≡ true
  le_of_not_le a b h = elim (le_total a b) [ inl up ↦ cc | inr down ↦ down ]
