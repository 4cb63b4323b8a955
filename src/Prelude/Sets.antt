-- ===== src/Prelude/Sets.antt =====
-- Lists that stand for sets: membership, repetitions, and how many numbers fit below a bound.
use Prim.Native.Nat.{ℕ, zero, suc, ◌+◌, ◌≤◌, ◌<◌}
use mathlib.Core.Path.{◌≡◌, refl}
use mathlib.Core.Bool.{true, false, ◌||◌}
use mathlib.Core.List.{List, [], ◌∷◌, ◌++◌}
use mathlib.Core.Logic.{inl, inr}
use native.Mathlib.Omega.{arith}
use mas_dsmb.Prelude.Tests.{Eq, ◌==◌, if◌then◌else◌, nat_Eq, ltb, Bool-cases, nat_eq_iff}
use mas_dsmb.Prelude.Lists.{length, all, elem, set_of, set_discard, distinct}

module _ {ℓ} {A : Type ℓ} ⦃e : Eq A⦄ where
  pub elem-append : (a : A) (xs ys : List A) → elem a (xs ++ ys) ≡ (elem a xs || elem a ys)
  elem-append a [] ys = refl
  elem-append a (x ∷ xs) ys = ground (arith, elem-append a xs ys)

  pub elem-set_discard :
      (a b : A) (xs : List A) → elem b (set_discard a xs) ≡ (if a == b then false else elem b xs)
  elem-set_discard a b [] = ground arith
  elem-set_discard a b (x ∷ xs) =
      ground (arith, elem-set_discard a b xs, e.beq_iff x a, e.beq_iff x b, e.beq_iff a b)

  pub elem-set_of : (a : A) (xs : List A) → elem a (set_of xs) ≡ elem a xs
  elem-set_of a [] = refl
  elem-set_of a (x ∷ xs) = ground (arith, elem-set_of a xs, elem-set_of x xs, e.beq_iff x a)

  -- A list without repetitions is its own set.
  pub set_of-distinct : (xs : List A) → distinct xs ≡ true → set_of xs ≡ xs
  set_of-distinct [] h = refl
  set_of-distinct (x ∷ xs) h = ground (arith, set_of-distinct xs, elem-set_of x xs)

  pub distinct-set_discard :
      (a : A) (xs : List A) → distinct xs ≡ true → distinct (set_discard a xs) ≡ true
  distinct-set_discard a [] h = refl
  distinct-set_discard a (x ∷ xs) h =
      ground (arith, distinct-set_discard a xs, elem-set_discard a x xs)

  pub set_discard_absent : (a : A) (xs : List A) → elem a xs ≡ false → set_discard a xs ≡ xs
  set_discard_absent a [] h = refl
  set_discard_absent a (x ∷ xs) h = ground (arith, set_discard_absent a xs)

  pub length-set_discard_lt :
      (a : A) (xs : List A) → elem a xs ≡ true → length (set_discard a xs) < length xs
  length-set_discard_lt a [] h = ground arith
  length-set_discard_lt a (x ∷ xs) h = elim (Bool-cases (elem a xs)) [
    | inl later ↦ ground (arith, length-set_discard_lt a xs later)
    | inr absent ↦ ground (arith, set_discard_absent a xs absent)
  ]

  pub length-le-set_discard :
      (a : A) (xs : List A) → distinct xs ≡ true → length xs ≤ length (set_discard a xs) + 1
  length-le-set_discard a [] h = omega arith
  length-le-set_discard a (x ∷ xs) h =
      ground (arith, length-le-set_discard a xs, set_discard_absent a xs, e.beq_iff x a)

pub all_below-set_discard :
    (n : ℕ) (xs : List ℕ)
    → all (λ i. ltb i (suc n)) xs ≡ true
    → all (λ i. ltb i n) (set_discard n xs) ≡ true
all_below-set_discard n [] h = refl
all_below-set_discard n (x ∷ xs) h = ground (arith, all_below-set_discard n xs)

-- At most `n` different numbers are below `n`.
pub length-le_of_distinct :
    (n : ℕ) (xs : List ℕ) → distinct xs ≡ true → all (λ i. ltb i n) xs ≡ true → length xs ≤ n
length-le_of_distinct zero [] d h = omega arith
length-le_of_distinct zero (x ∷ xs) d h = absurd (ground arith)
length-le_of_distinct (suc n) xs d h = omega (
  arith,
  length-le-set_discard n xs d,
  length-le_of_distinct n (set_discard n xs) (distinct-set_discard n xs d)
      (all_below-set_discard n xs h),
)

-- A list that has every number below `n` has at least `n` elements.
pub le-length_of_covers :
    (n : ℕ) (xs : List ℕ) → ((i : ℕ) → i < n → elem i xs ≡ true) → n ≤ length xs
le-length_of_covers zero xs h = omega arith
le-length_of_covers (suc n) xs h = omega (
  arith,
  length-set_discard_lt n xs (h n (omega arith)),
  le-length_of_covers n (set_discard n xs) covers,
)
  where
    covers : (i : ℕ) → i < n → elem i (set_discard n xs) ≡ true
    covers i lt = ground (arith, elem-set_discard n i xs, h i (omega arith))

-- The parts of a list without repetitions have nothing in common.
pub disjoint_of_distinct :
    (i : ℕ) (xs ys : List ℕ) → distinct (xs ++ ys) ≡ true → elem i ys ≡ true → elem i xs ≡ false
disjoint_of_distinct i [] ys d h = refl
disjoint_of_distinct i (x ∷ xs) ys d h =
    ground (arith, disjoint_of_distinct i xs ys, elem-append x xs ys, nat_eq_iff x i)
