-- ===== src/Tests/Integers.antt =====
-- Integers for the positions and speeds of the tests: a ratio is rounded down.
use mas_dsmb.Prelude.{
  ◌≡◌, ◌+◌, ◌-◌, ◌*◌, ◌/◌, ◌⊎◌, if◌then◌else◌, ℤ, pos, negsuc, ℕ, zero, suc, refl, inl, inr, Bool,
  true, false, arith, leb,
}
use mas_dsmb.Domain.Scalar.{Scalar}

abbrev difference : ℕ → ℕ → ℤ
difference a b = if leb b a then pos (a - b) else negsuc (b - a - 1)

abbrev negate : ℤ → ℤ
negate (pos zero) = pos 0
negate (pos (suc n)) = negsuc n
negate (negsuc n) = pos (suc n)

abbrev add : ℤ → ℤ → ℤ
add (pos a) (pos b) = pos (a + b)
add (pos a) (negsuc b) = difference a (suc b)
add (negsuc a) (pos b) = difference b (suc a)
add (negsuc a) (negsuc b) = negsuc (suc (a + b))

abbrev multiply : ℤ → ℤ → ℤ
multiply (pos a) (pos b) = pos (a * b)
multiply (pos a) (negsuc b) = negate (pos (a * suc b))
multiply (negsuc a) (pos b) = negate (pos (suc a * b))
multiply (negsuc a) (negsuc b) = pos (suc a * suc b)

abbrev pub at_most : ℤ → ℤ → Bool
at_most (pos a) (pos b) = leb a b
at_most (pos a) (negsuc b) = false
at_most (negsuc a) (pos b) = true
at_most (negsuc a) (negsuc b) = leb b a

pub at_most_total : (a b : ℤ) → (at_most a b ≡ true) ⊎ (at_most b a ≡ true)
at_most_total (pos a) (pos b) = ground arith
at_most_total (pos a) (negsuc b) = inr refl
at_most_total (negsuc a) (pos b) = inl refl
at_most_total (negsuc a) (negsuc b) = ground arith

pub at_most_trans : (a b c : ℤ) → at_most a b ≡ true → at_most b c ≡ true → at_most a c ≡ true
at_most_trans (pos a) (pos b) (pos c) h k = ground arith
at_most_trans (pos a) (pos b) (negsuc c) h k = k
at_most_trans (pos a) (negsuc b) (pos c) h k = ground arith
at_most_trans (pos a) (negsuc b) (negsuc c) h k = h
at_most_trans (negsuc a) (pos b) (pos c) h k = refl
at_most_trans (negsuc a) (pos b) (negsuc c) h k = ground arith
at_most_trans (negsuc a) (negsuc b) (pos c) h k = refl
at_most_trans (negsuc a) (negsuc b) (negsuc c) h k = ground arith

abbrev pub integers : Scalar
integers = record {
  Number = ℤ;
  ratio = λ a b. pos (a / b);
  plus = add;
  minus = λ a b. add a (negate b);
  times = multiply;
  neg = negate;
  le = at_most;
  le_total = at_most_total;
  le_trans = at_most_trans;
}
