-- ===== src/Relay/Counts.antt =====
-- How often an id stands in a list, and among the names of sockets.
use mas_dsmb.Prelude.{
  ◌≡◌, ◌+◌, ◌&&◌, ◌||◌, ◌∷◌, ◌++◌, ◌==◌, if◌then◌else◌, ℕ, suc, String, refl, true, false, not,
  Option, none, some, List, [], map, arith, nat_eq_iff, elem, distinct, Dict, lookup, insert, erase,
  nat_Eq, text_Eq,
}
use mas_dsmb.Relay.{remove_one}

abbrev pub count : String → List String → ℕ
count id [] = 0
count id (x ∷ rest) = let more = count id rest in if x == id then suc more else more

abbrev pub names : Dict ℕ String → List String
names players = map (λ (entry : ℕ × String). entry.1) players

abbrev pub sockets : Dict ℕ String → List ℕ
sockets players = map (λ (entry : ℕ × String). entry.0) players

abbrev pub one_if : String → String → ℕ
one_if id x = if x == id then 1 else 0

pub count-append_one :
    (id x : String) (xs : List String) → count id (xs ++ x ∷ []) ≡ count id xs + one_if id x
count-append_one id x [] = ground arith
count-append_one id x (y ∷ xs) = ground (arith, count-append_one id x xs)

pub count-insert :
    (id x : String) (ws : ℕ) (d : Dict ℕ String)
    → elem ws (sockets d) ≡ false
    → count id (names (insert ws x d)) ≡ count id (names d) + one_if id x
count-insert id x ws [] h = ground arith
count-insert id x ws ((key, y) ∷ d) h = ground (arith, count-insert id x ws d)

pub elem-insert :
    (k ws : ℕ) (x : String) (d : Dict ℕ String)
    → elem k (sockets (insert ws x d)) ≡ (ws == k || elem k (sockets d))
elem-insert k ws x [] = refl
elem-insert k ws x ((key, y) ∷ d) =
    ground (arith, elem-insert k ws x d, nat_eq_iff key ws, nat_eq_iff key k, nat_eq_iff ws k)

pub distinct-insert :
    (ws : ℕ) (x : String) (d : Dict ℕ String)
    → elem ws (sockets d) ≡ false
    → distinct (sockets d) ≡ true
    → distinct (sockets (insert ws x d)) ≡ true
distinct-insert ws x [] h apart = refl
distinct-insert ws x ((key, y) ∷ d) h apart =
    ground
      (arith, distinct-insert ws x d, elem-insert key ws x d, nat_eq_iff key ws, nat_eq_iff ws key)

pub elem-erase :
    (k ws : ℕ) (d : Dict ℕ String)
    → elem k (sockets (erase ws d)) ≡ (not (ws == k) && elem k (sockets d))
elem-erase k ws [] = ground arith
elem-erase k ws ((key, y) ∷ d) =
    ground (arith, elem-erase k ws d, nat_eq_iff key ws, nat_eq_iff key k, nat_eq_iff ws k)

pub distinct-erase :
    (ws : ℕ) (d : Dict ℕ String)
    → distinct (sockets d) ≡ true
    → distinct (sockets (erase ws d)) ≡ true
distinct-erase ws [] apart = refl
distinct-erase ws ((key, y) ∷ d) apart = ground (arith, distinct-erase ws d, elem-erase key ws d)

abbrev pub one_of : String → Option String → ℕ
one_of id none = 0
one_of id (some x) = one_if id x

count-absent :
    (id : String) (ws : ℕ) (d : Dict ℕ String)
    → elem ws (sockets d) ≡ false
    → count id (names (erase ws d)) ≡ count id (names d)
count-absent id ws [] h = refl
count-absent id ws ((key, y) ∷ d) h = ground (arith, count-absent id ws d)

pub count-erase :
    (id : String) (ws : ℕ) (d : Dict ℕ String)
    → distinct (sockets d) ≡ true
    → count id (names (erase ws d)) + one_of id (lookup ws d) ≡ count id (names d)
count-erase id ws [] apart = refl
count-erase id ws ((key, y) ∷ d) apart =
    ground (arith, count-erase id ws d, count-absent id ws d, nat_eq_iff key ws)

pub elem-remove_one :
    (k ws : ℕ) (l : List ℕ) → (ws == k) ≡ false → elem k (remove_one ws l) ≡ elem k l
unfolding remove_one
elem-remove_one k ws [] h = refl
elem-remove_one k ws (x ∷ l) h =
    ground (arith, elem-remove_one k ws l h, nat_eq_iff x ws, nat_eq_iff x k, nat_eq_iff ws k)
