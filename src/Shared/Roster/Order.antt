-- ===== src/Shared/Roster/Order.antt =====
-- `get_all_players` of shared/roster.py: the participants in the order of their join indices.
use mas_dsmb.Prelude.{
  ◌≡◌, ◌≢◌, ◌≤◌, ◌∷◌, ◌∙◌, ℕ, refl, inl, inr, [], arith, leb, Bool-cases, leb→le, leb→lt, elem,
  distinct, text_set, nat_Eq, text_Eq,
}
use mathlib.Core.List.{Perm, Permᴰ}
use mathlib.Core.List.Perm
use mathlib.Core.Logic.{∥∥₁_elim}
use mas_dsmb.Shared.Roster.{
  RosterEntry, GlobalRoster, ConnectionStatus, place, get_all_players, HasDistinctIndices,
}
use mas_dsmb.Shared.Roster.Membership.{indices}

-- Every entry of the list has at least this join index.
abbrev pub IsBelow : ℕ → GlobalRoster → Type 0
IsBelow index [] = Unit
IsBelow index (p ∷ rest) = (index ≤ p.join_index) × IsBelow index rest

abbrev pub IsSorted : GlobalRoster → Type 0
IsSorted [] = Unit
IsSorted (p ∷ rest) = IsBelow p.join_index rest × IsSorted rest

IsBelow-le : {i j : ℕ} (players : GlobalRoster) → i ≤ j → IsBelow j players → IsBelow i players
IsBelow-le [] h below = tt
IsBelow-le (p ∷ rest) h below = (omega arith, IsBelow-le rest h below.1)

place-IsBelow :
    {i : ℕ} (entry : RosterEntry) (players : GlobalRoster)
    → i ≤ entry.join_index
    → IsBelow i players
    → IsBelow i (place entry players)
unfolding place
place-IsBelow entry [] h below = (h, tt)
place-IsBelow entry (p ∷ rest) h below = ground (arith, place-IsBelow entry rest h below.1)

place-IsSorted :
    (entry : RosterEntry) (players : GlobalRoster)
    → IsSorted players
    → IsSorted (place entry players)
unfolding place
place-IsSorted entry [] h = (tt, tt)
place-IsSorted entry (p ∷ rest) h = elim (Bool-cases (leb entry.join_index p.join_index)) [
  | inl first ↦ rw first ((leb→le _ _ first, IsBelow-le rest (leb→le _ _ first) h.0), h)
  | inr later ↦ rw later (
    place-IsBelow entry rest (omega (arith, leb→lt _ _ later)) h.0,
    place-IsSorted entry rest h.1,
  )
]

place-perm :
    (entry : RosterEntry) (players : GlobalRoster) → Perm (place entry players) (entry ∷ players)
unfolding place
place-perm entry [] = Perm.refl _
place-perm entry (p ∷ rest) = elim (Bool-cases (leb entry.join_index p.join_index)) [
  | inl first ↦ rw first (Perm.refl _)
  | inr later ↦ rw later (Perm.trans (Perm.cons p (place-perm entry rest)) (Perm.swap entry p rest))
]

get_all_players-IsSorted : (players : GlobalRoster) → IsSorted (get_all_players players)
unfolding get_all_players
get_all_players-IsSorted [] = tt
get_all_players-IsSorted (p ∷ rest) = place-IsSorted p _ (get_all_players-IsSorted rest)

get_all_players-perm : (players : GlobalRoster) → Perm (get_all_players players) players
unfolding get_all_players
get_all_players-perm [] = Perm.refl []
get_all_players-perm (p ∷ rest) =
    Perm.trans (place-perm p (get_all_players rest)) (Perm.cons p (get_all_players-perm rest))

-- Listing the players sorts them by join index, and loses and invents none.
pub get_all_players_sorts :
    (players : GlobalRoster)
    → IsSorted (get_all_players players) × Perm (get_all_players players) players
get_all_players_sorts players = (get_all_players-IsSorted players, get_all_players-perm players)

place_comm :
    (a b : RosterEntry) (players : GlobalRoster)
    → a.join_index ≢ b.join_index
    → place a (place b players) ≡ place b (place a players)
unfolding place
place_comm a b [] h = ground arith
place_comm a b (p ∷ rest) h = ground (arith, place_comm a b rest h)

elem-Permᴰ : (i : ℕ) {r s : GlobalRoster} → Permᴰ r s → elem i (indices r) ≡ elem i (indices s)
elem-Permᴰ i Permᴰ.nil = refl
elem-Permᴰ i (Permᴰ.cons e p) = ground (arith, elem-Permᴰ i p)
elem-Permᴰ i (Permᴰ.swap e f) = ground arith
elem-Permᴰ i (Permᴰ.trans p q) = elem-Permᴰ i p ∙ elem-Permᴰ i q

distinct-Permᴰ : {r s : GlobalRoster} → Permᴰ r s → distinct (indices r) ≡ distinct (indices s)
distinct-Permᴰ Permᴰ.nil = refl
distinct-Permᴰ (Permᴰ.cons {b} e p) = ground (arith, elem-Permᴰ b.join_index p, distinct-Permᴰ p)
distinct-Permᴰ (Permᴰ.swap e f) = ground arith
distinct-Permᴰ (Permᴰ.trans p q) = distinct-Permᴰ p ∙ distinct-Permᴰ q

same_order :
    {r s : GlobalRoster} → Permᴰ r s → HasDistinctIndices r → get_all_players r ≡ get_all_players s
unfolding get_all_players
same_order Permᴰ.nil h = refl
same_order (Permᴰ.cons e p) h = cc (e, same_order p (ground arith))
same_order (Permᴰ.swap {a} {b} {l} e f) h =
    cc (e, f, place_comm a b (get_all_players l) (ground arith))
same_order (Permᴰ.trans p q) h = same_order p h ∙ same_order q (rw (← distinct-Permᴰ p) h)

ConnectionStatus-discrete : Discrete ConnectionStatus
ConnectionStatus-discrete = hlevel

RosterEntry-set : IsSet RosterEntry
RosterEntry-set = hlevel text_set

-- Two nodes that know the same players with distinct join indices list them in the same order,
-- whatever the order in which they learned of them.
pub get_all_players-perm_eq :
    {r s : GlobalRoster} → HasDistinctIndices r → Perm r s → get_all_players r ≡ get_all_players s
get_all_players-perm_eq {r} {s} h p = ∥∥₁_elim p (hlevel RosterEntry-set) (λ d. same_order d h)
