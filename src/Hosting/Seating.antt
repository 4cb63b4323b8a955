-- ===== src/Hosting/Seating.antt =====
-- Seating a player again: the index is free for it, and nobody else moves.
use mas_dsmb.Prelude.{
  ◌≡◌, ◌||◌, ◌∷◌, ◌++◌, ◌∙◌, ◌==◌, ℕ, String, refl, false, Option, none, some, [], arith,
  nat_eq_iff, find?, elem, Result, ok, err, nat_Eq, text_Eq,
}
use mas_dsmb.Shared.Roster.{
  RosterEntry, GlobalRoster, RosterValidationError, HasDistinctIndices, has_index, place,
  get_all_players, get_player,
}
use mas_dsmb.Shared.Roster.{add_player as add_entry, remove_player as remove_entry}
use mas_dsmb.Shared.Roster.Membership.{
  indices, any-has_index, get_player-remove_player, add_player-HasDistinctIndices,
}
use mas_dsmb.Hosting.Rejoin.{occupant, belongs_to_other, seat_again}
use text.Mathlib.TextEquality.{eq_iff}

elem-place :
    (i : ℕ) (e : RosterEntry) (r : GlobalRoster)
    → elem i (indices (place e r)) ≡ (e.join_index == i || elem i (indices r))
unfolding place
elem-place i e [] = refl
elem-place i e (p ∷ rest) = ground (arith, elem-place i e rest)

elem-sorted : (i : ℕ) (r : GlobalRoster) → elem i (indices (get_all_players r)) ≡ elem i (indices r)
unfolding get_all_players
elem-sorted i [] = refl
elem-sorted i (e ∷ rest) = ground (arith, elem-place i e (get_all_players rest), elem-sorted i rest)

find?-place :
    (i : ℕ) (e : RosterEntry) (r : GlobalRoster)
    → elem e.join_index (indices r) ≡ false
    → find? (has_index i) (place e r) ≡ find? (has_index i) (e ∷ r)
unfolding place
find?-place i e [] h = refl
find?-place i e (p ∷ rest) h = ground (
  arith,
  find?-place i e rest,
  nat_eq_iff e.join_index i,
  nat_eq_iff p.join_index i,
  nat_eq_iff p.join_index e.join_index,
)

-- Indices are distinct, so the order does not matter to the search.
pub occupant-find? :
    (i : ℕ) (r : GlobalRoster) → HasDistinctIndices r → occupant i r ≡ find? (has_index i) r
unfolding occupant get_all_players
occupant-find? i [] h = refl
occupant-find? i (e ∷ rest) h = ground (
  arith,
  find?-place i e (get_all_players rest),
  elem-sorted e.join_index rest,
  occupant-find? i rest,
)

find?-absent :
    (i : ℕ) (r : GlobalRoster) → find? (has_index i) r ≡ none → elem i (indices r) ≡ false
find?-absent i [] h = refl
find?-absent i (p ∷ rest) h = ground (arith, find?-absent i rest)

absent-remove :
    (i : ℕ) (id : String) (r : GlobalRoster)
    → elem i (indices r) ≡ false
    → elem i (indices (remove_entry id r)) ≡ false
unfolding remove_entry
absent-remove i id [] h = refl
absent-remove i id (p ∷ rest) h = ground (arith, absent-remove i id rest)

distinct-remove :
    (id : String) (r : GlobalRoster) → HasDistinctIndices r → HasDistinctIndices (remove_entry id r)
unfolding remove_entry
distinct-remove id [] h = refl
distinct-remove id (p ∷ rest) h =
    ground (arith, distinct-remove id rest, absent-remove p.join_index id rest)

-- The index of the found entry is free once the entry's player is removed.
find?-freed :
    (i : ℕ) (r : GlobalRoster) (e : RosterEntry)
    → HasDistinctIndices r
    → find? (has_index i) r ≡ some e
    → elem i (indices (remove_entry e.player_id r)) ≡ false
unfolding remove_entry
find?-freed i [] e d found = refl
find?-freed i (p ∷ rest) e d found = ground (
  arith,
  find?-freed i rest e,
  absent-remove i e.player_id rest,
  nat_eq_iff p.join_index i,
  eq_iff p.player_id e.player_id,
)

add_entry-absent :
    (entry : RosterEntry) (r : GlobalRoster)
    → elem entry.join_index (indices r) ≡ false
    → add_entry entry r ≡ ok (r ++ entry ∷ [])
unfolding add_entry
add_entry-absent entry r h = ground (arith, any-has_index entry.join_index r)

get_player-append :
    (id : String) (r : GlobalRoster) (entry : RosterEntry)
    → (entry.player_id == id) ≡ false
    → get_player id (r ++ entry ∷ []) ≡ get_player id r
unfolding get_player
get_player-append id [] entry h = ground arith
get_player-append id (p ∷ rest) entry h = ground (arith, get_player-append id rest entry h)

-- Distinct indices, and the entry of a player that stays.
abbrev pub Keeps : String → GlobalRoster → GlobalRoster → Type 0
Keeps id before after = HasDistinctIndices after × (get_player id after ≡ get_player id before)

-- A roster that is returned, and not an exception.
abbrev pub Seats : String → GlobalRoster → Result RosterValidationError GlobalRoster → Type 0
Seats id before (ok after) = Keeps id before after
Seats id before (err e) = ⊥

add_entry-Seats :
    (id : String) (before r : GlobalRoster) (entry : RosterEntry)
    → Keeps id before r
    → elem entry.join_index (indices r) ≡ false
    → (entry.player_id == id) ≡ false
    → Seats id before (add_entry entry r)
add_entry-Seats id before r entry (d, same) fresh differ = rw (add_entry-absent entry r fresh) (
  add_player-HasDistinctIndices entry r d (add_entry-absent entry r fresh),
  get_player-append id r entry differ ∙ same,
)

pub seat_again-Seats :
    (id : String) (r : GlobalRoster) (entry : RosterEntry) (existing : Option RosterEntry)
    → HasDistinctIndices r
    → find? (has_index entry.join_index) r ≡ existing
    → belongs_to_other entry.player_id existing ≡ false
    → (entry.player_id == id) ≡ false
    → Seats id r (seat_again existing entry r)
unfolding seat_again belongs_to_other
seat_again-Seats id r entry none d found own differ =
    add_entry-Seats id r r entry (d, refl) (find?-absent entry.join_index r found) differ
seat_again-Seats id r entry (some e) d found own differ =
    add_entry-Seats id r (remove_entry e.player_id r) entry
      (
        distinct-remove e.player_id r d,
        ground
            (arith, get_player-remove_player e.player_id id r, eq_iff e.player_id entry.player_id),
      )
      (find?-freed entry.join_index r e d found) differ
