-- ===== src/Shared/Roster/Membership.antt =====
-- Adding, finding and removing participants: shared/roster.py.
use mas_dsmb.Prelude.{
  ◌≡◌, ◌↔◌, ◌||◌, ◌∷◌, ◌++◌, ◌==◌, if◌then◌else◌, ℕ, String, refl, true, false, none, List, [], map,
  arith, any, elem, distinct, ok, err, nat_Eq, text_Eq,
}
use mas_dsmb.Shared.Roster.{
  GlobalRoster, has_index, get_player, remove_player, add_player, RosterEntry, duplicate_join_index,
  HasDistinctIndices,
}
use mathlib.Core.List.{map-append}
use text.Mathlib.TextEquality.{eq_iff}

-- A removed player is not found, and every other player is found as before.
pub get_player-remove_player :
    (removed player_id : String) (players : GlobalRoster)
    → get_player player_id (remove_player removed players)
      ≡ (if removed == player_id then none else get_player player_id players)
unfolding get_player remove_player
get_player-remove_player removed player_id [] = ground arith
get_player-remove_player removed player_id (p ∷ rest) = ground (
  arith,
  eq_iff p.player_id removed,
  eq_iff p.player_id player_id,
  eq_iff removed player_id,
  get_player-remove_player removed player_id rest,
)

pub any-has_index :
    (index : ℕ) (players : GlobalRoster)
    → any (has_index index) players ≡ elem index (map (λ p. p.join_index) players)
any-has_index index [] = refl
any-has_index index (p ∷ rest) = ground (arith, any-has_index index rest)

elem-append_one : (i j : ℕ) (l : List ℕ) → elem i (l ++ j ∷ []) ≡ (elem i l || j == i)
elem-append_one i j [] = ground arith
elem-append_one i j (k ∷ l) = ground (arith, elem-append_one i j l)

distinct-append_one :
    (j : ℕ) (l : List ℕ) → distinct (l ++ j ∷ []) ≡ (if elem j l then false else distinct l)
distinct-append_one j [] = refl
distinct-append_one j (k ∷ l) = ground (arith, elem-append_one k j l, distinct-append_one j l)

abbrev pub indices : GlobalRoster → List ℕ
indices players = map (λ p. p.join_index) players

-- Adding is refused exactly when the join index is taken.
pub add_player_refuses :
    (entry : RosterEntry) (players : GlobalRoster)
    → (add_player entry players ≡ err duplicate_join_index)
      ↔ (elem entry.join_index (indices players) ≡ true)
unfolding add_player
add_player_refuses entry players = (
  (λ h. ground (arith, any-has_index entry.join_index players)),
  (λ h. ground (arith, any-has_index entry.join_index players)),
)

-- If the join indices of a roster are distinct, they are distinct after a player is added.
pub add_player-HasDistinctIndices :
    (entry : RosterEntry) (players : GlobalRoster) {players' : GlobalRoster}
    → HasDistinctIndices players
    → add_player entry players ≡ ok players'
    → HasDistinctIndices players'
unfolding add_player
add_player-HasDistinctIndices entry players h added = ground (
  arith,
  any-has_index entry.join_index players,
  distinct-append_one entry.join_index (indices players),
  map-append (λ (p : RosterEntry). p.join_index) players (entry ∷ []),
)
