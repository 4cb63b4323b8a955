-- ===== src/Tests/Shared.antt =====
-- Tests of the modules of src/distributed_smb/shared.
use mas_dsmb.Prelude.{◌≡◌, ◌∷◌, ◌++◌, ℕ, String, refl, false, [], ok}
use mas_dsmb.Shared.PlayerId.{decimal, player_id_for, player_id_for-injective}
use mas_dsmb.Shared.Roster.{
  RosterEntry, GlobalRoster, connected, get_all_players, add_player, HasDistinctIndices, place,
}
use mas_dsmb.Shared.Roster.Membership.{add_player-HasDistinctIndices}
use mas_dsmb.Shared.Roster.Order.{get_all_players-perm_eq}
use mathlib.Core.List.Perm

abbrev entry : ℕ → String → RosterEntry
entry join_index host = record {
  player_id = player_id_for join_index;
  host = host;
  udp_port = 50000;
  join_index = join_index;
  status = connected;
  is_host = false;
}

abbrev trio : GlobalRoster
trio = entry 2 "c" ∷ entry 0 "a" ∷ entry 1 "b" ∷ []

sorted_trio : get_all_players trio ≡ entry 0 "a" ∷ entry 1 "b" ∷ entry 2 "c" ∷ []
unfolding get_all_players place
sorted_trio = refl

player_twelve : player_id_for 11 ≡ "player12"
unfolding player_id_for decimal
player_twelve = refl

player_id_for-injective_example : ◌≡◌ {A = ℕ} 3 3
player_id_for-injective_example = player_id_for-injective 3 3 refl

added : add_player (entry 3 "d") trio ≡ ok (trio ++ entry 3 "d" ∷ [])
unfolding add_player
added = refl

add_player-HasDistinctIndices_example : HasDistinctIndices (trio ++ entry 3 "d" ∷ [])
add_player-HasDistinctIndices_example = add_player-HasDistinctIndices (entry 3 "d") trio refl added

abbrev learned_later : GlobalRoster
learned_later = entry 0 "a" ∷ entry 2 "c" ∷ entry 1 "b" ∷ []

get_all_players-perm_eq_example : get_all_players trio ≡ get_all_players learned_later
get_all_players-perm_eq_example =
    get_all_players-perm_eq refl (Perm.swap (entry 0 "a") (entry 2 "c") (entry 1 "b" ∷ []))
