-- ===== src/Hosting/Rejoin.antt =====
-- `_check_for_rejoining_players` of src/distributed_smb/application/gameplay/host.py, in its second
-- definition, which replaces the first, and `_merge_roster` of events.py. Log output is left out.
use mas_dsmb.Prelude.{
  ◌>>=◌, ◌&&◌, ◌||◌, ◌∷◌, ◌==◌, if◌then◌else◌, ℕ, String, Bool, true, false, not, Option, none,
  some, List, [], map, find?, elem, lookup, insert, erase, Result, ok, nat_Eq, text_Eq, ◌>>=◌,
}
use mas_dsmb.Shared.Roster.{
  RosterEntry, GlobalRoster, RosterValidationError, has_index, get_all_players,
}
use mas_dsmb.Shared.Roster.{add_player as add_entry, remove_player as remove_entry}
use mas_dsmb.Domain.Scalar.{Scalar}
use mas_dsmb.Domain.World.{Player, add_player}
use mas_dsmb.Domain.Players.{spawn_player, spawn_position_for}
use mas_dsmb.Failover.Node.{Node, perform, with_world, initial_state_sync}

-- `next((player for player in ... if player.join_index == index), None)`
unfoldable pub occupant : ℕ → GlobalRoster → Option RosterEntry
occupant index roster = find? (has_index index) (get_all_players roster)

unfoldable pub belongs_to_other : String → Option RosterEntry → Bool
belongs_to_other player_id none = false
belongs_to_other player_id (some existing) = not (existing.player_id == player_id)

-- The player is where the roster says, and no state waits for it.
unfoldable pub is_settled : {A : Type 0} → RosterEntry → Option RosterEntry → Option A → Bool
is_settled entry (some existing) none =
    existing.host == entry.host && existing.udp_port == entry.udp_port
is_settled entry _ _ = false

unfoldable pub seat_again :
    Option RosterEntry → RosterEntry → GlobalRoster → Result RosterValidationError GlobalRoster
seat_again none entry roster = add_entry entry roster
seat_again (some existing) entry roster = add_entry entry (remove_entry existing.player_id roster)

module _ (scalar : Scalar) where
  -- The character comes back as it was kept, or a new one for a new entry.
  unfoldable pub appear :
      RosterEntry → Option RosterEntry → Option (Player scalar) → Node scalar → Node scalar
  appear entry existing (some restored) n =
      with_world scalar
        (add_player scalar
          (record restored { player_id = entry.player_id; join_index = entry.join_index }))
        n
  appear entry none none n =
      let point = spawn_position_for scalar entry.join_index n.engine in
      record n {
        engine = spawn_player scalar entry.player_id point.0 point.1 entry.join_index n.engine;
      }
  appear entry (some existing) none n = n

  unfoldable pub re_enter :
      ℕ
      → RosterEntry
      → Option RosterEntry
      → Option (Player scalar)
      → Node scalar
      → GlobalRoster
      → Node scalar
  unfolding appear
  re_enter now entry existing restored n roster =
      let shown =
        appear entry existing restored
          (record n { rejoin_states = erase entry.join_index n.rejoin_states; roster = roster }) in
      record shown { last_input_time = insert entry.player_id now shown.last_input_time }

  unfoldable pub readmit :
      ℕ
      → RosterEntry
      → Option RosterEntry
      → Option (Player scalar)
      → Node scalar
      → Result RosterValidationError (Node scalar × Bool)
  unfolding seat_again belongs_to_other is_settled
  readmit now entry existing restored n =
      if belongs_to_other entry.player_id existing || is_settled entry existing restored
      then ok (n, false)
      else do
        roster ← seat_again existing entry n.roster
        ok (re_enter now entry existing restored n roster, true)

  -- One turn of the loop: the node, and whether the entry is a new one.
  unfoldable pub rejoin_entry :
      ℕ → RosterEntry → Node scalar → Result RosterValidationError (Node scalar × Bool)
  unfolding readmit occupant
  rejoin_entry now entry n =
      if entry.player_id == n.local_player_id
      then ok (n, false)
      else readmit now entry (occupant entry.join_index n.roster)
          (lookup entry.join_index n.rejoin_states) n

  unfoldable pub rejoin_entries :
      ℕ → List RosterEntry → Node scalar → Bool → Result RosterValidationError (Node scalar × Bool)
  rejoin_entries now [] n changed = ok (n, changed)
  rejoin_entries now (entry ∷ rest) n changed = do
    after ← rejoin_entry now entry n
    rejoin_entries now rest after.0 (changed || after.1)

  abbrev pub sync_if_new : Node scalar × Bool → Node scalar
  sync_if_new (n, changed) = if changed then perform scalar initial_state_sync n else n

  -- The message of the lobby is a roster, or another one or none.
  unfoldable pub check_for_rejoining_players :
      ℕ → Option GlobalRoster → Node scalar → Result RosterValidationError (Node scalar)
  check_for_rejoining_players now none n = ok n
  check_for_rejoining_players now (some roster) n = do
    after ← rejoin_entries now (get_all_players roster) n false
    ok (sync_if_new after)

  unfoldable pub learn_entries :
      List ℕ → List RosterEntry → Node scalar → Result RosterValidationError (Node scalar)
  learn_entries known [] n = ok n
  learn_entries known (entry ∷ rest) n =
      let skipped = learn_entries known rest n in
      let added =
        add_entry entry n.roster
        >>= (λ roster. learn_entries known rest (record n { roster = roster })) in
      if elem entry.join_index known || entry.player_id == n.local_player_id then skipped else added

  unfoldable pub merge_roster :
      GlobalRoster → Node scalar → Result RosterValidationError (Node scalar)
  unfolding learn_entries
  merge_roster roster n =
      learn_entries (map (λ e. e.join_index) (get_all_players n.roster)) (get_all_players roster) n
