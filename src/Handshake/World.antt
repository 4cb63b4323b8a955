-- ===== src/Handshake/World.antt =====
-- `_rebuild_world_from_roster` of src/distributed_smb/application/lobby/coordinator.py. Shadow copies
-- and the socket of the relay are left out.
use mas_dsmb.Prelude.{
  ◌∷◌, ℕ, String, Option, none, some, List, [], find?, Dict, insert, nat_Eq, text_Eq,
}
use mas_dsmb.Shared.Roster.{RosterEntry, GlobalRoster, get_all_players}
use mas_dsmb.Domain.Scalar.{Scalar}
use mas_dsmb.Domain.Players.{GameEngine, spawn_player, spawn_position_for}
use mas_dsmb.Failover.Node.{Node, PlayerRole, host, client, others, host_udp_port}
use mas_dsmb.Handshake.{Entrant}

module _ (scalar : Scalar) where
  unfoldable pub spawn_entry : RosterEntry → GameEngine scalar → GameEngine scalar
  spawn_entry e g =
      let point = spawn_position_for scalar e.join_index g in
      spawn_player scalar e.player_id point.0 point.1 e.join_index g

  unfoldable pub spawn_entries : List RosterEntry → GameEngine scalar → GameEngine scalar
  unfolding spawn_entry
  spawn_entries [] g = g
  spawn_entries (e ∷ rest) g = spawn_entries rest (spawn_entry e g)

  unfoldable pub rebuild_engine : GlobalRoster → GameEngine scalar → GameEngine scalar
  unfolding spawn_entries
  rebuild_engine roster g =
      spawn_entries (get_all_players roster)
        (record g { world_state = record (g.world_state) { characters = [] } })

  -- The dictionary of everybody else, all heard of now.
  unfoldable pub heard_now : ℕ → List RosterEntry → Dict String ℕ → Dict String ℕ
  heard_now now [] d = d
  heard_now now (e ∷ rest) d = heard_now now rest (insert e.player_id now d)

  unfoldable pub first_id : List RosterEntry → Option String → Option String
  first_id [] kept = kept
  first_id (e ∷ rest) kept = some e.player_id

  -- A client that finds no host in the roster keeps to the lobby's address.
  unfoldable pub point_at_host :
      PlayerRole → String → Option RosterEntry → Node scalar → Node scalar
  point_at_host host lobby_host found n = n
  point_at_host client lobby_host none n = record n {
    remote_host = lobby_host;
    remote_port = host_udp_port;
  }
  point_at_host client lobby_host (some e) n = record n {
    remote_host = e.host;
    remote_port = e.udp_port;
  }

  unfoldable pub rebuild_world_from_roster : ℕ → String → Entrant scalar → Entrant scalar
  unfolding rebuild_engine heard_now first_id point_at_host
  rebuild_world_from_roster now lobby_host s =
      let n = s.node in
      let rebuilt = record n {
        engine = rebuild_engine n.roster n.engine;
        last_input_time = heard_now now (others scalar n) [];
      } in
      record s {
        node =
            point_at_host n.role lobby_host (find? (λ e. e.is_host) (get_all_players n.roster))
              rebuilt;
        remote_player_id = first_id (others scalar n) s.remote_player_id;
      }
