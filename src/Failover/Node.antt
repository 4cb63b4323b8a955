-- ===== src/Failover/Node.antt =====
-- The node's state, what it sends, and the eviction of a player (`_evict_player` of
-- src/distributed_smb/application/gameplay/events.py, `_known_client_peers` of client.py,
-- `_send_election_message_udp` of application/election/mixin.py). A deadline of 0.0 is `none`. The
-- shadow copies of remote players, which are only displayed, are left out.
use mas_dsmb.Prelude.{
  ◌∷◌, ◌++◌, ◌==◌, ℕ, String, Bool, not, Option, none, some, List, [], map, filter, elem, set_of,
  Dict, insert, erase, nat_Eq, text_Eq,
}
use mas_dsmb.Shared.Roster.{GlobalRoster, RosterEntry, get_player, remove_player, get_all_players}
use mas_dsmb.Domain.Scalar.{Scalar}
use mas_dsmb.Domain.World.{InputState, Player, WorldState}
use mas_dsmb.Domain.Players.{GameEngine}
use mas_dsmb.Election.{ElectionCoordinator, HostTimeoutWatcher}
use mas_dsmb.Domain.World.{remove_player as remove_character, get_player as get_character}

pub data PlayerRole : Type 0 where
  host client : PlayerRole

-- shared/messages/{election,recovery}.py, and the notice of a player that left.
pub data Message : Type 0 where
  new_host_claim : String → ℕ → String → Message
  election_ack : String → String → Message
  reconnection_ack : String → ℕ → ℕ → String → Message
  host_discovery_probe : String → String → Message
  player_left : String → Message
  host_identity_response : String → String → Message

-- What a node does outside itself: messages through the relay or straight over UDP, and the
-- connections and services that it starts.
pub data Outgoing : Type 0 where
  relayed : Message → Outgoing
  datagram : Message → String → ℕ → Outgoing
  rebuild_udp_as_host : Outgoing
  promote_to_server : ℕ → Outgoing
  relaunch_lobby : Outgoing
  start_spade_runtime : Outgoing
  reconnect_game_events : String → ℕ → Outgoing
  reconnect_lobby : String → Outgoing
  initial_state_sync : Outgoing

-- `HOST_UDP_PORT` and `GAME_EVENT_WS_PORT`
abbrev pub host_udp_port : ℕ
host_udp_port = 50010

abbrev pub game_event_ws_port : ℕ
game_event_ws_port = 50003

module _ (scalar : Scalar) where
  pub record Snapshot : Type 0 where
    pub sequence_number : ℕ
    pub world_state : WorldState scalar

  pub record Node : Type 0 where
    pub local_player_id : String
    pub local_ip : String
    pub session_id : String
    pub join_index : ℕ
    pub role : PlayerRole
    pub roster : GlobalRoster
    pub engine : GameEngine scalar
    pub rejoin_states : Dict ℕ (Player scalar)
    pub cached_remote_inputs : Dict String InputState
    pub last_remote_input_sequence : Dict String ℕ
    pub last_input_time : Dict String ℕ
    pub election_coordinator : Option ElectionCoordinator
    pub timeout_watcher : Option HostTimeoutWatcher
    pub env_state_buffer : Option Snapshot
    pub election_triggered : Bool
    pub host_verify_deadline : Option ℕ
    pub host_verify_next_probe : ℕ
    pub pending_election_acks : List String
    pub election_claim_deadline : Option ℕ
    pub promotion_done : Bool
    pub reconnected : Bool
    pub following_host_ip : Option String
    pub following_since : ℕ
    pub remote_host : String
    pub remote_port : ℕ
    pub last_snapshot_sequence : ℕ
    pub outbox : List Outgoing

  unfoldable pub perform : Outgoing → Node → Node
  perform action n = record n { outbox = n.outbox ++ action ∷ [] }

  abbrev pub with_world : (WorldState scalar → WorldState scalar) → Node → Node
  with_world f n = record n { engine = record (n.engine) { world_state = f n.engine.world_state } }

  -- The state that an evicted player may come back to.
  unfoldable pub keep_state :
      Option RosterEntry → Option (Player scalar) → Dict ℕ (Player scalar) → Dict ℕ (Player scalar)
  keep_state (some entry) (some player) states = insert entry.join_index player states
  keep_state _ _ states = states

  unfoldable pub evict_player : String → Node → Node
  evict_player pid n =
      let world = n.engine.world_state in
      let states =
        keep_state (get_player pid n.roster) (get_character scalar pid world) n.rejoin_states in
      record n {
        rejoin_states = states;
        engine = record (n.engine) { world_state = remove_character scalar pid world };
        roster = remove_player pid n.roster;
        cached_remote_inputs = erase pid n.cached_remote_inputs;
        last_remote_input_sequence = erase pid n.last_remote_input_sequence;
        last_input_time = erase pid n.last_input_time;
      }

  abbrev pub is_other : Node → RosterEntry → Bool
  is_other n entry = not (entry.player_id == n.local_player_id)

  abbrev pub others : Node → List RosterEntry
  others n = filter (is_other n) (get_all_players n.roster)

  -- A set of addresses.
  unfoldable pub known_client_peers : Node → List String
  known_client_peers n = set_of (map (λ e. e.host) (filter (λ e. not e.is_host) (others n)))

  unfoldable pub send_to_each : Message → List RosterEntry → Node → Node
  send_to_each message [] n = n
  send_to_each message (e ∷ rest) n =
      send_to_each message rest (perform (datagram message e.host e.udp_port) n)

  -- `only_hosts` of None is `none`.
  unfoldable pub send_election_message_udp : Message → Option (List String) → Node → Node
  send_election_message_udp message none n = send_to_each message (others n) n
  send_election_message_udp message (some only_hosts) n =
      send_to_each message (filter (λ e. elem e.host only_hosts) (others n)) n
