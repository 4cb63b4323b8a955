-- ===== src/Shared/Messages.antt =====
-- The lobby's messages and the checks that their constructors make:
-- src/distributed_smb/shared/messages/{session,common}.py. The decoder builds every message by its
-- constructor, so a message that fails a check raises and is never handled. A text that is no JSON
-- or that a schema refuses raises too.
use mas_dsmb.Prelude.{
  ◌&&◌, ◌==◌, ℕ, String, Bool, true, false, not, Option, none, some, List, ltb, leb, all, elem,
  distinct, nat_Eq, text_Eq,
}
use mas_dsmb.Shared.PlayerId.{player_id_for}
use mas_dsmb.Shared.Roster.{GlobalRoster}

-- src/distributed_smb/shared/config.py
abbrev pub max_players : ℕ
max_players = 4

pub record SessionCreate : Type 0 where
  pub player_id : String
  pub ip : String
  pub udp_port : ℕ

pub record SessionJoin : Type 0 where
  pub session_id : String
  pub player_id : String
  pub ip : String
  pub port : ℕ
  pub rejoin_join_index : Option ℕ

pub record SessionRecreate : Type 0 where
  pub session_id : String
  pub next_join_index : ℕ
  pub host_ip : String
  pub host_udp_port : ℕ
  pub host_join_index : ℕ
  pub reserved_join_indices : List ℕ

-- What a client sends to the lobby.
pub data Request : Type 0 where
  session_create : SessionCreate → Request
  session_join : SessionJoin → Request
  session_recreate : SessionRecreate → Request
  session_leave : String → ℕ → Request
  initial_state_sync : String → Request
  game_start : String → Request
  other_type unreadable : Request

-- What the lobby sends to a client.
pub data Notice : Type 0 where
  session_created : String → ℕ → Notice
  session_joined : ℕ → Notice
  session_join_rejected : String → String → Notice
  session_closed : String → Notice
  roster_update : GlobalRoster → Notice
  state_sync : String → Notice
  started : String → Notice

unfoldable pub is_port : ℕ → Bool
is_port port = leb 1024 port && leb port 65535

unfoldable pub create_is_valid : SessionCreate → Bool
unfolding is_port
create_is_valid m = not (m.player_id == "") && is_port m.udp_port && not (m.ip == "")

-- A node that asks for its old slot must bear the id of that slot.
abbrev pub rejoin_is_valid : String → Option ℕ → Bool
rejoin_is_valid player_id none = true
rejoin_is_valid player_id (some index) = ltb index max_players && player_id == player_id_for index

unfoldable pub join_is_valid : SessionJoin → Bool
unfolding is_port
join_is_valid m =
    not (m.player_id == "")
    && is_port m.port
    && not (m.session_id == "")
    && not (m.ip == "")
    && rejoin_is_valid m.player_id m.rejoin_join_index

unfoldable pub recreate_is_valid : SessionRecreate → Bool
unfolding is_port
recreate_is_valid m =
    not (m.session_id == "")
    && not (m.host_ip == "")
    && is_port m.host_udp_port
    && ltb m.host_join_index max_players
    && distinct m.reserved_join_indices
    && all (λ index. ltb index max_players) m.reserved_join_indices
    && not (elem m.host_join_index m.reserved_join_indices)

unfoldable pub request_is_valid : Request → Bool
unfolding create_is_valid join_is_valid recreate_is_valid
request_is_valid (session_create m) = create_is_valid m
request_is_valid (session_join m) = join_is_valid m
request_is_valid (session_recreate m) = recreate_is_valid m
request_is_valid (session_leave session_id join_index) = not (session_id == "")
request_is_valid (game_start session_id) = not (session_id == "")
request_is_valid (initial_state_sync world) = true
request_is_valid other_type = true
request_is_valid unreadable = false
