-- ===== src/Wire/Messages.antt =====
-- Every message with the checks that its constructor makes: src/distributed_smb/shared/messages. The
-- lobby's own messages are those of Shared.Messages. A world state stands for the dictionary that
-- the host sends of it, its `to_dict`, and for the object that is rebuilt; numbers that some schema
-- bounds from below by 0 are natural, the others have a sign.
use mas_dsmb.Prelude.{◌&&◌, ◌==◌, ℤ, ℕ, String, Bool, true, not, map, distinct, nat_Eq, text_Eq}
use mas_dsmb.Shared.Roster.{GlobalRoster}
use mas_dsmb.Shared.Messages.{
  SessionCreate, SessionJoin, SessionRecreate, is_port, create_is_valid, join_is_valid,
  recreate_is_valid,
}
use mas_dsmb.Domain.World.{InputState}
use mas_dsmb.Wire.World.Data.{WorldData}

pub record NewHostClaim : Type 0 where
  pub claimer_ip : String
  pub claimer_join_index : ℕ
  pub session_id : String

pub record ElectionAck : Type 0 where
  pub from_ip : String
  pub session_id : String

pub record ReconnectionAck : Type 0 where
  pub new_host_ip : String
  pub udp_port : ℕ
  pub game_events_port : ℕ
  pub session_id : String

pub record PlayerInputPacket : Type 0 where
  pub player_id : String
  pub sequence_number : ℤ
  pub input_state : InputState

-- Over WebSockets. The payloads of one or two fields are the constructor's arguments, in their order.
pub data WsMessage : Type 0 where
  create : SessionCreate → WsMessage
  created : String → ℕ → WsMessage
  join : SessionJoin → WsMessage
  joined : ℕ → WsMessage
  recreate : SessionRecreate → WsMessage
  closed : String → WsMessage
  leave : String → ℕ → WsMessage
  join_rejected : String → String → WsMessage
  roster_changed : GlobalRoster → WsMessage
  start : String → WsMessage
  state_sync : WorldData → WsMessage
  block_destroyed : ℤ → ℤ → WsMessage
  power_up_collected : String → String → WsMessage
  gate_state_changed : String → String → WsMessage
  left disconnected : String → WsMessage
  death : String → String → WsMessage
  level_reset : WsMessage
  claim : NewHostClaim → WsMessage
  ack : ElectionAck → WsMessage
  reconnection : ReconnectionAck → WsMessage

-- Over UDP.
pub data UdpMessage : Type 0 where
  input : PlayerInputPacket → UdpMessage
  snapshot : ℤ → WorldData → UdpMessage
  probe : String → String → UdpMessage
  identity : String → String → UdpMessage
  udp_claim : NewHostClaim → UdpMessage
  udp_ack : ElectionAck → UdpMessage
  udp_reconnection : ReconnectionAck → UdpMessage

-- `not value` of a text
unfoldable pub is_filled : String → Bool
is_filled s = not (s == "")

unfoldable pub claim_is_valid : NewHostClaim → Bool
unfolding is_filled
claim_is_valid m = is_filled m.claimer_ip && is_filled m.session_id

unfoldable pub ack_is_valid : ElectionAck → Bool
unfolding is_filled
ack_is_valid m = is_filled m.from_ip && is_filled m.session_id

unfoldable pub reconnection_is_valid : ReconnectionAck → Bool
unfolding is_filled is_port
reconnection_is_valid m =
    is_filled m.new_host_ip
    && is_port m.udp_port
    && is_port m.game_events_port
    && is_filled m.session_id

-- `RosterUpdate.__post_init__`
unfoldable pub roster_is_valid : GlobalRoster → Bool
roster_is_valid players = distinct (map (λ p. p.join_index) players)

unfoldable pub created_is_valid : String → Bool
unfolding is_filled
created_is_valid session_id = is_filled session_id

unfoldable pub start_is_valid : String → Bool
unfolding is_filled
start_is_valid session_id = is_filled session_id

unfoldable pub power_up_is_valid : String → String → Bool
unfolding is_filled
power_up_is_valid powerup_id player_id = is_filled powerup_id && is_filled player_id

unfoldable pub gate_change_is_valid : String → String → Bool
unfolding is_filled
gate_change_is_valid gate_id new_state = is_filled gate_id && is_filled new_state

-- `validate_player_id`, of the players that left and that were disconnected
unfoldable pub player_is_valid : String → Bool
unfolding is_filled
player_is_valid player_id = is_filled player_id

unfoldable pub death_is_valid : String → String → Bool
unfolding is_filled
death_is_valid player_id enemy_id = is_filled player_id && is_filled enemy_id

unfoldable pub input_is_valid : PlayerInputPacket → Bool
unfolding is_filled
input_is_valid m = is_filled m.player_id

unfoldable pub probe_is_valid : String → String → Bool
unfolding is_filled
probe_is_valid session_id requester_ip = is_filled session_id && is_filled requester_ip

unfoldable pub identity_is_valid : String → String → Bool
unfolding is_filled
identity_is_valid session_id host_ip = is_filled session_id && is_filled host_ip

-- What the constructor of the message accepts.
unfoldable pub ws_is_valid : WsMessage → Bool
unfolding created_is_valid start_is_valid power_up_is_valid gate_change_is_valid player_is_valid
    death_is_valid claim_is_valid ack_is_valid reconnection_is_valid roster_is_valid
ws_is_valid (create m) = create_is_valid m
ws_is_valid (created session_id join_index) = created_is_valid session_id
ws_is_valid (join m) = join_is_valid m
ws_is_valid (recreate m) = recreate_is_valid m
ws_is_valid (roster_changed roster) = roster_is_valid roster
ws_is_valid (start session_id) = start_is_valid session_id
ws_is_valid (power_up_collected powerup_id player_id) = power_up_is_valid powerup_id player_id
ws_is_valid (gate_state_changed gate_id new_state) = gate_change_is_valid gate_id new_state
ws_is_valid (left player_id) = player_is_valid player_id
ws_is_valid (disconnected player_id) = player_is_valid player_id
ws_is_valid (death player_id enemy_id) = death_is_valid player_id enemy_id
ws_is_valid (claim m) = claim_is_valid m
ws_is_valid (ack m) = ack_is_valid m
ws_is_valid (reconnection m) = reconnection_is_valid m
ws_is_valid (joined join_index) = true
ws_is_valid (closed session_id) = true
ws_is_valid (leave session_id join_index) = true
ws_is_valid (join_rejected session_id reason) = true
ws_is_valid (state_sync world) = true
ws_is_valid (block_destroyed x y) = true
ws_is_valid level_reset = true

unfoldable pub udp_is_valid : UdpMessage → Bool
unfolding input_is_valid probe_is_valid identity_is_valid claim_is_valid ack_is_valid
    reconnection_is_valid
udp_is_valid (input m) = input_is_valid m
udp_is_valid (snapshot number world) = true
udp_is_valid (probe session_id requester_ip) = probe_is_valid session_id requester_ip
udp_is_valid (identity session_id host_ip) = identity_is_valid session_id host_ip
udp_is_valid (udp_claim m) = claim_is_valid m
udp_is_valid (udp_ack m) = ack_is_valid m
udp_is_valid (udp_reconnection m) = reconnection_is_valid m
