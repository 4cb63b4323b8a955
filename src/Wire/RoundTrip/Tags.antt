-- ===== src/Wire/RoundTrip/Tags.antt =====
-- The tag that each message carries.
use mas_dsmb.Prelude.{◌≡◌, refl, some}
use mas_dsmb.Wire.Json.{get, text}
use mas_dsmb.Wire.MessageType.{MessageType, tag}
use mas_dsmb.Wire.Messages.{
  WsMessage, UdpMessage, create, created, join, joined, recreate, closed, leave, join_rejected,
  roster_changed, start, state_sync, block_destroyed, power_up_collected, gate_state_changed, left,
  disconnected, death, level_reset, claim, ack, reconnection, input, snapshot, probe, identity,
  udp_claim, udp_ack, udp_reconnection,
}
use mas_dsmb.Wire.Encode.{
  encode_ws_message, udp_fields, claim_fields, ack_fields, reconnection_fields,
}

-- The tag that the message carries.
abbrev pub ws_type : WsMessage → MessageType
ws_type (create m) = MessageType.session_create
ws_type (created session_id join_index) = MessageType.session_created
ws_type (join m) = MessageType.session_join
ws_type (joined join_index) = MessageType.session_joined
ws_type (recreate m) = MessageType.session_recreate
ws_type (closed session_id) = MessageType.session_closed
ws_type (leave session_id join_index) = MessageType.session_leave
ws_type (join_rejected session_id reason) = MessageType.session_join_rejected
ws_type (roster_changed roster) = MessageType.roster_update
ws_type (start session_id) = MessageType.game_start
ws_type (state_sync world) = MessageType.initial_state_sync
ws_type (block_destroyed x y) = MessageType.block_destroyed_message
ws_type (power_up_collected powerup_id player_id) = MessageType.powerup_collected_message
ws_type (gate_state_changed gate_id new_state) = MessageType.gate_state_changed_message
ws_type (left player_id) = MessageType.player_left
ws_type (disconnected player_id) = MessageType.player_disconnected
ws_type (death player_id enemy_id) = MessageType.player_death_message
ws_type level_reset = MessageType.level_reset_message
ws_type (claim m) = MessageType.new_host_claim
ws_type (ack m) = MessageType.election_ack
ws_type (reconnection m) = MessageType.reconnection_ack

abbrev pub udp_type : UdpMessage → MessageType
udp_type (input m) = MessageType.player_input
udp_type (snapshot number world) = MessageType.world_state
udp_type (probe session_id requester_ip) = MessageType.host_discovery_probe
udp_type (identity session_id host_ip) = MessageType.host_identity_response
udp_type (udp_claim m) = MessageType.new_host_claim
udp_type (udp_ack m) = MessageType.election_ack
udp_type (udp_reconnection m) = MessageType.reconnection_ack

pub tag-encode :
    (m : WsMessage) → get "message_type" (encode_ws_message m) ≡ some (text (tag (ws_type m)))
unfolding encode_ws_message get claim_fields ack_fields reconnection_fields tag
tag-encode (create _) = refl
tag-encode (created _ _) = refl
tag-encode (join _) = refl
tag-encode (joined _) = refl
tag-encode (recreate _) = refl
tag-encode (closed _) = refl
tag-encode (leave _ _) = refl
tag-encode (join_rejected _ _) = refl
tag-encode (roster_changed _) = refl
tag-encode (start _) = refl
tag-encode (state_sync _) = refl
tag-encode (block_destroyed _ _) = refl
tag-encode (power_up_collected _ _) = refl
tag-encode (gate_state_changed _ _) = refl
tag-encode (left _) = refl
tag-encode (disconnected _) = refl
tag-encode (death _ _) = refl
tag-encode level_reset = refl
tag-encode (claim _) = refl
tag-encode (ack _) = refl
tag-encode (reconnection _) = refl

pub tag-udp : (m : UdpMessage) → get "message_type" (udp_fields m) ≡ some (text (tag (udp_type m)))
unfolding udp_fields get claim_fields ack_fields reconnection_fields tag
tag-udp (input _) = refl
tag-udp (snapshot _ _) = refl
tag-udp (probe _ _) = refl
tag-udp (identity _ _) = refl
tag-udp (udp_claim _) = refl
tag-udp (udp_ack _) = refl
tag-udp (udp_reconnection _) = refl
