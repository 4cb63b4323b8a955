-- ===== src/Wire/Encode.antt =====
-- The encoders of src/distributed_smb/network/serializer.py: the dictionary of a message's fields, as
-- `asdict` builds it, and for UDP its text.
use mas_dsmb.Prelude.{◌∷◌, pos, ℕ, String, Option, none, some, [], map}
use mas_dsmb.Shared.Roster.{RosterEntry, GlobalRoster, ConnectionStatus, connected, disconnected}
use mas_dsmb.Domain.World.{InputState}
use mas_dsmb.Wire.Json.{
  Value, Fields, Encoding, items_of, null, flag, number, text, array, object, no_fields, field,
}
use mas_dsmb.Wire.World.Data.{to_dict}
use mas_dsmb.Wire.MessageType.{MessageType, tag}
use mas_dsmb.Wire.Messages.{
  NewHostClaim, ElectionAck, ReconnectionAck, WsMessage, UdpMessage, create, created, join, joined,
  recreate, closed, leave, join_rejected, roster_changed, start, state_sync, block_destroyed,
  power_up_collected, gate_state_changed, left, disconnected as gone, death, level_reset, claim,
  ack, reconnection, input, snapshot, probe, identity, udp_claim, udp_ack, udp_reconnection,
}

-- The last field of every message.
abbrev pub tagged : MessageType → Fields
tagged t = field "message_type" (text (tag t)) no_fields

abbrev pub natural_value : ℕ → Value
natural_value n = number (pos n)

unfoldable pub index_value : Option ℕ → Value
index_value none = null
index_value (some n) = natural_value n

unfoldable pub status_text : ConnectionStatus → String
status_text connected = "connected"
status_text disconnected = "disconnected"

unfoldable pub entry_fields : RosterEntry → Fields
unfolding status_text
entry_fields e =
    (field "player_id" (text e.player_id) (
      field "host" (text e.host) (
        field "udp_port" (natural_value e.udp_port) (
          field "join_index" (natural_value e.join_index) (
            field "status" (text (status_text e.status))
              (field "is_host" (flag e.is_host) no_fields))))))

abbrev pub entry_value : RosterEntry → Value
entry_value e = object (entry_fields e)

unfoldable pub roster_value : GlobalRoster → Value
unfolding entry_fields
roster_value players =
    object (field "players" (array (items_of (map entry_value players))) no_fields)

unfoldable pub input_fields : InputState → Fields
input_fields i =
    (field "left" (flag i.left) (
      field "right" (flag i.right)
        (field "jump" (flag i.jump) (field "down" (flag i.down) no_fields))))

abbrev pub input_value : InputState → Value
input_value i = object (input_fields i)

unfoldable pub claim_fields : NewHostClaim → Fields
claim_fields m = field "claimer_ip" (text m.claimer_ip) (
    field "claimer_join_index" (natural_value m.claimer_join_index)
      (field "session_id" (text m.session_id) (tagged MessageType.new_host_claim)))

unfoldable pub ack_fields : ElectionAck → Fields
ack_fields m =
    field "from_ip" (text m.from_ip)
      (field "session_id" (text m.session_id) (tagged MessageType.election_ack))

unfoldable pub reconnection_fields : ReconnectionAck → Fields
reconnection_fields m = field "new_host_ip" (text m.new_host_ip) (
    field "udp_port" (natural_value m.udp_port) (
      field "game_events_port" (natural_value m.game_events_port)
        (field "session_id" (text m.session_id) (tagged MessageType.reconnection_ack))))

unfoldable pub encode_ws_message : WsMessage → Fields
unfolding index_value roster_value claim_fields ack_fields reconnection_fields
encode_ws_message (create m) = field "player_id" (text m.player_id) (
    field "ip" (text m.ip)
      (field "udp_port" (natural_value m.udp_port) (tagged MessageType.session_create)))
encode_ws_message (created session_id join_index) =
    field "session_id" (text session_id)
      (field "join_index" (natural_value join_index) (tagged MessageType.session_created))
encode_ws_message (join m) = field "session_id" (text m.session_id) (
    field "player_id" (text m.player_id) (
      field "ip" (text m.ip) (
        field "port" (natural_value m.port) (
          field "rejoin_join_index" (index_value m.rejoin_join_index)
            (tagged MessageType.session_join)))))
encode_ws_message (joined join_index) =
    field "join_index" (natural_value join_index) (tagged MessageType.session_joined)
encode_ws_message (recreate m) = field "session_id" (text m.session_id) (
    field "next_join_index" (natural_value m.next_join_index) (
      field "host_ip" (text m.host_ip) (
        field "host_udp_port" (natural_value m.host_udp_port) (
          field "host_join_index" (natural_value m.host_join_index) (
            field "reserved_join_indices"
              (array (items_of (map natural_value m.reserved_join_indices)))
              (tagged MessageType.session_recreate))))))
encode_ws_message (closed session_id) =
    field "session_id" (text session_id) (tagged MessageType.session_closed)
encode_ws_message (leave session_id join_index) =
    field "session_id" (text session_id)
      (field "join_index" (natural_value join_index) (tagged MessageType.session_leave))
encode_ws_message (join_rejected session_id reason) =
    field "session_id" (text session_id)
      (field "reason" (text reason) (tagged MessageType.session_join_rejected))
encode_ws_message (roster_changed roster) =
    field "roster" (roster_value roster) (tagged MessageType.roster_update)
encode_ws_message (start session_id) =
    field "session_id" (text session_id) (tagged MessageType.game_start)
encode_ws_message (state_sync world) =
    field "world_state" (object (to_dict world)) (tagged MessageType.initial_state_sync)
encode_ws_message (block_destroyed x y) =
    field "position" (array (items_of (number x ∷ number y ∷ [])))
      (tagged MessageType.block_destroyed_message)
encode_ws_message (power_up_collected powerup_id player_id) =
    field "powerup_id" (text powerup_id)
      (field "player_id" (text player_id) (tagged MessageType.powerup_collected_message))
encode_ws_message (gate_state_changed gate_id new_state) =
    field "gate_id" (text gate_id)
      (field "new_state" (text new_state) (tagged MessageType.gate_state_changed_message))
encode_ws_message (left player_id) =
    field "player_id" (text player_id) (tagged MessageType.player_left)
encode_ws_message (gone player_id) =
    field "player_id" (text player_id) (tagged MessageType.player_disconnected)
encode_ws_message (death player_id enemy_id) =
    field "player_id" (text player_id)
      (field "enemy_id" (text enemy_id) (tagged MessageType.player_death_message))
encode_ws_message level_reset = tagged MessageType.level_reset_message
encode_ws_message (claim m) = claim_fields m
encode_ws_message (ack m) = ack_fields m
encode_ws_message (reconnection m) = reconnection_fields m

unfoldable pub udp_fields : UdpMessage → Fields
unfolding input_fields claim_fields ack_fields reconnection_fields
udp_fields (input m) = field "player_id" (text m.player_id) (
    field "sequence_number" (number m.sequence_number)
      (field "input_state" (input_value m.input_state) (tagged MessageType.player_input)))
udp_fields (snapshot sequence_number world) =
    field "sequence_number" (number sequence_number)
      (field "world_state" (object (to_dict world)) (tagged MessageType.world_state))
udp_fields (probe session_id requester_ip) =
    field "session_id" (text session_id)
      (field "requester_ip" (text requester_ip) (tagged MessageType.host_discovery_probe))
udp_fields (identity session_id host_ip) =
    field "session_id" (text session_id)
      (field "host_ip" (text host_ip) (tagged MessageType.host_identity_response))
udp_fields (udp_claim m) = claim_fields m
udp_fields (udp_ack m) = ack_fields m
udp_fields (udp_reconnection m) = reconnection_fields m

unfoldable pub encode_message : (encoding : Encoding) → UdpMessage → encoding.Datagram
unfolding udp_fields
encode_message encoding m = encoding.dumps (object (udp_fields m))
