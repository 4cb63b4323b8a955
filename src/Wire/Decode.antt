-- ===== src/Wire/Decode.antt =====
-- The decoders of src/distributed_smb/network/serializer.py: the schema that the tag selects, then the
-- constructor of the message with its checks.
use mas_dsmb.Prelude.{◌>>=◌, if◌then◌else◌, Bool, Option, none, some, [], ok, err, ◌>>=◌}
use mas_dsmb.Wire.Json.{Value, Fields, FieldTypes, Encoding, get, text, object}
use mas_dsmb.Wire.World.Rebuild.{decode_world_state}
use mas_dsmb.Wire.MessageType.{MessageType, type_of}
use mas_dsmb.Wire.Messages.{
  WsMessage, UdpMessage, ws_is_valid, udp_is_valid, create, created, join, joined, recreate, closed,
  leave, join_rejected, roster_changed, start, state_sync, block_destroyed, power_up_collected,
  gate_state_changed, left, disconnected, death, level_reset, claim, ack, reconnection, input,
  snapshot, probe, identity, udp_claim, udp_ack, udp_reconnection,
}
use mas_dsmb.Wire.Schemas.{
  Read, deserialization_error, message_validation_error, value_error, attribute_error, text_field,
  int_field, number_field, at_least_0,
}
use mas_dsmb.Wire.Schemas.Lobby.{
  session_create_schema, session_join_schema, session_recreate_schema, roster_update_schema,
  add_entries,
}
use mas_dsmb.Wire.Schemas.Play.{
  player_input_schema, position_schema, any_dict, new_host_claim_schema, election_ack_schema,
  reconnection_ack_schema, two_texts, text_and_index,
}

-- The member that `data.get("message_type")` is equal to.
unfoldable pub tag_type : Option Value → Option MessageType
tag_type (some (text s)) = type_of s
tag_type _ = none

unfoldable pub construct : {A : Type 0} → (A → Bool) → A → Read A
construct is_valid m = if is_valid m then ok m else err message_validation_error

unfoldable pub read_typed :
    {A : Type 0} → (MessageType → Fields → Read A) → Option MessageType → Fields → Read A
read_typed read none body = err deserialization_error
read_typed read (some t) body = read t body

module _ (types : FieldTypes) where
  -- The fields of a message by its type, before the checks of its constructor.
  unfoldable pub read_ws : MessageType → Fields → Read WsMessage
  read_ws MessageType.session_create body = do m ← session_create_schema types body; ok (create m)
  read_ws MessageType.session_created body = do
    m ← text_and_index types "session_id" "join_index" body
    ok (created m.0 m.1)
  read_ws MessageType.session_join body = do m ← session_join_schema types body; ok (join m)
  read_ws MessageType.session_recreate body = do
    m ← session_recreate_schema types body
    ok (recreate m)
  read_ws MessageType.session_leave body = do
    m ← text_and_index types "session_id" "join_index" body
    ok (leave m.0 m.1)
  read_ws MessageType.session_closed body = do
    session_id ← text_field types "session_id" body
    ok (closed session_id)
  read_ws MessageType.session_join_rejected body = do
    m ← two_texts types "session_id" "reason" body
    ok (join_rejected m.0 m.1)
  read_ws MessageType.session_joined body = do
    join_index ← number_field types at_least_0 "join_index" body
    ok (joined join_index)
  read_ws MessageType.roster_update body = do
    entries ← roster_update_schema types body
    roster ← add_entries entries []
    ok (roster_changed roster)
  read_ws MessageType.game_start body = do
    session_id ← text_field types "session_id" body
    ok (start session_id)
  read_ws MessageType.initial_state_sync body = do
    sent ← any_dict types "world_state" body
    world ← decode_world_state types sent
    ok (state_sync world)
  read_ws MessageType.block_destroyed_message body = do
    position ← position_schema types body
    ok (block_destroyed position.0 position.1)
  read_ws MessageType.powerup_collected_message body = do
    m ← two_texts types "powerup_id" "player_id" body
    ok (power_up_collected m.0 m.1)
  read_ws MessageType.player_death_message body = do
    m ← two_texts types "player_id" "enemy_id" body
    ok (death m.0 m.1)
  read_ws MessageType.gate_state_changed_message body = do
    m ← two_texts types "gate_id" "new_state" body
    ok (gate_state_changed m.0 m.1)
  read_ws MessageType.level_reset_message body = ok level_reset
  read_ws MessageType.player_left body = do
    player_id ← text_field types "player_id" body
    ok (left player_id)
  read_ws MessageType.player_disconnected body = do
    player_id ← text_field types "player_id" body
    ok (disconnected player_id)
  read_ws MessageType.new_host_claim body = do m ← new_host_claim_schema types body; ok (claim m)
  read_ws MessageType.election_ack body = do m ← election_ack_schema types body; ok (ack m)
  read_ws MessageType.reconnection_ack body = do
    m ← reconnection_ack_schema types body
    ok (reconnection m)
  read_ws _ body = err deserialization_error

  unfoldable pub decode_ws_message : Fields → Read WsMessage
  unfolding construct
  decode_ws_message body =
      read_typed read_ws (tag_type (get "message_type" body)) body >>= construct ws_is_valid

  unfoldable pub read_udp : MessageType → Fields → Read UdpMessage
  read_udp MessageType.player_input body = do m ← player_input_schema types body; ok (input m)
  read_udp MessageType.world_state body = do
    sequence_number ← int_field types "sequence_number" body
    sent ← any_dict types "world_state" body
    world ← decode_world_state types sent
    ok (snapshot sequence_number world)
  read_udp MessageType.host_discovery_probe body = do
    m ← two_texts types "session_id" "requester_ip" body
    ok (probe m.0 m.1)
  read_udp MessageType.host_identity_response body = do
    m ← two_texts types "session_id" "host_ip" body
    ok (identity m.0 m.1)
  read_udp MessageType.new_host_claim body = do
    m ← new_host_claim_schema types body
    ok (udp_claim m)
  read_udp MessageType.election_ack body = do m ← election_ack_schema types body; ok (udp_ack m)
  read_udp MessageType.reconnection_ack body = do
    m ← reconnection_ack_schema types body
    ok (udp_reconnection m)
  read_udp _ body = err deserialization_error

  -- A text that is no JSON raises a ValueError of the library; a value that is no dictionary has no
  -- `get`.
  unfoldable pub decode_value : Option Value → Read UdpMessage
  unfolding construct
  decode_value none = err value_error
  decode_value (some (object body)) =
      read_typed read_udp (tag_type (get "message_type" body)) body >>= construct udp_is_valid
  decode_value (some _) = err attribute_error

  unfoldable pub decode_message : (encoding : Encoding) → encoding.Datagram → Read UdpMessage
  unfolding decode_value
  decode_message encoding payload = decode_value (encoding.loads payload)
