-- ===== src/Wire/RoundTrip/Ws.antt =====
-- Over WebSockets.
use mas_dsmb.Prelude.{◌≡◌, ◌&&◌, refl, Bool, true, [], all, ok, >>=-eq-ok}
use mas_dsmb.Wire.Json.{FieldTypes, get}
use mas_dsmb.Wire.MessageType.{type_of-tag}
use mas_dsmb.Wire.Messages.{
  created_is_valid, start_is_valid, power_up_is_valid, gate_change_is_valid, player_is_valid,
  death_is_valid, WsMessage, ws_is_valid, is_filled, roster_is_valid, create, created, join, joined,
  recreate, closed, leave, join_rejected, roster_changed, start, state_sync, block_destroyed,
  power_up_collected, gate_state_changed, left, disconnected, death, level_reset, claim, ack,
  reconnection,
}
use mas_dsmb.Wire.Schemas.{at_least_0}
use mas_dsmb.Wire.Encode.{encode_ws_message}
use mas_dsmb.Wire.Decode.{tag_type, construct, read_typed, read_ws, decode_ws_message}
use mas_dsmb.Wire.RoundTrip.Reading.{text_field-text, number_field-number}
use mas_dsmb.Wire.RoundTrip.Lobby.{
  session_create_schema-encode, session_join_schema-encode, session_recreate_schema-encode,
}
use mas_dsmb.Wire.RoundTrip.Rosters.{entry_is_valid, roster_update_schema-roster}
use mas_dsmb.Wire.RoundTrip.Play.{
  new_host_claim_schema-encode, election_ack_schema-encode, reconnection_ack_schema-encode,
  two_texts-text, text_and_index-text, position_schema-position, any_dict-object,
}
use mas_dsmb.Wire.Schemas.Lobby.{roster_update_schema, add_entries}
use mas_dsmb.Wire.World.Data.{to_dict}
use mas_dsmb.Wire.RoundTrip.Worlds.{world_fits, decode_world_state-to_dict}
use mas_dsmb.Wire.RoundTrip.Tags.{ws_type, tag-encode}

-- What a schema demands of a message beyond the checks of its constructor: the texts of three
-- messages are not empty, and the entries of a roster are as their own constructor builds them. A world is one that the program builds.
abbrev pub ws_fits : WsMessage → Bool
ws_fits (closed session_id) = is_filled session_id
ws_fits (leave session_id join_index) = is_filled session_id
ws_fits (join_rejected session_id reason) = is_filled session_id && is_filled reason
ws_fits (roster_changed roster) = all entry_is_valid roster
ws_fits (state_sync world) = world_fits world
ws_fits _ = true

module _ (types : FieldTypes) where
  read_ws-encode :
      (m : WsMessage)
      → ws_is_valid m ≡ true
      → ws_fits m ≡ true
      → read_ws types (ws_type m) (encode_ws_message m) ≡ ok m
  unfolding read_ws encode_ws_message get ws_is_valid created_is_valid start_is_valid
      power_up_is_valid gate_change_is_valid player_is_valid death_is_valid at_least_0
      roster_is_valid
  read_ws-encode (create m) h f = rw (session_create_schema-encode types m h)
  read_ws-encode (created session_id join_index) h f = rw (
      text_and_index-text types "session_id" "join_index"
        (encode_ws_message (created session_id join_index)) {a = session_id} {n = join_index} refl
        refl h)
  read_ws-encode (join m) h f = rw (session_join_schema-encode types m h)
  read_ws-encode (joined join_index) h f = rw (
      number_field-number types at_least_0 "join_index" (encode_ws_message (joined join_index))
        {n = join_index} refl refl)
  read_ws-encode (recreate m) h f = rw (session_recreate_schema-encode types m h)
  read_ws-encode (closed session_id) h f = rw (
      text_field-text types "session_id" (encode_ws_message (closed session_id)) {s = session_id}
        refl f)
  read_ws-encode (leave session_id join_index) h f = rw (
      text_and_index-text types "session_id" "join_index"
        (encode_ws_message (leave session_id join_index)) {a = session_id} {n = join_index} refl
        refl f)
  read_ws-encode (join_rejected session_id reason) h f = rw (
      two_texts-text types "session_id" "reason"
        (encode_ws_message (join_rejected session_id reason)) {a = session_id} {b = reason} refl
        refl f)
  read_ws-encode (roster_changed roster) h f =
      let body = encode_ws_message (roster_changed roster) in
      let (entries, listed, built) =
        >>=-eq-ok (roster_update_schema types body) (λ found. add_entries found [])
          (roster_update_schema-roster types roster body f h refl) in
      simp (listed, built)
  read_ws-encode (power_up_collected powerup_id player_id) h f = rw (
      two_texts-text types "powerup_id" "player_id"
        (encode_ws_message (power_up_collected powerup_id player_id)) {a = powerup_id}
        {b = player_id} refl refl h)
  read_ws-encode (gate_state_changed gate_id new_state) h f = rw (
      two_texts-text types "gate_id" "new_state"
        (encode_ws_message (gate_state_changed gate_id new_state)) {a = gate_id} {b = new_state}
        refl refl h)
  read_ws-encode (death player_id enemy_id) h f = rw (
      two_texts-text types "player_id" "enemy_id" (encode_ws_message (death player_id enemy_id))
        {a = player_id} {b = enemy_id} refl refl h)
  read_ws-encode (start session_id) h f = rw (
      text_field-text types "session_id" (encode_ws_message (start session_id)) {s = session_id}
        refl h)
  read_ws-encode (left player_id) h f = rw (
      text_field-text types "player_id" (encode_ws_message (left player_id)) {s = player_id} refl h)
  read_ws-encode (disconnected player_id) h f = rw (
      text_field-text types "player_id" (encode_ws_message (disconnected player_id)) {s = player_id}
        refl h)
  read_ws-encode (state_sync world) h f = simp (
    any_dict-object types "world_state" (encode_ws_message (state_sync world))
        {inner = to_dict world} refl,
    decode_world_state-to_dict types world f,
  )
  read_ws-encode (block_destroyed x y) h f = rw (
      position_schema-position types (encode_ws_message (block_destroyed x y)) {x = x} {y = y} refl)
  read_ws-encode level_reset h f = refl
  read_ws-encode (claim m) h f = rw (new_host_claim_schema-encode types m h)
  read_ws-encode (ack m) h f = rw (election_ack_schema-encode types m h)
  read_ws-encode (reconnection m) h f = rw (reconnection_ack_schema-encode types m h)

  -- A WebSocket message that its constructor accepts, and whose texts, roster entries and world are
  -- as the schemas demand and the program builds them, is decoded from the dictionary that it is encoded to as the same message.
  pub decode_ws_message-encode :
      (m : WsMessage)
      → ws_is_valid m ≡ true
      → ws_fits m ≡ true
      → decode_ws_message types (encode_ws_message m) ≡ ok m
  unfolding decode_ws_message tag_type read_typed construct
  decode_ws_message-encode m h f =
      simp (tag-encode m, type_of-tag (ws_type m), read_ws-encode m h f, h)
