-- ===== src/Wire/Schemas/Play.antt =====
-- The schemas of play, of the election and of recovery:
-- src/distributed_smb/shared/messages/schemas.py.
use mas_dsmb.Prelude.{
  ◌>>=◌, ◌∷◌, ◌==◌, if◌then◌else◌, ℤ, pos, negsuc, ℕ, String, Bool, true, false, not, Option, none,
  some, List, [], ok, err, nat_Eq, text_Eq, ◌>>=◌,
}
use mas_dsmb.Shared.Messages.{is_port}
use mas_dsmb.Domain.World.{InputState}
use mas_dsmb.Hosting.{idle_input}
use mas_dsmb.Wire.Json.{
  Value, Fields, FieldTypes, get, null, flag, number, real, text, array, object, no_items,
  no_fields, field,
}
use mas_dsmb.Wire.Messages.{NewHostClaim, ElectionAck, ReconnectionAck, PlayerInputPacket}
use mas_dsmb.Wire.Schemas.{
  Read, deserialization_error, type_error, at_least_0, text_field, number_field, int_field,
  list_field, dict_field, numbers, present,
}

-- `InputState(**fields)`: an unknown key is a TypeError.
unfoldable pub set_flag : String → Bool → InputState → Read InputState
set_flag key b input =
    if key == "left"
    then ok (record input { left = b })
    else if key == "right"
    then ok (record input { right = b })
    else if key == "jump"
    then ok (record input { jump = b })
    else if key == "down"
    then ok (record input { down = b })
    else err type_error

unfoldable pub two : List ℤ → Read (ℤ × ℤ)
two (x ∷ y ∷ []) = ok (x, y)
two _ = err deserialization_error

module _ (types : FieldTypes) where
  open types use {read_dict, is_zero}

  -- The program tests the flags of an input for their truth only.
  unfoldable pub is_true : Value → Bool
  is_true null = false
  is_true (flag b) = b
  is_true (number (pos n)) = not (n == 0)
  is_true (number (negsuc n)) = true
  is_true (real literal) = not (is_zero literal)
  is_true (text s) = not (s == "")
  is_true (array no_items) = false
  is_true (array _) = true
  is_true (object no_fields) = false
  is_true (object _) = true

  unfoldable pub input_state_of : Fields → InputState → Read InputState
  unfolding set_flag is_true
  input_state_of no_fields input = ok input
  input_state_of (field key v rest) input =
      set_flag key (is_true v) input >>= (λ next. input_state_of rest next)

  -- An absent `input_state` is an empty dictionary.
  unfoldable pub input_field : Option Value → Read Fields
  unfolding present
  input_field none = ok no_fields
  input_field (some v) = present (read_dict v)

  unfoldable pub player_input_schema : Fields → Read PlayerInputPacket
  player_input_schema body = do
    player_id ← text_field types "player_id" body
    sequence_number ← int_field types "sequence_number" body
    flags ← input_field (get "input_state" body)
    input_state ← input_state_of flags idle_input
    ok (record {
      player_id = player_id;
      sequence_number = sequence_number;
      input_state = input_state;
    })

  -- `dict`
  unfoldable pub any_dict : String → Fields → Read Fields
  any_dict key body = dict_field types (λ d. ok d) key body

  -- `list[int]` of two numbers
  unfoldable pub position_schema : Fields → Read (ℤ × ℤ)
  unfolding two
  position_schema body = list_field types (λ items. numbers types items >>= two) "position" body

  unfoldable pub new_host_claim_schema : Fields → Read NewHostClaim
  new_host_claim_schema body = do
    claimer_ip ← text_field types "claimer_ip" body
    claimer_join_index ← number_field types at_least_0 "claimer_join_index" body
    session_id ← text_field types "session_id" body
    ok (record {
      claimer_ip = claimer_ip;
      claimer_join_index = claimer_join_index;
      session_id = session_id;
    })

  unfoldable pub election_ack_schema : Fields → Read ElectionAck
  election_ack_schema body = do
    from_ip ← text_field types "from_ip" body
    session_id ← text_field types "session_id" body
    ok (record { from_ip = from_ip; session_id = session_id })

  unfoldable pub reconnection_ack_schema : Fields → Read ReconnectionAck
  reconnection_ack_schema body = do
    new_host_ip ← text_field types "new_host_ip" body
    udp_port ← number_field types is_port "udp_port" body
    game_events_port ← number_field types is_port "game_events_port" body
    session_id ← text_field types "session_id" body
    ok (record {
      new_host_ip = new_host_ip;
      udp_port = udp_port;
      game_events_port = game_events_port;
      session_id = session_id;
    })

  -- A schema of two texts.
  unfoldable pub two_texts : String → String → Fields → Read (String × String)
  two_texts first second body = do
    a ← text_field types first body
    b ← text_field types second body
    ok (a, b)

  -- A schema of a text and an index.
  unfoldable pub text_and_index : String → String → Fields → Read (String × ℕ)
  text_and_index first second body = do
    a ← text_field types first body
    n ← number_field types at_least_0 second body
    ok (a, n)
