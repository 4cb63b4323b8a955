-- ===== src/Wire/RoundTrip/Play.antt =====
-- The messages of play, of the election and of recovery come back from their dictionaries.
use mas_dsmb.Prelude.{◌>>=◌, ◌≡◌, ◌&&◌, ◌∷◌, ℤ, ℕ, String, refl, true, some, [], map, arith, ok}
use mas_dsmb.Shared.Messages.{is_port}
use mas_dsmb.Domain.World.{InputState}
use mas_dsmb.Hosting.{idle_input}
use mas_dsmb.Wire.Json.{Fields, FieldTypes, get, array, number, items_of, object, text}
use mas_dsmb.Wire.Messages.{
  is_filled, NewHostClaim, ElectionAck, ReconnectionAck, PlayerInputPacket, claim_is_valid,
  ack_is_valid, reconnection_is_valid, input,
}
use mas_dsmb.Wire.Schemas.{numbers, present, at_least_0}
use mas_dsmb.Wire.Schemas.Play.{
  new_host_claim_schema, election_ack_schema, reconnection_ack_schema, player_input_schema,
  two_texts, text_and_index, position_schema, two, any_dict, input_field, input_state_of, set_flag,
  is_true,
}
use mas_dsmb.Wire.Encode.{
  claim_fields, ack_fields, reconnection_fields, udp_fields, input_fields, input_value,
  natural_value,
}
use mas_dsmb.Wire.RoundTrip.Reading.{
  text_field-text, number_field-number, int_field-number, list_field-array, dict_field-object,
  numbers-items,
}

module _ (types : FieldTypes) where
  open types use {read_dict-object}

  pub new_host_claim_schema-encode :
      (m : NewHostClaim)
      → claim_is_valid m ≡ true
      → new_host_claim_schema types (claim_fields m) ≡ ok m
  unfolding new_host_claim_schema claim_fields get is_filled claim_is_valid at_least_0
  new_host_claim_schema-encode m h = simp (
    text_field-text types "claimer_ip" (claim_fields m) refl (ground arith),
    number_field-number types at_least_0 "claimer_join_index" (claim_fields m) refl (refl),
    text_field-text types "session_id" (claim_fields m) refl (ground arith),
  )

  pub election_ack_schema-encode :
      (m : ElectionAck) → ack_is_valid m ≡ true → election_ack_schema types (ack_fields m) ≡ ok m
  unfolding election_ack_schema ack_fields get is_filled ack_is_valid
  election_ack_schema-encode m h = simp (
    text_field-text types "from_ip" (ack_fields m) refl (ground arith),
    text_field-text types "session_id" (ack_fields m) refl (ground arith),
  )

  pub reconnection_ack_schema-encode :
      (m : ReconnectionAck)
      → reconnection_is_valid m ≡ true
      → reconnection_ack_schema types (reconnection_fields m) ≡ ok m
  unfolding reconnection_ack_schema reconnection_fields get is_filled reconnection_is_valid
  reconnection_ack_schema-encode m h = simp (
    text_field-text types "new_host_ip" (reconnection_fields m) refl (ground arith),
    number_field-number types is_port "udp_port" (reconnection_fields m) refl (ground arith),
    number_field-number types is_port "game_events_port" (reconnection_fields m) refl
        (ground arith),
    text_field-text types "session_id" (reconnection_fields m) refl (ground arith),
  )

  input_field-input :
      (i : InputState) → input_field types (some (input_value i)) ≡ ok (input_fields i)
  unfolding input_field present
  input_field-input i = rw (read_dict-object (input_fields i)) refl

  input_state_of-input : (i : InputState) → input_state_of types (input_fields i) idle_input ≡ ok i
  unfolding input_state_of input_fields set_flag is_true
  input_state_of-input i = refl

  pub player_input_schema-encode :
      (m : PlayerInputPacket)
      → is_filled m.player_id ≡ true
      → player_input_schema types (udp_fields (input m)) ≡ ok m
  unfolding player_input_schema udp_fields get
  player_input_schema-encode m h = simp (
    text_field-text types "player_id" (udp_fields (input m)) refl h,
    int_field-number types "sequence_number" (udp_fields (input m)) refl,
    input_field-input m.input_state,
    input_state_of-input m.input_state,
  )

  pub two_texts-text :
      (first second : String) (body : Fields) {a b : String}
      → get first body ≡ some (text a)
      → get second body ≡ some (text b)
      → (is_filled a && is_filled b) ≡ true
      → two_texts types first second body ≡ ok (a, b)
  unfolding two_texts
  two_texts-text first second body at_first at_second h = simp (
    text_field-text types first body at_first (ground arith),
    text_field-text types second body at_second (ground arith),
  )

  pub text_and_index-text :
      (first second : String) (body : Fields) {a : String} {n : ℕ}
      → get first body ≡ some (text a)
      → get second body ≡ some (natural_value n)
      → is_filled a ≡ true
      → text_and_index types first second body ≡ ok (a, n)
  unfolding text_and_index at_least_0
  text_and_index-text first second body at_first at_second h = simp (
    text_field-text types first body at_first h,
    number_field-number types at_least_0 second body at_second refl,
  )

  pub position_schema-position :
      (body : Fields) {x y : ℤ}
      → get "position" body ≡ some (array (items_of (map number (x ∷ y ∷ []))))
      → position_schema types body ≡ ok (x, y)
  unfolding position_schema two
  position_schema-position body {x} {y} found = simp (
    list_field-array types (λ items. numbers types items >>= two) "position" body found,
    numbers-items types (x ∷ y ∷ []),
  )

  pub any_dict-object :
      (key : String) (body : Fields) {inner : Fields}
      → get key body ≡ some (object inner)
      → any_dict types key body ≡ ok inner
  unfolding any_dict
  any_dict-object key body found = dict_field-object types (λ d. ok d) key body found
