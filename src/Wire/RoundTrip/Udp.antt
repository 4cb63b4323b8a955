-- ===== src/Wire/RoundTrip/Udp.antt =====
-- Over UDP.
use mas_dsmb.Wire.MessageType.{type_of-tag}
use mas_dsmb.Wire.World.Data.{to_dict}
use mas_dsmb.Wire.RoundTrip.Worlds.{world_fits, decode_world_state-to_dict}
use mas_dsmb.Prelude.{◌≡◌, refl, Bool, true, ok}
use mas_dsmb.Wire.Json.{FieldTypes, get, Encoding, object}
use mas_dsmb.Wire.Messages.{
  input_is_valid, probe_is_valid, identity_is_valid, UdpMessage, udp_is_valid, input, snapshot,
  probe, identity, udp_claim, udp_ack, udp_reconnection,
}
use mas_dsmb.Wire.Encode.{udp_fields, encode_message}
use mas_dsmb.Wire.Decode.{read_udp, decode_message, decode_value, tag_type, read_typed, construct}
use mas_dsmb.Wire.RoundTrip.Reading.{int_field-number}
use mas_dsmb.Wire.RoundTrip.Play.{
  new_host_claim_schema-encode, election_ack_schema-encode, reconnection_ack_schema-encode,
  player_input_schema-encode, two_texts-text, any_dict-object,
}
use mas_dsmb.Wire.RoundTrip.Tags.{udp_type, tag-udp}

-- The world of a snapshot is one that the program builds.
abbrev pub udp_fits : UdpMessage → Bool
udp_fits (snapshot number world) = world_fits world
udp_fits _ = true

module _ (types : FieldTypes) where
  read_udp-encode :
      (m : UdpMessage)
      → udp_is_valid m ≡ true
      → udp_fits m ≡ true
      → read_udp types (udp_type m) (udp_fields m) ≡ ok m
  unfolding read_udp udp_fields get udp_is_valid input_is_valid probe_is_valid identity_is_valid
  read_udp-encode (input m) h f = rw (player_input_schema-encode types m h)
  read_udp-encode (snapshot number world) h f = simp (
    int_field-number types "sequence_number" (udp_fields (snapshot number world)) {n = number} refl,
    any_dict-object types "world_state" (udp_fields (snapshot number world)) {inner = to_dict world}
        refl,
    decode_world_state-to_dict types world f,
  )
  read_udp-encode (probe session_id requester_ip) h f = rw (
      two_texts-text types "session_id" "requester_ip" (udp_fields (probe session_id requester_ip))
        {a = session_id} {b = requester_ip} refl refl h)
  read_udp-encode (identity session_id host_ip) h f = rw (
      two_texts-text types "session_id" "host_ip" (udp_fields (identity session_id host_ip))
        {a = session_id} {b = host_ip} refl refl h)
  read_udp-encode (udp_claim m) h f = rw (new_host_claim_schema-encode types m h)
  read_udp-encode (udp_ack m) h f = rw (election_ack_schema-encode types m h)
  read_udp-encode (udp_reconnection m) h f = rw (reconnection_ack_schema-encode types m h)

  -- A datagram that its message's constructor accepts, and whose world is one that the program builds,
  -- is decoded as the same message from the text
  -- that it is encoded to, if the library of JSON reads what it wrote.
  pub decode_message-encode :
      (encoding : Encoding) (m : UdpMessage)
      → udp_is_valid m ≡ true
      → udp_fits m ≡ true
      → decode_message types encoding (encode_message encoding m) ≡ ok m
  unfolding decode_message encode_message decode_value tag_type read_typed construct
  decode_message-encode encoding m h f = simp (
    encoding.loads-dumps (object (udp_fields m)),
    tag-udp m,
    type_of-tag (udp_type m),
    read_udp-encode m h f,
    h,
  )
