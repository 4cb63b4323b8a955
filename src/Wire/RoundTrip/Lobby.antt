-- ===== src/Wire/RoundTrip/Lobby.antt =====
-- The lobby's messages come back from their dictionaries.
use mas_dsmb.Prelude.{
  ◌≡◌, ◌∷◌, pos, ℕ, suc, String, refl, ap, true, Option, none, some, List, [], map, arith, leb,
  length, ok, le→leb, length-le_of_distinct,
}
use mas_dsmb.Shared.Messages.{
  SessionCreate, SessionJoin, SessionRecreate, create_is_valid, join_is_valid, recreate_is_valid,
  rejoin_is_valid, is_port, max_players,
}
use mas_dsmb.Wire.Json.{FieldTypes, get, array, number, items_of}
use mas_dsmb.Wire.Messages.{is_filled, create, join, recreate}
use mas_dsmb.Wire.Schemas.{present, below_max_players, at_least_0}
use mas_dsmb.Wire.Schemas.Lobby.{
  session_create_schema, session_join_schema, session_recreate_schema, reserved_field, naturals,
  at_most_max,
}
use mas_dsmb.Wire.Encode.{encode_ws_message, natural_value}
use mas_dsmb.Wire.RoundTrip.Reading.{
  all_of, text_field-text, number_field-number, optional_number-index, numbers-items,
}

rejoin-all_of :
    (player_id : String) (index : Option ℕ)
    → rejoin_is_valid player_id index ≡ true
    → all_of below_max_players index ≡ true
unfolding below_max_players
rejoin-all_of player_id none h = refl
rejoin-all_of player_id (some n) h = ground arith

naturals-map : (l : List ℕ) → naturals (map pos l) ≡ ok l
unfolding naturals
naturals-map [] = refl
naturals-map (n ∷ l) = rw (naturals-map l) refl

map-natural_value : (l : List ℕ) → map natural_value l ≡ map number (map pos l)
map-natural_value [] = refl
map-natural_value (n ∷ l) = ap (λ rest. natural_value n ∷ rest) (map-natural_value l)

length-map_pos : (l : List ℕ) → length (map pos l) ≡ length l
length-map_pos [] = refl
length-map_pos (n ∷ l) = ap suc (length-map_pos l)

few :
    (m : SessionRecreate)
    → recreate_is_valid m ≡ true
    → leb (length m.reserved_join_indices) max_players ≡ true
unfolding recreate_is_valid
few m h =
    le→leb (length m.reserved_join_indices) max_players
      (length-le_of_distinct max_players m.reserved_join_indices (ground arith) (ground arith))

module _ (types : FieldTypes) where
  open types use {read_list-array}

  reserved_field-natural :
      (l : List ℕ)
      → leb (length l) max_players ≡ true
      → reserved_field types (some (array (items_of (map natural_value l)))) ≡ ok (map pos l)
  unfolding reserved_field present at_most_max
  reserved_field-natural l h = simp (
    map-natural_value l,
    read_list-array (items_of (map number (map pos l))),
    numbers-items types (map pos l),
    length-map_pos l,
    h,
  )

  pub session_create_schema-encode :
      (m : SessionCreate)
      → create_is_valid m ≡ true
      → session_create_schema types (encode_ws_message (create m)) ≡ ok m
  unfolding session_create_schema encode_ws_message get is_filled create_is_valid
  session_create_schema-encode m h = simp (
    text_field-text types "player_id" (encode_ws_message (create m)) refl (ground arith),
    text_field-text types "ip" (encode_ws_message (create m)) refl (ground arith),
    number_field-number types is_port "udp_port" (encode_ws_message (create m)) refl (ground arith),
  )

  pub session_join_schema-encode :
      (m : SessionJoin)
      → join_is_valid m ≡ true
      → session_join_schema types (encode_ws_message (join m)) ≡ ok m
  unfolding session_join_schema encode_ws_message get is_filled join_is_valid
  session_join_schema-encode m h = simp (
    text_field-text types "session_id" (encode_ws_message (join m)) refl (ground arith),
    text_field-text types "player_id" (encode_ws_message (join m)) refl (ground arith),
    text_field-text types "ip" (encode_ws_message (join m)) refl (ground arith),
    number_field-number types is_port "port" (encode_ws_message (join m)) refl (ground arith),
    optional_number-index types below_max_players m.rejoin_join_index
        (rejoin-all_of m.player_id m.rejoin_join_index (ground arith)),
  )

  pub session_recreate_schema-encode :
      (m : SessionRecreate)
      → recreate_is_valid m ≡ true
      → session_recreate_schema types (encode_ws_message (recreate m)) ≡ ok m
  unfolding session_recreate_schema encode_ws_message get is_filled recreate_is_valid
      below_max_players at_least_0
  session_recreate_schema-encode m h = simp (
    text_field-text types "session_id" (encode_ws_message (recreate m)) refl (ground arith),
    number_field-number types at_least_0 "next_join_index" (encode_ws_message (recreate m)) refl
        (refl),
    text_field-text types "host_ip" (encode_ws_message (recreate m)) refl (ground arith),
    number_field-number types is_port "host_udp_port" (encode_ws_message (recreate m)) refl
        (ground arith),
    number_field-number types below_max_players "host_join_index" (encode_ws_message (recreate m))
        refl (ground arith),
    reserved_field-natural m.reserved_join_indices (few m h),
    naturals-map m.reserved_join_indices,
  )
