-- ===== src/Tests/Wire.antt =====
-- Concrete messages on their way over the wire.
use mas_dsmb.Prelude.{
  ◌≡◌, ◌∷◌, ◌==◌, ℤ, pos, String, refl, Bool, true, false, Option, none, some, [], ok, err, nat_Eq,
  text_Eq,
}
use mas_dsmb.Shared.Roster.{GlobalRoster, connected, disconnected}
use mas_dsmb.Shared.Messages.{is_port}
use mas_dsmb.Wire.Json.{
  Value, Items, Fields, FieldTypes, Encoding, flag, number, real, null, text, array, object,
  no_fields, field, items_of, get,
}
use mas_dsmb.Wire.Messages.{
  ws_is_valid, udp_is_valid, is_filled, roster_is_valid, roster_changed, snapshot,
}
use mas_dsmb.Wire.Schemas.{key_error, value_error}
use mas_dsmb.Wire.World.Data.{goomba, EnemyData, GateData, WorldData}
use mas_dsmb.Wire.World.Entities.{
  are_hashable, is_hashable, or_default, item_at, enemy_from, arguments, are_known, given,
  enemy_type_from, enemy_type_of,
}
use mas_dsmb.Wire.World.Rebuild.{decode_world_state, dictionary}
use mas_dsmb.Wire.Encode.{encode_ws_message, encode_message}
use mas_dsmb.Wire.Decode.{decode_ws_message, decode_message}
use mas_dsmb.Wire.RoundTrip.Rosters.{entry_is_valid}
use mas_dsmb.Wire.RoundTrip.Ws.{decode_ws_message-encode}
use mas_dsmb.Wire.RoundTrip.Udp.{decode_message-encode}

abbrev integer : Value → Option ℤ
integer (number n) = some n
integer _ = none

abbrev string : Value → Option String
string (text s) = some s
string _ = none

abbrev boolean : Value → Option Bool
boolean (flag b) = some b
boolean _ = none

abbrev items : Value → Option Items
items (array xs) = some xs
items _ = none

abbrev own_dictionary : Value → Option Fields
own_dictionary (object d) = some d
own_dictionary _ = none

-- Fields that take their own type only.
abbrev strict : FieldTypes
strict = record {
  read_int = integer;
  read_str = string;
  read_bool = boolean;
  read_list = items;
  read_dict = own_dictionary;
  is_zero = λ literal. literal == "0.0";
  absolute_literal = λ literal. literal;
  read_int-number = λ n. refl;
  read_str-text = λ s. refl;
  read_bool-flag = λ b. refl;
  read_list-array = λ xs. refl;
  read_dict-object = λ d. refl;
}

-- Datagrams that are the values themselves.
abbrev plain : Encoding
plain = record { Datagram = Value; dumps = λ v. v; loads = some; loads-dumps = λ v. refl }

abbrev roster : GlobalRoster
roster =
    record {
      player_id = "player1";
      host = "10.0.0.1";
      udp_port = 50010;
      join_index = 0;
      status = connected;
      is_host = true;
    }
    ∷ record {
      player_id = "player3";
      host = "10.0.0.3";
      udp_port = 50012;
      join_index = 2;
      status = disconnected;
      is_host = false;
    }
    ∷ []

decode_ws_message-encode_example :
    decode_ws_message strict (encode_ws_message (roster_changed roster))
    ≡ ok (roster_changed roster)
unfolding ws_is_valid roster_is_valid entry_is_valid is_filled is_port
decode_ws_message-encode_example = decode_ws_message-encode strict (roster_changed roster) refl refl

abbrev walker : EnemyData
walker = record {
  enemy_id = text "goomba-1";
  x = real "120.5";
  y = number (pos 300);
  width = number (pos 51);
  height = number (pos 51);
  vx = real "-50.0";
  left_bound = number (pos 0);
  right_bound = number (pos 400);
  movement_speed = real "50.0";
  enemy_type = goomba;
}

abbrev gate : GateData
gate = record {
  x = number (pos 900);
  y = number (pos 100);
  gate_id = text "g";
  width = number (pos 32);
  height = number (pos 32);
  state = text "closed";
  contributions = items_of (text "player1" ∷ []);
  coins_required = number (pos 3);
  blocks_required = number (pos 0);
  enemies_required = number (pos 1);
  is_final = flag true;
}

abbrev sent : WorldData
sent = record {
  sequence_number = number (pos 41);
  characters = [];
  environment = record {
    destructible_blocks = [];
    power_ups = [];
    enemies = ("goomba-1", walker) ∷ [];
    cooperative_gates = ("g", gate) ∷ [];
  };
  coins_collected = number (pos 0);
  coins_to_win = number (pos 5);
  blocks_destroyed = number (pos 0);
  blocks_to_win = number (pos 0);
  enemies_defeated = number (pos 0);
  enemies_to_win = number (pos 0);
  initial_enemy_count = number (pos 1);
  victory = flag false;
  victory_player_id = null;
  respawn_timers = object no_fields;
}

decode_message-encode_example :
    decode_message strict plain (encode_message plain (snapshot (pos 41) sent))
    ≡ ok (snapshot (pos 41) sent)
unfolding udp_is_valid items_of are_hashable is_hashable
decode_message-encode_example =
    decode_message-encode strict plain (snapshot (pos 41) sent) refl refl

-- A world without its characters is a KeyError, and an enemy of no known type a ValueError.
headless : decode_world_state strict no_fields ≡ err key_error
unfolding decode_world_state or_default dictionary item_at get
headless = refl

stranger :
    enemy_from strict (
      object (
        field "enemy_id" (text "e") (
          field "x"
            (number (pos 0))
            (field "y" (number (pos 0)) (field "enemy_type" (text "bat") no_fields)))))
    ≡ err value_error
unfolding enemy_from arguments are_known given or_default enemy_type_from enemy_type_of get
stranger = refl
