-- ===== src/Wire/World/Rebuild.antt =====
-- `_decode_world_state` of network/serializer.py and `WorldState.from_dict` of domain/world.py, with
-- the errors of the language that a dictionary of another shape raises.
use mas_dsmb.Prelude.{◌∷◌, String, false, List, [], length, ok, err, ◌>>=◌}
use mas_dsmb.Wire.Json.{
  Value, Fields, Items, FieldTypes, get, no_items, item, null, flag, array, object, no_fields,
  field,
}
use mas_dsmb.Wire.World.Data.{EnvironmentData, WorldData}
use mas_dsmb.Wire.World.Entities.{
  or_default, whole, player_from, block_from, power_up_from, gate_from, enemy_from, iterate,
  item_at,
}
use mas_dsmb.Wire.Schemas.{Read, attribute_error}

-- A method of dictionaries, of a value that may be none.
unfoldable pub dictionary : Value → Read Fields
dictionary (object body) = ok body
dictionary _ = err attribute_error

unfoldable pub read_items : {A : Type 0} → (Value → Read A) → Items → Read (List A)
read_items read no_items = ok []
read_items read (item v rest) = do a ← read v; more ← read_items read rest; ok (a ∷ more)

unfoldable pub read_entries : {A : Type 0} → (Value → Read A) → Fields → Read (List (String × A))
read_entries read no_fields = ok []
read_entries read (field key v rest) = do
  a ← read v
  more ← read_entries read rest
  ok ((key, a) ∷ more)

-- `{k: Class(**v) for k, v in value.items()}`
unfoldable pub read_dictionary : {A : Type 0} → (Value → Read A) → Value → Read (List (String × A))
unfolding dictionary read_entries
read_dictionary read v = do body ← dictionary v; read_entries read body

module _ (types : FieldTypes) where
  -- The environment with its defaults, as `_decode_world_state` normalizes it.
  unfoldable pub environment_from : Fields → Read EnvironmentData
  unfolding or_default iterate read_items read_dictionary
  environment_from body = do
    sent ← iterate (or_default (array no_items) (get "destructible_blocks" body))
    destructible_blocks ← read_items block_from sent
    power_ups ← read_dictionary power_up_from (or_default (object no_fields) (get "power_ups" body))
    cooperative_gates ←
        read_dictionary gate_from (or_default (object no_fields) (get "cooperative_gates" body))
    enemies ←
        read_dictionary (enemy_from types) (or_default (object no_fields) (get "enemies" body))
    ok (record {
      destructible_blocks = destructible_blocks;
      power_ups = power_ups;
      enemies = enemies;
      cooperative_gates = cooperative_gates;
    })

  unfoldable pub decode_world_state : Fields → Read WorldData
  unfolding or_default dictionary item_at read_dictionary environment_from
  decode_world_state body = do
    around ← dictionary (or_default (object no_fields) (get "environment" body))
    sent ← item_at "characters" body
    characters ← read_dictionary player_from sent
    environment ← environment_from around
    sequence_number ← item_at "sequence_number" body
    ok (record {
      sequence_number = sequence_number;
      characters = characters;
      environment = environment;
      coins_collected = or_default (whole 0) (get "coins_collected" body);
      coins_to_win = or_default (whole 5) (get "coins_to_win" body);
      blocks_destroyed = or_default (whole 0) (get "blocks_destroyed" body);
      blocks_to_win = or_default (whole 0) (get "blocks_to_win" body);
      enemies_defeated = or_default (whole 0) (get "enemies_defeated" body);
      enemies_to_win = or_default (whole 0) (get "enemies_to_win" body);
      initial_enemy_count =
          or_default (whole (length environment.enemies)) (get "initial_enemy_count" body);
      victory = or_default (flag false) (get "victory" body);
      victory_player_id = or_default null (get "victory_player_id" body);
      respawn_timers = or_default (object no_fields) (get "respawn_timers" body);
    })
