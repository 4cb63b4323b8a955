-- ===== src/Wire/RoundTrip/Worlds.antt =====
-- A world state comes back from its dictionary.
use mas_dsmb.Prelude.{
  ◌≡◌, ◌&&◌, ◌∷◌, String, refl, Bool, true, false, not, List, [], map, arith, ok,
}
use mas_dsmb.Wire.Json.{
  Value, FieldTypes, get, items_of, null, flag, number, real, text, array, object,
}
use mas_dsmb.Wire.Schemas.{Read}
use mas_dsmb.Wire.World.Data.{
  EnemyType, koopa, goomba, PlayerData, BlockData, PowerUpData, GateData, EnemyData, WorldData,
  fields_of, player_value, block_value, power_up_value, gate_value, enemy_value, dict_value,
  environment_value, to_dict, enemy_type_text,
}
use mas_dsmb.Wire.World.Entities.{
  are_known, arguments, given, or_default, player_from, block_from, power_up_from, gate_from,
  enemy_from, iterate, are_hashable, set_from, item_at, mapping, enemy_type_of, enemy_type_from,
  speed_from,
}
use mas_dsmb.Wire.World.Rebuild.{
  dictionary, read_items, read_entries, read_dictionary, environment_from, decode_world_state,
}

abbrev pub is_null : Value → Bool
is_null null = true
is_null _ = false

-- An enemy has its speed once it is constructed.
abbrev pub enemy_fits : EnemyData → Bool
enemy_fits e = not (is_null e.movement_speed)

-- The members of a set are hashable.
abbrev pub gate_fits : GateData → Bool
gate_fits g = are_hashable g.contributions

abbrev pub all_fit : {A : Type 0} → (A → Bool) → List (String × A) → Bool
all_fit fits [] = true
all_fit fits ((key, a) ∷ rest) = fits a && all_fit fits rest

-- What every world of the program satisfies.
abbrev pub world_fits : WorldData → Bool
world_fits w =
    all_fit enemy_fits w.environment.enemies && all_fit gate_fits w.environment.cooperative_gates

player_from-value : (p : PlayerData) → player_from (player_value p) ≡ ok p
unfolding player_from player_value fields_of arguments are_known given or_default get
player_from-value p = refl

block_from-value : (b : BlockData) → block_from (block_value b) ≡ ok b
unfolding block_from block_value fields_of arguments are_known given or_default get
block_from-value b = refl

power_up_from-value : (u : PowerUpData) → power_up_from (power_up_value u) ≡ ok u
unfolding power_up_from power_up_value fields_of arguments are_known given or_default get
power_up_from-value u = refl

gate_from-value : (g : GateData) → gate_fits g ≡ true → gate_from (gate_value g) ≡ ok g
unfolding gate_from gate_value fields_of arguments are_known given or_default get mapping item_at
    set_from iterate
gate_from-value g h = rw h refl

enemy_type_from-text : (t : EnemyType) → enemy_type_from (text (enemy_type_text t)) ≡ ok t
unfolding enemy_type_from enemy_type_of enemy_type_text
enemy_type_from-text koopa = refl
enemy_type_from-text goomba = refl

module _ (types : FieldTypes) where
  speed_from-speed : (vx v : Value) → not (is_null v) ≡ true → speed_from types vx v ≡ ok v
  unfolding speed_from
  speed_from-speed vx null h = absurd (ground arith)
  speed_from-speed vx (object _) h = refl
  speed_from-speed vx (array _) h = refl
  speed_from-speed vx (number _) h = refl
  speed_from-speed vx (text _) h = refl
  speed_from-speed vx (real _) h = refl
  speed_from-speed vx (flag _) h = refl

  enemy_from-value : (e : EnemyData) → enemy_fits e ≡ true → enemy_from types (enemy_value e) ≡ ok e
  unfolding enemy_from enemy_value fields_of arguments are_known given or_default get
  enemy_from-value e h =
      simp (enemy_type_from-text e.enemy_type, speed_from-speed e.vx e.movement_speed h)

  read_items-map :
      (blocks : List BlockData)
      → read_items block_from (items_of (map block_value blocks)) ≡ ok blocks
  unfolding read_items items_of
  read_items-map [] = refl
  read_items-map (b ∷ rest) = simp (block_from-value b, read_items-map rest)

  read_entries-dict :
      {A : Type 0} (fits : A → Bool) (read : Value → Read A) (value : A → Value)
      → ((a : A) → fits a ≡ true → read (value a) ≡ ok a)
      → (entries : List (String × A)) → all_fit fits entries ≡ true
      → read_dictionary read (object (dict_value value entries)) ≡ ok entries
  unfolding read_dictionary dictionary read_entries dict_value
  read_entries-dict fits read value back [] h = refl
  read_entries-dict fits read value back ((key, a) ∷ rest) h =
      simp (back a (ground arith), read_entries-dict fits read value back rest (ground arith))

  all_fit-true : {A : Type 0} (entries : List (String × A)) → all_fit (λ a. true) entries ≡ true
  all_fit-true [] = refl
  all_fit-true ((key, a) ∷ rest) = all_fit-true rest

  pub decode_world_state-to_dict :
      (w : WorldData) → world_fits w ≡ true → decode_world_state types (to_dict w) ≡ ok w
  unfolding decode_world_state to_dict fields_of or_default dictionary item_at get environment_from
      environment_value iterate
  decode_world_state-to_dict w h = simp (
    read_entries-dict (λ p. true) player_from player_value (λ p h. player_from-value p) w.characters
        (all_fit-true w.characters),
    read_items-map w.environment.destructible_blocks,
    read_entries-dict (λ u. true) power_up_from power_up_value (λ u h. power_up_from-value u)
        w.environment.power_ups (all_fit-true w.environment.power_ups),
    read_entries-dict gate_fits gate_from gate_value gate_from-value w.environment.cooperative_gates
        (ground arith),
    read_entries-dict enemy_fits (enemy_from types) enemy_value enemy_from-value
        w.environment.enemies (ground arith),
  )
