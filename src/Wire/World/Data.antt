-- ===== src/Wire/World/Data.antt =====
-- The world state as it is sent and rebuilt: domain/world.py with the constructors of domain/entity.py.
-- A constructor of a dataclass takes any value for a field, so that the fields are values of JSON; a
-- set of contributions is kept as the members that it is built of, whose order means nothing.
use mas_dsmb.Prelude.{◌∷◌, String, List, [], map}
use mas_dsmb.Wire.Json.{Value, Fields, Items, items_of, text, array, object, no_fields, field}

pub data EnemyType : Type 0 where
  koopa goomba : EnemyType

pub record PlayerData : Type 0 where
  pub player_id : Value
  pub x : Value
  pub y : Value
  pub vx : Value
  pub vy : Value
  pub width : Value
  pub height : Value
  pub on_ground : Value
  pub is_crouching : Value
  pub prev_x : Value
  pub prev_y : Value
  pub join_index : Value
  pub powerup_effect_expires_at : Value

pub record BlockData : Type 0 where
  pub x : Value
  pub y : Value
  pub width : Value
  pub height : Value
  pub destroyed : Value

pub record PowerUpData : Type 0 where
  pub x : Value
  pub y : Value
  pub powerup_id : Value
  pub width : Value
  pub height : Value
  pub collected : Value
  pub owner : Value

pub record GateData : Type 0 where
  pub x : Value
  pub y : Value
  pub gate_id : Value
  pub width : Value
  pub height : Value
  pub state : Value
  pub contributions : Items
  pub coins_required : Value
  pub blocks_required : Value
  pub enemies_required : Value
  pub is_final : Value

pub record EnemyData : Type 0 where
  pub enemy_id : Value
  pub x : Value
  pub y : Value
  pub width : Value
  pub height : Value
  pub vx : Value
  pub left_bound : Value
  pub right_bound : Value
  pub movement_speed : Value
  pub enemy_type : EnemyType

pub record EnvironmentData : Type 0 where
  pub destructible_blocks : List BlockData
  pub power_ups : List (String × PowerUpData)
  pub enemies : List (String × EnemyData)
  pub cooperative_gates : List (String × GateData)

pub record WorldData : Type 0 where
  pub sequence_number : Value
  pub characters : List (String × PlayerData)
  pub environment : EnvironmentData
  pub coins_collected : Value
  pub coins_to_win : Value
  pub blocks_destroyed : Value
  pub blocks_to_win : Value
  pub enemies_defeated : Value
  pub enemies_to_win : Value
  pub initial_enemy_count : Value
  pub victory : Value
  pub victory_player_id : Value
  pub respawn_timers : Value

unfoldable pub enemy_type_text : EnemyType → String
enemy_type_text koopa = "koopa"
enemy_type_text goomba = "goomba"

-- Fields in the order of a list.
unfoldable pub fields_of : List (String × Value) → Fields
fields_of [] = no_fields
fields_of ((key, v) ∷ rest) = field key v (fields_of rest)

unfoldable pub player_value : PlayerData → Value
unfolding fields_of
player_value p = object (
    fields_of (
      ("player_id", p.player_id)
      ∷ ("x", p.x)
      ∷ ("y", p.y)
      ∷ ("vx", p.vx)
      ∷ ("vy", p.vy)
      ∷ ("width", p.width)
      ∷ ("height", p.height)
      ∷ ("on_ground", p.on_ground)
      ∷ ("is_crouching", p.is_crouching)
      ∷ ("prev_x", p.prev_x)
      ∷ ("prev_y", p.prev_y)
      ∷ ("join_index", p.join_index)
      ∷ ("powerup_effect_expires_at", p.powerup_effect_expires_at)
      ∷ []))

unfoldable pub block_value : BlockData → Value
unfolding fields_of
block_value b = object (
    fields_of (
      ("x", b.x)
      ∷ ("y", b.y)
      ∷ ("width", b.width)
      ∷ ("height", b.height)
      ∷ ("destroyed", b.destroyed)
      ∷ []))

unfoldable pub power_up_value : PowerUpData → Value
unfolding fields_of
power_up_value u = object (
    fields_of (
      ("x", u.x)
      ∷ ("y", u.y)
      ∷ ("powerup_id", u.powerup_id)
      ∷ ("width", u.width)
      ∷ ("height", u.height)
      ∷ ("collected", u.collected)
      ∷ ("owner", u.owner)
      ∷ []))

-- `gate["contributions"] = list(gate["contributions"])`
unfoldable pub gate_value : GateData → Value
unfolding fields_of
gate_value g = object (
    fields_of (
      ("x", g.x)
      ∷ ("y", g.y)
      ∷ ("gate_id", g.gate_id)
      ∷ ("width", g.width)
      ∷ ("height", g.height)
      ∷ ("state", g.state)
      ∷ ("contributions", array g.contributions)
      ∷ ("coins_required", g.coins_required)
      ∷ ("blocks_required", g.blocks_required)
      ∷ ("enemies_required", g.enemies_required)
      ∷ ("is_final", g.is_final)
      ∷ []))

unfoldable pub enemy_value : EnemyData → Value
unfolding fields_of enemy_type_text
enemy_value e = object (
    fields_of (
      ("enemy_id", e.enemy_id)
      ∷ ("x", e.x)
      ∷ ("y", e.y)
      ∷ ("width", e.width)
      ∷ ("height", e.height)
      ∷ ("vx", e.vx)
      ∷ ("left_bound", e.left_bound)
      ∷ ("right_bound", e.right_bound)
      ∷ ("movement_speed", e.movement_speed)
      ∷ ("enemy_type", text (enemy_type_text e.enemy_type))
      ∷ []))

-- A dictionary whose values are objects.
unfoldable pub dict_value : {A : Type 0} → (A → Value) → List (String × A) → Fields
dict_value value [] = no_fields
dict_value value ((key, a) ∷ rest) = field key (value a) (dict_value value rest)

unfoldable pub environment_value : EnvironmentData → Value
unfolding fields_of dict_value block_value power_up_value gate_value enemy_value
environment_value e = object (
    fields_of (
      ("destructible_blocks", array (items_of (map block_value e.destructible_blocks)))
      ∷ ("power_ups", object (dict_value power_up_value e.power_ups))
      ∷ ("enemies", object (dict_value enemy_value e.enemies))
      ∷ ("cooperative_gates", object (dict_value gate_value e.cooperative_gates))
      ∷ []))

-- `WorldState.to_dict`
unfoldable pub to_dict : WorldData → Fields
unfolding fields_of dict_value player_value environment_value
to_dict w = fields_of (
    ("sequence_number", w.sequence_number)
    ∷ ("characters", object (dict_value player_value w.characters))
    ∷ ("environment", environment_value w.environment)
    ∷ ("coins_collected", w.coins_collected)
    ∷ ("coins_to_win", w.coins_to_win)
    ∷ ("blocks_destroyed", w.blocks_destroyed)
    ∷ ("blocks_to_win", w.blocks_to_win)
    ∷ ("enemies_defeated", w.enemies_defeated)
    ∷ ("enemies_to_win", w.enemies_to_win)
    ∷ ("initial_enemy_count", w.initial_enemy_count)
    ∷ ("victory", w.victory)
    ∷ ("victory_player_id", w.victory_player_id)
    ∷ ("respawn_timers", w.respawn_timers)
    ∷ [])
