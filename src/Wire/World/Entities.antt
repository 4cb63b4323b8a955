-- ===== src/Wire/World/Entities.antt =====
-- The constructors of domain/entity.py on the dictionaries that a message holds, with the errors of the
-- language that other shapes raise.
use mas_dsmb.Prelude.{
  ◌&&◌, ◌∷◌, ◌==◌, if◌then◌else◌, pos, negsuc, ℕ, suc, String, Bool, true, false, Option, none,
  some, List, [], all, elem, ok, err, nat_Eq, text_Eq, ◌>>=◌,
}
use mas_dsmb.Domain.Players.{player_width, player_height}
use mas_dsmb.Wire.Json.{
  Value, Fields, Items, FieldTypes, get, no_items, item, null, flag, number, real, text, array,
  object, no_fields, field,
}
use mas_dsmb.Wire.World.Data.{
  EnemyType, koopa, goomba, PlayerData, BlockData, PowerUpData, GateData, EnemyData,
}
use mas_dsmb.Wire.World.Letters.{letters}
use mas_dsmb.Wire.Schemas.{Read, type_error, value_error, key_error}

-- `ENEMY_WIDTH` and `ENEMY_HEIGHT`
abbrev pub enemy_width : ℕ
enemy_width = 51

abbrev pub enemy_height : ℕ
enemy_height = 51

-- The names of a constructor's arguments.
unfoldable pub are_known : List String → Fields → Bool
are_known names no_fields = true
are_known names (field key v rest) = elem key names && are_known names rest

-- `Class(**v)` up to its arguments: a mapping whose keys the constructor knows.
unfoldable pub arguments : List String → Value → Read Fields
unfolding are_known
arguments names (object body) = if are_known names body then ok body else err type_error
arguments names _ = err type_error

-- An argument that was given.
unfoldable pub given : Option Value → Read Value
given none = err type_error
given (some v) = ok v

-- An argument with a default.
unfoldable pub or_default : Value → Option Value → Value
or_default default none = default
or_default default (some v) = v

abbrev pub no_number : Value
no_number = real "0.0"

abbrev pub whole : ℕ → Value
whole n = number (pos n)

unfoldable pub player_from : Value → Read PlayerData
unfolding arguments given or_default
player_from v = do
  body ←
      arguments
        ("player_id" ∷ "x" ∷ "y" ∷ "vx" ∷ "vy" ∷ "width" ∷ "height" ∷ "on_ground" ∷ "is_crouching"
          ∷ "prev_x" ∷ "prev_y" ∷ "join_index" ∷ "powerup_effect_expires_at" ∷ [])
        v
  player_id ← given (get "player_id" body)
  ok (record {
    player_id = player_id;
    x = or_default no_number (get "x" body);
    y = or_default no_number (get "y" body);
    vx = or_default no_number (get "vx" body);
    vy = or_default no_number (get "vy" body);
    width = or_default (whole player_width) (get "width" body);
    height = or_default (whole player_height) (get "height" body);
    on_ground = or_default (flag false) (get "on_ground" body);
    is_crouching = or_default (flag false) (get "is_crouching" body);
    prev_x = or_default no_number (get "prev_x" body);
    prev_y = or_default no_number (get "prev_y" body);
    join_index = or_default (whole 0) (get "join_index" body);
    powerup_effect_expires_at = or_default null (get "powerup_effect_expires_at" body);
  })

unfoldable pub block_from : Value → Read BlockData
unfolding arguments given or_default
block_from v = do
  body ← arguments ("x" ∷ "y" ∷ "width" ∷ "height" ∷ "destroyed" ∷ []) v
  x ← given (get "x" body)
  y ← given (get "y" body)
  ok (record {
    x = x;
    y = y;
    width = or_default (whole 32) (get "width" body);
    height = or_default (whole 32) (get "height" body);
    destroyed = or_default (flag false) (get "destroyed" body);
  })

unfoldable pub power_up_from : Value → Read PowerUpData
unfolding arguments given or_default
power_up_from v = do
  body ← arguments ("x" ∷ "y" ∷ "powerup_id" ∷ "width" ∷ "height" ∷ "collected" ∷ "owner" ∷ []) v
  x ← given (get "x" body)
  y ← given (get "y" body)
  powerup_id ← given (get "powerup_id" body)
  ok (record {
    x = x;
    y = y;
    powerup_id = powerup_id;
    width = or_default (whole 32) (get "width" body);
    height = or_default (whole 32) (get "height" body);
    collected = or_default (flag false) (get "collected" body);
    owner = or_default null (get "owner" body);
  })

unfoldable pub keys_of : Fields → Items
keys_of no_fields = no_items
keys_of (field key v rest) = item (text key) (keys_of rest)

-- `for item in v`
unfoldable pub iterate : Value → Read Items
unfolding keys_of
iterate (array items) = ok items
iterate (object body) = ok (keys_of body)
iterate (text s) = ok (letters s)
iterate _ = err type_error

unfoldable pub is_hashable : Value → Bool
is_hashable (array _) = false
is_hashable (object _) = false
is_hashable _ = true

unfoldable pub are_hashable : Items → Bool
unfolding is_hashable
are_hashable no_items = true
are_hashable (item v rest) = is_hashable v && are_hashable rest

-- `set(v)`
unfoldable pub set_from : Value → Read Items
unfolding iterate are_hashable
set_from v = do members ← iterate v; if are_hashable members then ok members else err type_error

-- `data[key]`
unfoldable pub item_at : String → Fields → Read Value
item_at key body = found (get key body)
  where
    found : Option Value → Read Value
    found none = err key_error
    found (some v) = ok v

unfoldable pub mapping : Value → Read Fields
mapping (object body) = ok body
mapping _ = err type_error

unfoldable pub gate_from : Value → Read GateData
unfolding arguments given or_default item_at set_from mapping
gate_from v = do
  all ← mapping v
  sent ← item_at "contributions" all
  contributions ← set_from sent
  body ←
      arguments
        ("x" ∷ "y" ∷ "gate_id" ∷ "width" ∷ "height" ∷ "state" ∷ "contributions" ∷ "coins_required"
          ∷ "blocks_required" ∷ "enemies_required" ∷ "is_final" ∷ [])
        v
  x ← given (get "x" body)
  y ← given (get "y" body)
  gate_id ← given (get "gate_id" body)
  ok (record {
    x = x;
    y = y;
    gate_id = gate_id;
    width = or_default (whole 32) (get "width" body);
    height = or_default (whole 32) (get "height" body);
    state = or_default (text "closed") (get "state" body);
    contributions = contributions;
    coins_required = or_default (whole 0) (get "coins_required" body);
    blocks_required = or_default (whole 0) (get "blocks_required" body);
    enemies_required = or_default (whole 0) (get "enemies_required" body);
    is_final = or_default (flag true) (get "is_final" body);
  })

-- `EnemyType(v)`
unfoldable pub enemy_type_of : String → Read EnemyType
enemy_type_of s =
    if s == "koopa" then ok koopa else if s == "goomba" then ok goomba else err value_error

unfoldable pub enemy_type_from : Value → Read EnemyType
unfolding enemy_type_of
enemy_type_from (text s) = enemy_type_of s
enemy_type_from _ = err value_error

module _ (types : FieldTypes) where
  -- `abs(v)`
  unfoldable pub absolute : Value → Read Value
  absolute (number (pos n)) = ok (whole n)
  absolute (number (negsuc n)) = ok (whole (suc n))
  absolute (real literal) = ok (real (types.absolute_literal literal))
  absolute (flag true) = ok (whole 1)
  absolute (flag false) = ok (whole 0)
  absolute _ = err type_error

  -- `Enemy.__post_init__`: a speed of None is that of `vx`.
  unfoldable pub speed_from : Value → Value → Read Value
  unfolding absolute
  speed_from vx null = absolute vx
  speed_from vx given_speed = ok given_speed

  unfoldable pub enemy_from : Value → Read EnemyData
  unfolding arguments given or_default enemy_type_from speed_from
  enemy_from v = do
    body ←
        arguments
          ("enemy_id" ∷ "x" ∷ "y" ∷ "width" ∷ "height" ∷ "vx" ∷ "left_bound" ∷ "right_bound"
            ∷ "movement_speed" ∷ "enemy_type" ∷ [])
          v
    enemy_id ← given (get "enemy_id" body)
    x ← given (get "x" body)
    y ← given (get "y" body)
    enemy_type ← enemy_type_from (or_default (text "koopa") (get "enemy_type" body))
    let vx = or_default (real "50.0") (get "vx" body)
    movement_speed ← speed_from vx (or_default null (get "movement_speed" body))
    ok (record {
      enemy_id = enemy_id;
      x = x;
      y = y;
      width = or_default (whole enemy_width) (get "width" body);
      height = or_default (whole enemy_height) (get "height" body);
      vx = vx;
      left_bound = or_default no_number (get "left_bound" body);
      right_bound = or_default no_number (get "right_bound" body);
      movement_speed = movement_speed;
      enemy_type = enemy_type;
    })
