-- ===== src/Domain/Players.antt =====
-- src/distributed_smb/domain/game_engine.py: the engine's state and what moves its players: inputs,
-- platforms, the clamp to the world, and the spawn points.
use mas_dsmb.Prelude.{
  ◌%◌, ◌&&◌, ◌∷◌, ◌++◌, if◌then◌else◌, ℕ, zero, suc, String, Bool, true, false, Option, none, some,
  List, [], length, Dict, insert, nat_Eq, text_Eq,
}
use mas_dsmb.Domain.Scalar.{Scalar, of_nat, larger, smaller}
use mas_dsmb.Domain.World.{
  InputState, Player, Event, WorldState, Box, add_player, Level, get_player,
}
use mas_dsmb.Domain.Collisions.{
  move_speed, jump_force, check_collision, move_y, move_x, resolve_collision,
}

-- `PLAYER_WIDTH` and `PLAYER_HEIGHT`
abbrev pub player_width : ℕ
player_width = 75

abbrev pub player_height : ℕ
player_height = 75

-- The values of a dictionary, changed in place one by one.
unfoldable pub over_values : {V : Type 0} → (V → V) → Dict String V → Dict String V
over_values f [] = []
over_values f ((key, v) ∷ rest) = (key, f v) ∷ over_values f rest

module _ (scalar : Scalar) where
  open scalar use {Number, minus, neg, le}

  -- `Box` is the library's platform too. The level is the one that the engine was built with.
  pub record GameEngine : Type 0 where
    pub world_state : WorldState scalar
    pub platforms : List (Box scalar)
    pub events : List (Event scalar)
    pub is_authoritative : Bool
    pub world_width : Number
    pub world_height : Number
    pub spawn_points : List (Number × Number)
    pub respawn_join_index : Dict String ℕ
    pub level : Level scalar

  abbrev pub with_world : (WorldState scalar → WorldState scalar) → GameEngine → GameEngine
  with_world f g = record g { world_state = f g.world_state }

  -- `for player in self.world_state.characters.values()`
  unfoldable pub over_players : (Player scalar → Player scalar) → GameEngine → GameEngine
  over_players f = with_world (λ w. record w { characters = over_values f w.characters })

  unfoldable pub emit : Event scalar → GameEngine → GameEngine
  emit event g = record g { events = g.events ++ event ∷ [] }

  unfoldable pub apply_input : InputState → Player scalar → Player scalar
  apply_input input p =
      let walking = record p {
        vx =
            if input.left
            then neg (of_nat scalar move_speed)
            else if input.right
            then of_nat scalar move_speed
            else of_nat scalar 0;
      } in
      let jumped =
        if input.jump && walking.on_ground
        then record walking { vy = neg (of_nat scalar jump_force); on_ground = false }
        else walking in
      record jumped { is_crouching = input.down && jumped.on_ground }

  unfoldable pub write_input :
      Option (Player scalar) → String → InputState → WorldState scalar → WorldState scalar
  write_input none player_id input w = w
  write_input (some p) player_id input w = record w {
    characters = insert player_id (apply_input input p) w.characters;
  }

  -- One item of the inputs; a player that is not in the world is passed over.
  unfoldable pub apply_input_of : String → InputState → WorldState scalar → WorldState scalar
  apply_input_of player_id input w = write_input (get_player scalar player_id w) player_id input w

  unfoldable pub apply_inputs : List (String × InputState) → WorldState scalar → WorldState scalar
  apply_inputs [] w = w
  apply_inputs ((player_id, input) ∷ rest) w = apply_inputs rest (apply_input_of player_id input w)

  unfoldable pub remember_position : Player scalar → Player scalar
  remember_position p = record p { prev_x = p.box.x; prev_y = p.box.y }

  unfoldable pub touch_platform : Box scalar → Player scalar → Player scalar
  touch_platform b p = if check_collision scalar p.box b then resolve_collision scalar b p else p

  unfoldable pub touch_platforms : List (Box scalar) → Player scalar → Player scalar
  touch_platforms [] p = p
  touch_platforms (b ∷ rest) p = touch_platforms rest (touch_platform b p)

  unfoldable pub handle_collisions : GameEngine → GameEngine
  handle_collisions g =
      over_players (λ p. touch_platforms g.platforms (record p { on_ground = false })) g

  -- `max(0, min(v, max(0, extent - size)))`
  unfoldable pub clamp : Number → Number → Number → Number
  clamp extent size v =
      larger scalar (of_nat scalar 0)
        (smaller scalar v (larger scalar (of_nat scalar 0) (minus extent size)))

  unfoldable pub clamp_character_to_world : Bool → GameEngine → Player scalar → Player scalar
  clamp_character_to_world clamp_bottom g p =
      let x = clamp g.world_width p.box.width p.box.x in
      let y =
        if clamp_bottom
        then clamp g.world_height p.box.height p.box.y
        else larger scalar (of_nat scalar 0) p.box.y in
      move_y scalar y (move_x scalar x p)

  unfoldable pub clamp_players_to_world : GameEngine → GameEngine
  clamp_players_to_world g = over_players (clamp_character_to_world false g) g

  -- A new player, at rest.
  unfoldable pub new_player : String → Number → Number → ℕ → Player scalar
  new_player player_id x y join_index = record {
    player_id = player_id;
    box = record {
      x = x;
      y = y;
      width = of_nat scalar player_width;
      height = of_nat scalar player_height;
    };
    vx = of_nat scalar 0;
    vy = of_nat scalar 0;
    on_ground = false;
    is_crouching = false;
    prev_x = of_nat scalar 0;
    prev_y = of_nat scalar 0;
    join_index = join_index;
    powerup_effect_expires_at = none;
  }

  unfoldable pub spawn_player : String → Number → Number → ℕ → GameEngine → GameEngine
  spawn_player player_id x y join_index g =
      with_world
        (add_player scalar (clamp_character_to_world true g (new_player player_id x y join_index)))
        g

  -- The point at an index, the default past the end.
  unfoldable pub point_at : List (Number × Number) → ℕ → Number × Number
  point_at [] n = (of_nat scalar 100, of_nat scalar 100)
  point_at (point ∷ rest) zero = point
  point_at (point ∷ rest) (suc n) = point_at rest n

  unfoldable pub spawn_position_for : ℕ → GameEngine → Number × Number
  spawn_position_for join_index g = point_at g.spawn_points (join_index % length g.spawn_points)
