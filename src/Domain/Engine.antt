-- ===== src/Domain/Engine.antt =====
-- src/distributed_smb/domain/game_engine.py: `tick`, which composes the parts of the engine, and
-- `reset_for_new_run`.
use mas_dsmb.Prelude.{if◌then◌else◌, ℕ, suc, String, false, none, List, [], Dict}
use mas_dsmb.Domain.Scalar.{Scalar, of_nat}
use mas_dsmb.Domain.World.{InputState, Player, load_level, level_reset}
use mas_dsmb.Domain.Players.{
  GameEngine, over_players, with_world, spawn_position_for, handle_collisions, emit,
  remember_position, clamp_players_to_world, apply_inputs,
}
use mas_dsmb.Domain.Enemies.{
  EnemyMovementCommand, update_enemies, handle_void_deaths, expire_powerup_effect,
  handle_enemy_collisions, process_respawns,
}
use mas_dsmb.Domain.Gates.{
  handle_victory_condition, handle_gate_collisions, sync_objective_progress,
  handle_victory_condition,
}
use mas_dsmb.Domain.Objects.{handle_block_collisions, handle_powerup_collisions}
use mas_dsmb.Domain.Collisions.{apply_physics, move_y, move_x}

module _ (scalar : Scalar) where
  open scalar use {Number}

  unfoldable pub count_tick : GameEngine scalar → GameEngine scalar
  count_tick = with_world scalar (λ w. record w { sequence_number = suc w.sequence_number })

  unfoldable pub move_enemies :
      Number → Dict String EnemyMovementCommand → GameEngine scalar → GameEngine scalar
  move_enemies dt commands = with_world scalar (λ w. record w {
    environment = record (w.environment) {
      enemies = update_enemies scalar dt commands w.environment.enemies;
    };
  })

  -- The players move: effects end, inputs apply, and one step of motion.
  unfoldable pub move_players :
      ℕ → Number → List (String × InputState) → GameEngine scalar → GameEngine scalar
  move_players now dt inputs g =
      let remembered = over_players scalar (remember_position scalar) g in
      let expired = over_players scalar (expire_powerup_effect scalar now) remembered in
      over_players scalar (apply_physics scalar dt)
        (with_world scalar (apply_inputs scalar inputs) expired)

  -- What the players meet, up to the deaths.
  unfoldable pub collide :
      ℕ → Number → Dict String EnemyMovementCommand → GameEngine scalar → GameEngine scalar
  collide now dt commands g =
      let landed = handle_collisions scalar g in
      let touched = handle_powerup_collisions scalar now (handle_block_collisions scalar landed) in
      handle_void_deaths scalar now
        (handle_enemy_collisions scalar now (move_enemies dt commands touched))

  -- The counters, the gates, the victory and the respawns.
  unfoldable pub conclude : ℕ → GameEngine scalar → GameEngine scalar
  conclude now g =
      let synced = with_world scalar (sync_objective_progress scalar) g in
      let gated = clamp_players_to_world scalar (handle_gate_collisions scalar synced) in
      process_respawns scalar now (handle_victory_condition scalar gated)

  unfoldable pub tick :
      ℕ
      → Number
      → List (String × InputState)
      → Dict String EnemyMovementCommand
      → GameEngine scalar
      → GameEngine scalar
  tick now dt inputs commands g = count_tick (
      if g.world_state.victory
      then g
      else conclude now (collide now dt commands (move_players now dt inputs g)))

  unfoldable pub back_to_spawn : GameEngine scalar → Player scalar → Player scalar
  back_to_spawn g p =
      let point = spawn_position_for scalar p.join_index g in
      record (move_y scalar point.1 (move_x scalar point.0 p)) {
        vx = of_nat scalar 0;
        vy = of_nat scalar 0;
        on_ground = false;
        is_crouching = false;
        powerup_effect_expires_at = none;
      }

  unfoldable pub reset_for_new_run : GameEngine scalar → GameEngine scalar
  reset_for_new_run g =
      let loaded = load_level scalar g.level g.world_state in
      let cleared = record g {
        world_state = record loaded { respawn_timers = [] };
        respawn_join_index = [];
      } in
      emit scalar level_reset (over_players scalar (back_to_spawn g) cleared)
