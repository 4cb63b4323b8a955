-- ===== src/Domain/Enemies.antt =====
-- src/distributed_smb/domain/game_engine.py: the enemies, deaths, respawns and the reset of a run.
-- `now` is the time of the tick in milliseconds: the source reads the clock at each use.
use mas_dsmb.Prelude.{
  ◌+◌, ◌&&◌, ◌||◌, ◌∷◌, if◌then◌else◌, ℕ, String, Bool, false, Option, none, some, List, [], ltb,
  leb, Dict, lookup, insert, erase, nat_Eq, text_Eq,
}
use mas_dsmb.Domain.Scalar.{Scalar, lt, of_nat}
use mas_dsmb.Domain.World.{Enemy, Player, player_death, remove_player}
use mas_dsmb.Domain.Collisions.{jump_force, bottom_edge, right_edge, check_collision}
use mas_dsmb.Domain.Players.{GameEngine, spawn_position_for, emit, with_world, spawn_player}

pub data EnemyMovementCommand : Type 0 where
  move_left stop move_right : EnemyMovementCommand

abbrev pub respawn_delay_ms : ℕ
respawn_delay_ms = 3000

module _ (scalar : Scalar) where
  open scalar use {Number, ratio, plus, minus, times, neg, le}

  abbrev pub magnitude : Number → Number
  magnitude v = if le (of_nat scalar 0) v then v else neg v

  unfoldable pub speed_of : Enemy scalar → Number
  speed_of e = elim e.movement_speed [ some speed ↦ speed | none ↦ magnitude e.vx ]

  -- Off its course at a bound of its patrol, an enemy is put on it and turns.
  unfoldable pub turn : Enemy scalar → Enemy scalar
  turn e =
      if lt scalar e.box.x e.left_bound
      then record e { box = record (e.box) { x = e.left_bound }; vx = neg e.vx }
      else if lt scalar e.right_bound (right_edge scalar e.box)
      then record e { box = record (e.box) { x = minus e.right_bound e.box.width }; vx = neg e.vx }
      else e

  unfoldable pub patrol : Number → Enemy scalar → Enemy scalar
  patrol dt e = turn (record e { box = record (e.box) { x = plus e.box.x (times e.vx dt) } })

  -- An enemy whose command is to stop stays where it is, and keeps its speed.
  unfoldable pub obey : Number → Option EnemyMovementCommand → Enemy scalar → Enemy scalar
  obey dt (some stop) e = e
  obey dt (some move_left) e =
      patrol dt (record e { vx = times (neg (of_nat scalar 1)) (speed_of e) })
  obey dt (some move_right) e = patrol dt (record e { vx = times (of_nat scalar 1) (speed_of e) })
  obey dt none e = patrol dt e

  -- `enemy_commands` of None is a dictionary without commands.
  unfoldable pub update_enemies :
      Number
      → Dict String EnemyMovementCommand
      → Dict String (Enemy scalar)
      → Dict String (Enemy scalar)
  update_enemies dt commands [] = []
  update_enemies dt commands ((key, e) ∷ rest) =
      (key, obey dt (lookup key commands) e) ∷ update_enemies dt commands rest

  unfoldable pub has_active_effect : ℕ → Player scalar → Bool
  has_active_effect now p = elim p.powerup_effect_expires_at [
    | none ↦ false
    | some expiry ↦ ltb now expiry
  ]

  unfoldable pub expire_powerup_effect : ℕ → Player scalar → Player scalar
  expire_powerup_effect now p =
      if has_active_effect now p then p else record p { powerup_effect_expires_at = none }

  unfoldable pub is_stomp : Player scalar → Enemy scalar → Bool
  is_stomp p e =
      lt scalar p.box.x (right_edge scalar e.box)
      && lt scalar e.box.x (right_edge scalar p.box)
      && lt scalar (of_nat scalar 0) p.vy
      && le (plus p.prev_y p.box.height) (plus e.box.y (of_nat scalar 4))

  unfoldable pub queue_player_death :
      ℕ → String → Player scalar → GameEngine scalar → GameEngine scalar
  queue_player_death now cause p g =
      let told = emit scalar (player_death p.player_id cause) g in
      let gone = remove_player scalar p.player_id told.world_state in
      record told {
        respawn_join_index = insert p.player_id p.join_index told.respawn_join_index;
        world_state = record gone {
          respawn_timers = insert p.player_id (now + respawn_delay_ms) gone.respawn_timers;
        };
      }

  unfoldable pub bounce : ℕ → Player scalar → Player scalar
  bounce now p = record (expire_powerup_effect now p) {
    vy = times (neg (of_nat scalar jump_force)) (ratio 3 5);
  }

  -- The player defeats the enemy and bounces.
  unfoldable pub defeat :
      ℕ → Enemy scalar → String → Player scalar → GameEngine scalar → GameEngine scalar
  defeat now e key p g =
      with_world scalar
        (λ w. record w {
          characters = insert key (bounce now p) w.characters;
          environment = record (w.environment) { enemies = erase e.enemy_id w.environment.enemies };
        })
        g

  -- The loop over the players that one enemy may meet: it stops at the first that defeats it.
  unfoldable pub meet_enemy :
      ℕ → Enemy scalar → List (String × Player scalar) → GameEngine scalar → GameEngine scalar
  meet_enemy now e [] g = g
  meet_enemy now e ((key, p) ∷ rest) g =
      let met = check_collision scalar p.box e.box in
      let next = if met then queue_player_death now e.enemy_id p g else g in
      let after = meet_enemy now e rest next in
      if met && (has_active_effect now p || is_stomp p e) then defeat now e key p g else after

  unfoldable pub meet_enemies :
      ℕ → List (String × Enemy scalar) → GameEngine scalar → GameEngine scalar
  meet_enemies now [] g = g
  meet_enemies now ((key, e) ∷ rest) g =
      meet_enemies now rest (meet_enemy now e g.world_state.characters g)

  unfoldable pub handle_enemy_collisions : ℕ → GameEngine scalar → GameEngine scalar
  handle_enemy_collisions now g =
      if g.is_authoritative then meet_enemies now g.world_state.environment.enemies g else g

  unfoldable pub fall : ℕ → List (String × Player scalar) → GameEngine scalar → GameEngine scalar
  fall now [] g = g
  fall now ((key, p) ∷ rest) g = fall now rest (
      if le (bottom_edge scalar p.box) g.world_height then g else queue_player_death now "void" p g)

  unfoldable pub handle_void_deaths : ℕ → GameEngine scalar → GameEngine scalar
  handle_void_deaths now g = if g.is_authoritative then fall now g.world_state.characters g else g

  unfoldable pub join_index_or_zero : Option ℕ → ℕ
  join_index_or_zero none = 0
  join_index_or_zero (some n) = n

  -- The join index that a player comes back with: `_respawn_join_index.pop(pid, 0)`.
  unfoldable pub respawn_index : String → GameEngine scalar → ℕ
  respawn_index pid g = join_index_or_zero (lookup pid g.respawn_join_index)

  -- One player whose timer is due comes back.
  unfoldable pub respawn : String → GameEngine scalar → GameEngine scalar
  respawn pid g =
      let join_index = respawn_index pid g in
      let popped = record g { respawn_join_index = erase pid g.respawn_join_index } in
      let point = spawn_position_for scalar join_index g in
      with_world scalar (λ w. record w { respawn_timers = erase pid w.respawn_timers })
        (spawn_player scalar pid point.0 point.1 join_index popped)

  unfoldable pub respawn_due : ℕ → List (String × ℕ) → GameEngine scalar → GameEngine scalar
  respawn_due now [] g = g
  respawn_due now ((pid, due) ∷ rest) g =
      respawn_due now rest (if leb due now then respawn pid g else g)

  unfoldable pub process_respawns : ℕ → GameEngine scalar → GameEngine scalar
  process_respawns now g =
      if g.is_authoritative then respawn_due now g.world_state.respawn_timers g else g
