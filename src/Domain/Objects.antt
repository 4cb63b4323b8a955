-- ===== src/Domain/Objects.antt =====
-- src/distributed_smb/domain/game_engine.py: the blocks and the power-ups.
use mas_dsmb.Prelude.{
  ◌+◌, ◌&&◌, ◌||◌, ◌∷◌, ◌++◌, ◌==◌, if◌then◌else◌, ℕ, String, Bool, true, not, some, List, [], ltb,
  filter, Dict, insert, nat_Eq, text_Eq,
}
use mas_dsmb.Domain.Scalar.{Scalar, lt, of_nat}
use mas_dsmb.Domain.World.{
  DestructibleBlock, Player, Event, ExclusivePowerUp, Box, block_destroyed, power_up_collected,
}
use mas_dsmb.Domain.Collisions.{right_edge, bottom_edge, check_collision, resolve_collision}
use mas_dsmb.Domain.Players.{GameEngine}
use text.Mathlib.Text.{starts_with}

-- The effect of a star lasts ten seconds.
abbrev pub effect_ms : ℕ
effect_ms = 10000

module _ (scalar : Scalar) where
  open scalar use {Number, plus, minus, le}

  unfoldable pub is_head_bump : Player scalar → DestructibleBlock scalar → Bool
  is_head_bump p b =
      let bottom = bottom_edge scalar b.box in
      lt scalar p.box.x (right_edge scalar b.box)
      && lt scalar b.box.x (right_edge scalar p.box)
      && le (minus bottom (of_nat scalar 4)) p.prev_y
      && le p.box.y bottom
      && lt scalar b.box.y (bottom_edge scalar p.box)

  -- One player meets one block: what becomes of both, and the events.
  unfoldable pub hit_block :
      Player scalar
      → DestructibleBlock scalar
      → Player scalar × DestructibleBlock scalar × List (Event scalar)
  hit_block p b =
      let broken = record b { destroyed = true } in
      let pushed = resolve_collision scalar b.box p in
      if not b.destroyed && check_collision scalar p.box b.box
      then (if is_head_bump p b
          then (pushed, broken, block_destroyed b.box.x b.box.y ∷ [])
          else (pushed, b, []))
      else (p, b, [])

  unfoldable pub hit_blocks :
      List (DestructibleBlock scalar)
      → Player scalar
      → Player scalar × List (DestructibleBlock scalar) × List (Event scalar)
  hit_blocks [] p = (p, [], [])
  hit_blocks (b ∷ rest) p =
      let hit = hit_block p b in
      let after = hit_blocks rest hit.0 in (after.0, hit.1 ∷ after.1, hit.2 ++ after.2)

  unfoldable pub all_hit_blocks :
      Dict String (Player scalar)
      → List (DestructibleBlock scalar)
      → Dict String (Player scalar) × List (DestructibleBlock scalar) × List (Event scalar)
  all_hit_blocks [] blocks = ([], blocks, [])
  all_hit_blocks ((key, p) ∷ rest) blocks =
      let first = hit_blocks blocks p in
      let after = all_hit_blocks rest first.1 in
      ((key, first.0) ∷ after.0, after.1, first.2 ++ after.2)

  unfoldable pub handle_block_collisions : GameEngine scalar → GameEngine scalar
  handle_block_collisions g =
      let w = g.world_state in
      let done = all_hit_blocks w.characters w.environment.destructible_blocks in
      record g {
        world_state = record w {
          characters = done.0;
          environment = record (w.environment) { destructible_blocks = done.1 };
        };
        events = g.events ++ done.2;
      }

  -- `min(colliding_players, key = join_index)`: the first of those with the least index.
  unfoldable pub winner :
      String × Player scalar → List (String × Player scalar) → String × Player scalar
  winner best [] = best
  winner best (other ∷ rest) =
      winner (if ltb other.1.join_index best.1.join_index then other else best) rest

  unfoldable pub is_star_powerup : ExclusivePowerUp scalar → Bool
  is_star_powerup u = starts_with u.powerup_id "star" || u.powerup_id == "star"

  unfoldable pub colliding :
      Box scalar → Dict String (Player scalar) → List (String × Player scalar)
  colliding b players = filter (λ kp. check_collision scalar kp.1.box b) players

  -- What the winner keeps of a star.
  unfoldable pub star_effect : ℕ → ExclusivePowerUp scalar → Player scalar → Player scalar
  star_effect now u p =
      if is_star_powerup u
      then record p { powerup_effect_expires_at = some (now + effect_ms) }
      else p

  -- A power-up that these players touch: it, all players, and the events.
  unfoldable pub award :
      ℕ
      → ExclusivePowerUp scalar
      → List (String × Player scalar)
      → Dict String (Player scalar)
      → ExclusivePowerUp scalar × Dict String (Player scalar) × List (Event scalar)
  award now u [] players = (u, players, [])
  award now u (first ∷ others) players =
      let won = winner first others in
      (
        record u { collected = true; owner = some won.1.player_id },
        insert won.0 (star_effect now u won.1) players,
        power_up_collected u.powerup_id won.1.player_id ∷ [],
      )

  -- One power-up of the loop.
  unfoldable pub meet_powerup :
      ℕ
      → ExclusivePowerUp scalar
      → Dict String (Player scalar)
      → ExclusivePowerUp scalar × Dict String (Player scalar) × List (Event scalar)
  meet_powerup now u players =
      if u.collected then (u, players, []) else award now u (colliding u.box players) players

  unfoldable pub meet_powerups :
      ℕ
      → Dict String (ExclusivePowerUp scalar)
      → Dict String (Player scalar)
      → Dict String (ExclusivePowerUp scalar) × Dict String (Player scalar) × List (Event scalar)
  meet_powerups now [] players = ([], players, [])
  meet_powerups now ((key, u) ∷ rest) players =
      let first = meet_powerup now u players in
      let after = meet_powerups now rest first.1 in
      ((key, first.0) ∷ after.0, after.1, first.2 ++ after.2)

  unfoldable pub handle_powerup_collisions : ℕ → GameEngine scalar → GameEngine scalar
  handle_powerup_collisions now g =
      let w = g.world_state in
      let done = meet_powerups now w.environment.power_ups w.characters in
      if g.is_authoritative
      then record g {
        world_state = record w {
          characters = done.1;
          environment = record (w.environment) { power_ups = done.0 };
        };
        events = g.events ++ done.2;
      }
      else g
