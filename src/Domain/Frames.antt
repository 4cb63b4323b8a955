-- ===== src/Domain/Frames.antt =====
-- A whole tick counts once and loses no player.
use mas_dsmb.Prelude.{
  ◌≡◌, ◌&&◌, ◌∷◌, if◌then◌else◌, if-both, ℕ, suc, String, refl, ap, true, false, not, Option, none,
  some, List, [], Dict,
}
use mas_dsmb.Domain.Scalar.{Scalar}
use mas_dsmb.Domain.World.{InputState, Player, WorldState, CooperativeGate, Event}
use mas_dsmb.Domain.Collisions.{apply_physics}
use mas_dsmb.Domain.Objects.{handle_block_collisions, handle_powerup_collisions}
use mas_dsmb.Domain.Gates.{
  emit_some, meet_gates, meet_gate, set_gates, handle_gate_collisions, declare_victory,
  handle_victory_condition, victor, update_state, should_be_open, stopped_by, is_open,
  sync_objective_progress,
}
use mas_dsmb.Domain.Players.{
  GameEngine, emit, over_players, handle_collisions, clamp_players_to_world, with_world,
  remember_position, apply_inputs, clamp_character_to_world, touch_platforms,
}
use mas_dsmb.Domain.Enemies.{EnemyMovementCommand, handle_enemy_collisions, expire_powerup_effect}
use mas_dsmb.Domain.Engine.{tick, conclude, collide, move_players, move_enemies, count_tick}
use mas_dsmb.Domain.Kept.{
  Keeps, Keeps-refl, Keeps-trans, is_known, over_players-Keeps, apply_inputs-Keeps,
  handle_block_collisions-Keeps, handle_powerup_collisions-Keeps,
}
use mas_dsmb.Domain.Survival.{
  handle_enemy_collisions-Keeps, handle_void_deaths-Keeps, process_respawns-Keeps,
}

module _ (scalar : Scalar) where
  -- Between engines.
  abbrev LosesNothing : GameEngine scalar → GameEngine scalar → Type 0
  LosesNothing g g' = Keeps scalar g.world_state g'.world_state

  emit_some-Keeps :
      (event : Option (Event scalar)) (g : GameEngine scalar)
      → LosesNothing g (emit_some scalar event g)
  unfolding emit_some emit
  emit_some-Keeps none g = Keeps-refl scalar g.world_state
  emit_some-Keeps (some event) g = Keeps-refl scalar g.world_state

  meet_gate-Keeps :
      (gate : CooperativeGate scalar) (g : GameEngine scalar)
      → LosesNothing g (meet_gate scalar gate g).1
  unfolding meet_gate
  meet_gate-Keeps gate g =
      let updated = update_state scalar (should_be_open scalar g.world_state gate) gate in
      let told = emit_some scalar updated.1 g in
      if-both {A = GameEngine scalar} (LosesNothing g) (is_open (updated.0.state))
        (emit_some-Keeps updated.1 g)
        (Keeps-trans scalar (emit_some-Keeps updated.1 g)
          (over_players-Keeps scalar (stopped_by scalar updated.0) told))

  meet_gates-Keeps :
      (gates : Dict String (CooperativeGate scalar)) (g : GameEngine scalar)
      → LosesNothing g (meet_gates scalar gates g).1
  unfolding meet_gates
  meet_gates-Keeps [] g = Keeps-refl scalar g.world_state
  meet_gates-Keeps ((key, gate) ∷ rest) g =
      Keeps-trans scalar (meet_gate-Keeps gate g)
        (meet_gates-Keeps rest (meet_gate scalar gate g).1)

  handle_gate_collisions-Keeps :
      (g : GameEngine scalar) → LosesNothing g (handle_gate_collisions scalar g)
  unfolding handle_gate_collisions set_gates
  handle_gate_collisions-Keeps g =
      let met = meet_gates-Keeps g.world_state.environment.cooperative_gates g in
      record { number = met.number; known = met.known }

  declare_victory-Keeps :
      (winner : Option (Player scalar)) (w : WorldState scalar)
      → Keeps scalar w (declare_victory scalar winner w)
  unfolding declare_victory
  declare_victory-Keeps none w = Keeps-refl scalar w
  declare_victory-Keeps (some p) w = record { number = refl; known = λ id h. h }

  handle_victory_condition-Keeps :
      (g : GameEngine scalar) → LosesNothing g (handle_victory_condition scalar g)
  unfolding handle_victory_condition
  handle_victory_condition-Keeps g =
      let w = g.world_state in
      if-both {A = GameEngine scalar} (LosesNothing g) (g.is_authoritative && not w.victory)
        (declare_victory-Keeps (victor scalar w.environment.cooperative_gates w.characters) w)
        (Keeps-refl scalar w)

  move_players-Keeps :
      (now : ℕ) (dt : scalar.Number) (inputs : List (String × InputState)) (g : GameEngine scalar)
      → LosesNothing g (move_players scalar now dt inputs g)
  unfolding move_players
  move_players-Keeps now dt inputs g =
      let remembered = over_players scalar (remember_position scalar) g in
      let expired = over_players scalar (expire_powerup_effect scalar now) remembered in
      let applied = with_world scalar (apply_inputs scalar inputs) expired in
      Keeps-trans scalar (over_players-Keeps scalar (remember_position scalar) g) (
        Keeps-trans scalar (over_players-Keeps scalar (expire_powerup_effect scalar now) remembered)
          (Keeps-trans scalar (apply_inputs-Keeps scalar inputs expired.world_state)
            (over_players-Keeps scalar (apply_physics scalar dt) applied)))

  collide-Keeps :
      (now : ℕ) (dt : scalar.Number) (commands : Dict String EnemyMovementCommand)
      (g : GameEngine scalar)
      → LosesNothing g (collide scalar now dt commands g)
  unfolding collide handle_collisions move_enemies
  collide-Keeps now dt commands g =
      let landed = handle_collisions scalar g in
      let hit = handle_block_collisions scalar landed in
      let touched = handle_powerup_collisions scalar now hit in
      let enemies = move_enemies scalar dt commands touched in
      let met = handle_enemy_collisions scalar now enemies in
      let struck = handle_enemy_collisions-Keeps scalar now enemies in
      Keeps-trans scalar
        (over_players-Keeps scalar
          (λ p. touch_platforms scalar g.platforms (record p { on_ground = false })) g)
        (Keeps-trans scalar (handle_block_collisions-Keeps scalar landed) (
          Keeps-trans scalar (handle_powerup_collisions-Keeps scalar now hit) (
            Keeps-trans scalar (record { number = struck.number; known = struck.known })
              (handle_void_deaths-Keeps scalar now met))))

  conclude-Keeps : (now : ℕ) (g : GameEngine scalar) → LosesNothing g (conclude scalar now g)
  unfolding conclude sync_objective_progress clamp_players_to_world
  conclude-Keeps now g =
      let synced = with_world scalar (sync_objective_progress scalar) g in
      let gated = handle_gate_collisions scalar synced in
      let clamped = clamp_players_to_world scalar gated in
      let through = handle_gate_collisions-Keeps synced in
      Keeps-trans scalar (record { number = through.number; known = through.known })
        (Keeps-trans scalar
          (over_players-Keeps scalar (clamp_character_to_world scalar false gated) gated)
          (Keeps-trans scalar (handle_victory_condition-Keeps clamped)
            (process_respawns-Keeps scalar now (handle_victory_condition scalar clamped))))

  ticked :
      (now : ℕ) (dt : scalar.Number) (inputs : List (String × InputState))
      (commands : Dict String EnemyMovementCommand) (g : GameEngine scalar)
      → LosesNothing g (
          if g.world_state.victory
          then g
          else conclude scalar now
              (collide scalar now dt commands (move_players scalar now dt inputs g)))
  ticked now dt inputs commands g =
      let walked = move_players scalar now dt inputs g in
      if-both {A = GameEngine scalar} (LosesNothing g) g.world_state.victory
        (Keeps-refl scalar g.world_state)
        (Keeps-trans scalar (move_players-Keeps now dt inputs g) (
          Keeps-trans scalar (collide-Keeps now dt commands walked)
            (conclude-Keeps now (collide scalar now dt commands walked))))

  -- Every tick adds one to the world's sequence number, also after the victory.
  pub sequence_number-tick :
      (now : ℕ) (dt : scalar.Number) (inputs : List (String × InputState))
      (commands : Dict String EnemyMovementCommand) (g : GameEngine scalar)
      → (tick scalar now dt inputs commands g).world_state.sequence_number
        ≡ suc g.world_state.sequence_number
  unfolding tick count_tick
  sequence_number-tick now dt inputs commands g = ap suc (ticked now dt inputs commands g).number

  -- A player that is in the world or waits to respawn is in the world or waits to respawn after a
  -- tick, whatever it met.
  pub is_known-tick :
      (now : ℕ) (dt : scalar.Number) (inputs : List (String × InputState))
      (commands : Dict String EnemyMovementCommand) (g : GameEngine scalar) (id : String)
      → is_known scalar id g.world_state ≡ true
      → is_known scalar id (tick scalar now dt inputs commands g).world_state ≡ true
  unfolding tick count_tick
  is_known-tick now dt inputs commands g id h = (ticked now dt inputs commands g).known id h
