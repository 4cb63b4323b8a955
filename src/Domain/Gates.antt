-- ===== src/Domain/Gates.antt =====
-- src/distributed_smb/domain/game_engine.py: the gates, the shared counters and the victory.
use mas_dsmb.Prelude.{
  ◌-◌, ◌&&◌, ◌∷◌, if◌then◌else◌, ℕ, String, Bool, true, false, not, Option, none, some, List, [],
  leb, length, filter, Dict,
}
use mas_dsmb.Domain.Scalar.{Scalar}
use mas_dsmb.Domain.World.{
  GateState, opened, closed, Player, Event, Box, gate_state_changed, WorldState, CooperativeGate,
}
use mas_dsmb.Domain.Collisions.{check_collision, resolve_collision}
use mas_dsmb.Domain.Players.{GameEngine, emit, with_world, over_players}
use text.Mathlib.Text.{starts_with}

-- The state of a gate that should be open, or not.
unfoldable pub state_for : Bool → GateState
state_for should_be_open = if should_be_open then opened else closed

-- `new_state == self.state`
unfoldable pub same_state : GateState → GateState → Bool
same_state opened opened = true
same_state closed closed = true
same_state _ _ = false

unfoldable pub is_open : GateState → Bool
is_open opened = true
is_open closed = false

unfoldable pub count : {A : Type 0} → (A → Bool) → List A → ℕ
count keep xs = length (filter keep xs)

unfoldable pub values : {V : Type 0} → Dict String V → List V
values [] = []
values ((key, v) ∷ rest) = v ∷ values rest

module _ (scalar : Scalar) where
  -- Whether the shared counters meet what a gate requires.
  unfoldable pub should_be_open : WorldState scalar → CooperativeGate scalar → Bool
  should_be_open w gate =
      leb gate.coins_required w.coins_collected
      && leb gate.blocks_required w.blocks_destroyed
      && leb gate.enemies_required w.enemies_defeated

  -- `CooperativeGate.update_state`
  unfoldable pub update_state :
      Bool → CooperativeGate scalar → CooperativeGate scalar × Option (Event scalar)
  update_state target gate =
      let new_state = state_for target in
      if same_state new_state gate.state
      then (gate, none)
      else (record gate { state = new_state }, some (gate_state_changed gate.gate_id new_state))

  unfoldable pub stopped_by : CooperativeGate scalar → Player scalar → Player scalar
  stopped_by gate p =
      if check_collision scalar p.box gate.box then resolve_collision scalar gate.box p else p

  unfoldable pub emit_some : Option (Event scalar) → GameEngine scalar → GameEngine scalar
  emit_some none g = g
  emit_some (some event) g = emit scalar event g

  -- The body of the loop over the gates: the gate, and the engine with its events and players.
  unfoldable pub meet_gate :
      CooperativeGate scalar → GameEngine scalar → CooperativeGate scalar × GameEngine scalar
  meet_gate gate g =
      let updated = update_state (should_be_open g.world_state gate) gate in
      let told = emit_some updated.1 g in
      (
        updated.0,
        if is_open (updated.0.state) then told else over_players scalar (stopped_by updated.0) told,
      )

  unfoldable pub meet_gates :
      Dict String (CooperativeGate scalar)
      → GameEngine scalar
      → Dict String (CooperativeGate scalar) × GameEngine scalar
  meet_gates [] g = ([], g)
  meet_gates ((key, gate) ∷ rest) g =
      let met = meet_gate gate g in
      let after = meet_gates rest met.1 in ((key, met.0) ∷ after.0, after.1)

  unfoldable pub set_gates :
      Dict String (CooperativeGate scalar) → WorldState scalar → WorldState scalar
  set_gates gates w = record w {
    environment = record (w.environment) { cooperative_gates = gates };
  }

  unfoldable pub handle_gate_collisions : GameEngine scalar → GameEngine scalar
  handle_gate_collisions g =
      let done = meet_gates g.world_state.environment.cooperative_gates g in
      with_world scalar (set_gates done.0) done.1

  unfoldable pub sync_objective_progress : WorldState scalar → WorldState scalar
  sync_objective_progress w = record w {
    coins_collected =
        count (λ u. u.collected && starts_with u.powerup_id "coin-")
          (values w.environment.power_ups);
    blocks_destroyed = count (λ b. b.destroyed) w.environment.destructible_blocks;
    enemies_defeated = w.initial_enemy_count - length w.environment.enemies;
  }

  -- The first player that touches the gate.
  unfoldable pub toucher : Box scalar → Dict String (Player scalar) → Option (Player scalar)
  toucher b [] = none
  toucher b ((key, p) ∷ rest) =
      let later = toucher b rest in if check_collision scalar p.box b then some p else later

  -- The first player that touches a final gate that is open, gate by gate.
  unfoldable pub victor :
      Dict String (CooperativeGate scalar) → Dict String (Player scalar) → Option (Player scalar)
  victor [] players = none
  victor ((key, gate) ∷ rest) players =
      let later = victor rest players in
      if is_open gate.state && gate.is_final
      then elim (toucher gate.box players) [ some p ↦ some p | none ↦ later ]
      else later

  unfoldable pub declare_victory : Option (Player scalar) → WorldState scalar → WorldState scalar
  declare_victory none w = w
  declare_victory (some p) w = record w { victory = true; victory_player_id = some p.player_id }

  unfoldable pub handle_victory_condition : GameEngine scalar → GameEngine scalar
  handle_victory_condition g =
      let w = g.world_state in
      if g.is_authoritative && not w.victory
      then with_world scalar (declare_victory (victor w.environment.cooperative_gates w.characters))
          g
      else g
