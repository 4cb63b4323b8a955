-- ===== src/Agents/Commands.antt =====
-- Which enemies the agents command in a tick.
use mas_dsmb.Prelude.{
  ◌≡◌, ◌%◌, ◌&&◌, ◌||◌, ◌∷◌, ◌++◌, ◌∙◌, ◌==◌, if-both, ℕ, String, refl, sym, ap, inl, inr, Bool,
  true, false, Option, none, some, List, [], map, arith, Bool-cases, elem, set_of, Dict, lookup,
  insert, lookup-insert, elem-append, elem-set_of, nat_Eq, text_Eq,
}
use mas_dsmb.Domain.Scalar.{Scalar}
use mas_dsmb.Domain.World.{Enemy, InputState}
use mas_dsmb.Domain.Engine.{tick}
use mas_dsmb.Domain.Enemies.{EnemyMovementCommand}
use mas_dsmb.Agents.{ActionRequest}
use mas_dsmb.Agents.Perception.{Geometry}
use mas_dsmb.Agents.Integration.{
  Controller, drain_actions, AgentGameIntegration, is_key, engine_command, translate_action,
}
use mas_dsmb.Agents.Tick.{
  Plan, answer, plan_enemy, plan_enemies, request_for, plan_of, controlled_ids, publish_when_due,
  tick_agents, tick_enabled, tick_disabled,
}
use text.Mathlib.TextEquality.{eq_iff}

module _ (scalar : Scalar) where
  abbrev existing : AgentGameIntegration scalar → String → Bool
  existing g enemy_id = is_key enemy_id g.engine.world_state.environment.enemies

  is_key-insert :
      {A : Type 0} (k j : String) (v : A) (d : Dict String A)
      → is_key j (insert k v d) ≡ (k == j || is_key j d)
  is_key-insert k j v d = ground (arith, lookup-insert k j v d)

  answer-commands :
      (enemy_id other : String) (e : Enemy scalar) (request : ActionRequest) (p : Plan scalar)
      → is_key other ((answer scalar enemy_id e request p).directions)
        ≡ (enemy_id == other || is_key other p.directions)
  unfolding answer
  answer-commands enemy_id other e request p = ground (
    arith,
    is_key-insert enemy_id other EnemyMovementCommand.stop p.directions,
    is_key-insert enemy_id other (engine_command (translate_action request.action).0) p.directions,
  )

  elem-keys :
      {A : Type 0} (k : String) (d : Dict String A)
      → elem k (map (λ (entry : String × A). entry.0) d) ≡ is_key k d
  elem-keys k [] = refl
  elem-keys k ((j, v) ∷ d) = ground (arith, elem-keys k d)

  module _ (geometry : Geometry scalar) where
    plan_enemy-commands :
        (g : AgentGameIntegration scalar) (requests : Dict String ActionRequest)
        (enemy_id other : String) (found : Option (Enemy scalar)) (p : Plan scalar)
        → is_key other ((plan_enemy scalar geometry g requests enemy_id found p).directions) ≡ (
            is_key other p.directions
            || (enemy_id == other && elim found [ none ↦ false | some _ ↦ true ]))
    unfolding plan_enemy
    plan_enemy-commands g requests enemy_id other none p = ground arith
    plan_enemy-commands g requests enemy_id other (some e) p =
        let asked =
          request_for scalar geometry g enemy_id e (lookup enemy_id requests)
            (lookup enemy_id g.controllers) p.latest in
        ground (arith, answer-commands enemy_id other e asked.0 (record p { latest = asked.1 }))

    plan_enemies-commands :
        (g : AgentGameIntegration scalar) (requests : Dict String ActionRequest) (ids : List String)
        (other : String) (p : Plan scalar)
        → is_key other ((plan_enemies scalar geometry g requests ids p).directions)
          ≡ (is_key other p.directions || (elem other ids && existing g other))
    unfolding plan_enemies
    plan_enemies-commands g requests [] other p = ground arith
    plan_enemies-commands g requests (enemy_id ∷ rest) other p =
        let found = lookup enemy_id g.engine.world_state.environment.enemies in
        let next = plan_enemy scalar geometry g requests enemy_id found p in
        ground (
          arith,
          plan_enemies-commands g requests rest other next,
          plan_enemy-commands g requests enemy_id other found p,
          eq_iff enemy_id other,
        )

    plan_of-commands :
        (g : AgentGameIntegration scalar) (requests : Dict String ActionRequest) (enemy_id : String)
        → is_key enemy_id ((plan_of scalar geometry requests g).directions) ≡ (
            (is_key enemy_id g.controllers || elem enemy_id g.spade_controlled_enemy_ids)
            && is_key enemy_id g.engine.world_state.environment.enemies)
    unfolding plan_of controlled_ids
    plan_of-commands g requests enemy_id =
        let keys = map (λ (entry : String × Controller scalar). entry.0) g.controllers in
        let latest =
          drain_actions g.spade_controlled_enemy_ids g.engine.world_state.sequence_number
            g.action_max_age_ticks g.bridge.action_requests g.latest_spade_actions in
        ground (
          arith,
          plan_enemies-commands g requests (set_of (keys ++ g.spade_controlled_enemy_ids)) enemy_id
              (record { directions = []; pending = []; latest = latest }),
          elem-set_of enemy_id (keys ++ g.spade_controlled_enemy_ids),
          elem-append enemy_id keys g.spade_controlled_enemy_ids,
          elem-keys enemy_id g.controllers,
        )

    publish_when_due-engine :
        (g : AgentGameIntegration scalar) → (publish_when_due scalar geometry g).engine ≡ g.engine
    unfolding publish_when_due
    publish_when_due-engine g =
        if-both (λ (g' : AgentGameIntegration scalar). g'.engine ≡ g.engine)
          (g.engine.world_state.sequence_number % g.perception_interval_ticks == 0) refl refl

    -- The enemies that a tick commands: the agents are enabled, one of them or a controller is in charge
    -- of the enemy, and it exists.
    abbrev pub is_commanded : AgentGameIntegration scalar → String → Bool
    is_commanded g enemy_id =
        g.enabled
        && (is_key enemy_id g.controllers || elem enemy_id g.spade_controlled_enemy_ids)
        && is_key enemy_id g.engine.world_state.environment.enemies

    -- The game engine after a tick is the engine's own tick with commands for these enemies.
    abbrev pub TicksWithCommands :
        ℕ
        → scalar.Number
        → List (String × InputState)
        → Dict String ActionRequest
        → AgentGameIntegration scalar
        → Type 0
    TicksWithCommands now dt inputs requests g =
        (commands : Dict String EnemyMovementCommand) × ((tick_agents scalar geometry now dt inputs
            requests g).engine
          ≡ tick scalar now dt inputs commands g.engine)
        × ((enemy_id : String) → is_key enemy_id commands ≡ is_commanded g enemy_id)

    -- Whatever the agents ask for and however late their actions are: a tick of the agents is a tick of
    -- the game engine with a command for an enemy exactly if the agents are enabled, a controller or an
    -- agent is in charge of the enemy, and it exists.
    pub tick_agents-commands :
        (now : ℕ) (dt : scalar.Number) (inputs : List (String × InputState))
        (requests : Dict String ActionRequest) (g : AgentGameIntegration scalar)
        → TicksWithCommands now dt inputs requests g
    unfolding tick_agents tick_enabled tick_disabled
    tick_agents-commands now dt inputs requests g = elim (Bool-cases g.enabled) [
      | inl on ↦
          let p = plan_of scalar geometry requests g in
          (
            p.directions,
            rw on (publish_when_due-engine _),
            λ enemy_id.
                plan_of-commands g requests enemy_id
                ∙ sym (
                    ap
                      (λ b.
                        b
                        && (is_key enemy_id g.controllers
                            || elem enemy_id g.spade_controlled_enemy_ids)
                        && is_key enemy_id g.engine.world_state.environment.enemies)
                      on),
          )
      | inr off ↦ ([], rw off refl, λ enemy_id. rw off refl)
    ]
