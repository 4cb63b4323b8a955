-- ===== src/Agents/Tick.antt =====
-- `AgentGameIntegration.tick` of src/distributed_smb/application/agent_integration.py. The set of the
-- enemies under control is walked in the order of their controllers, then of the agents' enemies.
use mas_dsmb.Prelude.{
  ◌%◌, ◌∷◌, ◌++◌, ◌==◌, if◌then◌else◌, ℕ, String, Option, none, some, List, [], map, elem, set_of,
  Dict, lookup, insert, nat_Eq, text_Eq,
}
use mas_dsmb.Domain.Scalar.{Scalar}
use mas_dsmb.Domain.World.{InputState, Enemy}
use mas_dsmb.Domain.Enemies.{EnemyMovementCommand}
use mas_dsmb.Domain.Engine.{tick}
use mas_dsmb.Agents.{
  halt, MovementCommand, ActionStatus, invalid_target, disabled, ActionRequest, ActionResult,
  Position, sorted_by,
}
use mas_dsmb.Agents.Bridge.{SpadeAgentBridge, publish, discard_perceptions}
use mas_dsmb.Agents.Perception.{Geometry, observe_enemy}
use mas_dsmb.Agents.Integration.{
  AgentGameIntegration, Controller, fixed, decides, translate_action, engine_command, drain_actions,
  spade_action_for,
}

module _ (scalar : Scalar) where
  open scalar use {Number}

  -- What the loop over the enemies under control has gathered.
  pub record Plan : Type 0 where
    pub directions : Dict String EnemyMovementCommand
    pub pending : Dict String (ActionResult scalar)
    pub latest : Dict String ActionRequest

  abbrev pub position_of : Option (Enemy scalar) → Option (Position scalar)
  position_of none = none
  position_of (some e) = some (record { x = e.box.x; y = e.box.y })

  -- A result of a request that is not carried out.
  abbrev pub refused : String → Option ActionRequest → ActionStatus → ActionResult scalar
  refused enemy_id request status = record {
    enemy_id = enemy_id;
    requested_action = elim request [ none ↦ none | some r ↦ r.action ];
    status = status;
    engine_command = none;
    position_before = none;
    position_after = none;
  }

  abbrev pub result_of :
      String → ActionRequest → ActionStatus → MovementCommand → Enemy scalar → ActionResult scalar
  result_of enemy_id request status command e = record {
    enemy_id = enemy_id;
    requested_action = request.action;
    status = status;
    engine_command = some command;
    position_before = position_of (some e);
    position_after = none;
  }

  -- A request that names another enemy stops this one.
  unfoldable pub answer : String → Enemy scalar → ActionRequest → Plan → Plan
  answer enemy_id e request p =
      let translated = translate_action request.action in
      let obeyed = record p {
        directions = insert enemy_id (engine_command translated.0) p.directions;
        pending =
            insert enemy_id (result_of enemy_id request translated.1 translated.0 e) p.pending;
      } in
      let stopped = record p {
        directions = insert enemy_id EnemyMovementCommand.stop p.directions;
        pending = insert enemy_id (result_of enemy_id request invalid_target halt e) p.pending;
      } in
      if request.enemy_id == enemy_id then obeyed else stopped

  module _ (geometry : Geometry scalar) where
    -- The request of this tick for an existing enemy, and the kept ones after it.
    unfoldable pub request_for :
        AgentGameIntegration scalar
        → String
        → Enemy scalar
        → Option ActionRequest
        → Option (Controller scalar)
        → Dict String ActionRequest
        → ActionRequest × Dict String ActionRequest
    request_for g enemy_id e (some request) controller latest = (request, latest)
    request_for g enemy_id e none (some (fixed action)) latest =
        (record { enemy_id = enemy_id; action = some action; observation_sequence = none }, latest)
    request_for g enemy_id e none (some (decides decide)) latest =
        (decide (observe_enemy scalar geometry g.sight_distance g.engine e), latest)
    request_for g enemy_id e none none latest =
        spade_action_for g.engine.world_state.sequence_number g.action_max_age_ticks enemy_id
          (lookup enemy_id latest) latest

    -- One turn of the loop.
    unfoldable pub plan_enemy :
        AgentGameIntegration scalar
        → Dict String ActionRequest
        → String
        → Option (Enemy scalar)
        → Plan
        → Plan
    unfolding answer
    plan_enemy g requests enemy_id none p = record p {
      pending =
          insert enemy_id (refused enemy_id (lookup enemy_id requests) invalid_target) p.pending;
    }
    plan_enemy g requests enemy_id (some e) p =
        let asked =
          request_for g enemy_id e (lookup enemy_id requests) (lookup enemy_id g.controllers)
            p.latest in
        answer enemy_id e asked.0 (record p { latest = asked.1 })

    unfoldable pub plan_enemies :
        AgentGameIntegration scalar → Dict String ActionRequest → List String → Plan → Plan
    plan_enemies g requests [] p = p
    plan_enemies g requests (enemy_id ∷ rest) p = plan_enemies g requests rest (
        plan_enemy g requests enemy_id (lookup enemy_id g.engine.world_state.environment.enemies) p)

    -- `self.controllers.keys() | self.spade_controlled_enemy_ids`
    unfoldable pub controlled_ids : AgentGameIntegration scalar → List String
    controlled_ids g = set_of (
        map (λ (entry : String × Controller scalar). entry.0) g.controllers
        ++ g.spade_controlled_enemy_ids)

    -- Requests for enemies that are not under control are answered at once.
    unfoldable pub refuse_others :
        List String
        → Dict String ActionRequest
        → Dict String (ActionResult scalar)
        → Dict String (ActionResult scalar)
    refuse_others controlled [] pending = pending
    refuse_others controlled ((enemy_id, request) ∷ rest) pending = refuse_others controlled rest (
        if elem enemy_id controlled
        then pending
        else insert enemy_id (refused enemy_id (some request) invalid_target) pending)

    -- The plan of an enabled tick: the queued actions are drained first.
    unfoldable pub plan_of : Dict String ActionRequest → AgentGameIntegration scalar → Plan
    plan_of requests g =
        let current = g.engine.world_state.sequence_number in
        let latest =
          drain_actions g.spade_controlled_enemy_ids current g.action_max_age_ticks
            g.bridge.action_requests g.latest_spade_actions in
        plan_enemies g requests (controlled_ids g)
          (record { directions = []; pending = []; latest = latest })

    unfoldable pub publish_perceptions :
        ℕ
        → AgentGameIntegration scalar
        → List String
        → SpadeAgentBridge scalar
        → SpadeAgentBridge scalar
    publish_perceptions sequence g [] b = b
    publish_perceptions sequence g (enemy_id ∷ rest) b =
        publish_perceptions sequence g rest
          (perceive (lookup enemy_id g.engine.world_state.environment.enemies))
      where
        perceive : Option (Enemy scalar) → SpadeAgentBridge scalar
        perceive none = b
        perceive (some e) =
            publish scalar
              (record {
                simulation_sequence = sequence;
                perception = observe_enemy scalar geometry g.sight_distance g.engine e;
              })
              b

    unfoldable pub publish_when_due : AgentGameIntegration scalar → AgentGameIntegration scalar
    unfolding publish_perceptions
    publish_when_due g =
        let sequence = g.engine.world_state.sequence_number in
        let published = record g {
          bridge =
              publish_perceptions sequence g
                (sorted_by (λ enemy_id. enemy_id) g.spade_controlled_enemy_ids) g.bridge;
        } in
        if sequence % g.perception_interval_ticks == 0 then published else g

    -- The results, each with the position of its enemy after the tick.
    unfoldable pub with_positions :
        Dict String (Enemy scalar)
        → Dict String (ActionResult scalar)
        → Dict String (ActionResult scalar)
    with_positions enemies [] = []
    with_positions enemies ((enemy_id, result) ∷ rest) =
        (enemy_id, record result { position_after = position_of (lookup enemy_id enemies) })
        ∷ with_positions enemies rest

    unfoldable pub tick_disabled :
        ℕ
        → Number
        → List (String × InputState)
        → Dict String ActionRequest
        → AgentGameIntegration scalar
        → AgentGameIntegration scalar
    tick_disabled now dt inputs requests g = record g {
      latest_spade_actions = [];
      bridge = discard_perceptions scalar (record (g.bridge) { action_requests = [] });
      engine = tick scalar now dt inputs [] g.engine;
      last_results =
          map
            (λ (entry : String × ActionRequest).
              (entry.0, refused entry.0 (some (entry.1)) disabled))
            requests;
    }

    unfoldable pub tick_enabled :
        ℕ
        → Number
        → List (String × InputState)
        → Dict String ActionRequest
        → AgentGameIntegration scalar
        → AgentGameIntegration scalar
    unfolding plan_of refuse_others publish_when_due with_positions
    tick_enabled now dt inputs requests g =
        let p = plan_of requests g in
        let pending = refuse_others (controlled_ids g) requests p.pending in
        let ticked = record g {
          bridge = record (g.bridge) { action_requests = [] };
          latest_spade_actions = p.latest;
          engine = tick scalar now dt inputs p.directions g.engine;
        } in
        let published = publish_when_due ticked in
        record published {
          last_results = with_positions published.engine.world_state.environment.enemies pending;
        }

    -- A tick of the simulation, with the agents' commands if they are enabled.
    unfoldable pub tick_agents :
        ℕ
        → Number
        → List (String × InputState)
        → Dict String ActionRequest
        → AgentGameIntegration scalar
        → AgentGameIntegration scalar
    unfolding tick_enabled tick_disabled
    tick_agents now dt inputs requests g =
        if g.enabled
        then tick_enabled now dt inputs requests g
        else tick_disabled now dt inputs requests g
