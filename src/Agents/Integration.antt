-- ===== src/Agents/Integration.antt =====
-- `AgentGameIntegration` of src/distributed_smb/application/agent_integration.py: the commands that
-- the agents give in a tick of the simulation. A controller is an action, or a function of what the
-- enemy sees that belongs to no code of the program. A result's text is left out.
use mas_dsmb.Prelude.{
  ◌-◌, ◌*◌, ◌&&◌, ◌∷◌, if◌then◌else◌, ℕ, String, Bool, true, false, not, Option, none, some, List,
  [], ltb, leb, elem, set_add, set_discard, Dict, lookup, insert, erase, Result, ok, err, nat_Eq,
  text_Eq,
}
use mas_dsmb.Domain.Scalar.{Scalar}
use mas_dsmb.Domain.World.{Enemy}
use mas_dsmb.Domain.Enemies.{EnemyMovementCommand}
use mas_dsmb.Domain.Players.{GameEngine}
use mas_dsmb.Agents.{
  EnemyAction, move_left, move_right, stop, jump, MovementCommand, left, right, halt, ActionStatus,
  applied, unsupported, invalid_action, ActionRequest, ActionResult, GoombaPerception,
}
use mas_dsmb.Agents.Bridge.{SpadeAgentBridge}

pub data AgentError : Type 0 where
  enemy_not_found already_controlled bad_interval bad_age : AgentError

unfoldable pub translate_action : Option EnemyAction → MovementCommand × ActionStatus
translate_action (some move_left) = (left, applied)
translate_action (some move_right) = (right, applied)
translate_action (some stop) = (halt, applied)
translate_action (some jump) = (halt, unsupported)
translate_action none = (halt, invalid_action)

unfoldable pub engine_command : MovementCommand → EnemyMovementCommand
engine_command left = EnemyMovementCommand.move_left
engine_command right = EnemyMovementCommand.move_right
engine_command halt = EnemyMovementCommand.stop

-- An observation of this tick or of at most `max_age` ticks before.
unfoldable pub is_fresh : ℕ → ℕ → ℕ → Bool
is_fresh current max_age observed = leb observed current && leb (current - observed) max_age

unfoldable pub supersedes : ℕ → Option ActionRequest → Bool
supersedes observed none = true
supersedes observed (some previous) = elim previous.observation_sequence [
  | none ↦ true
  | some earlier ↦ leb earlier observed
]

-- One turn of `_drain_spade_actions`.
unfoldable pub take_action :
    List String
    → ℕ
    → ℕ
    → Option ℕ
    → ActionRequest
    → Dict String ActionRequest
    → Dict String ActionRequest
unfolding is_fresh supersedes
take_action controlled current max_age none request latest = latest
take_action controlled current max_age (some observed) request latest =
    if elem request.enemy_id controlled
      && is_fresh current max_age observed
      && supersedes observed (lookup request.enemy_id latest)
    then insert request.enemy_id request latest
    else latest

unfoldable pub drain_actions :
    List String → ℕ → ℕ → List ActionRequest → Dict String ActionRequest → Dict String ActionRequest
unfolding take_action
drain_actions controlled current max_age [] latest = latest
drain_actions controlled current max_age (request ∷ rest) latest =
    drain_actions controlled current max_age rest
      (take_action controlled current max_age request.observation_sequence request latest)

abbrev pub stop_request : String → ActionRequest
stop_request enemy_id = record {
  enemy_id = enemy_id;
  action = some stop;
  observation_sequence = none;
}

-- `current - observed > max_age` of whole numbers fails if `observed` is later.
unfoldable pub still_valid : ℕ → ℕ → Option ℕ → Bool
still_valid current max_age none = false
still_valid current max_age (some observed) = leb (current - observed) max_age

-- `_spade_action_for`: the request, and the kept ones after it.
unfoldable pub spade_action_for :
    ℕ
    → ℕ
    → String
    → Option ActionRequest
    → Dict String ActionRequest
    → ActionRequest × Dict String ActionRequest
unfolding still_valid
spade_action_for current max_age enemy_id none latest =
    (stop_request enemy_id, erase enemy_id latest)
spade_action_for current max_age enemy_id (some request) latest =
    if still_valid current max_age request.observation_sequence
    then (request, latest)
    else (stop_request enemy_id, erase enemy_id latest)

-- `key in d`
abbrev pub is_key : {A : Type 0} → String → Dict String A → Bool
is_key key d = elim (lookup key d) [ none ↦ false | some _ ↦ true ]

module _ (scalar : Scalar) where
  open scalar use {Number}

  pub data Controller : Type 0 where
    fixed : EnemyAction → Controller
    decides : (GoombaPerception scalar → ActionRequest) → Controller

  pub record AgentGameIntegration : Type 0 where
    pub engine : GameEngine scalar
    pub enabled : Bool
    pub sight_distance : Number
    pub perception_interval_ticks : ℕ
    pub action_max_age_ticks : ℕ
    pub controllers : Dict String Controller
    pub spade_controlled_enemy_ids : List String
    pub bridge : SpadeAgentBridge scalar
    pub last_results : Dict String (ActionResult scalar)
    pub latest_spade_actions : Dict String ActionRequest

  abbrev enemies_of : AgentGameIntegration → Dict String (Enemy scalar)
  enemies_of g = g.engine.world_state.environment.enemies

  -- The checks of the constructor, and the default of the greatest age.
  unfoldable pub max_age : ℕ → Option ℕ → Result AgentError ℕ
  max_age interval none = if ltb interval 1 then err bad_interval else ok (2 * interval)
  max_age interval (some age) = if ltb interval 1 then err bad_interval else ok age

  unfoldable pub control_enemy :
      String → Controller → AgentGameIntegration → Result AgentError AgentGameIntegration
  control_enemy enemy_id controller g =
      if is_key enemy_id (enemies_of g)
      then ok (record g {
        spade_controlled_enemy_ids = set_discard enemy_id g.spade_controlled_enemy_ids;
        controllers = insert enemy_id controller g.controllers;
      })
      else err enemy_not_found

  unfoldable pub control_enemy_with_spade :
      String → AgentGameIntegration → Result AgentError AgentGameIntegration
  control_enemy_with_spade enemy_id g =
      if not (is_key enemy_id (enemies_of g))
      then err enemy_not_found
      else if is_key enemy_id g.controllers
      then err already_controlled
      else ok
          (record g { spade_controlled_enemy_ids = set_add enemy_id g.spade_controlled_enemy_ids })

  unfoldable pub release_enemy : String → AgentGameIntegration → AgentGameIntegration
  release_enemy enemy_id g = record g {
    controllers = erase enemy_id g.controllers;
    spade_controlled_enemy_ids = set_discard enemy_id g.spade_controlled_enemy_ids;
    latest_spade_actions = erase enemy_id g.latest_spade_actions;
  }
