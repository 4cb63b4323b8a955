-- ===== src/Tests/Agents.antt =====
-- Agents on small inputs.
use mas_dsmb.Prelude.{◌≡◌, ◌∷◌, pos, ℕ, String, true, some, [], arith, Dict}
use mas_dsmb.Agents.{move_left, stop, ActionRequest}
use mas_dsmb.Agents.Bridge.{put_latest}
use mas_dsmb.Agents.Queue.{put_latest-drop}
use mas_dsmb.Agents.Perception.{Geometry}
use mas_dsmb.Agents.Integration.{AgentGameIntegration, fixed}
use mas_dsmb.Agents.Commands.{TicksWithCommands, tick_agents-commands}
use mas_dsmb.Domain.World.{Enemy}
use mas_dsmb.Tests.Integers.{integers}
use mas_dsmb.Tests.Engine.{engine}

-- Three items in a queue of two: the two oldest go.
put_latest-drop_example : put_latest {A = ℕ} 2 4 9 (1 ∷ 2 ∷ 3 ∷ []) 5 ≡ some (3 ∷ 9 ∷ [], 7)
put_latest-drop_example = put_latest-drop 2 4 9 (1 ∷ 2 ∷ 3 ∷ []) 5 (omega arith) (omega arith)

abbrev goomba : Enemy integers
goomba = record {
  enemy_id = "goomba-1";
  box = record { x = pos 300; y = pos 500; width = pos 32; height = pos 32 };
  vx = pos 50;
  left_bound = pos 200;
  right_bound = pos 600;
  movement_speed = some (pos 50);
}

-- Division and length of a vector, coarsely.
abbrev coarse : Geometry integers
coarse = record { divide = λ a b. a; hypot = λ a b. a }

abbrev agents : AgentGameIntegration integers
agents = record {
  engine = record engine {
    world_state = record (engine.world_state) {
      environment = record (engine.world_state.environment) {
        enemies = ("goomba-1", goomba) ∷ ("goomba-2", goomba) ∷ [];
      };
    };
  };
  enabled = true;
  sight_distance = pos 200;
  perception_interval_ticks = 5;
  action_max_age_ticks = 10;
  controllers = ("goomba-1", fixed move_left) ∷ ("gone", fixed stop) ∷ [];
  spade_controlled_enemy_ids = [];
  bridge = record {
    perceptions = [];
    action_requests = [];
    dropped_perceptions = 0;
    dropped_actions = 0;
  };
  last_results = [];
  latest_spade_actions = [];
}

abbrev requests : Dict String ActionRequest
requests = []

tick_agents-commands_example : TicksWithCommands integers coarse 0 (pos 1) [] requests agents
tick_agents-commands_example = tick_agents-commands integers coarse 0 (pos 1) [] requests agents
