-- ===== src/Prediction/Engine.antt =====
-- The game engine is a simulation that the prediction may run: one predicted tick is a tick of the
-- engine with the local player's input alone (`_run_predicted_ticks` of
-- src/distributed_smb/application/gameplay/client.py), and a snapshot gives its world to an engine
-- that keeps its own blocks, power-ups and gates. The clock is one reading for the whole replay.
use mas_dsmb.Prelude.{◌≡◌, ◌∷◌, ℕ, String, refl, []}
use mas_dsmb.Prediction.{Simulation}
use mas_dsmb.Domain.Scalar.{Scalar}
use mas_dsmb.Domain.World.{InputState, WorldState, EnvironmentalState}
use mas_dsmb.Domain.Players.{GameEngine}
use mas_dsmb.Domain.Engine.{tick}
use mas_dsmb.Domain.Frames.{sequence_number-tick}

module _ (scalar : Scalar) where
  -- The snapshot's environment, but for what the events of the game maintain.
  unfoldable pub own_objects :
      EnvironmentalState scalar → EnvironmentalState scalar → EnvironmentalState scalar
  own_objects mine theirs = record theirs {
    destructible_blocks = mine.destructible_blocks;
    power_ups = mine.power_ups;
    cooperative_gates = mine.cooperative_gates;
  }

  unfoldable pub rebase_world : WorldState scalar → WorldState scalar → WorldState scalar
  rebase_world mine theirs = record theirs {
    environment = own_objects mine.environment theirs.environment;
  }

  -- The client's engine on the snapshot's world; the snapshot is given by an engine that holds it.
  unfoldable pub rebase_engine : GameEngine scalar → GameEngine scalar → GameEngine scalar
  rebase_engine mine theirs = record mine {
    world_state = rebase_world mine.world_state theirs.world_state;
  }

  pub rebase-number :
      (mine theirs : GameEngine scalar)
      → (rebase_engine mine theirs).world_state.sequence_number ≡ theirs.world_state.sequence_number
  unfolding rebase_engine rebase_world
  rebase-number mine theirs = refl

  abbrev pub engine_simulation : String → ℕ → Simulation
  engine_simulation local_player_id now = record {
    World = GameEngine scalar;
    InputState = InputState;
    Duration = scalar.Number;
    sequence_number = λ g. g.world_state.sequence_number;
    tick = λ dt input g. tick scalar now dt ((local_player_id, input) ∷ []) [] g;
    rebase = rebase_engine;
    sequence_number-tick =
        λ dt input g. sequence_number-tick scalar now dt ((local_player_id, input) ∷ []) [] g;
    sequence_number-rebase = rebase-number;
  }
