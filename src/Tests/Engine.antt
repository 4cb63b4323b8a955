-- ===== src/Tests/Engine.antt =====
-- Tests of the game engine (src/distributed_smb/domain/game_engine.py).
use mas_dsmb.Prelude.{◌≡◌, ◌↔◌, ◌∷◌, pos, ℕ, String, refl, true, false, none, some, []}
use mas_dsmb.Tests.Integers.{integers}
use mas_dsmb.Domain.World.{
  Box, Player, ExclusivePowerUp, CooperativeGate, closed, WorldState, Level, InputState,
}
use mas_dsmb.Domain.Collisions.{check_collision}
use mas_dsmb.Domain.Objects.{meet_powerup, colliding, award, winner}
use mas_dsmb.Domain.Gates.{handle_gate_collisions, is_open}
use mas_dsmb.Domain.Players.{clamp_players_to_world, GameEngine}
use mas_dsmb.Domain.Engine.{tick, reset_for_new_run}
use mas_dsmb.Domain.Kept.{is_known, has_key}
use mas_dsmb.Domain.Frames.{sequence_number-tick, is_known-tick}
use mas_dsmb.Domain.Bounds.{InWorld, clamp_players_to_world-InWorld}
use mas_dsmb.Domain.Reset.{reset_for_new_run-is_known}
use mas_dsmb.Domain.Rules.{
  IsMet, AllOf, WonFairly, handle_gate_collisions-agree, meet_powerup-WonFairly,
}

abbrev box_at : ℕ → ℕ → Box integers
box_at x y = record { x = pos x; y = pos y; width = pos 75; height = pos 75 }

abbrev pub player : String → ℕ → ℕ → Player integers
player id index x = record {
  player_id = id;
  box = box_at x 100;
  vx = pos 0;
  vy = pos 0;
  on_ground = false;
  is_crouching = false;
  prev_x = pos x;
  prev_y = pos 100;
  join_index = index;
  powerup_effect_expires_at = none;
}

abbrev star : ExclusivePowerUp integers
star = record { box = box_at 120 120; powerup_id = "star-1"; collected = false; owner = none }

abbrev gate : CooperativeGate integers
gate = record {
  box = box_at 900 100;
  gate_id = "g";
  state = closed;
  coins_required = 0;
  blocks_required = 0;
  enemies_required = 1;
  is_final = true;
}

abbrev pub world : WorldState integers
world = record {
  sequence_number = 41;
  characters = ("player2", player "player2" 1 100) ∷ ("player1", player "player1" 0 130) ∷ [];
  environment = record {
    destructible_blocks = [];
    power_ups = ("star-1", star) ∷ [];
    enemies = [];
    cooperative_gates = ("g", gate) ∷ [];
  };
  coins_collected = 0;
  coins_to_win = 5;
  blocks_destroyed = 0;
  blocks_to_win = 0;
  enemies_defeated = 1;
  enemies_to_win = 0;
  initial_enemy_count = 1;
  victory = false;
  victory_player_id = none;
  respawn_timers = ("player3", 9000) ∷ [];
}

abbrev level : Level integers
level = record {
  platforms = [];
  blocks = [];
  powerups = star ∷ [];
  enemies = [];
  gates = gate ∷ [];
  coins_to_win = 5;
  blocks_to_win = 0;
  enemies_to_win = 0;
}

abbrev pub engine : GameEngine integers
engine = record {
  world_state = world;
  platforms = [];
  events = [];
  is_authoritative = true;
  world_width = pos 4000;
  world_height = pos 1000;
  spawn_points = [];
  respawn_join_index = ("player3", 2) ∷ [];
  level = level;
}

abbrev right : InputState
right = record { left = false; right = true; jump = false; down = false }

-- The player with the lower join index gets the star, though it comes second in the dictionary.
first_owner : (meet_powerup integers 1000 star world.characters).0.owner ≡ some "player1"
unfolding meet_powerup colliding check_collision award winner
first_owner = refl

sequence_number-tick_example :
    (tick integers 2000 (pos 1) (("player1", right) ∷ []) [] engine).world_state.sequence_number
    ≡ 42
sequence_number-tick_example =
    sequence_number-tick integers 2000 (pos 1) (("player1", right) ∷ []) [] engine

waits : is_known integers "player3" engine.world_state ≡ true
waits = refl

is_known-tick_example :
    is_known integers "player3"
      (tick integers 2000 (pos 1) (("player1", right) ∷ []) [] engine).world_state
    ≡ true
is_known-tick_example =
    is_known-tick integers 2000 (pos 1) (("player1", right) ∷ []) [] engine "player3" waits

handle_gate_collisions-agree_example :
    let w = (handle_gate_collisions integers engine).world_state in
    AllOf
      (λ (g : CooperativeGate integers). (is_open g.state ≡ true) ↔ IsMet integers w g)
      w.environment.cooperative_gates
handle_gate_collisions-agree_example = handle_gate_collisions-agree integers engine

touching :
    colliding integers star.box world.characters
    ≡ ("player2", player "player2" 1 100) ∷ ("player1", player "player1" 0 130) ∷ []
unfolding colliding check_collision
touching = refl

meet_powerup-WonFairly_example :
    WonFairly integers
      (("player2", player "player2" 1 100) ∷ ("player1", player "player1" 0 130) ∷ [])
      (meet_powerup integers 1000 star world.characters).0
meet_powerup-WonFairly_example =
    meet_powerup-WonFairly integers 1000 star world.characters ("player2", player "player2" 1 100)
      (("player1", player "player1" 0 130) ∷ []) refl touching

clamp_players_to_world-InWorld_example :
    AllOf (InWorld integers engine) (clamp_players_to_world integers engine).world_state.characters
clamp_players_to_world-InWorld_example = clamp_players_to_world-InWorld integers engine

-- The third player waits to respawn, and is lost.
reset_for_new_run-is_known_example :
    is_known integers "player3" (reset_for_new_run integers engine).world_state
    ≡ has_key "player3" world.characters
reset_for_new_run-is_known_example = reset_for_new_run-is_known integers engine "player3"

gone : has_key "player3" world.characters ≡ false
gone = refl
