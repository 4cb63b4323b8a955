-- ===== src/Domain/Reset.antt =====
-- Who is left after the reset of a run.
use mas_dsmb.Prelude.{◌≡◌, ◌||◌, String, Bool, false, arith}
use mas_dsmb.Domain.Scalar.{Scalar}
use mas_dsmb.Domain.World.{load_level}
use mas_dsmb.Domain.Players.{GameEngine, over_players, emit, over_values}
use mas_dsmb.Domain.Engine.{reset_for_new_run, back_to_spawn}
use mas_dsmb.Domain.Kept.{has_key, has_key-over_values, is_known}

or_false : (b c : Bool) → b ≡ c → (b || false) ≡ c
or_false b c h = ground arith

module _ (scalar : Scalar) where
  -- After the reset of a run the known players are those that were in the world: a player that waited
  -- to respawn is neither in the world nor waiting.
  pub reset_for_new_run-is_known :
      (g : GameEngine scalar) (id : String)
      → is_known scalar id (reset_for_new_run scalar g).world_state
        ≡ has_key id g.world_state.characters
  unfolding reset_for_new_run load_level emit over_players
  reset_for_new_run-is_known g id =
      or_false (has_key id (over_values (back_to_spawn scalar g) g.world_state.characters))
        (has_key id g.world_state.characters)
        (has_key-over_values id (back_to_spawn scalar g) g.world_state.characters)
