-- ===== src/Domain/World.antt =====
-- src/distributed_smb/domain/{entity,events,world}.py, shared/input.py and the level of
-- domain/level.py as it is once parsed. Times are whole milliseconds. The `contributions` of a gate
-- and the type of an enemy, which the engine neither reads nor changes, and decorations are left out;
-- a level's spawn points and size are fields of the engine, where its constructor copies them.
use mas_dsmb.Prelude.{
  ◌∷◌, ℕ, String, Bool, false, Option, none, List, [], length, Dict, lookup, insert, erase, nat_Eq,
  text_Eq,
}
use mas_dsmb.Domain.Scalar.{Scalar}

pub record InputState : Type 0 where
  pub left : Bool
  pub right : Bool
  pub jump : Bool
  pub down : Bool

-- The state of a gate: the texts "closed" and "open".
pub data GateState : Type 0 where
  closed opened : GateState

-- A dictionary of the listed values, each under its own key; `d` is what is there already.
unfoldable pub keyed : {V : Type 0} → (V → String) → List V → Dict String V → Dict String V
keyed key [] d = d
keyed key (v ∷ rest) d = keyed key rest (insert (key v) v d)

module _ (scalar : Scalar) where
  open scalar use {Number}

  -- What `check_collision` and `resolve_collision` read of a thing.
  pub record Box : Type 0 where
    pub x : Number
    pub y : Number
    pub width : Number
    pub height : Number

  pub record DestructibleBlock : Type 0 where
    pub box : Box
    pub destroyed : Bool

  pub record ExclusivePowerUp : Type 0 where
    pub box : Box
    pub powerup_id : String
    pub collected : Bool
    pub owner : Option String

  pub record CooperativeGate : Type 0 where
    pub box : Box
    pub gate_id : String
    pub state : GateState
    pub coins_required : ℕ
    pub blocks_required : ℕ
    pub enemies_required : ℕ
    pub is_final : Bool

  pub record Enemy : Type 0 where
    pub enemy_id : String
    pub box : Box
    pub vx : Number
    pub left_bound : Number
    pub right_bound : Number
    pub movement_speed : Option Number

  pub record Player : Type 0 where
    pub player_id : String
    pub box : Box
    pub vx : Number
    pub vy : Number
    pub on_ground : Bool
    pub is_crouching : Bool
    pub prev_x : Number
    pub prev_y : Number
    pub join_index : ℕ
    pub powerup_effect_expires_at : Option ℕ

  -- `domain/events.py`
  pub data Event : Type 0 where
    block_destroyed : Number → Number → Event
    power_up_collected : String → String → Event
    gate_state_changed : String → GateState → Event
    player_death : String → String → Event
    level_reset : Event

  pub record EnvironmentalState : Type 0 where
    pub destructible_blocks : List DestructibleBlock
    pub power_ups : Dict String ExclusivePowerUp
    pub enemies : Dict String Enemy
    pub cooperative_gates : Dict String CooperativeGate

  pub record WorldState : Type 0 where
    pub sequence_number : ℕ
    pub characters : Dict String Player
    pub environment : EnvironmentalState
    pub coins_collected : ℕ
    pub coins_to_win : ℕ
    pub blocks_destroyed : ℕ
    pub blocks_to_win : ℕ
    pub enemies_defeated : ℕ
    pub enemies_to_win : ℕ
    pub initial_enemy_count : ℕ
    pub victory : Bool
    pub victory_player_id : Option String
    pub respawn_timers : Dict String ℕ

  pub record Level : Type 0 where
    pub platforms : List Box
    pub blocks : List DestructibleBlock
    pub powerups : List ExclusivePowerUp
    pub enemies : List Enemy
    pub gates : List CooperativeGate
    pub coins_to_win : ℕ
    pub blocks_to_win : ℕ
    pub enemies_to_win : ℕ

  -- `WorldState.load_level`
  unfoldable pub load_level : Level → WorldState → WorldState
  load_level level w = record w {
    environment = record {
      destructible_blocks = level.blocks;
      power_ups = keyed (λ p. p.powerup_id) level.powerups [];
      enemies = keyed (λ e. e.enemy_id) level.enemies [];
      cooperative_gates = keyed (λ g. g.gate_id) level.gates [];
    };
    coins_collected = 0;
    coins_to_win = level.coins_to_win;
    blocks_destroyed = 0;
    blocks_to_win = level.blocks_to_win;
    enemies_defeated = 0;
    enemies_to_win = level.enemies_to_win;
    initial_enemy_count = length level.enemies;
    victory = false;
    victory_player_id = none;
  }

  -- `WorldState.add_player`, `remove_player` and `get_player`
  unfoldable pub add_player : Player → WorldState → WorldState
  add_player p w = record w { characters = insert p.player_id p w.characters }

  unfoldable pub remove_player : String → WorldState → WorldState
  remove_player player_id w = record w { characters = erase player_id w.characters }

  unfoldable pub get_player : String → WorldState → Option Player
  get_player player_id w = lookup player_id w.characters
