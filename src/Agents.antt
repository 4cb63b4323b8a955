-- ===== src/Agents.antt =====
-- The contracts of the enemies' agents: src/distributed_smb/agents/models.py and the pursuit of
-- agents/controller.py. An action that is none of `EnemyAction` is `none`; the text of a result and
-- its enumerations' values are left out.
pub mod Bridge
pub mod Perception
pub mod Integration
pub mod Tick
pub mod Queue
pub mod Commands
use mas_dsmb.Prelude.{
  ◌&&◌, ◌||◌, ◌∷◌, if◌then◌else◌, ℕ, String, Bool, true, false, not, Option, none, some, List, [],
  map,
}
use mathlib.Core.Option
use mas_dsmb.Domain.Scalar.{Scalar, lt}
use Prim.Native.String.{compare as compare_texts}
use Prim.Native.Nat.{Ordering}

pub data ObstacleKind : Type 0 where
  platform block : ObstacleKind

pub data SightDirection : Type 0 where
  to_left to_right : SightDirection

pub data EnemyAction : Type 0 where
  move_left move_right stop jump : EnemyAction

pub data MovementCommand : Type 0 where
  left right halt : MovementCommand

pub data ActionStatus : Type 0 where
  applied unsupported invalid_action invalid_target disabled : ActionStatus

pub record ActionRequest : Type 0 where
  pub enemy_id : String
  pub action : Option EnemyAction
  pub observation_sequence : Option ℕ

-- `a <= b` of texts
abbrev pub text_leb : String → String → Bool
text_leb a b = elim (compare_texts a b) [ Ordering.gt ↦ false | _ ↦ true ]

-- An element goes in front of the first one whose key is not smaller: the sort is stable.
unfoldable pub insert_by : {A : Type 0} → (A → String) → A → List A → List A
insert_by key a [] = a ∷ []
insert_by key a (x ∷ rest) =
    let later = insert_by key a rest in if text_leb (key a) (key x) then a ∷ x ∷ rest else x ∷ later

-- `sorted(values, key=...)`
unfoldable pub sorted_by : {A : Type 0} → (A → String) → List A → List A
unfolding insert_by
sorted_by key [] = []
sorted_by key (a ∷ rest) = insert_by key a (sorted_by key rest)

module _ (scalar : Scalar) where
  open scalar use {Number, plus, minus, times, neg}

  pub record Position : Type 0 where
    pub x : Number
    pub y : Number

  pub record ObstacleObservation : Type 0 where
    pub kind : ObstacleKind
    pub x : Number
    pub y : Number
    pub width : Number
    pub height : Number

  pub record PlayerPerception : Type 0 where
    pub player_id : String
    pub position : Position
    pub width : Number
    pub height : Number

  pub record GoombaPerception : Type 0 where
    pub goomba_id : String
    pub position : Position
    pub direction : SightDirection
    pub visible_players : List PlayerPerception
    pub visible_obstacles : List ObstacleObservation

  pub record GoombaPerceptionMessage : Type 0 where
    pub simulation_sequence : ℕ
    pub perception : GoombaPerception

  pub record ActionResult : Type 0 where
    pub enemy_id : String
    pub requested_action : Option EnemyAction
    pub status : ActionStatus
    pub engine_command : Option MovementCommand
    pub position_before : Option Position
    pub position_after : Option Position

  -- The square of the distance.
  unfoldable pub distance : Position → PlayerPerception → Number
  distance from p =
      let dx = minus p.position.x from.x in
      let dy = minus p.position.y from.y in plus (times dx dx) (times dy dy)

  -- The key `(distance, player_id)` of `a` is smaller than that of `b`.
  unfoldable pub is_nearer : Position → PlayerPerception → PlayerPerception → Bool
  unfolding distance
  is_nearer from a b =
      lt scalar (distance from a) (distance from b)
      || (not (lt scalar (distance from b) (distance from a))
          && not (text_leb b.player_id a.player_id))

  unfoldable pub nearest : Position → PlayerPerception → List PlayerPerception → PlayerPerception
  unfolding is_nearer
  nearest from best [] = best
  nearest from best (p ∷ rest) =
      let with_p = nearest from p rest in
      let without_p = nearest from best rest in if is_nearer from p best then with_p else without_p

  unfoldable pub nearest_of : Position → List PlayerPerception → Option PlayerPerception
  unfolding nearest
  nearest_of from [] = none
  nearest_of from (p ∷ rest) = some (nearest from p rest)

  -- `_nearest_visible_player`
  unfoldable pub nearest_visible_player : GoombaPerception → Option PlayerPerception
  unfolding nearest_of
  nearest_visible_player seen = nearest_of seen.position seen.visible_players

  unfoldable pub target_player_id : GoombaPerception → Option String
  target_player_id seen = Option.map (λ p. p.player_id) (nearest_visible_player seen)

  unfoldable pub mario_position : GoombaPerception → Option Position
  mario_position seen = Option.map (λ p. p.position) (nearest_visible_player seen)

  -- `PursuitController.decide` with its `horizontal_deadband`
  unfoldable pub pursue : Number → Number → Option Position → EnemyAction
  pursue deadband own none = stop
  pursue deadband own (some target) =
      let delta_x = minus target.x own in
      if lt scalar deadband delta_x
      then move_right
      else if lt scalar delta_x (neg deadband)
      then move_left
      else stop

  unfoldable pub decide : Number → GoombaPerception → ActionRequest
  unfolding pursue
  decide deadband seen = record {
    enemy_id = seen.goomba_id;
    action = some (pursue deadband seen.position.x (mario_position seen));
    observation_sequence = none;
  }
