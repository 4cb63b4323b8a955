-- ===== src/Agents/Perception.antt =====
-- `EnemyPerceptor` of src/distributed_smb/application/agent_integration.py: what an enemy sees. The
-- division and the length of a vector, of the language and its library, are parameters.
use mas_dsmb.Prelude.{
  ◌+◌, ◌&&◌, ◌||◌, ◌∷◌, ◌++◌, ◌==◌, if◌then◌else◌, ℕ, Bool, true, false, not, Option, none, some,
  List, [], map, filter, nat_Eq, text_Eq,
}
use mas_dsmb.Agents.{
  ObstacleKind, platform, block, SightDirection, to_left, to_right, Position, ObstacleObservation,
  PlayerPerception, GoombaPerception, sorted_by,
}
use mas_dsmb.Domain.Scalar.{Scalar, lt, of_nat, larger, smaller}
use mas_dsmb.Domain.World.{Box, DestructibleBlock, Enemy, Player}
use mas_dsmb.Domain.Players.{GameEngine}
use mas_dsmb.Domain.Collisions.{bottom_edge, right_edge}

module _ (scalar : Scalar) where
  open scalar use {Number, ratio, plus, minus, times, le}

  pub record Geometry : Type 0 where
    pub divide : Number → Number → Number
    pub hypot : Number → Number → Number

  abbrev zero_number : Number
  zero_number = of_nat scalar 0

  abbrev one_number : Number
  one_number = of_nat scalar 1

  -- The two positions at which a line enters and leaves a range.
  abbrev pub Interval : Type 0
  Interval = Number × Number

  -- `not (entry > exit)`
  unfoldable pub checked : Interval → Option Interval
  checked (entry, exit) = if lt scalar exit entry then none else some (entry, exit)

  unfoldable pub clip : Interval → Number → Number → Option Interval
  unfolding checked
  clip (entry, exit) first second =
      let nearer = if lt scalar second first then second else first in
      let farther = if lt scalar second first then first else second in
      checked (larger scalar entry nearer, smaller scalar exit farther)

  module _ (geometry : Geometry) where
    open geometry use {divide, hypot}

    -- One turn of the loop over the two axes.
    unfoldable pub clip_axis : Number → Number → Number → Number → Interval → Option Interval
    unfolding clip
    clip_axis origin delta minimum maximum interval =
        let outside = lt scalar origin minimum || lt scalar maximum origin in
        let crossed =
          clip interval (divide (minus minimum origin) delta)
            (divide (minus maximum origin) delta) in
        if le delta zero_number && le zero_number delta
        then (if outside then none else some interval)
        else crossed

    unfoldable pub then_axis : Number → Number → Number → Number → Option Interval → Option Interval
    then_axis origin delta minimum maximum none = none
    then_axis origin delta minimum maximum (some interval) =
        clip_axis origin delta minimum maximum interval

    unfoldable pub segment_rectangle_intersection :
        Position scalar → Position scalar → Box scalar → Option Interval
    unfolding clip_axis then_axis
    segment_rectangle_intersection start end rectangle =
        let across =
          clip_axis start.x (minus end.x start.x) rectangle.x (right_edge scalar rectangle)
            (zero_number, one_number) in
        then_axis start.y (minus end.y start.y) rectangle.y (bottom_edge scalar rectangle) across

    abbrev tiny : Number
    tiny = ratio 1 1000000000

    -- The interior of the line meets the rectangle.
    unfoldable pub cuts : Option Interval → Bool
    cuts none = false
    cuts (some (entry, exit)) = lt scalar entry (minus one_number tiny) && lt scalar tiny exit

    abbrev pub box_of : ObstacleObservation scalar → Box scalar
    box_of o = record { x = o.x; y = o.y; width = o.width; height = o.height }

    unfoldable pub is_ignored : Option ℕ → ℕ → Bool
    is_ignored none index = false
    is_ignored (some ignored) index = index == ignored

    -- `_has_clear_line` from the obstacle with this index on.
    unfoldable pub clear_from :
        Position scalar → Position scalar → Option ℕ → ℕ → List (ObstacleObservation scalar) → Bool
    unfolding is_ignored cuts
    clear_from origin target ignored index [] = true
    clear_from origin target ignored index (o ∷ rest) =
        let clear = clear_from origin target ignored (index + 1) rest in
        if is_ignored ignored index
        then clear
        else if cuts (segment_rectangle_intersection origin target (box_of o))
        then false
        else clear

    unfoldable pub has_clear_line :
        Position scalar → Position scalar → List (ObstacleObservation scalar) → Option ℕ → Bool
    has_clear_line origin target obstacles ignored = clear_from origin target ignored 0 obstacles

    abbrev pub center_of : Box scalar → Position scalar
    center_of b = record {
      x = plus b.x (divide b.width (of_nat scalar 2));
      y = plus b.y (divide b.height (of_nat scalar 2));
    }

    unfoldable pub is_forward : SightDirection → Number → Bool
    is_forward to_left delta_x = le delta_x zero_number
    is_forward to_right delta_x = le zero_number delta_x

    unfoldable pub is_in_sight : Number → Position scalar → Position scalar → SightDirection → Bool
    unfolding is_forward
    is_in_sight sight_distance origin target direction =
        let delta_x = minus target.x origin.x in
        is_forward direction delta_x && le (hypot delta_x (minus target.y origin.y)) sight_distance

    unfoldable pub can_see_player :
        Number
        → Position scalar
        → SightDirection
        → List (ObstacleObservation scalar)
        → Player scalar
        → Bool
    can_see_player sight_distance origin direction obstacles p =
        is_in_sight sight_distance origin (center_of p.box) direction
        && has_clear_line origin (center_of p.box) obstacles none

    -- `_visible_obstacles` from this index on
    unfoldable pub visible_from :
        Number
        → Position scalar
        → SightDirection
        → List (ObstacleObservation scalar)
        → ℕ
        → List (ObstacleObservation scalar)
        → List (ObstacleObservation scalar)
    visible_from sight_distance origin direction obstacles index [] = []
    visible_from sight_distance origin direction obstacles index (o ∷ rest) =
        let more = visible_from sight_distance origin direction obstacles (index + 1) rest in
        if is_in_sight sight_distance origin (center_of (box_of o)) direction
          && has_clear_line origin (center_of (box_of o)) obstacles (some index)
        then o ∷ more
        else more

    abbrev pub perceive_player : Player scalar → PlayerPerception scalar
    perceive_player p = record {
      player_id = p.player_id;
      position = record { x = p.box.x; y = p.box.y };
      width = p.box.width;
      height = p.box.height;
    }

    abbrev pub obstacle : ObstacleKind → Box scalar → ObstacleObservation scalar
    obstacle kind b = record { kind = kind; x = b.x; y = b.y; width = b.width; height = b.height }

    unfoldable pub obstacle_candidates : GameEngine scalar → List (ObstacleObservation scalar)
    obstacle_candidates g =
        map (obstacle platform) g.platforms
        ++ map (λ (b : DestructibleBlock scalar). obstacle block b.box)
            (filter (λ b. not b.destroyed) g.world_state.environment.destructible_blocks)

    -- What the enemy sees that is found under an id.
    unfoldable pub observe_enemy :
        Number → GameEngine scalar → Enemy scalar → GoombaPerception scalar
    unfolding obstacle_candidates can_see_player visible_from
    observe_enemy sight_distance g e =
        let obstacles = obstacle_candidates g in
        let origin = center_of e.box in
        let direction = if lt scalar e.vx zero_number then to_left else to_right in
        let players =
          sorted_by (λ (p : Player scalar). p.player_id)
            (map (λ entry. entry.1) g.world_state.characters) in
        record {
          goomba_id = e.enemy_id;
          position = record { x = e.box.x; y = e.box.y };
          direction = direction;
          visible_players =
              map perceive_player
                (filter (can_see_player sight_distance origin direction obstacles) players);
          visible_obstacles = visible_from sight_distance origin direction obstacles 0 obstacles;
        }
