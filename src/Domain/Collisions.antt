-- ===== src/Domain/Collisions.antt =====
-- src/distributed_smb/domain/collisions.py and physics.py: the overlap of two boxes, the four ways of
-- resolving it, and one step of motion.
use mas_dsmb.Prelude.{◌&&◌, ◌∷◌, if◌then◌else◌, ℕ, Bool, true, List, []}
use mas_dsmb.Domain.Scalar.{Scalar, lt, of_nat}
use mas_dsmb.Domain.World.{Box, Player}

-- `GRAVITY`, `MOVE_SPEED` and the size of `JUMP_FORCE`, which is negative: `WORLD_SCALE` is 1.5.
abbrev pub gravity : ℕ
gravity = 1500

abbrev pub move_speed : ℕ
move_speed = 300

abbrev pub jump_force : ℕ
jump_force = 675

module _ (scalar : Scalar) where
  open scalar use {Number, plus, minus, times, le}

  -- The far edges of a box.
  abbrev pub right_edge : Box scalar → Number
  right_edge b = plus b.x b.width

  abbrev pub bottom_edge : Box scalar → Number
  bottom_edge b = plus b.y b.height

  abbrev pub zero_speed : Number
  zero_speed = of_nat scalar 0

  unfoldable pub check_collision : Box scalar → Box scalar → Bool
  check_collision a b =
      lt scalar a.x (right_edge b)
      && lt scalar b.x (right_edge a)
      && lt scalar a.y (bottom_edge b)
      && lt scalar b.y (bottom_edge a)

  abbrev pub move_x : Number → Player scalar → Player scalar
  move_x x p = record p { box = record (p.box) { x = x } }

  abbrev pub move_y : Number → Player scalar → Player scalar
  move_y y p = record p { box = record (p.box) { y = y } }

  -- Landing on the platform.
  unfoldable pub resolve_top : Box scalar → Player scalar → Player scalar
  resolve_top b p =
      if lt scalar zero_speed p.vy && le (plus p.prev_y p.box.height) b.y
      then record (move_y (minus b.y p.box.height) p) { vy = zero_speed; on_ground = true }
      else p

  -- A bump of the head.
  unfoldable pub resolve_bottom : Box scalar → Player scalar → Player scalar
  resolve_bottom b p =
      if lt scalar p.vy zero_speed then record (move_y (bottom_edge b) p) { vy = zero_speed } else p

  unfoldable pub resolve_left : Box scalar → Player scalar → Player scalar
  resolve_left b p =
      if lt scalar zero_speed p.vx
      then record (move_x (minus b.x p.box.width) p) { vx = zero_speed }
      else p

  unfoldable pub resolve_right : Box scalar → Player scalar → Player scalar
  resolve_right b p =
      if lt scalar p.vx zero_speed then record (move_x (right_edge b) p) { vx = zero_speed } else p

  pub data Side : Type 0 where
    top bottom left right : Side

  -- `min(sides, key = ...)`: the first side whose overlap no later one is under.
  unfoldable pub least : Side → Number → List (Side × Number) → Side
  least side overlap [] = side
  least side overlap ((other, o) ∷ rest) =
      let kept = least side overlap rest in
      let replaced = least other o rest in if lt scalar o overlap then replaced else kept

  unfoldable pub overlaps : Box scalar → Box scalar → List (Side × Number)
  overlaps a b =
      (bottom, minus (bottom_edge b) a.y)
      ∷ (left, minus (right_edge a) b.x)
      ∷ (right, minus (right_edge b) a.x)
      ∷ []

  unfoldable pub nearest_side : Box scalar → Box scalar → Side
  nearest_side a b = least top (minus (bottom_edge a) b.y) (overlaps a b)

  unfoldable pub resolve_at : Side → Box scalar → Player scalar → Player scalar
  resolve_at top = resolve_top
  resolve_at bottom = resolve_bottom
  resolve_at left = resolve_left
  resolve_at right = resolve_right

  unfoldable pub resolve_collision : Box scalar → Player scalar → Player scalar
  resolve_collision b p = resolve_at (nearest_side p.box b) b p

  unfoldable pub apply_physics : Number → Player scalar → Player scalar
  apply_physics dt p =
      let vy = plus p.vy (times (of_nat scalar gravity) dt) in
      record p {
        vy = vy;
        box = record (p.box) { x = plus p.box.x (times p.vx dt); y = plus p.box.y (times vy dt) };
      }
