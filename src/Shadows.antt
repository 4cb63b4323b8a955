-- ===== src/Shadows.antt =====
-- The smoothed display of remote players: src/distributed_smb/domain/shadow_copy.py, its adapter
-- application/reconciliation/shadow_copy.py, and `_update_shadow_copies` of
-- application/gameplay/client.py. Times are numbers like the positions; the reading of the clock is an
-- argument. The number -1 of a copy that has seen no snapshot is `none`.
pub mod Display
use mas_dsmb.Prelude.{
  ◌∷◌, ◌==◌, if◌then◌else◌, ℕ, String, Bool, true, false, Option, none, some, List, [], leb, Dict,
  lookup, insert, nat_Eq, text_Eq,
}
use mas_dsmb.Domain.Scalar.{Scalar, larger, smaller, of_nat}
use mas_dsmb.Domain.World.{Player}

unfoldable pub is_old : ℕ → Option ℕ → Bool
is_old number none = false
is_old number (some last) = leb number last

module _ (scalar : Scalar) where
  open scalar use {Number, ratio, plus, minus, times, le}

  -- `SNAPSHOT_TIMEOUT` and `MAX_EXTRAPOLATION_TIME`
  abbrev pub snapshot_timeout : Number
  snapshot_timeout = ratio 15 100

  abbrev pub max_extrapolation_time : Number
  max_extrapolation_time = ratio 35 100

  pub record ShadowCopy : Type 0 where
    pub snapshot_timeout : Number
    pub max_extrapolation_time : Number
    pub last_confirmed : Option (Player scalar)
    pub target : Option (Player scalar)
    pub last_sequence_number : Option ℕ
    pub last_snapshot_time : Option Number
    pub interpolation_window : Number

  abbrev pub new_shadow : ShadowCopy
  new_shadow = record {
    snapshot_timeout = snapshot_timeout;
    max_extrapolation_time = max_extrapolation_time;
    last_confirmed = none;
    target = none;
    last_sequence_number = none;
    last_snapshot_time = none;
    interpolation_window = snapshot_timeout;
  }

  unfoldable pub window_after : Number → Option Number → Number → Number
  window_after timeout none received_at = timeout
  window_after timeout (some previous) received_at =
      larger scalar (ratio 1 1000000) (smaller scalar timeout (minus received_at previous))

  -- The states that the display goes from and to, and the time that it takes.
  unfoldable pub retarget :
      Option (Player scalar) → Player scalar → Number → ShadowCopy → ShadowCopy
  retarget none state received_at s = record s {
    last_confirmed = some state;
    target = some state;
    interpolation_window = s.snapshot_timeout;
  }
  retarget (some previous) state received_at s = record s {
    last_confirmed = some previous;
    target = some state;
    interpolation_window = window_after s.snapshot_timeout s.last_snapshot_time received_at;
  }

  unfoldable pub accept : Player scalar → ℕ → Number → ShadowCopy → ShadowCopy
  accept state number received_at s = record (retarget s.target state received_at s) {
    last_sequence_number = some number;
    last_snapshot_time = some received_at;
  }

  unfoldable pub update : Player scalar → ℕ → Number → ShadowCopy → Bool × ShadowCopy
  update state number received_at s =
      if is_old number s.last_sequence_number
      then (false, s)
      else (true, accept state number received_at s)

  unfoldable pub clamp : Number → Number → Number → Number
  clamp value minimum maximum = larger scalar minimum (smaller scalar maximum value)

  unfoldable pub lerp : Number → Number → Number → Number
  lerp start end alpha = plus start (times (minus end start) alpha)

  unfoldable pub blend : Player scalar → Player scalar → Number → Player scalar
  blend start end alpha = record end {
    box = record (end.box) {
      x = lerp start.box.x end.box.x alpha;
      y = lerp start.box.y end.box.y alpha;
    };
    vx = lerp start.vx end.vx alpha;
    vy = lerp start.vy end.vy alpha;
    prev_x = lerp start.prev_x end.prev_x alpha;
    prev_y = lerp start.prev_y end.prev_y alpha;
  }

  unfoldable pub player_or : Player scalar → Option (Player scalar) → Player scalar
  player_or other none = other
  player_or other (some p) = p

  -- `none` where `interpolate` raises.
  unfoldable pub interpolate_to :
      Option (Player scalar) → Number → ShadowCopy → Option (Player scalar)
  interpolate_to none alpha s = none
  interpolate_to (some target) alpha s = some (
      blend (player_or target s.last_confirmed) target
        (clamp alpha (of_nat scalar 0) (of_nat scalar 1)))

  unfoldable pub interpolate : Number → ShadowCopy → Option (Player scalar)
  interpolate alpha s = interpolate_to s.target alpha s

  -- Dead reckoning from the target.
  unfoldable pub extrapolate : Number → ShadowCopy → Player scalar → Player scalar
  extrapolate over s p =
      let time = smaller scalar over s.max_extrapolation_time in
      let moving =
        λ (v : Number). if le s.max_extrapolation_time over then of_nat scalar 0 else v in
      record p {
        box = record (p.box) {
          x = plus p.box.x (times p.vx time);
          y = plus p.box.y (times p.vy time);
        };
        prev_x = plus p.prev_x (times p.vx time);
        prev_y = plus p.prev_y (times p.vy time);
        vx = moving p.vx;
        vy = moving p.vy;
      }

  -- `divide` is Python's division.
  unfoldable pub visual_after :
      (Number → Number → Number) → Number → ShadowCopy → Player scalar → Option (Player scalar)
  visual_after divide elapsed s p =
      if le elapsed s.snapshot_timeout
      then interpolate (divide elapsed s.interpolation_window) s
      else some (extrapolate (minus elapsed s.snapshot_timeout) s p)

  unfoldable pub elapsed_since : Number → Number → Number
  elapsed_since last now = larger scalar (of_nat scalar 0) (minus now last)

  unfoldable pub visual_of :
      (Number → Number → Number)
      → Number
      → Option (Player scalar)
      → Option Number
      → ShadowCopy
      → Option (Player scalar)
  visual_of divide now none last s = none
  visual_of divide now (some p) none s = some p
  visual_of divide now (some p) (some last) s = visual_after divide (elapsed_since last now) s p

  unfoldable pub get_visual_state :
      (Number → Number → Number) → Number → ShadowCopy → Option (Player scalar)
  get_visual_state divide now s = visual_of divide now s.target s.last_snapshot_time s

  unfoldable pub shadow_or_new : Option ShadowCopy → ShadowCopy
  shadow_or_new none = new_shadow
  shadow_or_new (some s) = s

  unfoldable pub update_shadow :
      String → Player scalar → ℕ → Number → Dict String ShadowCopy → Dict String ShadowCopy
  update_shadow pid state number received_at shadows =
      insert pid (update state number received_at (shadow_or_new (lookup pid shadows))).1 shadows

  unfoldable pub update_shadow_copies :
      String
      → List (String × Player scalar)
      → ℕ
      → Number
      → Dict String ShadowCopy
      → Dict String ShadowCopy
  update_shadow_copies local_player_id [] number received_at shadows = shadows
  update_shadow_copies local_player_id ((pid, state) ∷ rest) number received_at shadows =
      let updated =
        if pid == local_player_id
        then shadows
        else update_shadow pid state number received_at shadows in
      update_shadow_copies local_player_id rest number received_at updated
