-- ===== src/Following/Corrections.antt =====
-- What the prediction lead makes of the next frame's ticks, and the bound of a glide.
use mas_dsmb.Prelude.{
  ◌≡◌, ◌+◌, ◌≤◌, ◌<◌, ◌∙◌, ◌==◌, if◌then◌else◌, pos, ℕ, zero, suc, String, refl, ap, true, arith,
  length, nat_Eq, text_Eq,
}
use mas_dsmb.Domain.Scalar.{Scalar, of_nat, lt, le_refl, le_of_not_le}
use mas_dsmb.Domain.World.{InputState}
use mas_dsmb.Prediction.{predicted_tick, predict, push}
use mas_dsmb.Prediction.Engine.{engine_simulation}
use mas_dsmb.Prediction.History.{IsTimeline, predicted_tick-IsTimeline}
use mas_dsmb.Following.{
  Follower, Predicted, predicted, with_predicted, run_ticks, run_predicted_ticks,
  adjust_prediction_lead, tick_rate,
}
use mas_dsmb.Following.Pacing.{
  Lead, ticks_of, deviation, calibrate, correct, adjust_lead, prediction_lead_drift_tolerance,
  glide_step, reconcile_max_glide,
}

module _ (scalar : Scalar) where
  open scalar use {Number, ratio, minus, neg, le}

  -- No tick for a client that is too far ahead, two for one that is too far behind.
  abbrev pub ticks_due : ℕ → Lead scalar → ℕ
  ticks_due pending l =
      if lt scalar (prediction_lead_drift_tolerance scalar)
        (minus (of_nat scalar pending) l.baseline)
      then 0
      else if lt scalar (minus (of_nat scalar pending) l.baseline)
          (neg (prediction_lead_drift_tolerance scalar))
      then 2
      else 1

  adjust_lead-ticks :
      (pending : ℕ) (l : Lead scalar)
      → l.pending_tick_adjustment ≡ pos 0
      → ticks_of (adjust_lead scalar pending l).pending_tick_adjustment ≡ ticks_due pending l
  unfolding adjust_lead correct calibrate ticks_of deviation
  adjust_lead-ticks pending l h = ground (arith, ap ticks_of h)

  -- The calibration moves the baseline, a correction does not.
  abbrev pub baseline_after : ℕ → Lead scalar → Number
  baseline_after pending l =
      if ticks_due pending l == 1 then (calibrate scalar pending l).baseline else l.baseline

  adjust_lead-baseline :
      (pending : ℕ) (l : Lead scalar)
      → (adjust_lead scalar pending l).baseline ≡ baseline_after pending l
  unfolding adjust_lead correct calibrate deviation
  adjust_lead-baseline pending l = ground arith

  -- If the order of the numbers puts the negated cap below the cap, no glide is further than
  -- `RECONCILE_MAX_GLIDE_PX` to either side.
  pub glide_step-bounds :
      (offset : Number)
      → le (neg (reconcile_max_glide scalar)) (reconcile_max_glide scalar) ≡ true
      → (le (neg (reconcile_max_glide scalar)) (glide_step scalar offset) ≡ true)
        × (le (glide_step scalar offset) (reconcile_max_glide scalar) ≡ true)
  unfolding glide_step
  glide_step-bounds offset h =
      let most = reconcile_max_glide scalar in
      let step = scalar.times offset (ratio 3 10) in
      ground (
        arith,
        le_refl scalar most,
        le_refl scalar (neg most),
        le_of_not_le scalar most step,
        le_of_not_le scalar step (neg most),
        le_of_not_le scalar most (neg most),
      )

module _ (scalar : Scalar) (local_player_id : String) (clock : ℕ) where
  run_ticks-IsTimeline :
      (n : ℕ) (input : InputState) (start : ℕ) (c : Predicted scalar local_player_id clock)
      → 0 < c.buffer.capacity
      → IsTimeline (engine_simulation scalar local_player_id clock) start c
      → (start' : ℕ) × (start ≤ start')
        × IsTimeline
            (engine_simulation scalar local_player_id clock)
            start'
            (run_ticks scalar local_player_id clock n input c)
        × ((run_ticks scalar local_player_id clock n input c).world.world_state.sequence_number
            ≡ c.world.world_state.sequence_number + n)
  unfolding run_ticks predicted_tick predict push
  run_ticks-IsTimeline zero input start c room h = (start, omega arith, h, omega arith)
  run_ticks-IsTimeline (suc n) input start c room h =
      let (from, later, line, one) =
        predicted_tick-IsTimeline (engine_simulation scalar local_player_id clock)
          (scalar.ratio 1 tick_rate) input start c room h in
      let (from', later', line', more) = run_ticks-IsTimeline n input from _ room line in
      (from', omega arith, line', omega arith)

  -- What the frame that follows an adjustment does to the client's timeline and numbers.
  abbrev pub TicksNext : InputState → ℕ → Follower scalar local_player_id clock → Type 0
  TicksNext input start f =
      let sim = engine_simulation scalar local_player_id clock in
      let adjusted = adjust_prediction_lead scalar local_player_id clock f in
      let after = run_predicted_ticks scalar local_player_id clock input adjusted in
      let pending = length f.buffer.entries in
      (start' : ℕ) × (start ≤ start')
      × IsTimeline sim start' (predicted scalar local_player_id clock after)
      × (after.node.engine.world_state.sequence_number
          ≡ f.node.engine.world_state.sequence_number + ticks_due scalar pending f.lead)
      × (after.lead.pending_tick_adjustment ≡ pos 0)
      × (after.lead.baseline ≡ baseline_after scalar pending f.lead)

  -- For a client on a timeline, with no adjustment pending: the next frame runs no tick if the lead is
  -- above its baseline by more than the tolerance, two if it is as far below, and one otherwise. The
  -- client stays on a timeline, the adjustment is used up, and a correction leaves the baseline, which
  -- only the calibration moves.
  pub adjust-TicksNext :
      (input : InputState) (start : ℕ) (f : Follower scalar local_player_id clock)
      → 0 < f.buffer.capacity
      → f.lead.pending_tick_adjustment ≡ pos 0
      → IsTimeline
          (engine_simulation scalar local_player_id clock)
          start
          (predicted scalar local_player_id clock f)
      → TicksNext input start f
  unfolding adjust_prediction_lead run_predicted_ticks with_predicted
  adjust-TicksNext input start f room none_pending line =
      let pending = length f.buffer.entries in
      let lead = adjust_lead scalar pending f.lead in
      let (from, later, line', number) =
        run_ticks-IsTimeline (ticks_of lead.pending_tick_adjustment) input start _ room line in
      (
        from,
        later,
        line',
        number
            ∙ ap (λ n. f.node.engine.world_state.sequence_number + n)
                (adjust_lead-ticks scalar pending f.lead none_pending),
        refl,
        adjust_lead-baseline scalar pending f.lead,
      )
