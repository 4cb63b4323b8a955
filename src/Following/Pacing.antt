-- ===== src/Following/Pacing.antt =====
-- The prediction lead and the glide of the display, as numbers: `_adjust_prediction_lead` and
-- `_glide_step` of src/distributed_smb/application/gameplay/client.py.
use mas_dsmb.Prelude.{◌-◌, if◌then◌else◌, ℤ, pos, negsuc, ℕ, suc, ltb}
use mas_dsmb.Domain.Scalar.{Scalar, lt, larger, smaller, of_nat}

-- `PREDICTION_LEAD_CALIBRATION_FRAMES`
abbrev pub prediction_lead_calibration_frames : ℕ
prediction_lead_calibration_frames = 120

-- The length of `range(1 + adjustment)`.
unfoldable pub ticks_of : ℤ → ℕ
ticks_of (pos more) = suc more
ticks_of (negsuc fewer) = 0

module _ (scalar : Scalar) where
  open scalar use {Number, ratio, plus, minus, times, neg, le}

  pub record Lead : Type 0 where
    pub baseline : Number
    pub calibration_remaining : ℕ
    pub pending_tick_adjustment : ℤ

  abbrev pub prediction_lead_drift_tolerance : Number
  prediction_lead_drift_tolerance = of_nat scalar 3

  abbrev pub prediction_lead_ewma_alpha : Number
  prediction_lead_ewma_alpha = ratio 1 100

  abbrev pub reconcile_glide_rate : Number
  reconcile_glide_rate = ratio 3 10

  abbrev pub reconcile_max_glide : Number
  reconcile_max_glide = of_nat scalar 8

  unfoldable pub glide_step : Number → Number
  glide_step offset =
      let step = times offset reconcile_glide_rate in
      larger scalar (neg reconcile_max_glide) (smaller scalar reconcile_max_glide step)

  unfoldable pub deviation : ℕ → Lead → Number
  deviation pending l = minus (of_nat scalar pending) l.baseline

  unfoldable pub calibrate : ℕ → Lead → Lead
  calibrate pending l =
      if ltb 0 l.calibration_remaining
      then record l {
        baseline = plus l.baseline (times (deviation pending l) prediction_lead_ewma_alpha);
      }
      else l

  -- A correction does not move the baseline.
  unfoldable pub correct : ℕ → Lead → Lead
  unfolding deviation
  correct pending l =
      if lt scalar prediction_lead_drift_tolerance (deviation pending l)
      then record l { pending_tick_adjustment = negsuc 0 }
      else if lt scalar (deviation pending l) (neg prediction_lead_drift_tolerance)
      then record l { pending_tick_adjustment = pos 1 }
      else calibrate pending l

  unfoldable pub adjust_lead : ℕ → Lead → Lead
  adjust_lead pending l =
      let corrected = correct pending l in
      record corrected { calibration_remaining = l.calibration_remaining - 1 }
