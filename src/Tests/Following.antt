-- ===== src/Tests/Following.antt =====
-- A client that is four ticks ahead, and snapshots that come late.
use mas_dsmb.Prelude.{◌≡◌, ◌∷◌, pos, negsuc, ℕ, refl, true, [], arith}
use mas_dsmb.Tests.Integers.{integers, at_most}
use mas_dsmb.Tests.Engine.{world}
use mas_dsmb.Tests.Failover.{claimant}
use mas_dsmb.Failover.Node.{Snapshot}
use mas_dsmb.Prediction.{InputHistoryEntry}
use mas_dsmb.Prediction.Engine.{engine_simulation}
use mas_dsmb.Prediction.History.{IsTimeline}
use mas_dsmb.Hosting.{idle_input}
use mas_dsmb.Following.{Follower, predicted}
use mas_dsmb.Following.Pacing.{glide_step}
use mas_dsmb.Following.Stream.{records, OnlyRecords, drain-OnlyRecords}
use mas_dsmb.Following.Corrections.{TicksNext, adjust-TicksNext, glide_step-bounds}

abbrev entry : ℕ → InputHistoryEntry (engine_simulation integers "player3" 0)
entry number = record { sequence_number = number; input_state = idle_input; dt = pos 0 }

abbrev follower : Follower integers "player3" 0
follower = record {
  node = claimant;
  buffer = record { capacity = 60; entries = entry 38 ∷ entry 39 ∷ entry 40 ∷ entry 41 ∷ [] };
  lead = record { baseline = pos 0; calibration_remaining = 0; pending_tick_adjustment = pos 0 };
  visual_correction_offset = (pos 0, pos 0);
  received_snapshots = 0;
}

follower-IsTimeline :
    IsTimeline (engine_simulation integers "player3" 0) 37 (predicted integers "player3" 0 follower)
follower-IsTimeline = record {
  numbered = (refl, (refl, (refl, (refl, tt))));
  ends = refl;
  within = omega arith;
}

adjust-TicksNext_example : TicksNext integers "player3" 0 idle_input 37 follower
adjust-TicksNext_example =
    adjust-TicksNext integers "player3" 0 idle_input 37 follower (omega arith) refl
      follower-IsTimeline

abbrev numbered : ℕ → Snapshot integers
numbered number = record { sequence_number = number; world_state = world }

kept :
    records integers 40 (numbered 42 ∷ numbered 41 ∷ numbered 42 ∷ numbered 44 ∷ [])
    ≡ numbered 42 ∷ numbered 44 ∷ []
kept = refl

drain-OnlyRecords_example :
    OnlyRecords integers "player3" 0 2000 (numbered 42 ∷ numbered 41 ∷ numbered 44 ∷ []) follower
drain-OnlyRecords_example =
    drain-OnlyRecords integers "player3" 0 2000 (numbered 42 ∷ numbered 41 ∷ numbered 44 ∷ [])
      follower

glide_step-bounds_example :
    (at_most (negsuc 7) (glide_step integers (negsuc 99)) ≡ true)
    × (at_most (glide_step integers (negsuc 99)) (pos 8) ≡ true)
glide_step-bounds_example = glide_step-bounds integers (negsuc 99) refl
