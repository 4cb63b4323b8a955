-- ===== src/Tests/Prediction.antt =====
-- Tests of the prediction (src/distributed_smb/application/reconciliation/prediction_engine.py), in
-- a world that is a number of ticks and a position.
use mas_dsmb.Prelude.{◌≡◌, ◌+◌, ◌*◌, ◌∷◌, ℕ, suc, refl, [], arith}
use mas_dsmb.Prediction.{
  Simulation, Client, InputHistoryEntry, reconcile, replay_pending, acknowledge, drop_acknowledged,
}
use mas_dsmb.Prediction.History.{IsTimeline}
use mas_dsmb.Prediction.Reconcile.{IsReplayed, reconcile-IsTimeline, reconcile_confirms}

abbrev walk : Simulation
walk = record {
  World = ℕ × ℕ;
  InputState = ℕ;
  Duration = ℕ;
  sequence_number = λ w. w.0;
  tick = λ dt input w. (suc w.0, w.1 + input * dt);
  rebase = λ mine theirs. theirs;
  sequence_number-tick = λ dt input w. refl;
  sequence_number-rebase = λ mine theirs. refl;
}

abbrev input : ℕ → InputHistoryEntry walk
input n = record { sequence_number = n; input_state = n; dt = 2 }

-- After the ticks 4, 5 and 6, from tick 3 at position 10.
abbrev walker : Client walk
walker = record {
  world = (6, 40);
  buffer = record { capacity = 4; entries = input 4 ∷ input 5 ∷ input 6 ∷ [] };
}

walker-IsTimeline : IsTimeline walk 3 walker
walker-IsTimeline = record {
  numbered = (refl, (refl, (refl, tt)));
  ends = refl;
  within = omega arith;
}

corrected : (reconcile walk (5, 30) walker).world ≡ (6, 42)
unfolding reconcile acknowledge drop_acknowledged replay_pending
corrected = refl

reconcile-IsTimeline_example :
    IsReplayed walk (5, 30) 3 walker (reconcile walk (5, 30) walker)
    × IsTimeline walk 5 (reconcile walk (5, 30) walker)
    × ((reconcile walk (5, 30) walker).world.0 ≡ 6)
reconcile-IsTimeline_example =
    reconcile-IsTimeline walk (5, 30) 3 walker walker-IsTimeline (omega arith) (omega arith)

replayed : walker.world ≡ replay_pending walk walker.buffer.entries (3, 10)
unfolding replay_pending
replayed = refl

agreed : (5, 28) ≡ replay_pending walk (input 4 ∷ input 5 ∷ []) (3, 10)
unfolding replay_pending
agreed = refl

reconcile_confirms_example : (reconcile walk (5, 28) walker).world ≡ walker.world
reconcile_confirms_example =
    reconcile_confirms walk (5, 28) 3 walker (3, 10) (input 4 ∷ input 5 ∷ []) (input 6 ∷ [])
      walker-IsTimeline refl replayed refl agreed
