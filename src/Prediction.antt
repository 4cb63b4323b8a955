-- ===== src/Prediction.antt =====
-- src/distributed_smb/application/reconciliation/prediction_engine.py: the client's input history
-- and its reconciliation with the host's snapshots, over the interface of the simulation. The
-- diagnostics (`_log_correction`, round-trip times) change no state and are left out.
pub mod History
pub mod Reconcile
pub mod Engine
use mas_dsmb.Prelude.{
  ◌≡◌, ◌+◌, ◌∷◌, ◌++◌, if◌then◌else◌, ℕ, suc, Option, none, some, List, [], ltb, leb, length,
}

-- What the client needs of the simulation: a world with its sequence number, one tick, and the
-- world that a snapshot gives to a client that keeps its own blocks, power-ups and gates.
pub record Simulation : Type 1 where
  pub World : Type 0
  pub InputState : Type 0
  pub Duration : Type 0
  pub sequence_number : World → ℕ
  pub tick : Duration → InputState → World → World
  pub rebase : World → World → World
  pub sequence_number-tick :
      (dt : Duration) (input : InputState) (w : World)
      → sequence_number (tick dt input w) ≡ suc (sequence_number w)
  pub sequence_number-rebase :
      (mine theirs : World) → sequence_number (rebase mine theirs) ≡ sequence_number theirs

module _ (sim : Simulation) where
  open sim use {World, InputState, Duration, sequence_number, tick, rebase}

  pub record InputHistoryEntry : Type 0 where
    pub sequence_number : ℕ
    pub input_state : InputState
    pub dt : Duration

  pub record InputHistoryBuffer : Type 0 where
    pub capacity : ℕ
    pub entries : List InputHistoryEntry

  -- What a full deque keeps: it drops its oldest entry.
  unfoldable pub bounded : ℕ → List InputHistoryEntry → List InputHistoryEntry
  bounded capacity [] = []
  bounded capacity (e ∷ rest) = if ltb capacity (length (e ∷ rest)) then rest else e ∷ rest

  -- `deque.append` with `maxlen`
  unfoldable pub push : InputHistoryEntry → InputHistoryBuffer → InputHistoryBuffer
  push entry b = record b { entries = bounded b.capacity (b.entries ++ entry ∷ []) }

  -- The loop of `acknowledge`: the last entry that it drops, and the entries that stay.
  unfoldable pub drop_acknowledged :
      ℕ
      → Option InputHistoryEntry
      → List InputHistoryEntry
      → Option InputHistoryEntry × List InputHistoryEntry
  drop_acknowledged number last [] = (last, [])
  drop_acknowledged number last (e ∷ rest) =
      let dropped = drop_acknowledged number (some e) rest in
      if leb e.sequence_number number then dropped else (last, e ∷ rest)

  unfoldable pub acknowledge :
      ℕ → InputHistoryBuffer → InputHistoryBuffer × Option InputHistoryEntry
  acknowledge number b =
      let (last, entries) = drop_acknowledged number none b.entries in
      (record b { entries = entries }, last)

  unfoldable pub clear : InputHistoryBuffer → InputHistoryBuffer
  clear b = record b { entries = [] }

  -- The prediction engine and the world of the engine that it holds.
  pub record Client : Type 0 where
    pub world : World
    pub buffer : InputHistoryBuffer

  unfoldable pub predict : InputState → Duration → Client → Client
  predict input_state dt c = record c {
    buffer =
        push
          (record {
            sequence_number = sequence_number c.world + 1;
            input_state = input_state;
            dt = dt;
          })
          c.buffer;
  }

  unfoldable pub replay_pending : List InputHistoryEntry → World → World
  replay_pending [] w = w
  replay_pending (e ∷ rest) w = replay_pending rest (tick e.dt e.input_state w)

  unfoldable pub reconcile : World → Client → Client
  reconcile snapshot c =
      let (acknowledged, last) = acknowledge (sequence_number snapshot) c.buffer in
      let stale = ltb (sequence_number snapshot + c.buffer.capacity) (sequence_number c.world) in
      let kept = if stale then clear acknowledged else acknowledged in
      record { world = replay_pending kept.entries (rebase c.world snapshot); buffer = kept }

  -- One round of the loop of `_run_predicted_ticks` in application/gameplay/client.py.
  unfoldable pub predicted_tick : Duration → InputState → Client → Client
  predicted_tick dt input_state c =
      let c' = predict input_state dt c in record c' { world = tick dt input_state c'.world }
