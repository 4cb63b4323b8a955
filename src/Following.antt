-- ===== src/Following.antt =====
-- The client's part of a frame: src/distributed_smb/application/gameplay/client.py. The predicted
-- ticks, the snapshots that arrive, the prediction lead and the gliding display, over the node of
-- Failover and the history of Prediction. What a datagram decodes to is an argument, the log and the
-- shadow copies of remote players (Shadows) are left out. A whole frame has one reading of the clock of the
-- engine, `clock`.
pub mod Pacing
pub mod Stream
pub mod Corrections
use mas_dsmb.Prelude.{
  ◌+◌, ◌||◌, ◌∷◌, if◌then◌else◌, pos, ℕ, zero, suc, String, Option, none, some, List, [], leb,
  length,
}
use mas_dsmb.Domain.Scalar.{Scalar, of_nat}
use mas_dsmb.Domain.World.{InputState, WorldState, Player, get_player}
use mas_dsmb.Domain.Players.{GameEngine}
use mas_dsmb.Election.{HostTimeoutWatcher}
use mas_dsmb.Failover.Node.{Node, Snapshot, with_world}
use mas_dsmb.Failover.Claims.{on_new_host_claim_from, on_election_ack}
use mas_dsmb.Failover.Watch.{alive, on_reconnection_ack, on_host_identity_response}
use mas_dsmb.Prediction.{InputHistoryBuffer, Client, predicted_tick, reconcile}
use mas_dsmb.Prediction.Engine.{engine_simulation}
use mas_dsmb.Following.Pacing.{
  Lead, prediction_lead_calibration_frames, ticks_of, glide_step, adjust_lead,
}

-- `TICK_RATE`
abbrev pub tick_rate : ℕ
tick_rate = 60

module _ (scalar : Scalar) where
  -- What a datagram of the host or of another client decodes to.
  pub data Incoming : Type 0 where
    claim : String → ℕ → Incoming
    acknowledgement : String → Incoming
    reconnection : String → ℕ → ℕ → Incoming
    identity : String → Incoming
    snapshot : Snapshot scalar → Incoming
    unknown : Incoming

module _ (scalar : Scalar) (local_player_id : String) (clock : ℕ) where
  open scalar use {Number, ratio, plus, minus}

  abbrev pub Predicted : Type 0
  Predicted = Client (engine_simulation scalar local_player_id clock)

  pub record Follower : Type 0 where
    pub node : Node scalar
    pub buffer : InputHistoryBuffer (engine_simulation scalar local_player_id clock)
    pub lead : Lead scalar
    pub visual_correction_offset : Number × Number
    pub received_snapshots : ℕ

  -- The prediction engine holds the node's game engine.
  abbrev pub predicted : Follower → Predicted
  predicted f = record { world = f.node.engine; buffer = f.buffer }

  unfoldable pub with_predicted : Predicted → Follower → Follower
  with_predicted c f = record f { node = record (f.node) { engine = c.world }; buffer = c.buffer }

  unfoldable pub run_ticks : ℕ → InputState → Predicted → Predicted
  run_ticks zero input c = c
  run_ticks (suc n) input c =
      run_ticks n input (
        predicted_tick (engine_simulation scalar local_player_id clock) (ratio 1 tick_rate) input c)

  unfoldable pub run_predicted_ticks : InputState → Follower → Follower
  run_predicted_ticks input f =
      let ticked = run_ticks (ticks_of f.lead.pending_tick_adjustment) input (predicted f) in
      with_predicted ticked
        (record f { lead = record (f.lead) { pending_tick_adjustment = pos 0 } })

  unfoldable pub adjust_prediction_lead : Follower → Follower
  adjust_prediction_lead f = record f { lead = adjust_lead scalar (length f.buffer.entries) f.lead }

  unfoldable pub recalibrate_prediction_lead : Follower → Follower
  recalibrate_prediction_lead f = record f {
    lead = record (f.lead) {
      baseline = of_nat scalar 0;
      calibration_remaining = prediction_lead_calibration_frames;
    };
    visual_correction_offset = (of_nat scalar 0, of_nat scalar 0);
  }

  unfoldable pub follow_new_host : String → ℕ → ℕ → Follower → Follower
  follow_new_host new_host_ip udp_port game_events_port f =
      let moved = on_reconnection_ack scalar new_host_ip udp_port game_events_port f.node in
      if f.node.reconnected || f.node.promotion_done
      then f
      else recalibrate_prediction_lead (record f { node = moved })

  -- The buffer of snapshots is made together with the watch on the host.
  unfoldable pub remember :
      Snapshot scalar
      → Option HostTimeoutWatcher
      → Option (Snapshot scalar)
      → Option (Snapshot scalar)
  remember s none last = last
  remember s (some watcher) last = some s

  -- The engine that holds a snapshot's world.
  abbrev pub engine_with : WorldState scalar → Follower → GameEngine scalar
  engine_with world f = record (f.node.engine) { world_state = world }

  unfoldable pub apply_snapshot : ℕ → Snapshot scalar → Follower → Follower
  apply_snapshot now s f =
      let reconciled =
        with_predicted
          (reconcile (engine_simulation scalar local_player_id clock) (engine_with s.world_state f)
            (predicted f))
          f in
      record reconciled {
        node = record (reconciled.node) {
          last_snapshot_sequence = s.sequence_number;
          timeout_watcher = alive scalar now f.node.timeout_watcher;
          env_state_buffer = remember s f.node.timeout_watcher f.node.env_state_buffer;
        };
        received_snapshots = f.received_snapshots + 1;
      }

  unfoldable pub take_snapshot : ℕ → Snapshot scalar → Follower → Follower
  take_snapshot now s f =
      if leb s.sequence_number f.node.last_snapshot_sequence then f else apply_snapshot now s f

  -- One turn of `_drain_snapshot_packets`.
  unfoldable pub receive : ℕ → Incoming scalar → Follower → Follower
  receive now (claim claimer_ip claimer_join_index) f = record f {
    node = on_new_host_claim_from scalar now claimer_ip claimer_join_index f.node;
  }
  receive now (acknowledgement from_ip) f = record f {
    node = on_election_ack scalar now from_ip f.node;
  }
  receive now (reconnection new_host_ip udp_port game_events_port) f =
      follow_new_host new_host_ip udp_port game_events_port f
  receive now (identity session_id) f = record f {
    node = on_host_identity_response scalar now session_id f.node;
  }
  receive now (snapshot s) f = take_snapshot now s f
  receive now unknown f = f

  unfoldable pub drain_snapshot_packets : ℕ → List (Incoming scalar) → Follower → Follower
  drain_snapshot_packets now [] f = f
  drain_snapshot_packets now (packet ∷ rest) f =
      drain_snapshot_packets now rest (receive now packet f)

  -- A world that the lobby sent, or another message.
  unfoldable pub take_world : Option (WorldState scalar) → Follower → Follower
  take_world none f = f
  take_world (some world) f = record f {
    node = record (with_world scalar (λ w. world) f.node) {
      last_snapshot_sequence = world.sequence_number;
    };
  }

  unfoldable pub drain_lobby_messages : List (Option (WorldState scalar)) → Follower → Follower
  drain_lobby_messages [] f = f
  drain_lobby_messages (message ∷ rest) f = drain_lobby_messages rest (take_world message f)

  -- The offset that is left, and the player as it is shown.
  unfoldable pub absorb : Number × Number → Number × Number → Player scalar → Number × Number
  absorb offset before p =
      let x = plus offset.0 (minus p.box.x before.0) in
      let y = plus offset.1 (minus p.box.y before.1) in
      (minus x (glide_step scalar x), minus y (glide_step scalar y))

  unfoldable pub shown_at : Number × Number → Player scalar → Player scalar
  shown_at offset p = record p {
    box = record (p.box) { x = minus p.box.x offset.0; y = minus p.box.y offset.1 };
  }

  unfoldable pub smooth :
      Option (Player scalar)
      → Option (Number × Number)
      → Follower
      → Option (Player scalar) × Follower
  smooth (some p) (some before) f =
      let offset = absorb f.visual_correction_offset before p in
      (some (shown_at offset p), record f { visual_correction_offset = offset })
  smooth p before f = (p, f)

  unfoldable pub smoothed_local_visual_state :
      Option (Number × Number) → Follower → Option (Player scalar) × Follower
  smoothed_local_visual_state before f =
      smooth (get_player scalar f.node.local_player_id f.node.engine.world_state) before f
