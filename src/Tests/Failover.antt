-- ===== src/Tests/Failover.antt =====
-- Tests of the failover (src/distributed_smb/application/election/mixin.py).
use mas_dsmb.Prelude.{◌≡◌, ◌∷◌, ℕ, String, refl, Bool, true, false, none, some, [], arith, ok, err}
use mas_dsmb.Shared.Roster.{RosterEntry, connected}
use mas_dsmb.Tests.Integers.{integers}
use mas_dsmb.Tests.Engine.{engine}
use mas_dsmb.Election.{claimed, ElectionCoordinator}
use mas_dsmb.Failover.Node.{Node, client, host}
use mas_dsmb.Failover.Promotion.{promote_to_host}
use mas_dsmb.Failover.Promoted.{Promoted, promote_to_host-Promoted}
use mas_dsmb.Failover.Claims.{
  send_claim, if_valid, own_claim, message_validation_error, is_empty, on_new_host_claim_from,
  tick_claim_deadline,
}
use mas_dsmb.Failover.Acks.{acknowledged, all_answered, senders, acknowledged_promotes}
use mas_dsmb.Failover.Deadline.{tick_claim_deadline-promotes, follower_promotes_itself}
use mas_dsmb.Failover.Watch.{tick_election_state}
use mas_dsmb.Failover.Watched.{IsAnswer, ReturnsSound}
use mas_dsmb.Failover.Sound.{tick_election_state-ReturnsSound}
use mas_dsmb.Wire.Messages.{is_filled, claim_is_valid}

abbrev entry : String → ℕ → String → Bool → RosterEntry
entry player_id join_index address is_host = record {
  player_id = player_id;
  host = address;
  udp_port = 50000;
  join_index = join_index;
  status = connected;
  is_host = is_host;
}

abbrev pub coordinator : ElectionCoordinator
coordinator = record {
  join_index = 2;
  my_ip = "c";
  timeout_base = 500;
  timeout_delta = 300;
  state = claimed;
  current_host_ip = none;
  current_host_join_index = none;
  known_peers = "b" ∷ [];
  election_timer_expiry = some 1100;
}

-- A claimant of three survivors that waits for two answers.
abbrev pub claimant : Node integers
claimant = record {
  local_player_id = "player3";
  local_ip = "c";
  session_id = "s";
  join_index = 2;
  role = client;
  roster =
      entry "player1" 0 "a" true
      ∷ entry "player2" 1 "b" false
      ∷ entry "player3" 2 "c" false
      ∷ entry "player4" 3 "d" false
      ∷ [];
  engine = engine;
  rejoin_states = [];
  cached_remote_inputs = [];
  last_remote_input_sequence = [];
  last_input_time = [];
  election_coordinator = some coordinator;
  timeout_watcher = some (record { timeout = 5000; last_snapshot_time = some 1000 });
  env_state_buffer = none;
  election_triggered = true;
  host_verify_deadline = none;
  host_verify_next_probe = 0;
  pending_election_acks = "b" ∷ "d" ∷ [];
  election_claim_deadline = some 3100;
  promotion_done = false;
  reconnected = false;
  following_host_ip = none;
  following_since = 0;
  remote_host = "a";
  remote_port = 50010;
  last_snapshot_sequence = 40;
  outbox = [];
}

promote_to_host-Promoted_example :
    Promoted integers claimant (promote_to_host integers 1200 claimant)
promote_to_host-Promoted_example = promote_to_host-Promoted integers 1200 claimant refl

waiting : is_empty claimant.pending_election_acks ≡ false
unfolding is_empty
waiting = refl

acknowledged_promotes_example :
    (acknowledged integers ((1300, "d") ∷ (1400, "b") ∷ []) claimant).promotion_done
    ≡ all_answered (senders integers ((1300, "d") ∷ (1400, "b") ∷ [])) ("b" ∷ "d" ∷ [])
acknowledged_promotes_example =
    acknowledged_promotes integers ((1300, "d") ∷ (1400, "b") ∷ []) claimant refl waiting

tick_claim_deadline-promotes_example : (tick_claim_deadline integers 3200 claimant).role ≡ host
tick_claim_deadline-promotes_example =
    tick_claim_deadline-promotes integers 3200 3100 claimant refl waiting refl (omega arith)

follower_promotes_itself_example :
    ((on_new_host_claim_from integers 1500 "b" 1 claimant).following_host_ip ≡ some "b")
    × ((tick_claim_deadline integers 3200
          (on_new_host_claim_from integers 1500 "b" 1 claimant)).role
        ≡ host)
follower_promotes_itself_example =
    follower_promotes_itself integers 3200 1500 3100 1 "b" coordinator claimant refl waiting refl
      (omega arith) refl refl (omega arith)

silent_probe : (session_id candidate_ip : String) → IsAnswer (ok none)
silent_probe session_id candidate_ip = tt

tick_election_state-ReturnsSound_example :
    ReturnsSound integers (tick_election_state integers (λ session ip. ok none) 3200 claimant)
unfolding is_filled
tick_election_state-ReturnsSound_example =
    tick_election_state-ReturnsSound integers (λ session ip. ok none) silent_probe 3200 claimant
      (refl, refl)

-- Without a session the constructor of the claim refuses.
nameless :
    send_claim integers 3200 ("b" ∷ []) (record claimant { session_id = "" })
    ≡ err message_validation_error
unfolding send_claim if_valid own_claim claim_is_valid is_filled
nameless = refl
