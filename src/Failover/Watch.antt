-- ===== src/Failover/Watch.antt =====
-- The suspicion of a crashed host, its verification, and what follows an election
-- (src/distributed_smb/application/gameplay/client.py). `probe` is the recovery prober (`find_current_host`
-- of Recovery), which asks an address over UDP for the host of a session; a message whose fields its
-- constructor refuses ends the tick with an error. The prediction lead and the smoothing of the display,
-- which a reconnection restarts, are left out.
use mas_dsmb.Prelude.{
  ◌>>=◌, ◌+◌, ◌&&◌, ◌||◌, ◌==◌, if◌then◌else◌, ℕ, String, true, false, not, Option, none, some, [],
  ltb, leb, find?, Result, ok, err, nat_Eq, text_Eq, ◌>>=◌,
}
use mas_dsmb.Shared.Roster.{RosterEntry, get_player, get_host, get_all_players, promote_host}
use mas_dsmb.Failover.Promotion.{evict_host}
use mas_dsmb.Domain.Scalar.{Scalar}
use mas_dsmb.Domain.World.{WorldState}
use mas_dsmb.Election.{
  ElectionEvent, ElectionCoordinator, ElectionError, HostTimeoutWatcher, new_coordinator, tick,
  self_elected, host_timed_out, reset_watcher, new_watcher, start_election, set_election_timer,
}
use mas_dsmb.Failover.Node.{
  Node, Snapshot, with_world, host_udp_port, known_client_peers, perform, datagram,
  game_event_ws_port, reconnect_lobby, reconnect_game_events, host_discovery_probe,
}
use mas_dsmb.Failover.Claims.{
  TickError, of_coordinator, of_prober, if_valid, on_self_elected, expire_claim,
}
use mas_dsmb.Wire.Messages.{ReconnectionAck, probe_is_valid, reconnection_is_valid}
use mas_dsmb.Wire.Schemas.{Read}

-- `HOST_TIMEOUT_S`, `HOST_VERIFY_TIMEOUT_S`, `HOST_VERIFY_RESEND_INTERVAL_S`,
-- `RECONNECTION_FALLBACK_TIMEOUT_S`, `T_ELECTION_BASE_S` and `T_ELECTION_DELTA_S`
abbrev pub host_timeout : ℕ
host_timeout = 5000

abbrev pub host_verify_timeout : ℕ
host_verify_timeout = 10000

abbrev pub host_verify_resend_interval : ℕ
host_verify_resend_interval = 500

abbrev pub reconnection_fallback_timeout : ℕ
reconnection_fallback_timeout = 4000

abbrev pub election_base : ℕ
election_base = 500

abbrev pub election_delta : ℕ
election_delta = 300

module _ (scalar : Scalar) where
  unfoldable pub index_or : ℕ → Option RosterEntry → ℕ
  index_or join_index none = join_index
  index_or join_index (some entry) = entry.join_index

  unfoldable pub ensure_election_components : Node scalar → Node scalar
  ensure_election_components n =
      let index = index_or n.join_index (get_player n.local_player_id n.roster) in
      elim n.election_coordinator [
        | some c ↦ n
        | none ↦ record n {
          join_index = index;
          election_coordinator =
              some (new_coordinator index n.local_ip election_base election_delta);
          timeout_watcher = some (new_watcher host_timeout);
          env_state_buffer = none;
        }
      ]

  unfoldable pub probing : ℕ → Node scalar → Node scalar
  probing now n =
      perform scalar
        (datagram (host_discovery_probe n.session_id n.local_ip) n.remote_host n.remote_port)
        (record n { host_verify_next_probe = now + host_verify_resend_interval })

  unfoldable pub resend_host_verify_probe : ℕ → Node scalar → Result TickError (Node scalar)
  resend_host_verify_probe now n = if_valid (probe_is_valid n.session_id n.local_ip) (probing now n)

  unfoldable pub send_host_verify_probe : ℕ → Node scalar → Result TickError (Node scalar)
  send_host_verify_probe now n = resend_host_verify_probe now (record n {
    host_verify_deadline = some (now + host_verify_timeout);
    host_verify_next_probe = now;
  })

  unfoldable pub begin_election : ℕ → ElectionCoordinator → Node scalar → Node scalar
  begin_election now c n = record n {
    host_verify_deadline = none;
    election_triggered = true;
    election_coordinator =
        some (set_election_timer now (start_election (known_client_peers scalar n) c));
  }

  unfoldable pub tick_host_verify :
      ℕ
      → ℕ
      → ElectionCoordinator
      → HostTimeoutWatcher
      → Node scalar
      → Result TickError (Node scalar)
  tick_host_verify now deadline c watcher n =
      if not (host_timed_out now watcher)
      then ok (record n { host_verify_deadline = none })
      else if leb deadline now
      then ok (begin_election now c n)
      else if leb n.host_verify_next_probe now
      then resend_host_verify_probe now n
      else ok n

  unfoldable pub suspect : ℕ → HostTimeoutWatcher → Node scalar → Result TickError (Node scalar)
  suspect now watcher n =
      if not n.election_triggered && host_timed_out now watcher
      then send_host_verify_probe now n
      else ok n

  unfoldable pub watch_until :
      ℕ
      → Option ℕ
      → ElectionCoordinator
      → HostTimeoutWatcher
      → Node scalar
      → Result TickError (Node scalar)
  watch_until now none c watcher n = suspect now watcher n
  watch_until now (some deadline) c watcher n = tick_host_verify now deadline c watcher n

  unfoldable pub watch_host :
      ℕ → ElectionCoordinator → HostTimeoutWatcher → Node scalar → Result TickError (Node scalar)
  watch_host now c watcher n = watch_until now n.host_verify_deadline c watcher n

  unfoldable pub alive : ℕ → Option HostTimeoutWatcher → Option HostTimeoutWatcher
  alive now none = none
  alive now (some watcher) = some (reset_watcher now watcher)

  unfoldable pub on_host_identity_response : ℕ → String → Node scalar → Node scalar
  on_host_identity_response now session_id n = elim n.host_verify_deadline [
    | none ↦ n
    | some _ ↦
        if session_id == n.session_id
        then record n { host_verify_deadline = none; timeout_watcher = alive now n.timeout_watcher }
        else n
  ]

  -- Blocks, power-ups and gates of the last snapshot.
  unfoldable pub resync_environment :
      Option (Snapshot scalar) → WorldState scalar → WorldState scalar
  resync_environment none w = w
  resync_environment (some last) w =
      let theirs = last.world_state.environment in
      record w {
        environment = record (w.environment) {
          destructible_blocks = theirs.destructible_blocks;
          power_ups = theirs.power_ups;
          cooperative_gates = theirs.cooperative_gates;
        };
      }

  unfoldable pub flag_host : Option RosterEntry → Node scalar → Node scalar
  flag_host none n = n
  flag_host (some entry) n = record n { roster = promote_host entry.player_id n.roster }

  unfoldable pub repoint_roster_at : String → Node scalar → Node scalar
  repoint_roster_at new_host_ip n =
      let evicted = evict_host scalar (get_host n.roster) n in
      flag_host (find? (λ e. e.host == new_host_ip) (get_all_players evicted.roster)) evicted

  unfoldable pub reset_election_state : Node scalar → Node scalar
  reset_election_state n = record n {
    election_triggered = false;
    pending_election_acks = [];
    election_claim_deadline = none;
    election_coordinator = none;
    timeout_watcher = some (new_watcher host_timeout);
    host_verify_deadline = none;
  }

  -- Towards the new host: addresses and connections.
  unfoldable pub redirect : String → ℕ → ℕ → Node scalar → Node scalar
  redirect new_host_ip udp_port game_events_port n = perform scalar (reconnect_lobby new_host_ip) (
      perform scalar (reconnect_game_events new_host_ip game_events_port)
        (record n { reconnected = true; remote_host = new_host_ip; remote_port = udp_port }))

  unfoldable pub on_reconnection_ack : String → ℕ → ℕ → Node scalar → Node scalar
  on_reconnection_ack new_host_ip udp_port game_events_port n =
      let moved = redirect new_host_ip udp_port game_events_port n in
      let resynced = with_world scalar (resync_environment moved.env_state_buffer) moved in
      if n.reconnected || n.promotion_done
      then n
      else reset_election_state
          (repoint_roster_at new_host_ip (record resynced { last_snapshot_sequence = 0 }))

  -- `ReconnectionAck(new_host_ip=found_ip, ...)`
  unfoldable pub found_ack : String → Node scalar → ReconnectionAck
  found_ack found_ip n = record {
    new_host_ip = found_ip;
    udp_port = host_udp_port;
    game_events_port = game_event_ws_port;
    session_id = n.session_id;
  }

  unfoldable pub probed : Option String → Node scalar → Result TickError (Node scalar)
  probed none n = ok n
  probed (some found_ip) n = if_valid (reconnection_is_valid (found_ack found_ip n)) (
      on_reconnection_ack found_ip host_udp_port game_event_ws_port
        (record n { following_host_ip = none }))

  unfoldable pub after_tick :
      ℕ → Option ElectionEvent → Node scalar → Result TickError (Node scalar)
  after_tick now (some (self_elected _)) n = on_self_elected scalar now n
  after_tick now _ n = ok n

-- The errors of the coordinator and of the prober end the frame's tick.
unfoldable pub of_tick : {A : Type 0} → Result ElectionError A → Result TickError A
of_tick (ok a) = ok a
of_tick (err e) = err (of_coordinator e)

unfoldable pub of_probe : {A : Type 0} → Read A → Result TickError A
of_probe (ok a) = ok a
of_probe (err e) = err (of_prober e)

module _ (scalar : Scalar) (probe : String → String → Read (Option String)) where
  unfoldable pub fall_back_to : ℕ → Option String → Node scalar → Result TickError (Node scalar)
  fall_back_to now none n = ok n
  fall_back_to now (some candidate_ip) n =
      if n.reconnected || ltb now (n.following_since + reconnection_fallback_timeout)
      then ok n
      else (of_probe (probe n.session_id candidate_ip)
          >>= (λ found. probed scalar found (record n { following_since = now })))

  unfoldable pub tick_reconnection_fallback : ℕ → Node scalar → Result TickError (Node scalar)
  tick_reconnection_fallback now n = fall_back_to now n.following_host_ip n

  -- The coordinator's own tick, the claim's deadline and the fallback.
  unfoldable pub advance_election :
      ℕ → ElectionCoordinator → Node scalar → Result TickError (Node scalar)
  unfolding of_tick
  advance_election now c n = do
    (c', event) ← of_tick (tick now c)
    elected ← after_tick scalar now event (record n { election_coordinator = some c' })
    expired ← expire_claim scalar now elected
    tick_reconnection_fallback now expired

  unfoldable pub advance_with :
      ℕ → Option ElectionCoordinator → Node scalar → Result TickError (Node scalar)
  advance_with now none n = ok n
  advance_with now (some c) n = if n.election_triggered then advance_election now c n else ok n

  unfoldable pub advance_if_triggered : ℕ → Node scalar → Result TickError (Node scalar)
  advance_if_triggered now n = advance_with now n.election_coordinator n

  unfoldable pub tick_with :
      ℕ
      → Option ElectionCoordinator
      → Option HostTimeoutWatcher
      → Node scalar
      → Result TickError (Node scalar)
  tick_with now (some c) (some watcher) n =
      watch_host scalar now c watcher n >>= (λ watched. advance_if_triggered now watched)
  tick_with now _ _ n = ok n

  unfoldable pub tick_election_state : ℕ → Node scalar → Result TickError (Node scalar)
  tick_election_state now n = tick_with now n.election_coordinator n.timeout_watcher n
