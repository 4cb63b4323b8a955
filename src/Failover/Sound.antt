-- ===== src/Failover/Sound.antt =====
-- The tick of the election does not raise: a pending election always has its timer, and the messages
-- that a node with an address and a session constructs are valid.
use mas_dsmb.Prelude.{
  ◌>>=◌, ◌+◌, ◌||◌, if-both, ℕ, String, Option, none, some, ltb, Result, ok, err,
}
use mas_dsmb.Domain.Scalar.{Scalar}
use mas_dsmb.Election.{ElectionCoordinator, ElectionError, tick, HostTimeoutWatcher, ElectionEvent}
use mas_dsmb.Wire.Schemas.{Read}
use mas_dsmb.Failover.Node.{Node}
use mas_dsmb.Failover.Claims.{expire_claim}
use mas_dsmb.Failover.Watch.{
  tick_election_state, after_tick, watch_host, advance_with, probed, advance_if_triggered,
  advance_election, tick_with, of_tick, of_probe, tick_reconnection_fallback,
  reconnection_fallback_timeout, fall_back_to,
}
use mas_dsmb.Failover.Coordinator.{after_tick-Lasts, expire_claim-Lasts}
use mas_dsmb.Failover.Watched.{
  HasTimer, IsAnswer, IsSound, TicksSoundly, ReturnsSound, tick-TicksSoundly, Lasts-ReturnsSound,
  >>=-ReturnsSound, watch_until-ReturnsSound, probed-ReturnsSound,
}

module _ (scalar : Scalar) (probe : String → String → Read (Option String))
    (answers : (session_id candidate_ip : String) → IsAnswer (probe session_id candidate_ip)) where
  answered-ReturnsSound :
      (answer : Read (Option String)) (n : Node scalar)
      → IsAnswer answer
      → IsSound scalar n
      → ReturnsSound scalar (of_probe answer >>= (λ found. probed scalar found n))
  unfolding of_probe
  answered-ReturnsSound (err _) n h sound = h
  answered-ReturnsSound (ok found) n h sound = probed-ReturnsSound scalar found n h sound

  fall_back_to-ReturnsSound :
      (now : ℕ) (candidate : Option String) (n : Node scalar)
      → IsSound scalar n
      → ReturnsSound scalar (fall_back_to scalar probe now candidate n)
  unfolding fall_back_to
  fall_back_to-ReturnsSound now none n sound = sound
  fall_back_to-ReturnsSound now (some candidate_ip) n sound =
      if-both (ReturnsSound scalar)
        (n.reconnected || ltb now (n.following_since + reconnection_fallback_timeout)) sound
        (answered-ReturnsSound (probe n.session_id candidate_ip)
          (record n { following_since = now }) (answers n.session_id candidate_ip) sound)

  -- After the coordinator's tick: the claim or promotion, the claim's deadline and the fallback.
  after_tick-ReturnsSound :
      (now : ℕ) (event : Option ElectionEvent) (n : Node scalar)
      → IsSound scalar n
      → ReturnsSound scalar (
          after_tick scalar now event n >>= (λ elected.
            expire_claim scalar now elected
            >>= (λ expired. tick_reconnection_fallback scalar probe now expired)))
  unfolding tick_reconnection_fallback
  after_tick-ReturnsSound now event n sound =
      >>=-ReturnsSound scalar (after_tick scalar now event n) _
        (Lasts-ReturnsSound scalar n _ (after_tick-Lasts scalar now event n sound.1) sound)
        (λ elected h.
          >>=-ReturnsSound scalar (expire_claim scalar now elected) _
            (Lasts-ReturnsSound scalar elected _ (expire_claim-Lasts scalar now elected h.1) h)
            (λ expired k. fall_back_to-ReturnsSound now expired.following_host_ip expired k))

  advance_election-ReturnsSound :
      (now : ℕ) (c : ElectionCoordinator) (n : Node scalar)
      → HasTimer (some c)
      → IsSound scalar n
      → ReturnsSound scalar (advance_election scalar probe now c n)
  unfolding advance_election of_tick
  advance_election-ReturnsSound now c n timer sound =
      continue (tick now c) (tick-TicksSoundly scalar now c timer)
    where
      continue :
          (ticked : Result ElectionError (ElectionCoordinator × Option ElectionEvent))
          → TicksSoundly scalar ticked
          → ReturnsSound scalar (
              of_tick ticked >>= (λ r.
                after_tick scalar now r.1 (record n { election_coordinator = some r.0 })
                >>= (λ elected.
                    expire_claim scalar now elected
                    >>= (λ expired. tick_reconnection_fallback scalar probe now expired))))
      continue (err _) h = h
      continue (ok (c', event)) h =
          after_tick-ReturnsSound now event (record n { election_coordinator = some c' })
            (h, sound.1)

  advance_with-ReturnsSound :
      (now : ℕ) (c : Option ElectionCoordinator) (n : Node scalar)
      → HasTimer c
      → IsSound scalar n
      → ReturnsSound scalar (advance_with scalar probe now c n)
  unfolding advance_with
  advance_with-ReturnsSound now none n timer sound = sound
  advance_with-ReturnsSound now (some c) n timer sound =
      if-both (ReturnsSound scalar) n.election_triggered
        (advance_election-ReturnsSound now c n timer sound) sound

  tick_with-ReturnsSound :
      (now : ℕ) (c : Option ElectionCoordinator) (watcher : Option HostTimeoutWatcher)
      (n : Node scalar)
      → IsSound scalar n
      → ReturnsSound scalar (tick_with scalar probe now c watcher n)
  unfolding tick_with watch_host advance_if_triggered
  tick_with-ReturnsSound now (some c) (some watcher) n sound =
      >>=-ReturnsSound scalar (watch_host scalar now c watcher n) _
        (watch_until-ReturnsSound scalar now n.host_verify_deadline c watcher n sound)
        (λ watched h. advance_with-ReturnsSound now watched.election_coordinator watched h.0 h)
  tick_with-ReturnsSound now (some c) none n sound = sound
  tick_with-ReturnsSound now none watcher n sound = sound

  -- In a node whose pending election has its timer set and which has an address and a session, and if
  -- the prober does not raise and names no empty address: the election's tick of a frame raises
  -- neither the coordinator's error nor that of a message's constructor, and the node that it returns
  -- is such a node again.
  pub tick_election_state-ReturnsSound :
      (now : ℕ) (n : Node scalar)
      → IsSound scalar n
      → ReturnsSound scalar (tick_election_state scalar probe now n)
  unfolding tick_election_state
  tick_election_state-ReturnsSound now n sound =
      tick_with-ReturnsSound now n.election_coordinator n.timeout_watcher n sound
