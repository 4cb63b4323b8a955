-- ===== src/Failover/Watched.antt =====
-- A sound node, and that the watch on the host and the end of an election leave it sound.
use mas_dsmb.Prelude.{
  ◌>>=◌, ◌≡◌, ◌&&◌, ◌||◌, ◌∙◌, if◌then◌else◌, if-both, ℕ, String, refl, sym, ap, Bool, true, false,
  not, Option, none, some, arith, leb, Result, ok, err, subst,
}
use mas_dsmb.Domain.Scalar.{Scalar}
use mas_dsmb.Shared.Roster.{RosterEntry, get_host}
use mas_dsmb.Shared.Messages.{is_port}
use mas_dsmb.Election.{
  ElectionCoordinator, ElectionState, idle, election_pending, claimed, follower, tick_in,
  ElectionError, tick, HostTimeoutWatcher, start_election, set_election_timer, host_timed_out,
  ElectionEvent, self_elected,
}
use mas_dsmb.Wire.Messages.{is_filled, probe_is_valid, reconnection_is_valid}
use mas_dsmb.Wire.Schemas.{Read}
use mas_dsmb.Failover.Node.{host_udp_port, game_event_ws_port, Node, perform, with_world}
use mas_dsmb.Failover.Promotion.{evict_host}
use mas_dsmb.Failover.Claims.{TickError, if_valid}
use mas_dsmb.Failover.Watch.{
  suspect, tick_host_verify, on_reconnection_ack, send_host_verify_probe, reset_election_state,
  begin_election, resend_host_verify_probe, probing, probed, found_ack, watch_until, redirect,
  repoint_roster_at, flag_host, resync_environment,
}
use mas_dsmb.Failover.Coordinator.{Lasting, lasting, Lasts, is_named, evict_host-coordinator}

-- A coordinator in the pending state has its timer set.
abbrev pub timer_for : ElectionState → Option ℕ → Bool
timer_for election_pending none = false
timer_for _ _ = true

abbrev pub HasTimer : Option ElectionCoordinator → Type 0
HasTimer none = Unit
HasTimer (some c) = timer_for c.state c.election_timer_expiry ≡ true

-- What the prober may answer: it does not raise, and names no empty address.
abbrev pub IsAnswer : Read (Option String) → Type 0
IsAnswer (err _) = ⊥
IsAnswer (ok none) = Unit
IsAnswer (ok (some host_ip)) = is_filled host_ip ≡ true

module _ (scalar : Scalar) where
  abbrev pub LastsSound : Lasting scalar → Type 0
  LastsSound (c, session_id, local_ip) =
      HasTimer c × ((is_filled local_ip && is_filled session_id) ≡ true)

  -- A pending election has its timer, and the node has an address and a session.
  abbrev pub IsSound : Node scalar → Type 0
  IsSound n = HasTimer n.election_coordinator × (is_named scalar n ≡ true)

  -- What the tick of a coordinator, and of a node, returns.
  abbrev pub TicksSoundly :
      Result ElectionError (ElectionCoordinator × Option ElectionEvent) → Type 0
  TicksSoundly (err _) = ⊥
  TicksSoundly (ok (c, event)) = HasTimer (some c)

  abbrev pub ReturnsSound : Result TickError (Node scalar) → Type 0
  ReturnsSound (err _) = ⊥
  ReturnsSound (ok n) = IsSound n

  tick_in-TicksSoundly :
      (state : ElectionState) (expiry : Option ℕ) (now : ℕ) (c : ElectionCoordinator)
      → timer_for state expiry ≡ true
      → HasTimer (some c)
      → TicksSoundly (tick_in state expiry now c)
  tick_in-TicksSoundly election_pending (some expiry) now c h sound =
      elim (leb expiry now)
        as (λ b. TicksSoundly (
          if b
          then ok (record c { state = claimed }, some (self_elected c.my_ip))
          else ok (c, none))) [ true ↦ refl | false ↦ sound ]
  tick_in-TicksSoundly election_pending none now c h sound = ground arith
  tick_in-TicksSoundly idle expiry now c h sound = sound
  tick_in-TicksSoundly claimed expiry now c h sound = sound
  tick_in-TicksSoundly follower expiry now c h sound = sound

  pub tick-TicksSoundly :
      (now : ℕ) (c : ElectionCoordinator) → HasTimer (some c) → TicksSoundly (tick now c)
  unfolding tick
  tick-TicksSoundly now c sound =
      tick_in-TicksSoundly c.state c.election_timer_expiry now c sound sound

  lasting-IsSound :
      (n m : Node scalar) → lasting scalar m ≡ lasting scalar n → IsSound n → IsSound m
  lasting-IsSound n m same sound = subst LastsSound (sym same) sound

  pub Lasts-ReturnsSound :
      (n : Node scalar) (r : Result TickError (Node scalar))
      → Lasts scalar n r
      → IsSound n
      → ReturnsSound r
  Lasts-ReturnsSound n (err _) same sound = same
  Lasts-ReturnsSound n (ok m) same sound = lasting-IsSound n m same sound

  pub >>=-ReturnsSound :
      (r : Result TickError (Node scalar)) (next : Node scalar → Result TickError (Node scalar))
      → ReturnsSound r
      → ((m : Node scalar) → IsSound m → ReturnsSound (next m))
      → ReturnsSound (r >>= next)
  >>=-ReturnsSound (err _) next h then_sound = h
  >>=-ReturnsSound (ok m) next h then_sound = then_sound m h

  if_valid-ReturnsSound :
      (valid : Bool) (m : Node scalar) → valid ≡ true → IsSound m → ReturnsSound (if_valid valid m)
  unfolding if_valid
  if_valid-ReturnsSound true m h sound = sound
  if_valid-ReturnsSound false m h sound = absurd (ground arith)

  resend_host_verify_probe-ReturnsSound :
      (now : ℕ) (n : Node scalar) → IsSound n → ReturnsSound (resend_host_verify_probe scalar now n)
  unfolding resend_host_verify_probe probing perform probe_is_valid
  resend_host_verify_probe-ReturnsSound now n sound =
      if_valid-ReturnsSound (probe_is_valid n.session_id n.local_ip) (probing scalar now n)
        (ground (arith, sound.1)) sound

  suspect-ReturnsSound :
      (now : ℕ) (watcher : HostTimeoutWatcher) (n : Node scalar)
      → IsSound n
      → ReturnsSound (suspect scalar now watcher n)
  unfolding suspect send_host_verify_probe
  suspect-ReturnsSound now watcher n sound =
      if-both ReturnsSound (not n.election_triggered && host_timed_out now watcher)
        (resend_host_verify_probe-ReturnsSound now _ sound) sound

  tick_host_verify-ReturnsSound :
      (now deadline : ℕ) (c : ElectionCoordinator) (watcher : HostTimeoutWatcher) (n : Node scalar)
      → IsSound n
      → ReturnsSound (tick_host_verify scalar now deadline c watcher n)
  unfolding tick_host_verify begin_election start_election set_election_timer
  tick_host_verify-ReturnsSound now deadline c watcher n sound =
      if-both ReturnsSound (not (host_timed_out now watcher)) sound (
        if-both ReturnsSound (leb deadline now) (refl, sound.1)
          (if-both ReturnsSound (leb n.host_verify_next_probe now)
            (resend_host_verify_probe-ReturnsSound now n sound) sound))

  pub watch_until-ReturnsSound :
      (now : ℕ) (deadline : Option ℕ) (c : ElectionCoordinator) (watcher : HostTimeoutWatcher)
      (n : Node scalar)
      → IsSound n
      → ReturnsSound (watch_until scalar now deadline c watcher n)
  unfolding watch_until
  watch_until-ReturnsSound now none c watcher n sound = suspect-ReturnsSound now watcher n sound
  watch_until-ReturnsSound now (some deadline) c watcher n sound =
      tick_host_verify-ReturnsSound now deadline c watcher n sound

  flag_host-lasting :
      (e : Option RosterEntry) (n : Node scalar)
      → lasting scalar (flag_host scalar e n) ≡ lasting scalar n
  unfolding flag_host
  flag_host-lasting none n = refl
  flag_host-lasting (some entry) n = refl

  repoint_roster_at-lasting :
      (ip : String) (n : Node scalar)
      → lasting scalar (repoint_roster_at scalar ip n) ≡ lasting scalar n
  unfolding repoint_roster_at
  repoint_roster_at-lasting ip n =
      flag_host-lasting _ (evict_host scalar (get_host n.roster) n)
      ∙ evict_host-coordinator scalar (get_host n.roster) n

  reset-IsSound :
      (ip : String) (n : Node scalar)
      → is_named scalar n ≡ true
      → IsSound (reset_election_state scalar (repoint_roster_at scalar ip n))
  unfolding reset_election_state
  reset-IsSound ip n named = (
    tt,
    ap (λ (l : Lasting scalar). is_filled l.2 && is_filled l.1) (repoint_roster_at-lasting ip n)
        ∙ named,
  )

  on_reconnection_ack-IsSound :
      (ip : String) (udp_port events_port : ℕ) (n : Node scalar)
      → IsSound n
      → IsSound (on_reconnection_ack scalar ip udp_port events_port n)
  unfolding on_reconnection_ack redirect perform
  on_reconnection_ack-IsSound ip udp_port events_port n sound =
      let moved = redirect scalar ip udp_port events_port n in
      let resynced = with_world scalar (resync_environment scalar moved.env_state_buffer) moved in
      if-both IsSound (n.reconnected || n.promotion_done) sound
        (reset-IsSound ip (record resynced { last_snapshot_sequence = 0 }) sound.1)

  pub probed-ReturnsSound :
      (answer : Option String) (n : Node scalar)
      → IsAnswer (ok answer)
      → IsSound n
      → ReturnsSound (probed scalar answer n)
  unfolding probed found_ack reconnection_is_valid is_port
  probed-ReturnsSound none n h sound = sound
  probed-ReturnsSound (some found_ip) n h sound =
      if_valid-ReturnsSound (reconnection_is_valid (found_ack scalar found_ip n)) _
        (ground (arith, sound.1))
        (on_reconnection_ack-IsSound found_ip host_udp_port game_event_ws_port
          (record n { following_host_ip = none }) sound)
