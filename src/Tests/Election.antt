-- ===== src/Tests/Election.antt =====
-- Tests of the election (src/distributed_smb/application/election/coordinator.py).
use mas_dsmb.Prelude.{◌≡◌, ◌+◌, ◌≤◌, ◌<◌, ◌∷◌, ◌++◌, refl, none, some, List, [], arith, ok}
use mas_dsmb.Election.{
  ElectionCoordinator, ElectionEvent, Input, at_time, claim, new_coordinator, start_election,
  set_election_timer, run, on_new_host_claim, election_pending,
}
use mas_dsmb.Election.Outcome.{Elected, Follows, self_elections, election_outcome}
use mas_dsmb.Election.Timing.{begun, lower_index_wins}

-- Two nodes, with the timers of the game.
abbrev first : ElectionCoordinator
first = begun 1000 [] (new_coordinator 1 "10.0.0.1" 500 300)

abbrev third : ElectionCoordinator
third = begun 1000 [] (new_coordinator 3 "10.0.0.3" 500 300)

abbrev inputs : List Input
inputs = at_time 1500 ∷ claim 1 "10.0.0.1" ∷ claim 2 "10.0.0.2" ∷ at_time 9000 ∷ []

-- The later claim of a higher join index replaces the earlier one.
switches :
    (on_new_host_claim 2 "10.0.0.2" (on_new_host_claim 1 "10.0.0.1" third).0).0.current_host_ip
    ≡ some "10.0.0.2"
unfolding on_new_host_claim set_election_timer start_election new_coordinator
switches = refl

pending : Follows none third
unfolding start_election set_election_timer new_coordinator
pending = record { index = refl; ip = refl }

started : third.state ≡ election_pending
unfolding start_election set_election_timer new_coordinator
started = refl

timer : third.election_timer_expiry ≡ some 2400
unfolding start_election set_election_timer new_coordinator
timer = refl

election_outcome_example : Elected inputs third 2400
election_outcome_example = election_outcome inputs third 2400 started timer pending

abbrev low : ElectionCoordinator
low = new_coordinator 1 "10.0.0.1" 500 300

abbrev high : ElectionCoordinator
high = new_coordinator 3 "10.0.0.3" 500 300

lower : low.join_index < high.join_index
unfolding new_coordinator
lower = omega arith

same_base : low.timeout_base ≡ high.timeout_base
unfolding new_coordinator
same_base = refl

same_delta : low.timeout_delta ≡ high.timeout_delta
unfolding new_coordinator
same_delta = refl

within : 100 + 150 ≤ high.timeout_delta
unfolding new_coordinator
within = omega arith

low_timer : (begun 1000 [] low).election_timer_expiry ≡ some 1800
unfolding start_election set_election_timer new_coordinator
low_timer = refl

lower_index_wins_example :
    (c : ElectionCoordinator) × (events : List ElectionEvent) × (run
        ((at_time 1600 ∷ []) ++ claim low.join_index low.my_ip ∷ at_time 5000 ∷ [])
        (begun 950 [] high)
      ≡ ok (c, events))
    × (self_elections events ≡ 0)
lower_index_wins_example =
    lower_index_wins low high [] [] 1000 950 100 150 1800 (at_time 1600 ∷ []) (at_time 5000 ∷ [])
      lower same_base same_delta (omega arith) within low_timer (omega arith, tt)
