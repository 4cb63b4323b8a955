-- ===== src/Election.antt =====
-- src/distributed_smb/application/election/{coordinator,timeout_watcher,env_state_buffer}.py: the
-- election's state machine, the failure detector and the buffer of the last snapshot. Times are
-- whole milliseconds.
pub mod Outcome
pub mod Timing
use mas_dsmb.Prelude.{
  ◌+◌, ◌*◌, ◌∷◌, if◌then◌else◌, ℕ, String, Bool, false, Option, none, some, List, [], ltb, leb,
  Result, ok, err, ◌>>=◌,
}

pub data ElectionState : Type 0 where
  idle election_pending claimed follower : ElectionState

pub data ElectionEvent : Type 0 where
  self_elected : String → ElectionEvent
  following_host : String → ℕ → ElectionEvent

-- `tick` in the pending state with no timer set.
pub data ElectionError : Type 0 where
  timer_not_set : ElectionError

pub record ElectionCoordinator : Type 0 where
  pub join_index : ℕ
  pub my_ip : String
  pub timeout_base : ℕ
  pub timeout_delta : ℕ
  pub state : ElectionState
  pub current_host_ip : Option String
  pub current_host_join_index : Option ℕ
  pub known_peers : List String
  pub election_timer_expiry : Option ℕ

unfoldable pub new_coordinator : ℕ → String → ℕ → ℕ → ElectionCoordinator
new_coordinator join_index my_ip timeout_base timeout_delta = record {
  join_index = join_index;
  my_ip = my_ip;
  timeout_base = timeout_base;
  timeout_delta = timeout_delta;
  state = idle;
  current_host_ip = none;
  current_host_join_index = none;
  known_peers = [];
  election_timer_expiry = none;
}

unfoldable pub start_election : List String → ElectionCoordinator → ElectionCoordinator
start_election known_peers c = record c {
  state = election_pending;
  known_peers = known_peers;
  current_host_ip = none;
  current_host_join_index = none;
}

unfoldable pub set_election_timer : ℕ → ElectionCoordinator → ElectionCoordinator
set_election_timer current_time c = record c {
  election_timer_expiry = some (current_time + (c.timeout_base + c.join_index * c.timeout_delta));
}

abbrev Ticked : Type 0
Ticked = Result ElectionError (ElectionCoordinator × Option ElectionEvent)

-- The tick in a state, with the timer's expiry.
abbrev pub tick_in : ElectionState → Option ℕ → ℕ → ElectionCoordinator → Ticked
tick_in election_pending none current_time c = err timer_not_set
tick_in election_pending (some expiry) current_time c =
    if leb expiry current_time
    then ok (record c { state = claimed }, some (self_elected c.my_ip))
    else ok (c, none)
tick_in _ _ current_time c = ok (c, none)

unfoldable pub tick :
    ℕ → ElectionCoordinator → Result ElectionError (ElectionCoordinator × Option ElectionEvent)
tick current_time c = tick_in c.state c.election_timer_expiry current_time c

unfoldable pub on_new_host_claim :
    ℕ → String → ElectionCoordinator → ElectionCoordinator × Option ElectionEvent
on_new_host_claim claimer_join_index claimer_ip c =
    if leb c.join_index claimer_join_index then (c, none) else (
      record c {
        state = follower;
        current_host_ip = some claimer_ip;
        current_host_join_index = some claimer_join_index;
        election_timer_expiry = none;
      },
      some (following_host claimer_ip claimer_join_index),
    )

-- `HostTimeoutWatcher`
pub record HostTimeoutWatcher : Type 0 where
  pub timeout : ℕ
  pub last_snapshot_time : Option ℕ

abbrev pub new_watcher : ℕ → HostTimeoutWatcher
new_watcher timeout = record { timeout = timeout; last_snapshot_time = none }

unfoldable pub reset_watcher : ℕ → HostTimeoutWatcher → HostTimeoutWatcher
reset_watcher timestamp w = record w { last_snapshot_time = some timestamp }

-- `(current_time - last) > timeout`, also where the clock has gone back.
unfoldable pub host_timed_out : ℕ → HostTimeoutWatcher → Bool
host_timed_out current_time w = elim w.last_snapshot_time [
  | none ↦ false
  | some last ↦ ltb (last + w.timeout) current_time
]

-- `EnvironmentalStateBuffer`, over the type of snapshots.
abbrev pub EnvironmentalStateBuffer : Type 0 → Type 0
EnvironmentalStateBuffer Snapshot = Option Snapshot

unfoldable pub update_buffer :
    {Snapshot : Type 0}
    → Snapshot
    → EnvironmentalStateBuffer Snapshot
    → EnvironmentalStateBuffer Snapshot
update_buffer snapshot buffer = some snapshot

-- What reaches a node during an election.
pub data Input : Type 0 where
  at_time : ℕ → Input
  claim : ℕ → String → Input

abbrev note : Option ElectionEvent → List ElectionEvent → List ElectionEvent
note none events = events
note (some e) events = e ∷ events

step : Input → ElectionCoordinator → Ticked
step (at_time t) c = tick t c
step (claim index ip) c = ok (on_new_host_claim index ip c)

-- The node's coordinator through a sequence of inputs, and the events that it emits, in order.
unfoldable pub run :
    List Input
    → ElectionCoordinator
    → Result ElectionError (ElectionCoordinator × List ElectionEvent)
unfolding step
run [] c = ok (c, [])
run (input ∷ rest) c = do
  (c', event) ← step input c
  (c'', events) ← run rest c'
  ok (c'', note event events)
