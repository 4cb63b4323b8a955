-- ===== src/Election/Outcome.antt =====
-- What an election comes to, for one node, whatever reaches it in whatever order.
use mas_dsmb.Prelude.{
  ◌≡◌, ◌∷◌, ◌∙◌, if◌then◌else◌, ℕ, suc, String, refl, sym, ap, inl, inr, Bool, true, false, Option,
  none, some, List, [], arith, leb, Bool-cases, ok,
}
use mathlib.Core.Option
use mas_dsmb.Election.{
  ElectionEvent, self_elected, following_host, Input, at_time, claim, ElectionState,
  ElectionCoordinator, run, step, election_pending, claimed, note, follower, on_new_host_claim,
  tick,
}

-- The last claim of a lower join index, or what was there before.
abbrev pub last_lower : ℕ → Option (ℕ × String) → List Input → Option (ℕ × String)
last_lower mine best [] = best
last_lower mine best (at_time t ∷ rest) = last_lower mine best rest
last_lower mine best (claim index ip ∷ rest) =
    last_lower mine (if leb mine index then best else some (index, ip)) rest

-- The timer expires at some input before any claim of a lower join index.
abbrev pub expires_first : ℕ → ℕ → List Input → Bool
expires_first mine expiry [] = false
expires_first mine expiry (at_time t ∷ rest) =
    let later = expires_first mine expiry rest in if leb expiry t then true else later
expires_first mine expiry (claim index ip ∷ rest) =
    let later = expires_first mine expiry rest in if leb mine index then later else false

-- How often the node elects itself.
abbrev pub self_elections : List ElectionEvent → ℕ
self_elections [] = 0
self_elections (self_elected ip ∷ rest) = suc (self_elections rest)
self_elections (following_host ip index ∷ rest) = self_elections rest

abbrev pub one_if : Bool → ℕ
one_if true = 1
one_if false = 0

-- The state of a node whose election is over.
abbrev pub settled_state : Option (ℕ × String) → ElectionState
settled_state none = claimed
settled_state (some _) = follower

abbrev pub final_state : Bool → Option (ℕ × String) → ElectionState
final_state false none = election_pending
final_state _ best = settled_state best

-- The coordinator follows this claim, or none.
pub record Follows (best : Option (ℕ × String)) (c : ElectionCoordinator) : Type 0 where
  pub index : c.current_host_join_index ≡ Option.map (λ b. b.0) best
  pub ip : c.current_host_ip ≡ Option.map (λ b. b.1) best

run-cons :
    (input : Input) (rest : List Input) (c : ElectionCoordinator) {c' c'' : ElectionCoordinator}
    {event : Option ElectionEvent} {events : List ElectionEvent}
    → step input c ≡ ok (c', event)
    → run rest c' ≡ ok (c'', events)
    → run (input ∷ rest) c ≡ ok (c'', note event events)
unfolding run
run-cons input rest c e f = rw (e, f)

-- The result of a run from a settled state.
pub record Settled (inputs : List Input) (c : ElectionCoordinator) (best : Option (ℕ × String))
    : Type 0 where
  pub after : ElectionCoordinator
  pub events : List ElectionEvent
  pub runs : run inputs c ≡ ok (after, events)
  pub quiet : self_elections events ≡ 0
  pub state : after.state ≡ settled_state (last_lower c.join_index best inputs)
  pub host : Follows (last_lower c.join_index best inputs) after

-- The coordinator that has followed a claim.
abbrev followed : ElectionCoordinator → ℕ → String → ElectionCoordinator
followed c index ip = record c {
  state = follower;
  current_host_ip = some ip;
  current_host_join_index = some index;
  election_timer_expiry = none;
}

step-tick_settled :
    (t : ℕ) (c : ElectionCoordinator) (best : Option (ℕ × String))
    → c.state ≡ settled_state best
    → step (at_time t) c ≡ ok (c, none)
unfolding step tick
step-tick_settled t c none at = ground arith
step-tick_settled t c (some b) at = ground arith

step-claim_ignored :
    (index : ℕ) (ip : String) (c : ElectionCoordinator)
    → leb c.join_index index ≡ true
    → step (claim index ip) c ≡ ok (c, none)
unfolding step on_new_host_claim
step-claim_ignored index ip c higher = rw higher

step-claim_followed :
    (index : ℕ) (ip : String) (c : ElectionCoordinator)
    → leb c.join_index index ≡ false
    → step (claim index ip) c ≡ ok (followed c index ip, some (following_host ip index))
unfolding step on_new_host_claim
step-claim_followed index ip c lower = rw lower

Settled-run :
    (inputs : List Input) (c : ElectionCoordinator) (best : Option (ℕ × String))
    → c.state ≡ settled_state best
    → Follows best c
    → Settled inputs c best
Settled-run [] c best at host = record {
  after = c;
  events = [];
  runs = unfold run in refl;
  quiet = refl;
  state = at;
  host = host;
}
Settled-run (at_time t ∷ rest) c best at host =
    let s = Settled-run rest c best at host in
    record {
      after = s.after;
      events = s.events;
      runs = run-cons (at_time t) rest c (step-tick_settled t c best at) s.runs;
      quiet = s.quiet;
      state = s.state;
      host = s.host;
    }
Settled-run (claim index ip ∷ rest) c best at host = elim (Bool-cases (leb c.join_index index)) [
  | inl higher ↦
      let s = Settled-run rest c best at host in
      record {
        after = s.after;
        events = s.events;
        runs = run-cons (claim index ip) rest c (step-claim_ignored index ip c higher) s.runs;
        quiet = s.quiet;
        state = rw higher s.state;
        host = rw higher s.host;
      }
  | inr lower ↦
      let s =
        Settled-run rest (followed c index ip) (some (index, ip)) refl
          (record { index = refl; ip = refl }) in
      record {
        after = s.after;
        events = following_host ip index ∷ s.events;
        runs = run-cons (claim index ip) rest c (step-claim_followed index ip c lower) s.runs;
        quiet = s.quiet;
        state = rw lower s.state;
        host = rw lower s.host;
      }
]

-- The result of a run from the start of an election.
pub record Elected (inputs : List Input) (c : ElectionCoordinator) (expiry : ℕ) : Type 0 where
  pub after : ElectionCoordinator
  pub events : List ElectionEvent
  pub runs : run inputs c ≡ ok (after, events)
  pub elections : self_elections events ≡ one_if (expires_first c.join_index expiry inputs)
  pub state :
      after.state
      ≡ final_state (expires_first c.join_index expiry inputs) (last_lower c.join_index none inputs)
  pub host : Follows (last_lower c.join_index none inputs) after

abbrev won : ElectionCoordinator → ElectionCoordinator
won c = record c { state = claimed }

step-tick_early :
    (t expiry : ℕ) (c : ElectionCoordinator)
    → c.state ≡ election_pending
    → c.election_timer_expiry ≡ some expiry
    → leb expiry t ≡ false
    → step (at_time t) c ≡ ok (c, none)
unfolding step tick
step-tick_early t expiry c at timer early = ground arith

step-tick_due :
    (t expiry : ℕ) (c : ElectionCoordinator)
    → c.state ≡ election_pending
    → c.election_timer_expiry ≡ some expiry
    → leb expiry t ≡ true
    → step (at_time t) c ≡ ok (won c, some (self_elected c.my_ip))
unfolding step tick
step-tick_due t expiry c at timer due = ground arith

final_state-true : (best : Option (ℕ × String)) → final_state true best ≡ settled_state best
final_state-true none = refl
final_state-true (some b) = refl

last_lower-some :
    (mine : ℕ) (b : ℕ × String) (inputs : List Input)
    → (b' : ℕ × String) × (last_lower mine (some b) inputs ≡ some b')
last_lower-some mine b [] = (b, refl)
last_lower-some mine b (at_time t ∷ rest) = last_lower-some mine b rest
last_lower-some mine b (claim index ip ∷ rest) = elim (Bool-cases (leb mine index)) [
  | inl higher ↦ rw higher (last_lower-some mine b rest)
  | inr lower ↦ rw lower (last_lower-some mine (index, ip) rest)
]

-- From a pending election whose timer is set, whatever reaches the node: it never raises; the node
-- elects itself once if its timer expires before any claim of a lower join index and never
-- otherwise; it ends as a follower of the last such claim if there was one, and else as a claimant
-- or still pending.
pub election_outcome :
    (inputs : List Input) (c : ElectionCoordinator) (expiry : ℕ)
    → c.state ≡ election_pending
    → c.election_timer_expiry ≡ some expiry
    → Follows none c
    → Elected inputs c expiry
election_outcome [] c expiry at timer host = record {
  after = c;
  events = [];
  runs = unfold run in refl;
  elections = refl;
  state = at;
  host = host;
}
election_outcome (at_time t ∷ rest) c expiry at timer host = elim (Bool-cases (leb expiry t)) [
  | inl due ↦
      let s = Settled-run rest (won c) none refl (record { index = host.index; ip = host.ip }) in
      record {
        after = s.after;
        events = self_elected c.my_ip ∷ s.events;
        runs = run-cons (at_time t) rest c (step-tick_due t expiry c at timer due) s.runs;
        elections = rw due (ap suc s.quiet);
        state = rw due (s.state ∙ sym (final_state-true _));
        host = s.host;
      }
  | inr early ↦
      let s = election_outcome rest c expiry at timer host in
      record {
        after = s.after;
        events = s.events;
        runs = run-cons (at_time t) rest c (step-tick_early t expiry c at timer early) s.runs;
        elections = rw early s.elections;
        state = rw early s.state;
        host = s.host;
      }
]
election_outcome (claim index ip ∷ rest) c expiry at timer host =
    elim (Bool-cases (leb c.join_index index)) [
      | inl higher ↦
          let s = election_outcome rest c expiry at timer host in
          record {
            after = s.after;
            events = s.events;
            runs = run-cons (claim index ip) rest c (step-claim_ignored index ip c higher) s.runs;
            elections = rw higher s.elections;
            state = rw higher s.state;
            host = rw higher s.host;
          }
      | inr lower ↦
          let s =
            Settled-run rest (followed c index ip) (some (index, ip)) refl
              (record { index = refl; ip = refl }) in
          record {
            after = s.after;
            events = following_host ip index ∷ s.events;
            runs = run-cons (claim index ip) rest c (step-claim_followed index ip c lower) s.runs;
            elections = rw lower s.quiet;
            state =
                rw lower
                  (s.state ∙ sym (final_some (last_lower-some c.join_index (index, ip) rest)));
            host = rw lower s.host;
          }
    ]
  where
    final_some :
        {best : Option (ℕ × String)}
        → ((b : ℕ × String) × (best ≡ some b))
        → final_state false best ≡ settled_state best
    final_some (b, e) = rw e
