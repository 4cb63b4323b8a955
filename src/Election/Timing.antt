-- ===== src/Election/Timing.antt =====
-- The staggered timers of src/distributed_smb/application/election/coordinator.py: why a node with
-- a lower join index is first, and how much skew and delay the stagger absorbs.
use mas_dsmb.Prelude.{
  ◌≡◌, ◌+◌, ◌-◌, ◌*◌, ◌≤◌, ◌<◌, ◌∷◌, ◌++◌, ◌∙◌, ℕ, String, refl, ap, false, some, List, [], arith,
  ok,
}
use mas_dsmb.Election.{
  ElectionCoordinator, ElectionEvent, Input, at_time, claim, start_election, set_election_timer,
  run,
}
use mas_dsmb.Election.Outcome.{expires_first, self_elections, Elected, election_outcome, one_if}

abbrev timer_of : ElectionCoordinator → ℕ
timer_of c = c.timeout_base + c.join_index * c.timeout_delta

-- An election started at a time, with the timer that the node sets for it.
abbrev pub begun : ℕ → List String → ElectionCoordinator → ElectionCoordinator
begun now peers c = set_election_timer now (start_election peers c)

abbrev pub AllBefore : ℕ → List Input → Type 0
AllBefore time [] = Unit
AllBefore time (at_time t ∷ rest) = (t < time) × AllBefore time rest
AllBefore time (claim index ip ∷ rest) = AllBefore time rest

expires_first-claimed :
    (mine expiry index : ℕ) (ip : String) (before after : List Input)
    → AllBefore expiry before
    → index < mine
    → expires_first mine expiry (before ++ claim index ip ∷ after) ≡ false
expires_first-claimed mine expiry index ip [] after early lower = ground arith
expires_first-claimed mine expiry index ip (at_time t ∷ rest) after early lower =
    ground (arith, expires_first-claimed mine expiry index ip rest after early.1 lower)
expires_first-claimed mine expiry index ip (claim i j ∷ rest) after early lower =
    ground (arith, expires_first-claimed mine expiry index ip rest after early lower)

AllBefore-le : {s t : ℕ} (inputs : List Input) → s ≤ t → AllBefore s inputs → AllBefore t inputs
AllBefore-le [] h before = tt
AllBefore-le (at_time t ∷ rest) h before = (omega arith, AllBefore-le rest h before.1)
AllBefore-le (claim index ip ∷ rest) h before = AllBefore-le rest h before

stagger :
    (base delta i j start_i start_j skew : ℕ)
    → i < j
    → start_i ≤ start_j + skew
    → start_i + (base + i * delta) + delta ≤ start_j + (base + j * delta) + skew
stagger base delta i j start_i start_j skew lower h =
    omega (arith, ap (λ (t : ℕ). t * delta) split, stretch)
  where
    split : i + 1 + (j - i - 1) ≡ j
    split = omega arith

    stretch : 0 ≤ (j - i - 1) * delta
    stretch = omega arith

-- The lower join index wins: if two nodes start an election with at most `skew` between their
-- clocks' readings, and the claim that the lower one makes when its timer expires reaches the other
-- before `delay` has passed, then the other never elects itself, as long as skew and delay together
-- stay within one step of the stagger. It raises nothing either.
pub lower_index_wins :
    (low high : ElectionCoordinator) (peers_low peers_high : List String)
    (start_low start_high skew delay : ℕ) (expiry : ℕ) (before after : List Input)
    → low.join_index < high.join_index
    → low.timeout_base ≡ high.timeout_base
    → low.timeout_delta ≡ high.timeout_delta
    → start_low ≤ start_high + skew
    → skew + delay ≤ high.timeout_delta
    → (begun start_low peers_low low).election_timer_expiry ≡ some expiry
    → AllBefore (expiry + delay) before
    → (c : ElectionCoordinator) × (events : List ElectionEvent) × (run
          (before ++ claim low.join_index low.my_ip ∷ after)
          (begun start_high peers_high high)
        ≡ ok (c, events))
      × (self_elections events ≡ 0)
unfolding start_election set_election_timer
lower_index_wins low high peers_low peers_high start_low start_high skew delay expiry before after
      lower base delta skewed short timer early =
    (won.after, won.events, won.runs, won.elections ∙ ap one_if none_first)
  where
    won :
        Elected
          (before ++ claim low.join_index low.my_ip ∷ after)
          (begun start_high peers_high high)
          (start_high + timer_of high)
    won =
        election_outcome _ (begun start_high peers_high high) (start_high + timer_of high) refl refl
          (record { index = refl; ip = refl })

    expiry_of_low : expiry ≡ start_low + timer_of low
    expiry_of_low = ground arith

    bound : expiry + delay ≤ start_high + timer_of high
    bound = omega (
      arith,
      expiry_of_low,
      base,
      ap (λ (d : ℕ). low.join_index * d) delta,
      stagger high.timeout_base high.timeout_delta low.join_index high.join_index start_low
          start_high skew lower skewed,
    )

    none_first :
        expires_first high.join_index
          (start_high + timer_of high)
          (before ++ claim low.join_index low.my_ip ∷ after)
        ≡ false
    none_first =
        expires_first-claimed high.join_index (start_high + timer_of high) low.join_index low.my_ip
          before after (AllBefore-le before bound early) lower
