-- ===== src/Domain/Rules.antt =====
-- The rules of the game: when gates are open, and who gets a power-up.
use mas_dsmb.Prelude.{
  ◌≡◌, ◌≤◌, ◌↔◌, ◌⊎◌, ◌∷◌, ◌∙◌, if◌then◌else◌, if-both, ℕ, String, refl, sym, ap, inl, inr, Bool,
  true, false, Option, none, some, List, [], arith, ltb, leb, Bool-cases, leb→le, all, Dict, subst,
}
use mas_dsmb.Domain.Scalar.{Scalar}
use mas_dsmb.Domain.World.{
  GateState, opened, closed, CooperativeGate, WorldState, ExclusivePowerUp, Player, Event,
  gate_state_changed,
}
use mas_dsmb.Domain.Players.{GameEngine, emit, over_players}
use mas_dsmb.Domain.Gates.{
  emit_some, meet_gates, meet_gate, set_gates, handle_gate_collisions, update_state, should_be_open,
  is_open, same_state, state_for,
}
use mas_dsmb.Domain.Objects.{winner, award, meet_powerup, colliding}

same_state-is_open :
    (target : Bool) (state : GateState)
    → same_state (state_for target) state ≡ true
    → is_open state ≡ target
unfolding same_state state_for is_open
same_state-is_open true opened h = refl
same_state-is_open true closed h = h
same_state-is_open false opened h = sym h
same_state-is_open false closed h = refl

is_open-state_for : (target : Bool) → is_open (state_for target) ≡ target
unfolding state_for is_open
is_open-state_for true = refl
is_open-state_for false = refl

-- Every value of a dictionary has the property.
abbrev pub AllOf : {V : Type 0} → (V → Type 0) → Dict String V → Type 0
AllOf P [] = Unit
AllOf P ((key, v) ∷ rest) = P v × AllOf P rest

module _ (scalar : Scalar) where
  update_state-is_open :
      (target : Bool) (gate : CooperativeGate scalar)
      → is_open (update_state scalar target gate).0.state ≡ target
  unfolding update_state
  update_state-is_open target gate = elim (Bool-cases (same_state (state_for target) gate.state)) [
    | inl same ↦
        ap (λ b. is_open (chosen b).0.state) same ∙ same_state-is_open target gate.state same
    | inr changed ↦ ap (λ b. is_open (chosen b).0.state) changed ∙ is_open-state_for target
  ]
    where
      chosen : Bool → CooperativeGate scalar × Option (Event scalar)
      chosen b = if b then (gate, none) else (
        record gate { state = state_for target },
        some (gate_state_changed gate.gate_id (state_for target)),
      )

  update_state-should_be_open :
      (w : WorldState scalar) (target : Bool) (gate : CooperativeGate scalar)
      → should_be_open scalar w (update_state scalar target gate).0 ≡ should_be_open scalar w gate
  unfolding update_state should_be_open
  update_state-should_be_open w target gate =
      if-both {A = CooperativeGate scalar × Option (Event scalar)}
        (λ r. should_be_open scalar w r.0 ≡ should_be_open scalar w gate)
        (same_state (state_for target) gate.state) refl refl

  emit_some-should_be_open :
      (event : Option (Event scalar)) (g : GameEngine scalar) (gate : CooperativeGate scalar)
      → should_be_open scalar (emit_some scalar event g).world_state gate
        ≡ should_be_open scalar g.world_state gate
  unfolding emit_some emit
  emit_some-should_be_open none g gate = refl
  emit_some-should_be_open (some event) g gate = refl

  meet_gate-should_be_open :
      (gate : CooperativeGate scalar) (g : GameEngine scalar) (other : CooperativeGate scalar)
      → should_be_open scalar (meet_gate scalar gate g).1.world_state other
        ≡ should_be_open scalar g.world_state other
  unfolding meet_gate over_players should_be_open
  meet_gate-should_be_open gate g other =
      let updated = update_state scalar (should_be_open scalar g.world_state gate) gate in
      if-both {A = GameEngine scalar}
        (λ g'.
          should_be_open scalar g'.world_state other ≡ should_be_open scalar g.world_state other)
        (is_open (updated.0.state)) (emit_some-should_be_open updated.1 g other)
        (emit_some-should_be_open updated.1 g other)

  meet_gates-agree :
      (target : CooperativeGate scalar → Bool) (gates : Dict String (CooperativeGate scalar))
      (g : GameEngine scalar)
      → ((gate : CooperativeGate scalar) → should_be_open scalar g.world_state gate ≡ target gate)
      → AllOf (λ gate. is_open gate.state ≡ target gate) (meet_gates scalar gates g).0
        × ((gate : CooperativeGate scalar)
            → should_be_open scalar (meet_gates scalar gates g).1.world_state gate ≡ target gate)
  unfolding meet_gates meet_gate
  meet_gates-agree target [] g h = (tt, h)
  meet_gates-agree target ((key, gate) ∷ rest) g h =
      let now_open = should_be_open scalar g.world_state gate in
      let after = (meet_gate scalar gate g).1 in
      let later =
        meet_gates-agree target rest after
          (λ other. meet_gate-should_be_open gate g other ∙ h other) in
      (
        (
          update_state-is_open now_open gate
              ∙ sym (update_state-should_be_open g.world_state now_open gate)
              ∙ h (update_state scalar now_open gate).0,
          later.0,
        ),
        later.1,
      )

  handle_gate_collisions-decided :
      (g : GameEngine scalar)
      → let w = (handle_gate_collisions scalar g).world_state in
        AllOf
          (λ gate. is_open gate.state ≡ should_be_open scalar w gate)
          w.environment.cooperative_gates
  unfolding handle_gate_collisions set_gates should_be_open
  handle_gate_collisions-decided g =
      let gates = g.world_state.environment.cooperative_gates in
      let through = meet_gates-agree (should_be_open scalar g.world_state) gates g (λ gate. refl) in
      (meet_gates-agree (should_be_open scalar (meet_gates scalar gates g).1.world_state) gates g
        (λ gate. sym (through.1 gate))).0

  -- The team has collected, destroyed and defeated as many as the gate asks for.
  abbrev pub IsMet : WorldState scalar → CooperativeGate scalar → Type 0
  IsMet w gate =
      (gate.coins_required ≤ w.coins_collected)
      × (gate.blocks_required ≤ w.blocks_destroyed)
      × (gate.enemies_required ≤ w.enemies_defeated)

  should_be_open-IsMet :
      (w : WorldState scalar) (gate : CooperativeGate scalar)
      → (should_be_open scalar w gate ≡ true) ↔ IsMet w gate
  unfolding should_be_open
  should_be_open-IsMet w gate = (
    λ h. (leb→le _ _ (ground arith), leb→le _ _ (ground arith), leb→le _ _ (ground arith)),
    λ met. ground (arith, met.0, met.1, met.2),
  )

  AllOf-IsMet :
      (w : WorldState scalar) (gates : Dict String (CooperativeGate scalar))
      → AllOf (λ gate. is_open gate.state ≡ should_be_open scalar w gate) gates
      → AllOf (λ gate. (is_open gate.state ≡ true) ↔ IsMet w gate) gates
  AllOf-IsMet w [] h = tt
  AllOf-IsMet w ((key, gate) ∷ rest) h =
      let (to, from) = should_be_open-IsMet w gate in
      ((λ now_open. to (sym h.0 ∙ now_open), λ met. h.0 ∙ from met), AllOf-IsMet w rest h.1)

  -- After the gates' step a gate is open exactly if the coins, blocks and enemies that the team has
  -- counted are each at least as many as the gate requires.
  pub handle_gate_collisions-agree :
      (g : GameEngine scalar)
      → let w = (handle_gate_collisions scalar g).world_state in
        AllOf (λ gate. (is_open gate.state ≡ true) ↔ IsMet w gate) w.environment.cooperative_gates
  handle_gate_collisions-agree g =
      let w = (handle_gate_collisions scalar g).world_state in
      AllOf-IsMet w w.environment.cooperative_gates (handle_gate_collisions-decided g)

  -- An entry of the list.
  abbrev pub Among : String × Player scalar → List (String × Player scalar) → Type 0
  Among kp [] = ⊥
  Among kp (other ∷ rest) = (kp ≡ other) ⊎ Among kp rest

  abbrev pub first_of : String × Player scalar → List (String × Player scalar) → Bool
  first_of kp others = all (λ other. leb kp.1.join_index other.1.join_index) others

  abbrev Best :
      String × Player scalar → List (String × Player scalar) → String × Player scalar → Type 0
  Best best others won =
      (leb won.1.join_index best.1.join_index ≡ true)
      × (first_of won others ≡ true)
      × ((won ≡ best) ⊎ Among won others)

  winner_under :
      (best other : String × Player scalar) (rest : List (String × Player scalar))
      (won : String × Player scalar)
      → ltb other.1.join_index best.1.join_index ≡ true
      → Best other rest won
      → Best best (other ∷ rest) won
  winner_under best other rest won under h =
      (ground (arith, h.0), ground (arith, h.0, h.1), inr h.2)

  winner_over :
      (best other : String × Player scalar) (rest : List (String × Player scalar))
      (won : String × Player scalar)
      → ltb other.1.join_index best.1.join_index ≡ false
      → Best best rest won
      → Best best (other ∷ rest) won
  winner_over best other rest won over h =
      (h.0, ground (arith, h.0, h.1), elim h.2 [ inl is ↦ inl is | inr later ↦ inr (inr later) ])

  winner-Best :
      (best : String × Player scalar) (others : List (String × Player scalar))
      → Best best others (winner scalar best others)
  unfolding winner
  winner-Best best [] = (ground arith, refl, inl refl)
  winner-Best best (other ∷ rest) =
      let pick : Bool → Type 0 =
        λ b. Best best (other ∷ rest) (winner scalar (if b then other else best) rest) in
      elim (Bool-cases (ltb other.1.join_index best.1.join_index)) [
        | inl under ↦
            subst pick (sym under) (
              winner_under best other rest (winner scalar other rest) under
                (winner-Best other rest))
        | inr over ↦
            subst pick (sym over)
              (winner_over best other rest (winner scalar best rest) over (winner-Best best rest))
      ]

  -- The owner is one of these players, and none has a smaller join index.
  pub record WonFairly (touching : List (String × Player scalar)) (u : ExclusivePowerUp scalar)
      : Type 0 where
    pub won : String × Player scalar
    pub among : Among won touching
    pub first : first_of won touching ≡ true
    pub collected : u.collected ≡ true
    pub owner : u.owner ≡ some won.1.player_id

  award-WonFairly :
      (now : ℕ) (u : ExclusivePowerUp scalar) (players : Dict String (Player scalar))
      (first : String × Player scalar) (others : List (String × Player scalar))
      → WonFairly (first ∷ others) (award scalar now u (first ∷ others) players).0
  unfolding award
  award-WonFairly now u players first others =
      let best = winner-Best first others in
      record {
        won = winner scalar first others;
        among = best.2;
        first = ground (arith, best.0, best.1);
        collected = refl;
        owner = refl;
      }

  -- A power-up that is not collected and that somebody touches is collected by one of the players that
  -- touch it, one with the least join index of them.
  pub meet_powerup-WonFairly :
      (now : ℕ) (u : ExclusivePowerUp scalar) (players : Dict String (Player scalar))
      (first : String × Player scalar) (others : List (String × Player scalar))
      → u.collected ≡ false
      → colliding scalar u.box players ≡ first ∷ others
      → WonFairly (first ∷ others) (meet_powerup scalar now u players).0
  unfolding meet_powerup
  meet_powerup-WonFairly now u players first others free touching =
      subst (λ b. WonFairly (first ∷ others) (chosen b).0) (sym free)
        (subst (λ t. WonFairly (first ∷ others) (award scalar now u t players).0) (sym touching)
          (award-WonFairly now u players first others))
    where
      chosen : Bool → ExclusivePowerUp scalar × Dict String (Player scalar) × List (Event scalar)
      chosen b =
          if b
          then (u, players, [])
          else award scalar now u (colliding scalar u.box players) players
