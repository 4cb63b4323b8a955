-- ===== src/Domain/Kept.antt =====
-- What no step of the engine changes: nobody is lost, and the tick is counted once.
use mas_dsmb.Prelude.{
  ◌≡◌, ◌&&◌, ◌||◌, ◌∷◌, ◌∙◌, ◌==◌, if-both, ℕ, String, refl, ap, Bool, true, false, not, Option,
  none, some, List, [], arith, Dict, insert, erase, nat_Eq, text_Eq,
}
use mas_dsmb.Domain.Scalar.{Scalar}
use mas_dsmb.Domain.World.{
  InputState, DestructibleBlock, ExclusivePowerUp, Event, get_player, Player, WorldState,
  InputState,
}
use mas_dsmb.Domain.Objects.{
  all_hit_blocks, handle_block_collisions, award, meet_powerups, handle_powerup_collisions,
  hit_blocks, winner, star_effect, colliding, meet_powerup,
}
use mas_dsmb.Domain.Players.{
  GameEngine, over_values, over_players, apply_inputs, apply_input_of, write_input, apply_input,
}
use text.Mathlib.TextEquality.{eq_iff}

abbrev pub has_key : {V : Type 0} → String → Dict String V → Bool
has_key id [] = false
has_key id ((key, v) ∷ rest) = key == id || has_key id rest

pub has_key-over_values :
    {V : Type 0} (id : String) (f : V → V) (d : Dict String V)
    → has_key id (over_values f d) ≡ has_key id d
unfolding over_values
has_key-over_values id f [] = refl
has_key-over_values id f ((key, v) ∷ rest) =
    ap (λ b. key == id || b) (has_key-over_values id f rest)

pub has_key-insert :
    {V : Type 0} (id key : String) (v : V) (d : Dict String V)
    → has_key id (insert key v d) ≡ (key == id || has_key id d)
has_key-insert id key v [] = refl
has_key-insert id key v ((other, w) ∷ rest) =
    ground (arith, eq_iff other key, eq_iff key id, eq_iff other id, has_key-insert id key v rest)

pub has_key-erase :
    {V : Type 0} (id key : String) (d : Dict String V)
    → has_key id (erase key d) ≡ (not (key == id) && has_key id d)
has_key-erase id key [] = ground arith
has_key-erase id key ((other, w) ∷ rest) =
    ground (arith, eq_iff other key, eq_iff key id, eq_iff other id, has_key-erase id key rest)

module _ (scalar : Scalar) where
  -- The player is in the world or waits to respawn.
  abbrev pub is_known : String → WorldState scalar → Bool
  is_known id w = has_key id w.characters || has_key id w.respawn_timers

  -- The step does not count a tick, and loses no player.
  pub record Keeps (before after : WorldState scalar) : Type 0 where
    pub number : after.sequence_number ≡ before.sequence_number
    pub known : (id : String) → is_known id before ≡ true → is_known id after ≡ true

  pub Keeps-refl : (w : WorldState scalar) → Keeps w w
  Keeps-refl w = record { number = refl; known = λ id h. h }

  pub Keeps-trans : {a b c : WorldState scalar} → Keeps a b → Keeps b c → Keeps a c
  Keeps-trans first second = record {
    number = second.number ∙ first.number;
    known = λ id h. second.known id (first.known id h);
  }

  pub over_players-Keeps :
      (f : Player scalar → Player scalar) (g : GameEngine scalar)
      → Keeps g.world_state (over_players scalar f g).world_state
  unfolding over_players
  over_players-Keeps f g = record {
    number = refl;
    known = λ id h.
        ap (λ b. b || has_key id g.world_state.respawn_timers)
          (has_key-over_values id f g.world_state.characters)
        ∙ h;
  }

  insert-known :
      {V : Type 0} (id key : String) (v : V) (d : Dict String V) (waits : Bool)
      → (has_key id d || waits) ≡ true
      → (has_key id (insert key v d) || waits) ≡ true
  insert-known id key v d waits h = ground (arith, has_key-insert id key v d)

  -- A player written under a key: nobody is lost.
  pub insert-Keeps :
      (key : String) (p : Player scalar) (w : WorldState scalar)
      → Keeps w (record w { characters = insert key p w.characters })
  insert-Keeps key p w = record {
    number = refl;
    known = λ id h. insert-known id key p w.characters (has_key id w.respawn_timers) h;
  }

  write_input-Keeps :
      (found : Option (Player scalar)) (id : String) (input : InputState) (w : WorldState scalar)
      → Keeps w (write_input scalar found id input w)
  unfolding write_input
  write_input-Keeps none id input w = Keeps-refl w
  write_input-Keeps (some p) id input w = insert-Keeps id (apply_input scalar input p) w

  pub apply_inputs-Keeps :
      (inputs : List (String × InputState)) (w : WorldState scalar)
      → Keeps w (apply_inputs scalar inputs w)
  unfolding apply_inputs apply_input_of
  apply_inputs-Keeps [] w = Keeps-refl w
  apply_inputs-Keeps ((id, input) ∷ rest) w =
      Keeps-trans (write_input-Keeps (get_player scalar id w) id input w)
        (apply_inputs-Keeps rest (apply_input_of scalar id input w))

  all_hit_blocks-has_key :
      (id : String) (players : Dict String (Player scalar))
      (blocks : List (DestructibleBlock scalar))
      → has_key id (all_hit_blocks scalar players blocks).0 ≡ has_key id players
  unfolding all_hit_blocks
  all_hit_blocks-has_key id [] blocks = refl
  all_hit_blocks-has_key id ((key, p) ∷ rest) blocks =
      ap (λ b. key == id || b) (all_hit_blocks-has_key id rest (hit_blocks scalar blocks p).1)

  pub handle_block_collisions-Keeps :
      (g : GameEngine scalar) → Keeps g.world_state (handle_block_collisions scalar g).world_state
  unfolding handle_block_collisions
  handle_block_collisions-Keeps g =
      let w = g.world_state in
      record {
        number = refl;
        known = λ id h.
            ap (λ b. b || has_key id w.respawn_timers)
              (all_hit_blocks-has_key id w.characters w.environment.destructible_blocks)
            ∙ h;
      }

  award-known :
      (id : String) (now : ℕ) (u : ExclusivePowerUp scalar)
      (touching : List (String × Player scalar)) (players : Dict String (Player scalar))
      (waits : Bool)
      → (has_key id players || waits) ≡ true
      → (has_key id (award scalar now u touching players).1 || waits) ≡ true
  unfolding award
  award-known id now u [] players waits h = h
  award-known id now u (first ∷ others) players waits h =
      let won = winner scalar first others in
      insert-known id won.0 (star_effect scalar now u won.1) players waits h

  meet_powerups-known :
      (id : String) (now : ℕ) (us : Dict String (ExclusivePowerUp scalar))
      (players : Dict String (Player scalar)) (waits : Bool)
      → (has_key id players || waits) ≡ true
      → (has_key id (meet_powerups scalar now us players).1 || waits) ≡ true
  unfolding meet_powerups meet_powerup
  meet_powerups-known id now [] players waits h = h
  meet_powerups-known id now ((key, u) ∷ rest) players waits h =
      meet_powerups-known id now rest (meet_powerup scalar now u players).1 waits (
        if-both {A = ExclusivePowerUp scalar × Dict String (Player scalar) × List (Event scalar)}
          (λ r. (has_key id r.1 || waits) ≡ true) u.collected h
          (award-known id now u (colliding scalar u.box players) players waits h))

  pub handle_powerup_collisions-Keeps :
      (now : ℕ) (g : GameEngine scalar)
      → Keeps g.world_state (handle_powerup_collisions scalar now g).world_state
  unfolding handle_powerup_collisions
  handle_powerup_collisions-Keeps now g =
      let w = g.world_state in
      if-both {A = GameEngine scalar} (λ g'. Keeps w g'.world_state) g.is_authoritative
        (record {
          number = refl;
          known = λ id h.
              meet_powerups-known id now w.environment.power_ups w.characters
                (has_key id w.respawn_timers) h;
        })
        (Keeps-refl w)
