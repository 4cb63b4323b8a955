-- ===== src/Domain/Survival.antt =====
-- A whole tick counts once and loses no player.
use mas_dsmb.Prelude.{
  ◌≡◌, ◌+◌, ◌&&◌, ◌||◌, ◌∷◌, if◌then◌else◌, if-both, ℕ, String, refl, true, List, [], arith, leb,
  Dict, insert, erase, nat_Eq, text_Eq,
}
use mas_dsmb.Domain.Scalar.{Scalar}
use mas_dsmb.Domain.World.{Player, Enemy, remove_player, add_player}
use mas_dsmb.Domain.Players.{
  GameEngine, emit, spawn_player, spawn_position_for, clamp_character_to_world, new_player,
}
use mas_dsmb.Domain.Enemies.{
  queue_player_death, defeat, meet_enemy, meet_enemies, handle_enemy_collisions, fall,
  handle_void_deaths, respawn, respawn_due, process_respawns, has_active_effect, is_stomp,
  respawn_delay_ms, respawn_index, bounce,
}
use mas_dsmb.Domain.Kept.{
  Keeps, Keeps-refl, Keeps-trans, has_key, has_key-insert, has_key-erase, insert-Keeps,
}
use mas_dsmb.Domain.Collisions.{check_collision, bottom_edge}

module _ (scalar : Scalar) where
  -- From the characters to the timers.
  moved :
      (id pid : String) (due : ℕ) (players : Dict String (Player scalar)) (timers : Dict String ℕ)
      → (has_key id players || has_key id timers) ≡ true
      → (has_key id (erase pid players) || has_key id (insert pid due timers)) ≡ true
  moved id pid due players timers h =
      ground (arith, has_key-erase id pid players, has_key-insert id pid due timers)

  -- From the timers to the characters.
  returned :
      (id pid : String) (p : Player scalar) (players : Dict String (Player scalar))
      (timers : Dict String ℕ)
      → (has_key id players || has_key id timers) ≡ true
      → (has_key id (insert pid p players) || has_key id (erase pid timers)) ≡ true
  returned id pid p players timers h =
      ground (arith, has_key-erase id pid timers, has_key-insert id pid p players)

  queue_player_death-Keeps :
      (now : ℕ) (cause : String) (p : Player scalar) (g : GameEngine scalar)
      → Keeps scalar g.world_state (queue_player_death scalar now cause p g).world_state
  unfolding queue_player_death emit remove_player
  queue_player_death-Keeps now cause p g = record {
    number = refl;
    known = λ id h.
        moved id p.player_id (now + respawn_delay_ms) g.world_state.characters
          g.world_state.respawn_timers h;
  }

  defeat-Keeps :
      (now : ℕ) (e : Enemy scalar) (key : String) (p : Player scalar) (g : GameEngine scalar)
      → Keeps scalar g.world_state (defeat scalar now e key p g).world_state
  unfolding defeat
  defeat-Keeps now e key p g =
      let bounced = insert-Keeps scalar key (bounce scalar now p) g.world_state in
      record { number = refl; known = bounced.known }

  meet_enemy-Keeps :
      (now : ℕ) (e : Enemy scalar) (players : List (String × Player scalar)) (g : GameEngine scalar)
      → Keeps scalar g.world_state (meet_enemy scalar now e players g).world_state
  unfolding meet_enemy
  meet_enemy-Keeps now e [] g = Keeps-refl scalar g.world_state
  meet_enemy-Keeps now e ((key, p) ∷ rest) g =
      let met = check_collision scalar p.box e.box in
      let killed = queue_player_death scalar now e.enemy_id p g in
      let next = if met then killed else g in
      if-both {A = GameEngine scalar} (λ g'. Keeps scalar g.world_state g'.world_state)
        (met && (has_active_effect scalar now p || is_stomp scalar p e))
        (defeat-Keeps now e key p g)
        (Keeps-trans scalar
          (if-both {A = GameEngine scalar} (λ g'. Keeps scalar g.world_state g'.world_state) met
            (queue_player_death-Keeps now e.enemy_id p g) (Keeps-refl scalar g.world_state))
          (meet_enemy-Keeps now e rest next))

  meet_enemies-Keeps :
      (now : ℕ) (es : List (String × Enemy scalar)) (g : GameEngine scalar)
      → Keeps scalar g.world_state (meet_enemies scalar now es g).world_state
  unfolding meet_enemies
  meet_enemies-Keeps now [] g = Keeps-refl scalar g.world_state
  meet_enemies-Keeps now ((key, e) ∷ rest) g =
      Keeps-trans scalar (meet_enemy-Keeps now e g.world_state.characters g)
        (meet_enemies-Keeps now rest (meet_enemy scalar now e g.world_state.characters g))

  fall-Keeps :
      (now : ℕ) (players : List (String × Player scalar)) (g : GameEngine scalar)
      → Keeps scalar g.world_state (fall scalar now players g).world_state
  unfolding fall
  fall-Keeps now [] g = Keeps-refl scalar g.world_state
  fall-Keeps now ((key, p) ∷ rest) g =
      let above = scalar.le (bottom_edge scalar p.box) g.world_height in
      Keeps-trans scalar
        (if-both {A = GameEngine scalar} (λ g'. Keeps scalar g.world_state g'.world_state) above
          (Keeps-refl scalar g.world_state) (queue_player_death-Keeps now "void" p g))
        (fall-Keeps now rest (if above then g else queue_player_death scalar now "void" p g))

  respawn-Keeps :
      (pid : String) (g : GameEngine scalar)
      → Keeps scalar g.world_state (respawn scalar pid g).world_state
  unfolding respawn spawn_player add_player clamp_character_to_world new_player
  respawn-Keeps pid g =
      let w = g.world_state in
      let index = respawn_index scalar pid g in
      let point = spawn_position_for scalar index g in
      let popped = record g { respawn_join_index = erase pid g.respawn_join_index } in
      let back =
        clamp_character_to_world scalar true popped (new_player scalar pid point.0 point.1 index) in
      record { number = refl; known = λ id h. returned id pid back w.characters w.respawn_timers h }

  respawn_due-Keeps :
      (now : ℕ) (timers : List (String × ℕ)) (g : GameEngine scalar)
      → Keeps scalar g.world_state (respawn_due scalar now timers g).world_state
  unfolding respawn_due
  respawn_due-Keeps now [] g = Keeps-refl scalar g.world_state
  respawn_due-Keeps now ((pid, due) ∷ rest) g =
      Keeps-trans scalar
        (if-both {A = GameEngine scalar} (λ g'. Keeps scalar g.world_state g'.world_state)
          (leb due now) (respawn-Keeps pid g) (Keeps-refl scalar g.world_state))
        (respawn_due-Keeps now rest (if leb due now then respawn scalar pid g else g))

  pub handle_enemy_collisions-Keeps :
      (now : ℕ) (g : GameEngine scalar)
      → Keeps scalar g.world_state (handle_enemy_collisions scalar now g).world_state
  unfolding handle_enemy_collisions
  handle_enemy_collisions-Keeps now g =
      if-both {A = GameEngine scalar} (λ g'. Keeps scalar g.world_state g'.world_state)
        g.is_authoritative (meet_enemies-Keeps now g.world_state.environment.enemies g)
        (Keeps-refl scalar g.world_state)

  pub handle_void_deaths-Keeps :
      (now : ℕ) (g : GameEngine scalar)
      → Keeps scalar g.world_state (handle_void_deaths scalar now g).world_state
  unfolding handle_void_deaths
  handle_void_deaths-Keeps now g =
      if-both {A = GameEngine scalar} (λ g'. Keeps scalar g.world_state g'.world_state)
        g.is_authoritative (fall-Keeps now g.world_state.characters g)
        (Keeps-refl scalar g.world_state)

  pub process_respawns-Keeps :
      (now : ℕ) (g : GameEngine scalar)
      → Keeps scalar g.world_state (process_respawns scalar now g).world_state
  unfolding process_respawns
  process_respawns-Keeps now g =
      if-both {A = GameEngine scalar} (λ g'. Keeps scalar g.world_state g'.world_state)
        g.is_authoritative (respawn_due-Keeps now g.world_state.respawn_timers g)
        (Keeps-refl scalar g.world_state)
