-- ===== src/Handshake/Ready.antt =====
-- What the lobby leaves of a client: it bears the id of its slot, its world holds the roster's
-- players, and its file tells so.
use mas_dsmb.Prelude.{
  ◌>>=◌, ◌≡◌, ◌+◌, ◌||◌, ◌∷◌, ◌∙◌, ◌==◌, if-both, ℕ, String, refl, true, Option, none, some, List,
  [], arith, length, any, find?, ok, err, nat_Eq, text_Eq,
}
use mas_dsmb.Shared.Roster.{RosterEntry, GlobalRoster, has_id, place, get_all_players}
use mas_dsmb.Domain.Scalar.{Scalar}
use mas_dsmb.Domain.World.{add_player}
use mas_dsmb.Domain.Kept.{has_key, has_key-insert}
use mas_dsmb.Domain.Players.{GameEngine, spawn_player, new_player, clamp_character_to_world}
use mas_dsmb.Failover.Node.{others, Node, PlayerRole, host, client}
use mas_dsmb.Recovery.{write_session_metadata}
use mas_dsmb.Recovery.Probe.{in_lobby, in_game, metadata_of}
use mas_dsmb.Handshake.{
  Turn, poll_lobby, clock, lobby_timeout, LobbyFailure, cancelled, as_joined, with_node, Entrant,
  Window, Phase, notify,
}
use mas_dsmb.Handshake.World.{
  heard_now, first_id, rebuild_world_from_roster, rebuild_engine, spawn_entries, spawn_entry,
  point_at_host,
}
use mas_dsmb.Handshake.Phases.{
  seated, wait_for_game_start, client_lobby_phase, lobby_phase, phase_of, enter_game,
}
use mas_dsmb.Handshake.Seated.{EndsNamed, wait_for_game_start-EndsNamed, IsNamed}

any-place :
    (id : String) (e : RosterEntry) (roster : GlobalRoster)
    → any (has_id id) (place e roster) ≡ (has_id id e || any (has_id id) roster)
unfolding place
any-place id e [] = refl
any-place id e (p ∷ rest) = ground (arith, any-place id e rest)

any-sorted :
    (id : String) (roster : GlobalRoster)
    → any (has_id id) (get_all_players roster) ≡ any (has_id id) roster
unfolding get_all_players
any-sorted id [] = refl
any-sorted id (e ∷ rest) = ground (arith, any-place id e (get_all_players rest), any-sorted id rest)

module _ (scalar : Scalar) where
  spawn_entry-has_key :
      (id : String) (e : RosterEntry) (g : GameEngine scalar)
      → has_key id (spawn_entry scalar e g).world_state.characters
        ≡ (e.player_id == id || has_key id g.world_state.characters)
  unfolding spawn_entry spawn_player add_player clamp_character_to_world new_player
  spawn_entry-has_key id e g = has_key-insert id e.player_id _ g.world_state.characters

  spawn_entries-has_key :
      (id : String) (entries : List RosterEntry) (g : GameEngine scalar)
      → has_key id (spawn_entries scalar entries g).world_state.characters
        ≡ (has_key id g.world_state.characters || any (has_id id) entries)
  unfolding spawn_entries
  spawn_entries-has_key id [] g = ground arith
  spawn_entries-has_key id (e ∷ rest) g =
      ground
        (arith, spawn_entries-has_key id rest (spawn_entry scalar e g), spawn_entry-has_key id e g)

  -- The players of the world are those of the roster.
  rebuild_engine-has_key :
      (id : String) (roster : GlobalRoster) (g : GameEngine scalar)
      → has_key id (rebuild_engine scalar roster g).world_state.characters ≡ any (has_id id) roster
  unfolding rebuild_engine
  rebuild_engine-has_key id roster g =
      spawn_entries-has_key id (get_all_players roster)
        (record g { world_state = record (g.world_state) { characters = [] } })
      ∙ any-sorted id roster

  -- The node bears the id of its slot, is in the game, holds exactly the roster's players in its
  -- world, and has written its session down.
  pub record IsReady (s : Entrant scalar) : Type 0 where
    pub named : IsNamed scalar s
    pub playing : s.mode ≡ in_game
    pub populated :
        (id : String)
        → has_key id s.node.engine.world_state.characters ≡ any (has_id id) s.node.roster
    pub written : s.file ≡ write_session_metadata (metadata_of scalar s.node)

  abbrev pub EndsReady : Phase (Entrant scalar) → Type 0
  EndsReady (ok s) = IsReady s
  EndsReady (err e) = Unit

  notify-EndsReady :
      (window : Window) (remaining : ℕ) (status : String) (s : Entrant scalar)
      → IsReady s
      → EndsReady (notify scalar window remaining status s)
  unfolding notify
  notify-EndsReady window remaining status s h =
      if-both EndsReady (window.on_update remaining status s.node.session_id s.node.roster) h tt

  abbrev entered : Entrant scalar → Node scalar → Entrant scalar
  entered s n = record s {
    node = n;
    mode = in_game;
    file = write_session_metadata (metadata_of scalar n);
  }

  point_at_host-IsReady :
      (role : PlayerRole) (lobby_host : String) (found : Option RosterEntry) (n : Node scalar)
      (s : Entrant scalar)
      → IsReady (entered s n)
      → IsReady (entered s (point_at_host scalar role lobby_host found n))
  unfolding point_at_host
  point_at_host-IsReady host lobby_host found n s h = h
  point_at_host-IsReady client lobby_host none n s h = record {
    named = h.named;
    playing = refl;
    populated = h.populated;
    written = refl;
  }
  point_at_host-IsReady client lobby_host (some e) n s h = record {
    named = h.named;
    playing = refl;
    populated = h.populated;
    written = refl;
  }

  enter_game-EndsReady :
      (window : Window) (now : ℕ) (lobby_host : String) (s : Entrant scalar)
      → IsNamed scalar s
      → EndsReady (enter_game scalar window now lobby_host s)
  unfolding enter_game rebuild_world_from_roster
  enter_game-EndsReady window now lobby_host s h =
      let n = s.node in
      let found = find? (λ e. e.is_host) (get_all_players n.roster) in
      let rebuilt = record n {
        engine = rebuild_engine scalar n.roster n.engine;
        last_input_time = heard_now scalar now (others scalar n) [];
      } in
      let named = record s {
        remote_player_id = first_id scalar (others scalar n) s.remote_player_id;
      } in
      notify-EndsReady window 0 "Starting game"
        (entered named (point_at_host scalar n.role lobby_host found rebuilt))
        (point_at_host-IsReady n.role lobby_host found rebuilt named (record {
          named = h;
          playing = refl;
          populated = λ id. rebuild_engine-has_key id n.roster n.engine;
          written = refl;
        }))

  -- A step that goes on only if it returns.
  EndsNamed-then :
      {A : Type 0} (call : Phase A) (next : A → Phase (Entrant scalar))
      → ((a : A) → EndsNamed scalar (next a))
      → EndsNamed scalar (call >>= next)
  EndsNamed-then (ok a) next h = h a
  EndsNamed-then (err e) next h = tt

  EndsReady-then :
      {A : Type 0} (call : Phase A) (next : A → Phase (Entrant scalar))
      → ((a : A) → EndsReady (next a))
      → EndsReady (call >>= next)
  EndsReady-then (ok a) next h = h a
  EndsReady-then (err e) next h = tt

  EndsNamed-EndsReady :
      (call : Phase (Entrant scalar)) (next : Entrant scalar → Phase (Entrant scalar))
      → EndsNamed scalar call
      → ((s : Entrant scalar) → IsNamed scalar s → EndsReady (next s))
      → EndsReady (call >>= next)
  EndsNamed-EndsReady (ok s) next named h = h s named
  EndsNamed-EndsReady (err e) next named h = tt

  -- An update passes the node on as it is.
  notify-then :
      (P : Phase (Entrant scalar) → Type 0) (window : Window) (remaining : ℕ) (status : String)
      (s : Entrant scalar) (next : Entrant scalar → Phase (Entrant scalar))
      → ((e : LobbyFailure) → P (err e))
      → P (next s)
      → P (notify scalar window remaining status s >>= next)
  unfolding notify
  notify-then P window remaining status s next failed h =
      if-both (λ call. P (call >>= next))
        (window.on_update remaining status s.node.session_id s.node.roster) h (failed cancelled)

  client_lobby_phase-EndsNamed :
      (window : Window) (session_id : String) (turns : List Turn) (s : Entrant scalar)
      → EndsNamed scalar (client_lobby_phase scalar window session_id turns s)
  unfolding client_lobby_phase
  client_lobby_phase-EndsNamed window session_id turns s =
      EndsNamed-then (notify scalar window (length turns) "Connecting to lobby" s) _ (λ connecting.
        EndsNamed-then (poll_lobby scalar as_joined (clock turns + lobby_timeout) turns _) _
          (λ answered.
            notify-then (EndsNamed scalar) window (length answered.1) "Joined session"
              (with_node scalar (seated scalar session_id answered.0) answered.2)
              (wait_for_game_start scalar window "Waiting for game start" true answered.1) (λ e. tt)
              (wait_for_game_start-EndsNamed scalar window "Waiting for game start" true answered.1
                (with_node scalar (seated scalar session_id answered.0) answered.2) refl)))

  phase_of-EndsNamed :
      (role : PlayerRole) (window : Window) (session_id : String) (turns : List Turn)
      (s : Entrant scalar)
      → role ≡ client
      → EndsNamed scalar (phase_of scalar role window session_id turns s)
  unfolding phase_of
  phase_of-EndsNamed host window session_id turns s is_client = absurd (ground arith)
  phase_of-EndsNamed client window session_id turns s is_client =
      client_lobby_phase-EndsNamed window session_id turns s

  -- A client's lobby phase, whatever the lobby sends and however the window answers: if it returns,
  -- the node bears the id of the slot that it got, is in the game, holds exactly the roster's players
  -- in its world, and has written its session down.
  pub lobby_phase-EndsReady :
      (window : Window) (session_id lobby_host : String) (now : ℕ) (turns : List Turn)
      (s : Entrant scalar)
      → s.node.role ≡ client
      → EndsReady (lobby_phase scalar window session_id now lobby_host turns s)
  unfolding lobby_phase
  lobby_phase-EndsReady window session_id lobby_host now turns s is_client =
      notify-then EndsReady window (length turns) "Entering lobby" (record s { mode = in_lobby }) _
        (λ e. tt)
        (EndsNamed-EndsReady _ (enter_game scalar window now lobby_host)
          (phase_of-EndsNamed s.node.role window session_id turns (record s { mode = in_lobby })
            is_client)
          (enter_game-EndsReady window now lobby_host))
