-- ===== src/Handshake/Phases.antt =====
-- The phases of the lobby: src/distributed_smb/application/lobby/coordinator.py. `lobby_host` is the
-- address of the WebSocket. The checks that the constructors of the sent messages make are not made
-- again here.
use mas_dsmb.Prelude.{
  ◌>>=◌, ◌+◌, ◌&&◌, ◌∷◌, if◌then◌else◌, ℕ, String, Bool, true, false, Option, none, some, List, [],
  leb, length, ok, err, ◌>>=◌,
}
use mas_dsmb.Shared.PlayerId.{player_id_for}
use mas_dsmb.Shared.Roster.{GlobalRoster}
use mas_dsmb.Domain.Scalar.{Scalar}
use mas_dsmb.Domain.Engine.{reset_for_new_run}
use mas_dsmb.Failover.Node.{Node, PlayerRole, host, client}
use mas_dsmb.Recovery.{write_session_metadata}
use mas_dsmb.Recovery.Probe.{in_lobby, in_game, metadata_of}
use mas_dsmb.Wire.Messages.{WsMessage, create, join, start, closed}
use mas_dsmb.Handshake.{
  Entrant, Window, Turn, Phase, session_closed, blocked, as_created, as_joined, as_started,
  lobby_timeout, with_node, send, take_roster, notify, poll_lobby, clock,
}
use mas_dsmb.Handshake.World.{rebuild_world_from_roster}

unfoldable pub is_nonempty : GlobalRoster → Bool
is_nonempty [] = false
is_nonempty (e ∷ rest) = true

unfoldable pub is_closed : Option WsMessage → Bool
is_closed (some (closed session_id)) = true
is_closed _ = false

unfoldable pub started_by : Option WsMessage → Option String
unfolding as_started
started_by none = none
started_by (some message) = as_started message

module _ (scalar : Scalar) where
  abbrev pub Waited : Type 0
  Waited = Phase (List Turn × Entrant scalar)

  -- The host's loop: until the window asks to start and somebody is there.
  unfoldable pub host_wait : Window → List Turn → Entrant scalar → Waited
  unfolding is_nonempty
  host_wait window [] s = err blocked
  host_wait window (turn ∷ rest) s =
      let taken = take_roster scalar turn.message s in
      let again = host_wait window rest taken in
      notify scalar window (length rest) "Waiting for players" taken >>= (λ told.
        if window.start_requested (length rest) && is_nonempty taken.node.roster
        then ok (rest, taken)
        else again)

  -- `time.time() < drain_until`
  unfoldable pub drain_rosters : ℕ → List Turn → Entrant scalar → Entrant scalar
  drain_rosters until [] s = s
  drain_rosters until (turn ∷ rest) s =
      let more = drain_rosters until rest (take_roster scalar turn.message s) in
      if leb until turn.now then s else more

  unfoldable pub broadcast_game_start : Window → List Turn → Entrant scalar → Phase (Entrant scalar)
  unfolding drain_rosters
  broadcast_game_start window turns s = do
    told ← notify scalar window (length turns) "Broadcasting game start" s
    after ←
        poll_lobby scalar as_started (clock turns + lobby_timeout) turns
          (send scalar (start told.node.session_id) told)
    ok (drain_rosters (clock after.1 + 100) after.1 after.2)

  unfoldable pub adopt_session : Bool → String → Entrant scalar → Entrant scalar
  adopt_session adopt session_id s =
      if adopt then with_node scalar (λ n. record n { session_id = session_id }) s else s

  -- The start ends the wait, and a closed session fails it; else the wait goes on.
  unfoldable pub wait_turn :
      Window
      → ℕ
      → Bool
      → Entrant scalar
      → Option String
      → Bool
      → Phase (Entrant scalar)
      → Phase (Entrant scalar)
  unfolding adopt_session
  wait_turn window remaining adopt s (some session_id) ended on =
      notify scalar window remaining "Starting game" (adopt_session adopt session_id s)
  wait_turn window remaining adopt s none true on = err session_closed
  wait_turn window remaining adopt s none false on = on

  -- `_wait_for_game_start`
  unfoldable pub wait_for_game_start :
      Window → String → Bool → List Turn → Entrant scalar → Phase (Entrant scalar)
  unfolding is_closed started_by wait_turn
  wait_for_game_start window waiting adopt [] s = err blocked
  wait_for_game_start window waiting adopt (turn ∷ rest) s =
      let taken = take_roster scalar turn.message s in
      let again = wait_for_game_start window waiting adopt rest taken in
      wait_turn window (length rest) adopt s (started_by turn.message) (is_closed turn.message)
        (notify scalar window (length rest) waiting taken >>= (λ told. again))

  unfoldable pub host_lobby_phase : Window → List Turn → Entrant scalar → Phase (Entrant scalar)
  unfolding host_wait broadcast_game_start
  host_lobby_phase window turns s = do
    creating ← notify scalar window (length turns) "Creating lobby server" s
    connecting ← notify scalar window (length turns) "Connecting to lobby" creating
    made ← poll_lobby scalar as_created (clock turns + lobby_timeout) turns (
        send scalar
          (create (record {
            player_id = connecting.node.local_player_id;
            ip = connecting.node.local_ip;
            udp_port = connecting.udp_port;
          }))
          connecting)
    waiting ←
        notify scalar window (length made.1) "Waiting for players"
          (with_node scalar (λ n. record n { session_id = made.0.0; join_index = made.0.1 }) made.2)
    waited ← host_wait window made.1 waiting
    broadcast_game_start window waited.0 waited.1

  abbrev pub seated : String → ℕ → Node scalar → Node scalar
  seated session_id join_index n = record n {
    session_id = session_id;
    join_index = join_index;
    local_player_id = player_id_for join_index;
  }

  unfoldable pub client_lobby_phase :
      Window → String → List Turn → Entrant scalar → Phase (Entrant scalar)
  unfolding wait_for_game_start
  client_lobby_phase window session_id turns s = do
    connecting ← notify scalar window (length turns) "Connecting to lobby" s
    answered ← poll_lobby scalar as_joined (clock turns + lobby_timeout) turns (
        send scalar
          (join (record {
            session_id = session_id;
            player_id = connecting.node.local_player_id;
            ip = connecting.node.local_ip;
            port = connecting.udp_port;
            rejoin_join_index = connecting.rejoin_join_index;
          }))
          connecting)
    entered ←
        notify scalar window (length answered.1) "Joined session"
          (with_node scalar (seated session_id answered.0) answered.2)
    wait_for_game_start window "Waiting for game start" true answered.1 entered

  unfoldable pub phase_of :
      PlayerRole → Window → String → List Turn → Entrant scalar → Phase (Entrant scalar)
  unfolding host_lobby_phase client_lobby_phase
  phase_of host window session_id turns s = host_lobby_phase window turns s
  phase_of client window session_id turns s = client_lobby_phase window session_id turns s

  -- What follows the wait: the world, the mode and the file.
  unfoldable pub enter_game : Window → ℕ → String → Entrant scalar → Phase (Entrant scalar)
  enter_game window now lobby_host s =
      let ready = record (rebuild_world_from_roster scalar now lobby_host s) { mode = in_game } in
      notify scalar window 0 "Starting game"
        (record ready { file = write_session_metadata (metadata_of scalar ready.node) })

  unfoldable pub lobby_phase :
      Window → String → ℕ → String → List Turn → Entrant scalar → Phase (Entrant scalar)
  unfolding phase_of enter_game
  lobby_phase window session_id now lobby_host turns s = do
    entering ← notify scalar window (length turns) "Entering lobby" (record s { mode = in_lobby })
    through ← phase_of entering.node.role window session_id turns entering
    enter_game window now lobby_host through

  unfoldable pub replay_wait :
      PlayerRole → Window → List Turn → Entrant scalar → Phase (Entrant scalar)
  unfolding host_wait broadcast_game_start wait_for_game_start
  replay_wait host window turns s = do
    waited ← host_wait window turns s
    broadcast_game_start window waited.0 waited.1
  replay_wait client window turns s =
      wait_for_game_start window "Waiting for game to restart" false turns s

  unfoldable pub replay_lobby_phase :
      Window → ℕ → String → List Turn → Entrant scalar → Phase (Entrant scalar)
  unfolding replay_wait enter_game
  replay_lobby_phase window now lobby_host turns s = do
    waiting ←
        notify scalar window (length turns) "Waiting for players" (record s { mode = in_lobby })
    through ← replay_wait waiting.node.role window turns waiting
    enter_game window now lobby_host
        (with_node scalar (λ n. record n { engine = reset_for_new_run scalar n.engine }) through)
