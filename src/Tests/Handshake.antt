-- ===== src/Tests/Handshake.antt =====
-- A client that enters a game.
use mas_dsmb.Prelude.{◌≡◌, ◌∷◌, refl, Bool, true, false, none, some, List, [], ok, err}
use mas_dsmb.Recovery.{absent}
use mas_dsmb.Recovery.Probe.{is_idle}
use mas_dsmb.Wire.Messages.{joined, start, roster_changed}
use mas_dsmb.Handshake.{
  Entrant, Window, Turn, Phase, poll_lobby, answer, refusal, wanted, as_joined, as_started, notify,
  take_roster, keep_roster, roster_in, send, clock,
}
use mas_dsmb.Handshake.Phases.{
  lobby_phase, phase_of, client_lobby_phase, wait_for_game_start, wait_turn, adopt_session,
  started_by, is_closed, enter_game,
}
use mas_dsmb.Handshake.Ready.{EndsReady, lobby_phase-EndsReady}
use mas_dsmb.Tests.Integers.{integers}
use mas_dsmb.Tests.Failover.{claimant}

abbrev willing : Window
willing = record {
  on_update = λ remaining status session_id roster. true;
  start_requested = λ remaining. false;
}

-- The lobby seats the node, sends a roster and starts the game.
abbrev turns : List Turn
turns =
    record { now = 1000; message = none }
    ∷ record { now = 1050; message = some (joined 2) }
    ∷ record { now = 1100; message = some (roster_changed claimant.roster) }
    ∷ record { now = 1150; message = some (start "s") }
    ∷ []

abbrev newcomer : Entrant integers
newcomer = record {
  node = claimant;
  mode = is_idle;
  udp_port = 50012;
  rejoin_join_index = none;
  remote_player_id = none;
  file = absent;
  sent = [];
}

abbrev returns : Phase (Entrant integers) → Bool
returns (ok s) = true
returns (err e) = false

newcomer_enters : returns (lobby_phase integers willing "s" 1200 "a" turns newcomer) ≡ true
unfolding lobby_phase phase_of client_lobby_phase wait_for_game_start wait_turn adopt_session
    started_by is_closed enter_game poll_lobby answer refusal wanted as_joined as_started notify
    take_roster keep_roster roster_in send clock
newcomer_enters = refl

lobby_phase-EndsReady_example :
    EndsReady integers (lobby_phase integers willing "s" 1200 "a" turns newcomer)
lobby_phase-EndsReady_example =
    lobby_phase-EndsReady integers willing "s" "a" 1200 turns newcomer refl
