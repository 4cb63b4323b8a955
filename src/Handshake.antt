-- ===== src/Handshake.antt =====
-- A node's side of the lobby's protocol: src/distributed_smb/application/lobby/coordinator.py. The
-- WebSocket is a list of turns: what a poll returns, and the clock in milliseconds before it. The
-- window is a pair of functions that may answer differently each time: their first argument is the
-- number of turns that remain. Servers, sockets and the discovery are started outside of the model.
pub mod Phases
pub mod World
pub mod Seated
pub mod Ready
use mas_dsmb.Prelude.{
  ◌∷◌, ◌++◌, ◌==◌, if◌then◌else◌, ℕ, String, Bool, Option, none, some, List, [], leb, Result, ok,
  err, nat_Eq, text_Eq,
}
use mas_dsmb.Shared.Roster.{GlobalRoster}
use mas_dsmb.Domain.Scalar.{Scalar}
use mas_dsmb.Failover.Node.{Node}
use mas_dsmb.Recovery.{Stored}
use mas_dsmb.Recovery.Probe.{NodeState}
use mas_dsmb.Wire.Messages.{
  WsMessage, created, joined, start, closed, join_rejected, roster_changed, leave,
}

-- How a phase ends without a game; `blocked` is a node that waits on when the turns end.
pub data LobbyFailure : Type 0 where
  cancelled session_closed timeout blocked : LobbyFailure
  rejected : String → LobbyFailure

pub record Turn : Type 0 where
  pub now : ℕ
  pub message : Option WsMessage

-- What the window answers to an update and to the question whether to start.
pub record Window : Type 0 where
  pub on_update : ℕ → String → String → GlobalRoster → Bool
  pub start_requested : ℕ → Bool

-- `isinstance(msg, expected_type)`, with the message's content.
unfoldable pub as_created : WsMessage → Option (String × ℕ)
as_created (created session_id join_index) = some (session_id, join_index)
as_created _ = none

unfoldable pub as_joined : WsMessage → Option ℕ
as_joined (joined join_index) = some join_index
as_joined _ = none

unfoldable pub as_started : WsMessage → Option String
as_started (start session_id) = some session_id
as_started _ = none

unfoldable pub roster_in : Option WsMessage → Option GlobalRoster
roster_in (some (roster_changed roster)) = some roster
roster_in _ = none

-- `LOBBY_TIMEOUT`
abbrev pub lobby_timeout : ℕ
lobby_timeout = 30000

-- `time.time()` when a phase starts to poll: the clock of the turn that follows.
unfoldable pub clock : List Turn → ℕ
clock [] = 0
clock (turn ∷ rest) = turn.now

abbrev pub Phase : Type 0 → Type 0
Phase A = Result LobbyFailure A

module _ (scalar : Scalar) where
  -- The node with what only its lobby phase touches.
  pub record Entrant : Type 0 where
    pub node : Node scalar
    pub mode : NodeState
    pub udp_port : ℕ
    pub rejoin_join_index : Option ℕ
    pub remote_player_id : Option String
    pub file : Stored
    pub sent : List WsMessage

  abbrev pub with_node : (Node scalar → Node scalar) → Entrant → Entrant
  with_node f s = record s { node = f s.node }

  -- `self.ws_handler.send`
  unfoldable pub send : WsMessage → Entrant → Entrant
  send message s = record s { sent = s.sent ++ message ∷ [] }

  unfoldable pub keep_roster : Option GlobalRoster → Entrant → Entrant
  keep_roster none s = s
  keep_roster (some roster) s = with_node (λ n. record n { roster = roster }) s

  -- `if isinstance(msg, RosterUpdate): self.roster = msg.roster`
  unfoldable pub take_roster : Option WsMessage → Entrant → Entrant
  unfolding keep_roster
  take_roster message s = keep_roster (roster_in message) s

  -- `_notify_lobby_update`
  unfoldable pub notify : Window → ℕ → String → Entrant → Phase Entrant
  notify window remaining status s =
      if window.on_update remaining status s.node.session_id s.node.roster
      then ok s
      else err cancelled

  -- `leave_lobby`: an error of the connection is ignored.
  unfoldable pub leave_lobby : Entrant → Entrant
  unfolding send
  leave_lobby s =
      if s.node.session_id == "" then s else send (leave s.node.session_id s.node.join_index) s

  unfoldable pub refusal : Option WsMessage → Option String
  refusal (some (join_rejected session_id reason)) = some reason
  refusal _ = none

  unfoldable pub wanted : {A : Type 0} → (WsMessage → Option A) → Option WsMessage → Option A
  wanted expected none = none
  wanted expected (some message) = expected message

  -- A refusal comes first, then the awaited message; else the polling goes on.
  unfoldable pub answer :
      {A : Type 0}
      → Entrant
      → List Turn
      → Option String
      → Option A
      → Phase (A × List Turn × Entrant)
      → Phase (A × List Turn × Entrant)
  answer s rest (some reason) found again = err (rejected reason)
  answer s rest none (some content) again = ok (content, rest, s)
  answer s rest none none again = again

  -- `_poll_lobby`: the content, and the turns after it.
  unfoldable pub poll_lobby :
      {A : Type 0}
      → (WsMessage → Option A)
      → ℕ
      → List Turn
      → Entrant
      → Phase (A × List Turn × Entrant)
  unfolding take_roster refusal wanted answer
  poll_lobby expected deadline [] s = err blocked
  poll_lobby expected deadline (turn ∷ rest) s =
      let again = poll_lobby expected deadline rest (take_roster turn.message s) in
      if leb deadline turn.now
      then err timeout
      else answer (take_roster turn.message s) rest (refusal turn.message)
          (wanted expected turn.message) again
