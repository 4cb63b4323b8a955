-- ===== src/Lobby/Endpoint.antt =====
-- `lobby_endpoint` and `_handle_leave` of src/distributed_smb/network/lobby/service.py: what one
-- WebSocket's handler does with each message. `sent` is what has been delivered, and to whom. A send
-- fails where the peer is not `reachable`; a broadcast passes over such peers, a reply raises. The
-- handler of one message is not interleaved with that of another.
pub mod Sound
pub mod Bounds
use mas_dsmb.Prelude.{
  ◌∷◌, ◌++◌, ◌==◌, if◌then◌else◌, ℕ, String, Bool, true, not, Option, none, some, List, [], map,
  filter, distinct, lookup, Result, ok, err, nat_Eq, text_Eq,
}
use mas_dsmb.Prelude.Actions.{Action, give, throw, try, update, ◌>>=◌, ◌>>◌}
use mas_dsmb.Shared.Roster.{GlobalRoster, RosterValidationError, add_player, validate}
use mas_dsmb.Shared.Roster.Membership.{indices}
use mas_dsmb.Shared.Messages.{
  SessionCreate, SessionJoin, SessionRecreate, Request, session_create, session_join,
  session_recreate, session_leave, initial_state_sync, game_start, other_type, unreadable, Notice,
  session_created, session_joined, session_join_rejected, session_closed, roster_update, state_sync,
  started, request_is_valid,
}
use mas_dsmb.Lobby.{
  Sessions, seat_entry, create_session, join_session, add_connection, remove_connection,
  leave_session, is_full, has_session, drop_session, get_roster, mark_active, is_active,
  register_active_session,
}

pub data LobbyError : Type 0 where
  key_error invalid_message send_failed : LobbyError
  roster_error : RosterValidationError → LobbyError

pub record Server : Type 0 where
  pub sessions : Sessions
  pub sent : List (ℕ × Notice)
  -- the handler's variable: the session that its WebSocket is in
  pub session_id : Option String

abbrev pub Handler : Type 0 → Type 0
Handler A = Action LobbyError Server A

abbrev full_reason : String
full_reason = "The session already has 4 players"

abbrev slot_reason : String
slot_reason = "The requested player slot is unavailable"

unfoldable pub remember : Option String → Handler Unit
remember session_id = update (λ s. (record s { session_id = session_id }, tt))

abbrev or_key_error : Option Sessions → Server → Result LobbyError Unit × Server
or_key_error none s = (err key_error, s)
or_key_error (some sessions) s = (ok tt, record s { sessions = sessions })

unfoldable pub activate : String → Handler Unit
activate session_id s = or_key_error (mark_active session_id s.sessions) s

abbrev lift_roster : {A : Type 0} → Result RosterValidationError A → Result LobbyError A
lift_roster (ok roster) = ok roster
lift_roster (err e) = err (roster_error e)

unfoldable pub roster_of : String → Handler GlobalRoster
roster_of session_id = try λ s. elim (lookup session_id s.sessions) [
  | none ↦ err key_error
  | some r ↦ lift_roster (get_roster r)
]

-- The checks that the constructor of the message makes, when the decoder calls it.
unfoldable pub decode_ws_message : Request → Handler Unit
decode_ws_message request = if request_is_valid request then give tt else throw invalid_message

module _ (reachable : ℕ → Bool) where
  unfoldable pub deliver : Notice → List ℕ → List (ℕ × Notice)
  deliver notice connections = map (λ c. (c, notice)) (filter reachable connections)

  unfoldable pub broadcast : String → Notice → Handler Unit
  broadcast session_id notice = update λ s. elim (lookup session_id s.sessions) [
    | none ↦ (s, tt)
    | some r ↦ (record s { sent = s.sent ++ deliver notice r.connections }, tt)
  ]

  -- `RosterUpdate(roster=roster)` raises on a repeated join index.
  unfoldable pub publish : String → Handler Unit
  publish session_id = do
    roster ← roster_of session_id
    if distinct (indices roster)
        then broadcast session_id (roster_update roster)
        else throw invalid_message

  -- The host has left.
  unfoldable pub close : String → Handler Unit
  close session_id = do
    broadcast session_id (session_closed session_id)
    update (λ s. (record s { sessions = drop_session session_id s.sessions }, tt))

  unfoldable pub handle_leave : String → ℕ → Handler Unit
  handle_leave session_id join_index = do
    known ← try (λ s. ok (has_session session_id s.sessions))
    if not known then give tt else do
      was_host ← update λ s.
          let (sessions, host_left) = leave_session session_id join_index s.sessions in
          (record s { sessions = sessions }, host_left)
      if was_host then close session_id else publish session_id

  module _ (ws : ℕ) where
    unfoldable pub reply : Notice → Handler Unit
    reply notice s =
        if reachable ws
        then (ok tt, record s { sent = s.sent ++ (ws, notice) ∷ [] })
        else (err send_failed, s)

    unfoldable pub connect : String → Handler Unit
    connect session_id s = or_key_error (add_connection session_id ws s.sessions) s

    -- `fresh` is the id that `uuid4` gives.
    unfoldable pub handle_create : String → SessionCreate → Handler Unit
    handle_create fresh m = do
      update λ s.
          let (sessions, session_id, join_index) =
            create_session fresh m.ip m.udp_port s.sessions in
          (record s { sessions = sessions }, tt)
      remember (some fresh)
      connect fresh
      reply (session_created fresh 0)
      publish fresh

    unfoldable pub refuse : String → String → Handler Unit
    refuse session_id reason = do reply (session_join_rejected session_id reason); remember none

    -- What follows an admission.
    unfoldable pub welcome : String → ℕ → Handler Unit
    welcome session_id join_index = do
      connect session_id
      reply (session_joined join_index)
      publish session_id
      running ← try (λ s. ok (is_active session_id s.sessions))
      if running then reply (started session_id) else give tt

    abbrev admit : String → Option ℕ → Handler Unit
    admit session_id none = refuse session_id slot_reason
    admit session_id (some join_index) = welcome session_id join_index

    unfoldable pub handle_join : SessionJoin → Handler Unit
    handle_join m = do
      remember (some m.session_id)
      full ← try (λ s. ok (is_full m.session_id m.rejoin_join_index s.sessions))
      if full then refuse m.session_id full_reason else do
        join_index ← update λ s.
            let (sessions, slot) =
              join_session m.session_id m.player_id m.ip m.port m.rejoin_join_index s.sessions in
            (record s { sessions = sessions }, slot)
        admit m.session_id join_index

    unfoldable pub handle_recreate : SessionRecreate → Handler Unit
    handle_recreate m = do
      remember (some m.session_id)
      host ←
          try λ s.
            lift_roster (validate (seat_entry m.host_join_index m.host_ip m.host_udp_port true))
      roster ← try λ s. lift_roster (add_player host [])
      update λ s. (
        record s {
          sessions =
              register_active_session m.session_id roster m.next_join_index m.reserved_join_indices
                s.sessions;
        },
        tt,
      )
      connect m.session_id
      reply (session_created m.session_id 0)

    abbrev forward : String → Option String → Handler Unit
    forward world none = give tt
    forward world (some session_id) =
        if session_id == "" then give tt else broadcast session_id (state_sync world)

    abbrev dispatch : String → Request → Handler Unit
    dispatch fresh (session_create m) = handle_create fresh m
    dispatch fresh (session_join m) = handle_join m
    dispatch fresh (session_recreate m) = handle_recreate m
    dispatch fresh (session_leave session_id join_index) = handle_leave session_id join_index
    dispatch fresh (initial_state_sync world) = do
      current ← try (λ s. ok s.session_id)
      forward world current
    dispatch fresh (game_start session_id) = do
      activate session_id
      broadcast session_id (started session_id)
    dispatch fresh other_type = give tt
    dispatch fresh unreadable = give tt

    -- The body of the loop, for one received text.
    unfoldable pub handle : String → Request → Handler Unit
    handle fresh request = do decode_ws_message request; dispatch fresh request

    -- The `except` clauses: they end the handler.
    unfoldable pub hang_up : Server → Server
    hang_up s = elim s.session_id [
      | none ↦ s
      | some session_id ↦
          if session_id == ""
          then s
          else record s { sessions = remove_connection session_id ws s.sessions }
    ]

    abbrev resume : Result LobbyError Unit × Server → (Server → Server) → Server
    resume (ok _, s) onward = onward s
    resume (err _, s) onward = hang_up s

    -- The loop over what a client sends, until it disconnects or a message raises.
    unfoldable pub lobby_endpoint : List (String × Request) → Server → Server
    lobby_endpoint [] s = hang_up s
    lobby_endpoint ((fresh, request) ∷ rest) s =
        resume (handle fresh request s) (lobby_endpoint rest)
