-- ===== src/Lobby/Endpoint/Sound.antt =====
-- Every message, valid or not, leaves every session of the lobby sound.
use mas_dsmb.Shared.Roster.{add_player, GlobalRoster}
use mas_dsmb.Prelude.{
  ◌≡◌, ◌∷◌, ◌∙◌, ◌==◌, ℕ, String, refl, sym, ap, inl, inr, Bool, true, false, not, Option, none,
  some, List, [], arith, Bool-cases, Result, ok, err, subst, nat_Eq, text_Eq,
}
use mas_dsmb.Prelude.Actions.{
  Keeps, keeping, Keeps->>=, Keeps-read, Keeps-branch, Keeps-read->>=, ◌>>=◌,
}
use mas_dsmb.Shared.Messages.{
  request_is_valid, Notice, is_port, rejoin_is_valid, session_closed, session_create, session_join,
  session_recreate, session_leave, initial_state_sync, game_start, other_type, unreadable,
}
use mas_dsmb.Lobby.{
  seat_entry, Sessions, mark_active, add_connection, drop_session, add_player, RosterEntry,
  register_active_session, validate,
}
use mas_dsmb.Lobby.Sound.{IsAddress, IsSeat-seat_entry}
use mas_dsmb.Lobby.Roster.{validate-IsSeat}
use mas_dsmb.Lobby.Registry.{
  AllSound, mark_active-AllSound, AllSound-erase, add_connection-AllSound, IsRecreation,
  recreate_parts, leave_session-AllSound, create_session-AllSound, register-AllSound,
  join_session-AllSound, remove_connection-AllSound,
}
use mas_dsmb.Lobby.Endpoint.{
  Server, remember, activate, or_key_error, roster_of, broadcast, publish, handle_leave, reply,
  connect, close, SessionRecreate, SessionCreate, handle_recreate, handle_create, welcome, admit,
  refuse, handle_join, SessionJoin, LobbyError, update, give, forward, lobby_endpoint, hang_up,
  handle, Request, lift_roster, dispatch, decode_ws_message, full_reason, resume,
}

abbrev pub IsHealthy : Server → Type 0
IsHealthy s = AllSound s.sessions

remember-IsHealthy : (session_id : Option String) → Keeps IsHealthy (remember session_id)
unfolding remember
remember-IsHealthy session_id = record { after = λ s h. h }

activate-IsHealthy : (session_id : String) → Keeps IsHealthy (activate session_id)
unfolding activate
activate-IsHealthy session_id = record {
  after = λ s h. written s h (mark_active session_id s.sessions) refl;
}
  where
    written :
        (s : Server)
        → IsHealthy s
        → (o : Option Sessions) → mark_active session_id s.sessions ≡ o
        → IsHealthy (or_key_error o s).1
    written s h none e = h
    written s h (some sessions) e = mark_active-AllSound session_id s.sessions h e

roster_of-IsHealthy : (session_id : String) → Keeps IsHealthy (roster_of session_id)
unfolding roster_of
roster_of-IsHealthy session_id = record { after = λ s h. h }

decode_parts-join :
    (m : SessionJoin)
    → request_is_valid (session_join m) ≡ true
    → IsAddress m.ip m.port × (rejoin_is_valid m.player_id m.rejoin_join_index ≡ true)
unfolding request_is_valid is_port
decode_parts-join m valid = ground arith

decode_parts-create :
    (m : SessionCreate) → request_is_valid (session_create m) ≡ true → IsAddress m.ip m.udp_port
unfolding request_is_valid is_port
decode_parts-create m valid = ground arith

decode_parts-recreate :
    (m : SessionRecreate) → request_is_valid (session_recreate m) ≡ true → IsRecreation m
unfolding request_is_valid
decode_parts-recreate m valid = recreate_parts m valid

abbrev host_seat : SessionRecreate → RosterEntry
host_seat m = seat_entry m.host_join_index m.host_ip m.host_udp_port true

host_seat-valid :
    (m : SessionRecreate) {host : RosterEntry}
    → IsRecreation m
    → lift_roster (validate (host_seat m)) ≡ ok host
    → host ≡ host_seat m
host_seat-valid m v e = cc (
    validate-IsSeat (host_seat m)
      (IsSeat-seat_entry m.host_join_index m.host_ip m.host_udp_port true v.slot v.address))

first_player :
    (host : RosterEntry) {roster : GlobalRoster}
    → lift_roster (add_player host []) ≡ ok roster
    → roster ≡ host ∷ []
unfolding add_player
first_player host e = cc

module _ (reachable : ℕ → Bool) where
  sessions-broadcast :
      (session_id : String) (notice : Notice) (s : Server)
      → (broadcast reachable session_id notice s).1.sessions ≡ s.sessions
  unfolding broadcast
  sessions-broadcast session_id notice s = ground arith

  broadcast-IsHealthy :
      (session_id : String) (notice : Notice)
      → Keeps IsHealthy (broadcast reachable session_id notice)
  broadcast-IsHealthy session_id notice = record {
    after = λ s h. subst AllSound (sym (sessions-broadcast session_id notice s)) h;
  }

  publish-IsHealthy : (session_id : String) → Keeps IsHealthy (publish reachable session_id)
  unfolding publish
  publish-IsHealthy session_id = search (keeping, roster_of-IsHealthy, broadcast-IsHealthy)

  drop-IsHealthy :
      (session_id : String)
      → Keeps {E = LobbyError} IsHealthy (
          update
            (λ (s : Server). (record s { sessions = drop_session session_id s.sessions }, tt {0})))
  unfolding drop_session
  drop-IsHealthy session_id = record { after = λ s h. AllSound-erase session_id s.sessions h }

  close-IsHealthy : (session_id : String) → Keeps IsHealthy (close reachable session_id)
  unfolding close
  close-IsHealthy session_id =
      Keeps->>= (broadcast-IsHealthy session_id (session_closed session_id))
        (λ _. drop-IsHealthy session_id)

  handle_leave-IsHealthy :
      (session_id : String) (join_index : ℕ)
      → Keeps IsHealthy (handle_leave reachable session_id join_index)
  unfolding handle_leave
  handle_leave-IsHealthy session_id join_index = Keeps->>= (Keeps-read _) (λ known.
      Keeps-branch (not known) (give tt) _ (λ _. Keeps-read _)
        (λ _.
          Keeps->>=
            (record { after = λ s h. leave_session-AllSound session_id join_index s.sessions h })
            (λ was_host.
              Keeps-branch was_host _ _ (λ _. close-IsHealthy session_id)
                (λ _. publish-IsHealthy session_id))))

  module _ (ws : ℕ) where
    sessions-reply :
        (notice : Notice) (s : Server) → (reply reachable ws notice s).1.sessions ≡ s.sessions
    unfolding reply
    sessions-reply notice s = ground arith

    reply-IsHealthy : (notice : Notice) → Keeps IsHealthy (reply reachable ws notice)
    reply-IsHealthy notice = record {
      after = λ s h. subst AllSound (sym (sessions-reply notice s)) h;
    }

    connect-IsHealthy : (session_id : String) → Keeps IsHealthy (connect reachable ws session_id)
    unfolding connect
    connect-IsHealthy session_id = record {
      after = λ s h. written s h (add_connection session_id ws s.sessions) refl;
    }
      where
        written :
            (s : Server)
            → IsHealthy s
            → (o : Option Sessions) → add_connection session_id ws s.sessions ≡ o
            → IsHealthy (or_key_error o s).1
        written s h none e = h
        written s h (some sessions) e = add_connection-AllSound session_id ws s.sessions h e

    handle_create-IsHealthy :
        (fresh : String) (m : SessionCreate)
        → IsAddress m.ip m.udp_port
        → Keeps IsHealthy (handle_create reachable ws fresh m)
    unfolding handle_create
    handle_create-IsHealthy fresh m address =
        Keeps->>=
          (record {
            after = λ s h. create_session-AllSound fresh m.ip m.udp_port s.sessions address h;
          })
          (λ _.
            search
              (keeping, remember-IsHealthy, connect-IsHealthy, reply-IsHealthy, publish-IsHealthy))

    refuse-IsHealthy :
        (session_id reason : String) → Keeps IsHealthy (refuse reachable ws session_id reason)
    unfolding refuse
    refuse-IsHealthy session_id reason = search (keeping, reply-IsHealthy, remember-IsHealthy)

    welcome-IsHealthy :
        (session_id : String) (join_index : ℕ)
        → Keeps IsHealthy (welcome reachable ws session_id join_index)
    unfolding welcome
    welcome-IsHealthy session_id join_index =
        search (keeping, connect-IsHealthy, reply-IsHealthy, publish-IsHealthy) depth 9

    admit-IsHealthy :
        (session_id : String) (slot : Option ℕ)
        → Keeps IsHealthy (admit reachable ws session_id slot)
    admit-IsHealthy session_id none = refuse-IsHealthy session_id _
    admit-IsHealthy session_id (some index) = welcome-IsHealthy session_id index

    handle_join-IsHealthy :
        (m : SessionJoin)
        → IsAddress m.ip m.port
        → rejoin_is_valid m.player_id m.rejoin_join_index ≡ true
        → Keeps IsHealthy (handle_join reachable ws m)
    unfolding handle_join
    handle_join-IsHealthy m address valid = Keeps->>= (remember-IsHealthy (some m.session_id)) (λ _.
        Keeps->>= (Keeps-read _) (λ full.
          Keeps-branch full _ _ (λ _. refuse-IsHealthy m.session_id full_reason)
            (λ _.
              Keeps->>=
                (record {
                  after = λ s h.
                      join_session-AllSound m.session_id m.player_id m.ip m.port m.rejoin_join_index
                        s.sessions address valid h;
                })
                (admit-IsHealthy m.session_id))))

    handle_recreate-IsHealthy :
        (m : SessionRecreate) → IsRecreation m → Keeps IsHealthy (handle_recreate reachable ws m)
    unfolding handle_recreate
    handle_recreate-IsHealthy m v = Keeps->>= (remember-IsHealthy (some m.session_id)) (λ _.
        Keeps-read->>= _ _ (λ _ host valid. Keeps-read->>= _ _ (λ _ roster added.
          Keeps->>=
            (record {
              after = λ s h.
                  subst
                    (λ roster. AllSound (
                      register_active_session m.session_id roster m.next_join_index
                        m.reserved_join_indices s.sessions))
                    (sym (first_player host added ∙ ap (λ e. e ∷ []) (host_seat-valid m v valid)))
                    (register-AllSound m s.sessions v h);
            })
            (λ _. Keeps->>= (connect-IsHealthy m.session_id) (λ _. reply-IsHealthy _)))))

    forward-IsHealthy :
        (world : String) (current : Option String)
        → Keeps IsHealthy (forward reachable ws world current)
    forward-IsHealthy world none = record { after = λ s h. h }
    forward-IsHealthy world (some session_id) =
        Keeps-branch (session_id == "") (give tt) _ (λ _. record { after = λ s h. h })
          (λ _. broadcast-IsHealthy session_id _)

    dispatch-IsHealthy :
        (fresh : String) (request : Request)
        → request_is_valid request ≡ true
        → Keeps IsHealthy (dispatch reachable ws fresh request)
    dispatch-IsHealthy fresh (session_create m) valid =
        handle_create-IsHealthy fresh m (decode_parts-create m valid)
    dispatch-IsHealthy fresh (session_join m) valid =
        let parts = decode_parts-join m valid in handle_join-IsHealthy m parts.0 parts.1
    dispatch-IsHealthy fresh (session_recreate m) valid =
        handle_recreate-IsHealthy m (decode_parts-recreate m valid)
    dispatch-IsHealthy fresh (session_leave session_id join_index) valid =
        handle_leave-IsHealthy session_id join_index
    dispatch-IsHealthy fresh (initial_state_sync world) valid =
        Keeps->>= (Keeps-read _) (forward-IsHealthy world)
    dispatch-IsHealthy fresh (game_start session_id) valid =
        Keeps->>= (activate-IsHealthy session_id) (λ _. broadcast-IsHealthy session_id _)
    dispatch-IsHealthy fresh other_type valid = record { after = λ s h. h }
    dispatch-IsHealthy fresh unreadable valid = record { after = λ s h. h }

    handle-IsHealthy :
        (fresh : String) (request : Request) → Keeps IsHealthy (handle reachable ws fresh request)
    unfolding handle decode_ws_message ◌>>=◌
    handle-IsHealthy fresh request = record {
      after = λ s h. decided s h (request_is_valid request) refl;
    }
      where
        decided :
            (s : Server)
            → IsHealthy s
            → (b : Bool) → request_is_valid request ≡ b
            → IsHealthy (handle reachable ws fresh request s).1
        decided s h true e =
            rw (e, handle, decode_ws_message, ◌>>=◌)
              ((dispatch-IsHealthy fresh request e).after s h)
        decided s h false e = rw (e, handle, decode_ws_message, ◌>>=◌) h

    hang_up-IsHealthy : (s : Server) → IsHealthy s → IsHealthy (hang_up reachable ws s)
    unfolding hang_up
    hang_up-IsHealthy s h = gone s.session_id refl
      where
        gone : (o : Option String) → s.session_id ≡ o → IsHealthy (hang_up reachable ws s)
        gone none e = rw (e, hang_up) h
        gone (some session_id) e = elim (Bool-cases (session_id == "")) [
          | inl empty ↦ rw (e, hang_up, empty) h
          | inr named ↦
              rw (e, hang_up, named) (remove_connection-AllSound session_id ws s.sessions h)
        ]

    -- From sound sessions, whatever one client sends, in whatever order and however it ends, every
    -- session stays sound: distinct slots of the game, each with its own player's id.
    pub lobby_endpoint-IsHealthy :
        (requests : List (String × Request)) (s : Server)
        → IsHealthy s
        → IsHealthy (lobby_endpoint reachable ws requests s)
    unfolding lobby_endpoint
    lobby_endpoint-IsHealthy [] s h = hang_up-IsHealthy s h
    lobby_endpoint-IsHealthy ((fresh, request) ∷ rest) s h =
        onward (lobby_endpoint-IsHealthy rest) (handle reachable ws fresh request s).0
          (handle reachable ws fresh request s).1 ((handle-IsHealthy fresh request).after s h)
      where
        onward :
            ((s' : Server) → IsHealthy s' → IsHealthy (lobby_endpoint reachable ws rest s'))
            → (r : Result LobbyError (Unit {0})) (s' : Server) → IsHealthy s'
            → IsHealthy (resume reachable ws (r, s') (lobby_endpoint reachable ws rest))
        onward ih (ok _) s' h' = ih s' h'
        onward ih (err _) s' h' = hang_up-IsHealthy s' h'
