-- ===== src/Lobby/Registry.antt =====
-- The registry of sessions as a whole: every session is sound, and a method touches one session.
use mas_dsmb.Prelude.{
  ◌≡◌, ◌<◌, ◌∷◌, ◌++◌, ◌==◌, ℕ, String, refl, inl, inr, Bool, true, false, not, Option, none, some,
  List, [], arith, ltb, Bool-cases, all, filter, elem, distinct, lookup, insert, erase,
  lookup-insert, lookup-erase, subst, set_of-distinct, nat_Eq, text_Eq,
}
use mas_dsmb.Shared.Roster.{RosterEntry, has_index, get_all_players}
use mas_dsmb.Shared.Messages.{
  max_players, rejoin_is_valid, SessionRecreate, recreate_is_valid, is_port,
}
use mas_dsmb.Lobby.{
  SessionRecord, Sessions, seat_entry, create_session, join_session, join_record, add_connection,
  remove_connection, leave_session, mark_active, register_active_session,
}
use mas_dsmb.Lobby.Sound.{IsSound, IsAddress, IsSeat-seat_entry}
use mas_dsmb.Lobby.Rejoin.{join_record-IsSound}
use mas_dsmb.Lobby.Roster.{leave-IsSound}

pub record AllSound (sessions : Sessions) : Type 0 where
  pub at :
      (session_id : String) (r : SessionRecord) → lookup session_id sessions ≡ some r → IsSound r

pub AllSound-empty : AllSound []
AllSound-empty = record { at = λ session_id r found. cc }

pub AllSound-insert :
    (session_id : String) (r : SessionRecord) (sessions : Sessions)
    → IsSound r
    → AllSound sessions
    → AllSound (insert session_id r sessions)
AllSound-insert session_id r sessions sound every = record { at = at' }
  where
    at' :
        (other : String) (r' : SessionRecord)
        → lookup other (insert session_id r sessions) ≡ some r'
        → IsSound r'
    at' other r' found = elim (Bool-cases (session_id == other)) [
      | inl same ↦ subst IsSound (ground (arith, lookup-insert session_id other r sessions)) sound
      | inr differ ↦ every.at other r' (ground (arith, lookup-insert session_id other r sessions))
    ]

pub AllSound-erase :
    (session_id : String) (sessions : Sessions)
    → AllSound sessions
    → AllSound (erase session_id sessions)
AllSound-erase session_id sessions every = record {
  at = λ other r found. every.at other r (ground (arith, lookup-erase session_id other sessions));
}

-- A change of the fields that soundness does not read.
abbrev touch : SessionRecord → List ℕ → Bool → SessionRecord
touch r connections is_active = record r { connections = connections; is_active = is_active }

pub touch-IsSound :
    (r : SessionRecord) (connections : List ℕ) (is_active : Bool)
    → IsSound r
    → IsSound (touch r connections is_active)
touch-IsSound r connections is_active h = record {
  seats = h.seats;
  once = h.once;
  reserved_in_range = h.reserved_in_range;
}

pub create_session-AllSound :
    (session_id host : String) (port : ℕ) (sessions : Sessions)
    → IsAddress host port
    → AllSound sessions
    → AllSound (create_session session_id host port sessions).0
unfolding create_session
create_session-AllSound session_id host port sessions address every =
    AllSound-insert session_id _ sessions
      (record {
        seats = (IsSeat-seat_entry 0 host port true (omega arith) address, tt);
        once = refl;
        reserved_in_range = refl;
      })
      every

pub join_session-AllSound :
    (session_id player_id host : String) (port : ℕ) (rejoin : Option ℕ) (sessions : Sessions)
    → IsAddress host port
    → rejoin_is_valid player_id rejoin ≡ true
    → AllSound sessions
    → AllSound (join_session session_id player_id host port rejoin sessions).0
unfolding join_session
join_session-AllSound session_id player_id host port rejoin sessions address valid every =
    on_record (lookup session_id sessions) refl
  where
    on_slot :
        (r : SessionRecord)
        → lookup session_id sessions ≡ some r
        → (o : Option (SessionRecord × ℕ)) → join_record player_id host port rejoin r ≡ o
        → AllSound (
            (elim o as (λ _. Sessions × Option ℕ) [
              | none ↦ (sessions, none)
              | some (r', index) ↦ (insert session_id r' sessions, some index)
            ]).0)
    on_slot r found none e = every
    on_slot r found (some (r', index)) e =
        AllSound-insert session_id r' sessions
          (join_record-IsSound player_id host port rejoin r (every.at session_id r found) address
            valid e)
          every

    on_record :
        (o : Option SessionRecord)
        → lookup session_id sessions ≡ o
        → AllSound (join_session session_id player_id host port rejoin sessions).0
    on_record none e = rw (e, join_session) every
    on_record (some r) e = rw (e, join_session) (on_slot r e _ refl)

pub add_connection-AllSound :
    (session_id : String) (ws : ℕ) (sessions : Sessions) {sessions' : Sessions}
    → AllSound sessions
    → add_connection session_id ws sessions ≡ some sessions'
    → AllSound sessions'
unfolding add_connection
add_connection-AllSound session_id ws sessions {sessions'} every added =
    go (lookup session_id sessions) refl
  where
    go : (o : Option SessionRecord) → lookup session_id sessions ≡ o → AllSound sessions'
    go none e = absurd (ground (arith, e))
    go (some r) e = subst AllSound (ground (arith, e)) (
        AllSound-insert session_id (touch r (r.connections ++ ws ∷ []) r.is_active) sessions
          (touch-IsSound r _ _ (every.at session_id r e)) every)

pub mark_active-AllSound :
    (session_id : String) (sessions : Sessions) {sessions' : Sessions}
    → AllSound sessions
    → mark_active session_id sessions ≡ some sessions'
    → AllSound sessions'
unfolding mark_active
mark_active-AllSound session_id sessions {sessions'} every marked =
    go (lookup session_id sessions) refl
  where
    go : (o : Option SessionRecord) → lookup session_id sessions ≡ o → AllSound sessions'
    go none e = absurd (ground (arith, e))
    go (some r) e = subst AllSound (ground (arith, e)) (
        AllSound-insert session_id (touch r r.connections true) sessions
          (touch-IsSound r _ _ (every.at session_id r e)) every)

pub remove_connection-AllSound :
    (session_id : String) (ws : ℕ) (sessions : Sessions)
    → AllSound sessions
    → AllSound (remove_connection session_id ws sessions)
unfolding remove_connection
remove_connection-AllSound session_id ws sessions every = go (lookup session_id sessions) refl
  where
    go :
        (o : Option SessionRecord)
        → lookup session_id sessions ≡ o
        → AllSound (remove_connection session_id ws sessions)
    go none e = rw (e, remove_connection) every
    go (some r) e =
        rw (e, remove_connection)
          (AllSound-insert session_id (touch r _ r.is_active) sessions
            (touch-IsSound r _ _ (every.at session_id r e)) every)

pub leave_session-AllSound :
    (session_id : String) (join_index : ℕ) (sessions : Sessions)
    → AllSound sessions
    → AllSound (leave_session session_id join_index sessions).0
unfolding leave_session
leave_session-AllSound session_id join_index sessions every = go (lookup session_id sessions) refl
  where
    drop :
        (r : SessionRecord)
        → IsSound r
        → (o : Option RosterEntry)
        → AllSound (
            (elim o as (λ _. Sessions × Bool) [
              | none ↦ (sessions, false)
              | some leaving ↦ (
                insert session_id
                    (record r { entries = filter (λ e. not (has_index join_index e)) r.entries })
                    sessions,
                leaving.is_host,
              )
            ]).0)
    drop r h none = every
    drop r h (some leaving) =
        AllSound-insert session_id _ sessions (leave-IsSound join_index r h) every

    go :
        (o : Option SessionRecord)
        → lookup session_id sessions ≡ o
        → AllSound (leave_session session_id join_index sessions).0
    go none e = rw (e, leave_session) every
    go (some r) e = rw (e, leave_session) (drop r (every.at session_id r e) _)

pub record IsRecreation (m : SessionRecreate) : Type 0 where
  pub slot : m.host_join_index < max_players
  pub address : IsAddress m.host_ip m.host_udp_port
  pub once : distinct m.reserved_join_indices ≡ true
  pub in_range : all (λ index. ltb index max_players) m.reserved_join_indices ≡ true
  pub apart : elem m.host_join_index m.reserved_join_indices ≡ false

pub recreate_parts : (m : SessionRecreate) → recreate_is_valid m ≡ true → IsRecreation m
unfolding recreate_is_valid is_port
recreate_parts m valid = ground arith

distinct-cons :
    (x : ℕ) (xs : List ℕ) → elem x xs ≡ false → distinct xs ≡ true → distinct (x ∷ xs) ≡ true
distinct-cons x xs absent d = ground arith

-- The session that a promoted host registers from a valid message.
pub register-AllSound :
    (m : SessionRecreate) (sessions : Sessions)
    → IsRecreation m
    → AllSound sessions
    → AllSound (
        register_active_session m.session_id
          (seat_entry m.host_join_index m.host_ip m.host_udp_port true ∷ [])
          m.next_join_index
          m.reserved_join_indices
          sessions)
unfolding register_active_session get_all_players
register-AllSound m sessions v every =
    AllSound-insert m.session_id _ sessions
      (record {
        seats = (
          IsSeat-seat_entry m.host_join_index m.host_ip m.host_udp_port true v.slot v.address,
          tt,
        );
        once =
            rw (set_of-distinct m.reserved_join_indices v.once)
              (distinct-cons m.host_join_index m.reserved_join_indices v.apart v.once);
        reserved_in_range = rw (set_of-distinct m.reserved_join_indices v.once) v.in_range;
      })
      every
