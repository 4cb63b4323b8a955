-- ===== src/Lobby.antt =====
-- `LobbyManager` of src/distributed_smb/network/lobby/service.py: the registry of sessions. A method
-- takes the sessions and returns them changed beside its result. WebSockets are numbers, and the
-- fresh id that `uuid4` gives to a new session is an argument.
pub mod Sound
pub mod Slots
pub mod Rejoin
pub mod Roster
pub mod Registry
pub mod Endpoint
use mas_dsmb.Prelude.{
  ◌+◌, ◌&&◌, ◌∷◌, ◌++◌, ◌==◌, if◌then◌else◌, ◌>>=◌, ℕ, zero, suc, max, String, Bool, true, false,
  not, Option, none, some, List, [], leb, length, any, find?, filter, elem, set_of, set_discard,
  Dict, lookup, insert, erase, Result, ok, nat_Eq, text_Eq,
}
use mas_dsmb.Shared.PlayerId.{player_id_for}
use mas_dsmb.Shared.Roster.{
  RosterEntry, GlobalRoster, connected, RosterValidationError, validate, add_player, has_index,
  get_all_players,
}
use mas_dsmb.Shared.Roster.Membership.{indices}
use mas_dsmb.Shared.Messages.{max_players}

pub record SessionRecord : Type 0 where
  pub session_id : String
  pub entries : List RosterEntry
  pub connections : List ℕ
  pub is_active : Bool
  pub next_join_index : ℕ
  pub reserved_join_indices : List ℕ

abbrev pub Sessions : Type 0
Sessions = Dict String SessionRecord

abbrev pub seat_entry : ℕ → String → ℕ → Bool → RosterEntry
seat_entry join_index host udp_port is_host = record {
  player_id = player_id_for join_index;
  host = host;
  udp_port = udp_port;
  join_index = join_index;
  status = connected;
  is_host = is_host;
}

abbrev new_record : String → List RosterEntry → SessionRecord
new_record session_id entries = record {
  session_id = session_id;
  entries = entries;
  connections = [];
  is_active = false;
  next_join_index = 0;
  reserved_join_indices = [];
}

unfoldable pub create_session : String → String → ℕ → Sessions → Sessions × String × ℕ
create_session session_id host udp_port sessions =
    let fresh = new_record session_id (seat_entry 0 host udp_port true ∷ []) in
    (insert session_id (record fresh { next_join_index = 1 }) sessions, session_id, 0)

-- `range(n)`, from `start`
abbrev pub range_from : ℕ → ℕ → List ℕ
range_from start zero = []
range_from start (suc n) = start ∷ range_from (start + 1) n

-- `current_indices | record.reserved_join_indices`
unfoldable pub occupied_indices : SessionRecord → List ℕ
occupied_indices r = set_of (indices r.entries ++ r.reserved_join_indices)

unfoldable pub free_index : List ℕ → Option ℕ
free_index occupied = find? (λ index. not (elem index occupied)) (range_from 0 max_players)

-- The writes to the found entry of a node that comes back.
unfoldable pub readdress : ℕ → String → ℕ → List RosterEntry → List RosterEntry
readdress index host udp_port [] = []
readdress index host udp_port (e ∷ rest) =
    let later = readdress index host udp_port rest in
    if has_index index e then record e { host = host; udp_port = udp_port } ∷ rest else e ∷ later

unfoldable pub seat : ℕ → String → ℕ → SessionRecord → SessionRecord
seat join_index host udp_port r = record r {
  entries = r.entries ++ seat_entry join_index host udp_port false ∷ [];
  next_join_index = max r.next_join_index (join_index + 1);
}

abbrev pub unreserve : ℕ → SessionRecord → SessionRecord
unreserve index r = record r { reserved_join_indices = set_discard index r.reserved_join_indices }

-- `join_session` on the session's record: the record that it leaves and the slot, or a refusal.
unfoldable pub join_record :
    String → String → ℕ → Option ℕ → SessionRecord → Option (SessionRecord × ℕ)
unfolding readdress seat occupied_indices free_index
join_record player_id host udp_port (some index) r = elim (find? (has_index index) r.entries) [
  | some existing ↦
      if existing.player_id == player_id
      then some
          (unreserve index (record r { entries = readdress index host udp_port r.entries }), index)
      else none
  | none ↦
      if elem index r.reserved_join_indices
      then some (seat index host udp_port (unreserve index r), index)
      else none
]
join_record player_id host udp_port none r =
    if leb max_players (length (occupied_indices r))
    then none
    else elim (free_index (occupied_indices r)) [
      | none ↦ none
      | some index ↦ some (seat index host udp_port r, index)
    ]

unfoldable pub join_session :
    String → String → String → ℕ → Option ℕ → Sessions → Sessions × Option ℕ
join_session session_id player_id host udp_port rejoin sessions =
    elim (lookup session_id sessions) [
      | none ↦ (sessions, none)
      | some r ↦ elim (join_record player_id host udp_port rejoin r) [
        | none ↦ (sessions, none)
        | some (r', index) ↦ (insert session_id r' sessions, some index)
      ]
    ]

-- `self._sessions[session_id]` raises where there is no such session: `none`.
unfoldable pub add_connection : String → ℕ → Sessions → Option Sessions
add_connection session_id ws sessions = elim (lookup session_id sessions) [
  | none ↦ none
  | some r ↦ some (insert session_id (record r { connections = r.connections ++ ws ∷ [] }) sessions)
]

unfoldable pub remove_connection : String → ℕ → Sessions → Sessions
remove_connection session_id ws sessions = elim (lookup session_id sessions) [
  | none ↦ sessions
  | some r ↦
      insert session_id (record r { connections = filter (λ c. not (c == ws)) r.connections })
        sessions
]

unfoldable pub leave_session : String → ℕ → Sessions → Sessions × Bool
leave_session session_id join_index sessions = elim (lookup session_id sessions) [
  | none ↦ (sessions, false)
  | some r ↦ elim (find? (has_index join_index) r.entries) [
    | none ↦ (sessions, false)
    | some leaving ↦ (
      insert session_id
          (record r { entries = filter (λ e. not (has_index join_index e)) r.entries }) sessions,
      leaving.is_host,
    )
  ]
]

-- `is_full` on the session's record.
unfoldable pub record_is_full : Option ℕ → SessionRecord → Bool
unfolding occupied_indices
record_is_full (some index) r =
    not (elem index r.reserved_join_indices)
    && not (any (λ e. has_index index e && not (e.player_id == player_id_for index)) r.entries)
record_is_full none r = leb max_players (length (occupied_indices r))

unfoldable pub is_full : String → Option ℕ → Sessions → Bool
is_full session_id rejoin sessions = elim (lookup session_id sessions) [
  | none ↦ false
  | some r ↦ record_is_full rejoin r
]

unfoldable pub has_session : String → Sessions → Bool
has_session session_id sessions = elim (lookup session_id sessions) [ none ↦ false | some _ ↦ true ]

unfoldable pub drop_session : String → Sessions → Sessions
drop_session session_id sessions = erase session_id sessions

-- The entries, each built and added anew.
unfoldable pub rebuild : GlobalRoster → List RosterEntry → Result RosterValidationError GlobalRoster
rebuild roster [] = ok roster
rebuild roster (e ∷ rest) = do
  entry ← validate e
  roster' ← add_player entry roster
  rebuild roster' rest

unfoldable pub get_roster : SessionRecord → Result RosterValidationError GlobalRoster
unfolding rebuild
get_roster r = rebuild [] r.entries

unfoldable pub mark_active : String → Sessions → Option Sessions
mark_active session_id sessions = elim (lookup session_id sessions) [
  | none ↦ none
  | some r ↦ some (insert session_id (record r { is_active = true }) sessions)
]

unfoldable pub is_active : String → Sessions → Bool
is_active session_id sessions = elim (lookup session_id sessions) [
  | none ↦ false
  | some r ↦ r.is_active
]

unfoldable pub register_active_session : String → GlobalRoster → ℕ → List ℕ → Sessions → Sessions
register_active_session session_id roster next_join_index reserved sessions =
    let fresh = new_record session_id (get_all_players roster) in
    insert session_id
      (record fresh {
        is_active = true;
        next_join_index = next_join_index;
        reserved_join_indices = set_of reserved;
      })
      sessions
