-- ===== src/Wire/Schemas/Lobby.antt =====
-- The schemas of the lobby's messages: src/distributed_smb/shared/messages/schemas.py.
use mas_dsmb.Prelude.{
  ◌>>=◌, ◌∷◌, ◌==◌, if◌then◌else◌, ℤ, pos, negsuc, ℕ, String, Bool, Option, none, some, List, [],
  leb, length, Result, ok, err, nat_Eq, text_Eq, ◌>>=◌,
}
use mas_dsmb.Shared.Roster.{
  GlobalRoster, ConnectionStatus, connected, disconnected, validate, add_player,
  RosterValidationError,
}
use mas_dsmb.Shared.Messages.{SessionCreate, SessionJoin, SessionRecreate, max_players, is_port}
use mas_dsmb.Wire.Json.{Items, Fields, FieldTypes, get, no_items, item, Value}
use mas_dsmb.Wire.Schemas.{
  Read, deserialization_error, message_validation_error, value_error, roster_error, at_least_0,
  below_max_players, text_field, number_field, optional_number, list_field, dict_field, numbers,
  present, bool_field, required,
}

-- `RosterEntrySchema`
pub record RosterEntryFields : Type 0 where
  pub player_id : String
  pub host : String
  pub udp_port : ℕ
  pub join_index : ℕ
  pub status : String
  pub is_host : Bool

-- `ConnectionStatus(text)`
unfoldable pub status_of : String → Read ConnectionStatus
status_of s =
    if s == "connected"
    then ok connected
    else if s == "disconnected"
    then ok disconnected
    else err value_error

-- `validate_join_index` of every reserved index
unfoldable pub naturals : List ℤ → Read (List ℕ)
naturals [] = ok []
naturals (pos n ∷ rest) = do more ← naturals rest; ok (n ∷ more)
naturals (negsuc n ∷ rest) = err message_validation_error

-- `Field(default_factory=list, max_length=MAX_PLAYERS)`
unfoldable pub at_most_max : List ℤ → Read (List ℤ)
at_most_max l = if leb (length l) max_players then ok l else err deserialization_error

unfoldable pub or_roster_error : {A : Type 0} → Result RosterValidationError A → Read A
or_roster_error (ok a) = ok a
or_roster_error (err e) = err (roster_error e)

-- `RosterEntry(...)` and `roster.add_player(...)`
unfoldable pub add_entry : RosterEntryFields → GlobalRoster → Read GlobalRoster
unfolding status_of or_roster_error
add_entry e roster = do
  status ← status_of e.status
  entry ← or_roster_error (
      validate (record {
        player_id = e.player_id;
        host = e.host;
        udp_port = e.udp_port;
        join_index = e.join_index;
        status = status;
        is_host = e.is_host;
      }))
  or_roster_error (add_player entry roster)

unfoldable pub add_entries : List RosterEntryFields → GlobalRoster → Read GlobalRoster
add_entries [] roster = ok roster
add_entries (e ∷ rest) roster = add_entry e roster >>= (λ next. add_entries rest next)

module _ (types : FieldTypes) where
  open types use {read_list, read_dict, read_str}

  unfoldable pub session_create_schema : Fields → Read SessionCreate
  session_create_schema body = do
    player_id ← text_field types "player_id" body
    ip ← text_field types "ip" body
    udp_port ← number_field types is_port "udp_port" body
    ok (record { player_id = player_id; ip = ip; udp_port = udp_port })

  unfoldable pub session_join_schema : Fields → Read SessionJoin
  session_join_schema body = do
    session_id ← text_field types "session_id" body
    player_id ← text_field types "player_id" body
    ip ← text_field types "ip" body
    port ← number_field types is_port "port" body
    index ← optional_number types below_max_players (get "rejoin_join_index" body)
    ok (record {
      session_id = session_id;
      player_id = player_id;
      ip = ip;
      port = port;
      rejoin_join_index = index;
    })

  -- An absent list is empty.
  unfoldable pub reserved_field : Option Value → Read (List ℤ)
  unfolding present
  reserved_field none = ok []
  reserved_field (some v) = do
    items ← present (read_list v)
    found ← numbers types items
    at_most_max found

  unfoldable pub session_recreate_schema : Fields → Read SessionRecreate
  session_recreate_schema body = do
    session_id ← text_field types "session_id" body
    next_join_index ← number_field types at_least_0 "next_join_index" body
    host_ip ← text_field types "host_ip" body
    host_udp_port ← number_field types is_port "host_udp_port" body
    host_join_index ← number_field types below_max_players "host_join_index" body
    listed ← reserved_field (get "reserved_join_indices" body)
    reserved ← naturals listed
    ok (record {
      session_id = session_id;
      next_join_index = next_join_index;
      host_ip = host_ip;
      host_udp_port = host_udp_port;
      host_join_index = host_join_index;
      reserved_join_indices = reserved;
    })

  unfoldable pub status_field : Option Value → Read String
  unfolding present required
  status_field v = required types (λ v. present (read_str v)) v

  unfoldable pub roster_entry_schema : Fields → Read RosterEntryFields
  roster_entry_schema body = do
    player_id ← text_field types "player_id" body
    host ← text_field types "host" body
    udp_port ← number_field types is_port "udp_port" body
    join_index ← number_field types at_least_0 "join_index" body
    status ← status_field (get "status" body)
    is_host ← bool_field types "is_host" body
    ok (record {
      player_id = player_id;
      host = host;
      udp_port = udp_port;
      join_index = join_index;
      status = status;
      is_host = is_host;
    })

  unfoldable pub roster_entries : Items → Read (List RosterEntryFields)
  unfolding present
  roster_entries no_items = ok []
  roster_entries (item v rest) = do
    body ← present (read_dict v)
    entry ← roster_entry_schema body
    more ← roster_entries rest
    ok (entry ∷ more)

  -- `RosterSchema`
  unfoldable pub roster_schema : Fields → Read (List RosterEntryFields)
  roster_schema body = list_field types roster_entries "players" body

  unfoldable pub roster_update_schema : Fields → Read (List RosterEntryFields)
  roster_update_schema body = dict_field types roster_schema "roster" body
