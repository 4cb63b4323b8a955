-- ===== src/Wire/RoundTrip/Rosters.antt =====
-- A roster comes back from its dictionary, entry by entry.
use mas_dsmb.Prelude.{
  ◌>>=◌, ◌≡◌, ◌&&◌, ◌∷◌, ◌++◌, refl, sym, ap, Bool, true, some, [], map, arith, all, distinct, ok,
  nat_Eq, text_Eq,
}
use mas_dsmb.Shared.Roster.{
  RosterEntry, GlobalRoster, HasDistinctIndices, ConnectionStatus, connected, disconnected,
  validate, add_player,
}
use mas_dsmb.Shared.Roster.Membership.{indices}
use mas_dsmb.Shared.Messages.{is_port}
use mathlib.Core.List.{append_assoc, append-nil}
use mas_dsmb.Lobby.Roster.{add_player_fresh}
use mas_dsmb.Wire.Json.{field, no_fields, array, Fields, FieldTypes, get, items_of}
use mas_dsmb.Wire.Messages.{is_filled}
use mas_dsmb.Wire.Schemas.{present, at_least_0, required}
use mas_dsmb.Wire.Schemas.Lobby.{
  RosterEntryFields, status_of, status_field, add_entry, add_entries, roster_entry_schema,
  roster_entries, or_roster_error, roster_schema, roster_update_schema,
}
use mas_dsmb.Wire.Encode.{entry_value, entry_fields, roster_value, status_text}
use mas_dsmb.Wire.RoundTrip.Reading.{
  text_field-text, number_field-number, bool_field-flag, list_field-array, dict_field-object,
}

-- What the constructor of an entry accepts.
unfoldable pub entry_is_valid : RosterEntry → Bool
entry_is_valid e = is_filled e.player_id && is_filled e.host && is_port e.udp_port

validate-entry_is_valid :
    (e : RosterEntry)
    → entry_is_valid e ≡ true
    → validate (record {
      player_id = e.player_id;
      host = e.host;
      udp_port = e.udp_port;
      join_index = e.join_index;
      status = e.status;
      is_host = e.is_host;
    })
      ≡ ok e
unfolding entry_is_valid validate is_filled is_port
validate-entry_is_valid e h = ground arith

abbrev raw : RosterEntry → RosterEntryFields
raw e = record {
  player_id = e.player_id;
  host = e.host;
  udp_port = e.udp_port;
  join_index = e.join_index;
  status = status_text e.status;
  is_host = e.is_host;
}

status_of-status_text : (status : ConnectionStatus) → status_of (status_text status) ≡ ok status
unfolding status_of status_text
status_of-status_text connected = refl
status_of-status_text disconnected = refl

add_entry-raw :
    (e : RosterEntry) (players : GlobalRoster) {next : GlobalRoster}
    → entry_is_valid e ≡ true
    → add_player e players ≡ ok next
    → add_entry (raw e) players ≡ ok next
unfolding add_entry or_roster_error
add_entry-raw e players valid added =
    simp (status_of-status_text e.status, validate-entry_is_valid e valid, added)

add_entries-raw :
    (done players : GlobalRoster)
    → all entry_is_valid players ≡ true
    → distinct (indices (done ++ players)) ≡ true
    → add_entries (map raw players) done ≡ ok (done ++ players)
unfolding add_entries
add_entries-raw done [] valid apart = ap ok (sym (append-nil done))
add_entries-raw done (e ∷ rest) valid apart = simp (
  add_entry-raw e done (ground arith) (add_player_fresh done e rest apart),
  add_entries-raw (done ++ e ∷ []) rest (ground arith) (rw (append_assoc done (e ∷ []) rest) apart),
  append_assoc done (e ∷ []) rest,
)

module _ (types : FieldTypes) where
  open types use {read_str-text, read_dict-object}

  roster_entry_schema-entry :
      (e : RosterEntry)
      → entry_is_valid e ≡ true
      → roster_entry_schema types (entry_fields e) ≡ ok (raw e)
  unfolding roster_entry_schema entry_fields entry_is_valid get status_field required present
      at_least_0
  roster_entry_schema-entry e h = simp (
    text_field-text types "player_id" (entry_fields e) refl (ground arith),
    text_field-text types "host" (entry_fields e) refl (ground arith),
    number_field-number types is_port "udp_port" (entry_fields e) refl (ground arith),
    number_field-number types at_least_0 "join_index" (entry_fields e) refl refl,
    read_str-text (status_text e.status),
    bool_field-flag types "is_host" (entry_fields e) refl,
  )

  roster_entries-map :
      (players : GlobalRoster)
      → all entry_is_valid players ≡ true
      → roster_entries types (items_of (map entry_value players)) ≡ ok (map raw players)
  unfolding roster_entries items_of present
  roster_entries-map [] h = refl
  roster_entries-map (e ∷ rest) h = simp (
    read_dict-object (entry_fields e),
    roster_entry_schema-entry e (ground arith),
    roster_entries-map rest (ground arith),
  )

  -- The schema reads every entry, and the constructors accept them all.
  pub roster_update_schema-roster :
      (players : GlobalRoster) (body : Fields)
      → all entry_is_valid players ≡ true
      → HasDistinctIndices players
      → get "roster" body ≡ some (roster_value players)
      → (roster_update_schema types body >>= (λ entries. add_entries entries [])) ≡ ok players
  unfolding roster_update_schema roster_schema roster_value get
  roster_update_schema-roster players body valid apart found =
      let inner = field "players" (array (items_of (map entry_value players))) no_fields in
      simp (
        dict_field-object types (roster_schema types) "roster" body {inner = inner} found,
        list_field-array types (roster_entries types) "players" inner refl,
        roster_entries-map players valid,
        add_entries-raw [] players valid apart,
      )
