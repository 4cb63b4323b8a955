-- ===== src/Recovery.antt =====
-- The recovery of a node that restarts: src/distributed_smb/shared/session_metadata.py and
-- application/recovery. The file and the sockets are arguments: what the file holds as JSON, and what
-- each peer answers to the probe. Texts of digits are those of 0 to 9; `True` counts as the number 1,
-- as it does in the language.
pub mod Texts
pub mod Probe
pub mod RoundTrip
use mas_dsmb.Prelude.{
  ◌-◌, ◌&&◌, ◌∷◌, ◌==◌, if◌then◌else◌, ℤ, pos, ℕ, String, Bool, true, false, not, Option, none,
  some, List, [], map, ltb, leb, Result, ok, err, nat_Eq, text_Eq,
}
use mas_dsmb.Shared.PlayerId.{player_id_for, read_from}
use mas_dsmb.Shared.Messages.{max_players}
use mas_dsmb.Recovery.Texts.{after_prefix, all_digits}
use mas_dsmb.Wire.Json.{
  Value, Items, Fields, get, items_of, null, flag, number, real, text, array, object, no_items,
  item, no_fields, field,
}

pub record CachedPeer : Type 0 where
  pub player_id : String
  pub ip : String
  pub join_index : ℤ

pub record SessionMetadata : Type 0 where
  pub session_id : String
  pub local_player_id : String
  pub peers : List CachedPeer
  pub join_index : Option ℕ

-- What the path holds: nothing, a text that is no JSON or cannot be read, or a value.
pub data Stored : Type 0 where
  absent unreadable : Stored
  stored : Value → Stored

-- An exception that `read_session_metadata` does not catch.
pub data RecoveryError : Type 0 where
  attribute_error : RecoveryError

-- `isinstance(v, int)`
unfoldable pub int_of : Value → Option ℤ
int_of (number n) = some n
int_of (flag true) = some (pos 1)
int_of (flag false) = some (pos 0)
int_of _ = none

-- `isinstance(v, str)` of what `get` returns
unfoldable pub text_of : Option Value → Option String
text_of (some (text s)) = some s
text_of _ = none

unfoldable pub number_of : Option Value → Option ℤ
unfolding int_of
number_of (some v) = int_of v
number_of none = none

unfoldable pub peer_from : Option String → Option String → Option ℤ → Option CachedPeer
peer_from (some player_id) (some ip) (some join_index) =
    some (record { player_id = player_id; ip = ip; join_index = join_index })
peer_from _ _ _ = none

unfoldable pub read_peer : Value → Option CachedPeer
unfolding peer_from text_of number_of
read_peer (object body) =
    peer_from (text_of (get "player_id" body)) (text_of (get "ip" body))
      (number_of (get "join_index" body))
read_peer _ = none

abbrev pub cons_both : {A : Type 0} → Option A → Option (List A) → Option (List A)
cons_both (some a) (some l) = some (a ∷ l)
cons_both _ _ = none

-- `None` as soon as one of them is no peer.
unfoldable pub read_peers : Items → Option (List CachedPeer)
unfolding read_peer
read_peers no_items = some []
read_peers (item v rest) = cons_both (read_peer v) (read_peers rest)

-- `suffix.isdigit()`: not empty.
unfoldable pub is_digit : String → Bool
unfolding all_digits
is_digit s = not (s == "") && all_digits s

unfoldable pub index_from : Option String → Option ℕ
unfolding is_digit
index_from none = none
index_from (some suffix) =
    let n = read_from 0 suffix in
    if is_digit suffix && ltb 0 n && leb n max_players then some (n - 1) else none

-- The index in a player id, where the file holds none.
unfoldable pub index_in : String → Option ℕ
unfolding index_from after_prefix
index_in local_player_id = index_from (after_prefix "player" local_player_id)

-- `none` for a value that is refused.
unfoldable pub read_index : Option Value → Option (Option ℕ)
read_index none = some none
read_index (some null) = some none
read_index (some (number (pos n))) = if ltb n max_players then some (some n) else none
read_index (some _) = none

unfoldable pub index_or_derived : String → Option ℕ → Option ℕ
unfolding index_in
index_or_derived local_player_id none = index_in local_player_id
index_or_derived local_player_id (some n) = some n

unfoldable pub agrees : String → Option ℕ → Bool
agrees local_player_id none = true
agrees local_player_id (some n) = local_player_id == player_id_for n

unfoldable pub metadata_from :
    Option (List CachedPeer)
    → Option String
    → Option String
    → Option (Option ℕ)
    → Option SessionMetadata
unfolding index_or_derived agrees
metadata_from (some peers) (some session_id) (some local_player_id) (some index) =
    let join_index = index_or_derived local_player_id index in
    if agrees local_player_id join_index
    then some (record {
      session_id = session_id;
      local_player_id = local_player_id;
      peers = peers;
      join_index = join_index;
    })
    else none
metadata_from _ _ _ _ = none

-- `isinstance(raw.get("peers"), list)`
unfoldable pub peers_of : Option Value → Option (List CachedPeer)
unfolding read_peers
peers_of (some (array items)) = read_peers items
peers_of _ = none

unfoldable pub read_session_metadata : Stored → Result RecoveryError (Option SessionMetadata)
unfolding metadata_from peers_of text_of read_index
read_session_metadata absent = ok none
read_session_metadata unreadable = ok none
read_session_metadata (stored (object raw)) = ok (
    metadata_from (peers_of (get "peers" raw)) (text_of (get "session_id" raw))
      (text_of (get "local_player_id" raw)) (read_index (get "join_index" raw)))
read_session_metadata (stored _) = err attribute_error

abbrev pub peer_fields : CachedPeer → Fields
peer_fields p =
    field "player_id" (text p.player_id)
      (field "ip" (text p.ip) (field "join_index" (number p.join_index) no_fields))

unfoldable pub stored_index : Option ℕ → Value
stored_index none = null
stored_index (some n) = number (pos n)

-- What the file holds afterwards.
unfoldable pub write_session_metadata : SessionMetadata → Stored
unfolding stored_index
write_session_metadata m = stored (
    object (
      field "session_id" (text m.session_id) (
        field "local_player_id" (text m.local_player_id) (
          field "peers" (array (items_of (map (λ p. object (peer_fields p)) m.peers)))
            (field "join_index" (stored_index m.join_index) no_fields)))))
