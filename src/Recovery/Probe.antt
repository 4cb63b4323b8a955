-- ===== src/Recovery/Probe.antt =====
-- src/distributed_smb/application/recovery/{mixin,prober}.py and domain/lifecycle.py: what a node
-- writes down, and how it finds the host when it restarts. `ask` is what a peer's address sends back
-- to a probe within the timeout, if anything.
use mas_dsmb.Prelude.{
  ◌∷◌, ◌==◌, if◌then◌else◌, pos, ℕ, String, Bool, true, false, Option, none, some, List, [], map,
  Result, ok, err, nat_Eq, text_Eq, ◌>>=◌,
}
use mas_dsmb.Shared.Roster.{RosterEntry}
use mas_dsmb.Domain.Scalar.{Scalar}
use mas_dsmb.Failover.Node.{Node, others, host_udp_port}
use mas_dsmb.Wire.Json.{FieldTypes, Encoding}
use mas_dsmb.Wire.Messages.{UdpMessage, udp_is_valid, probe, identity}
use mas_dsmb.Wire.Schemas.{DecodeError, Read, type_error, attribute_error, key_error}
use mas_dsmb.Wire.Encode.{encode_message}
use mas_dsmb.Wire.Decode.{decode_message, construct}
use mas_dsmb.Recovery.{
  CachedPeer, SessionMetadata, Stored, absent, RecoveryError, read_session_metadata,
}

pub data NodeState : Type 0 where
  is_idle in_lobby in_game recovering : NodeState

unfoldable pub is_started : NodeState → Bool
is_started in_game = true
is_started _ = false

-- What ends a recovery with an exception.
pub data RecoveryFailure : Type 0 where
  of_file : RecoveryError → RecoveryFailure
  of_message : DecodeError → RecoveryFailure

-- `except ValueError`
unfoldable pub is_value_error : DecodeError → Bool
is_value_error type_error = false
is_value_error attribute_error = false
is_value_error key_error = false
is_value_error _ = true

-- The host that an answer names, if it is an identity for this session.
unfoldable pub named_host : String → UdpMessage → Option String
named_host session_id (identity answered host_ip) =
    if answered == session_id then some host_ip else none
named_host session_id _ = none

-- An answer that cannot be read counts as none.
unfoldable pub read_answer : String → Read UdpMessage → Read (Option String)
unfolding named_host is_value_error
read_answer session_id (ok message) = ok (named_host session_id message)
read_answer session_id (err e) = if is_value_error e then ok none else err e

module _ (types : FieldTypes) (encoding : Encoding) where
  open encoding use {Datagram}

  abbrev pub Network : Type 0
  Network = String → ℕ → Datagram → Option Datagram

  unfoldable pub answer_of : String → Option Datagram → Read (Option String)
  unfolding read_answer
  answer_of session_id none = ok none
  answer_of session_id (some payload) =
      read_answer session_id (decode_message types encoding payload)

  -- The peers in turn; the first one that names the host ends the search.
  unfoldable pub first_host : Network → String → Datagram → List CachedPeer → Read (Option String)
  unfolding answer_of
  first_host ask session_id sent [] = ok none
  first_host ask session_id sent (peer ∷ rest) = do
    found ← answer_of session_id (ask peer.ip host_udp_port sent)
    later_unless found (first_host ask session_id sent rest)
    where
      later_unless : Option String → Read (Option String) → Read (Option String)
      later_unless (some host) later = ok (some host)
      later_unless none later = later

  unfoldable pub find_current_host :
      Network → String → String → List CachedPeer → Read (Option String)
  unfolding construct first_host
  find_current_host ask session_id requester_ip [] = ok none
  find_current_host ask session_id requester_ip (peer ∷ rest) = do
    message ← construct udp_is_valid (probe session_id requester_ip)
    first_host ask session_id (encode_message encoding message) (peer ∷ rest)

module _ (scalar : Scalar) where
  -- `_write_session_metadata`
  unfoldable pub metadata_of : Node scalar → SessionMetadata
  metadata_of n = record {
    session_id = n.session_id;
    local_player_id = n.local_player_id;
    peers =
        map
          (λ (e : RosterEntry). record {
            player_id = e.player_id;
            ip = e.host;
            join_index = pos e.join_index;
          })
          (others scalar n);
    join_index = some n.join_index;
  }

  -- A node with its mode and its file.
  pub record Restarted : Type 0 where
    pub node : Node scalar
    pub mode : NodeState
    pub file : Stored

  abbrev pub Recovered : Type 0
  Recovered = Result RecoveryFailure (Option String × Restarted)

  abbrev of_read : {A : Type 0} → Read A → Result RecoveryFailure A
  of_read (ok a) = ok a
  of_read (err e) = err (of_message e)

  abbrev of_metadata : {A : Type 0} → Result RecoveryError A → Result RecoveryFailure A
  of_metadata (ok a) = ok a
  of_metadata (err e) = err (of_file e)

  unfoldable pub adopt : SessionMetadata → Option String → Restarted → Option String × Restarted
  adopt metadata none r = (none, record r { file = absent })
  adopt metadata (some host_ip) r = (
    some host_ip,
    record r {
      node = record (r.node) {
        remote_host = host_ip;
        remote_port = host_udp_port;
        session_id = metadata.session_id;
      };
    },
  )

  module _ (types : FieldTypes) (encoding : Encoding) where
    unfoldable pub recover_with :
        Network types encoding → Option SessionMetadata → Restarted → Recovered
    unfolding adopt
    recover_with ask none r = ok (none, r)
    recover_with ask (some metadata) r = do
      found ←
          of_read (
            find_current_host types encoding ask metadata.session_id r.node.local_ip metadata.peers)
      ok (adopt metadata found r)

    unfoldable pub attempt_recovery : Network types encoding → Restarted → Recovered
    unfolding recover_with
    attempt_recovery ask r = do
      metadata ← of_metadata (read_session_metadata r.file)
      recover_with ask metadata (record r { mode = recovering })
