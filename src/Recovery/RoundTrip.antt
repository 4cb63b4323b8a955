-- ===== src/Recovery/RoundTrip.antt =====
-- A node that restarts reads back what it wrote down.
use mas_dsmb.Prelude.{◌≡◌, ◌<◌, ◌∷◌, refl, some, List, [], map, ok, lt→ltb}
use mas_dsmb.Shared.PlayerId.{player_id_for}
use mas_dsmb.Shared.Messages.{max_players}
use mas_dsmb.Domain.Scalar.{Scalar}
use mas_dsmb.Failover.Node.{Node}
use mas_dsmb.Wire.Json.{get, items_of, object}
use mas_dsmb.Recovery.{
  CachedPeer, peer_fields, read_peers, read_peer, peer_from, text_of, number_of, int_of,
  metadata_from, peers_of, read_index, stored_index, index_or_derived, agrees,
  read_session_metadata, write_session_metadata,
}
use mas_dsmb.Recovery.Probe.{metadata_of}
use text.Mathlib.TextEquality.{eq_iff}

read_peers-map :
    (peers : List CachedPeer)
    → read_peers (items_of (map (λ p. object (peer_fields p)) peers)) ≡ some peers
unfolding read_peers read_peer peer_from text_of number_of int_of items_of get
read_peers-map [] = refl
read_peers-map (p ∷ rest) = rw (read_peers-map rest) refl

module _ (scalar : Scalar) where
  -- If a node bears the id of its slot, and the slot is one of the session's, then after a restart it
  -- reads from its file the session, its id and slot, and the addresses of the others, as it wrote
  -- them.
  pub read-write_session_metadata :
      (n : Node scalar)
      → n.local_player_id ≡ player_id_for n.join_index
      → n.join_index < max_players
      → read_session_metadata (write_session_metadata (metadata_of scalar n))
        ≡ ok (some (metadata_of scalar n))
  unfolding read_session_metadata write_session_metadata metadata_of metadata_from peers_of
      read_index stored_index index_or_derived agrees text_of get
  read-write_session_metadata n named within = simp (
    read_peers-map ((metadata_of scalar n).peers),
    lt→ltb n.join_index max_players within,
    (eq_iff n.local_player_id (player_id_for n.join_index)).1 named,
  )
