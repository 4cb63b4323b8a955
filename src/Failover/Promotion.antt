-- ===== src/Failover/Promotion.antt =====
-- `_promote_to_host`, `_finish_promotion` and the message of `_relaunch_lobby_for_rejoin`
-- (src/distributed_smb/application/election/mixin.py).
use mas_dsmb.Prelude.{
  ◌∷◌, ◌++◌, if◌then◌else◌, ℕ, suc, max, String, true, Option, none, some, List, [], map, leb,
  set_of, Dict, insert, nat_Eq, text_Eq,
}
use mas_dsmb.Shared.Roster.{GlobalRoster, RosterEntry, get_host, promote_host}
use mas_dsmb.Shared.Messages.{SessionRecreate}
use mas_dsmb.Domain.Scalar.{Scalar}
use mas_dsmb.Failover.Node.{
  Node, Snapshot, evict_player, host_udp_port, reconnection_ack, perform, with_world,
  relaunch_lobby, others, start_spade_runtime, game_event_ws_port, promote_to_server, host,
  send_election_message_udp, rebuild_udp_as_host, relayed,
}

-- `max(e.join_index for e in all_players) + 1`, or 0 without players.
unfoldable pub next_join_index : GlobalRoster → ℕ
next_join_index [] = 0
next_join_index (e ∷ rest) = max (suc e.join_index) (next_join_index rest)

-- `sorted` on numbers.
unfoldable pub insert_sorted : ℕ → List ℕ → List ℕ
insert_sorted n [] = n ∷ []
insert_sorted n (m ∷ rest) =
    let later = insert_sorted n rest in if leb n m then n ∷ m ∷ rest else m ∷ later

unfoldable pub sorted : List ℕ → List ℕ
sorted [] = []
sorted (n ∷ rest) = insert_sorted n (sorted rest)

module _ (scalar : Scalar) where
  unfoldable pub bootstrap_from_snapshot : Option (Snapshot scalar) → Node scalar → Node scalar
  bootstrap_from_snapshot none n = n
  bootstrap_from_snapshot (some last) n = record (with_world scalar (λ w. last.world_state) n) {
    last_snapshot_sequence = last.sequence_number;
  }

  unfoldable pub evict_host : Option RosterEntry → Node scalar → Node scalar
  evict_host none n = n
  evict_host (some crashed) n = evict_player scalar crashed.player_id n

  -- The survivors, if there are any, learn of the new host.
  unfoldable pub announce_to : List RosterEntry → Node scalar → Node scalar
  announce_to [] n = n
  announce_to (_ ∷ _) n =
      let ack = reconnection_ack n.local_ip host_udp_port game_event_ws_port n.session_id in
      send_election_message_udp scalar ack none (perform scalar (relayed ack) n)

  unfoldable pub announce_promotion : Node scalar → Node scalar
  announce_promotion n = announce_to (others scalar n) n

  unfoldable pub grace : ℕ → List RosterEntry → Dict String ℕ → Dict String ℕ
  grace now [] times = times
  grace now (e ∷ rest) times = grace now rest (insert e.player_id now times)

  unfoldable pub finish_promotion : ℕ → Node scalar → Node scalar
  finish_promotion now n =
      perform scalar start_spade_runtime
        (record n { last_input_time = grace now (others scalar n) n.last_input_time; role = host })

  -- The engine takes authority over the last snapshot's world.
  unfoldable pub take_authority : Node scalar → Node scalar
  take_authority n =
      bootstrap_from_snapshot n.env_state_buffer
        (record n { promotion_done = true; engine = record (n.engine) { is_authoritative = true } })

  -- The crashed host goes, and this node is the host of its roster.
  unfoldable pub replace_host : Node scalar → Node scalar
  replace_host n =
      let evicted = evict_host (get_host n.roster) n in
      record evicted { roster = promote_host evicted.local_player_id evicted.roster }

  unfoldable pub promotion : ℕ → Node scalar → Node scalar
  promotion now n = perform scalar relaunch_lobby (
      finish_promotion now (
        perform scalar (promote_to_server game_event_ws_port) (
          announce_promotion
            (perform scalar rebuild_udp_as_host (replace_host (take_authority n))))))

  unfoldable pub promote_to_host : ℕ → Node scalar → Node scalar
  promote_to_host now n = if n.promotion_done then n else promotion now n

  -- What the relaunched lobby is asked to recreate.
  unfoldable pub recreate_request : Node scalar → SessionRecreate
  recreate_request n = record {
    session_id = n.session_id;
    next_join_index = next_join_index n.roster;
    host_ip = n.local_ip;
    host_udp_port = host_udp_port;
    host_join_index = n.join_index;
    reserved_join_indices =
        sorted
          (set_of (map (λ e. e.join_index) (others scalar n) ++ map (λ kv. kv.0) n.rejoin_states));
  }
