-- ===== src/Failover/Claims.antt =====
-- The claim of a node, the acknowledgements it waits for and the claims of others
-- (src/distributed_smb/application/election/mixin.py). What the election's tick of a frame calls
-- checks the fields of the messages that it constructs; `promote_to_host` and `tick_claim_deadline`
-- are the effects where the checks pass.
use mas_dsmb.Prelude.{
  ◌+◌, ◌&&◌, ◌||◌, ◌∷◌, ◌==◌, if◌then◌else◌, ℕ, String, Bool, true, false, not, Option, none, some,
  List, [], leb, find?, elem, set_discard, Result, ok, err, nat_Eq, text_Eq,
}
use mas_dsmb.Shared.Roster.{RosterEntry, get_all_players}
use mas_dsmb.Domain.Scalar.{Scalar}
use mas_dsmb.Election.{
  following_host, on_new_host_claim, ElectionEvent, ElectionCoordinator, ElectionError,
}
use mas_dsmb.Failover.Node.{
  Node, is_other, known_client_peers, new_host_claim, send_election_message_udp, perform,
  evict_player, relayed, election_ack, others, host_udp_port, game_event_ws_port,
}
use mas_dsmb.Failover.Promotion.{promote_to_host, replace_host, take_authority}
use mas_dsmb.Wire.Messages.{NewHostClaim, ReconnectionAck, claim_is_valid, reconnection_is_valid}
use mas_dsmb.Wire.Schemas.{DecodeError}

-- `ELECTION_CLAIM_TIMEOUT_S`
abbrev pub election_claim_timeout : ℕ
election_claim_timeout = 2000

unfoldable pub deadline_passed : ℕ → Option ℕ → Bool
deadline_passed now none = false
deadline_passed now (some deadline) = leb deadline now

unfoldable pub is_empty : List String → Bool
is_empty [] = true
is_empty (_ ∷ _) = false

-- What the election's tick of a frame raises: an error of the coordinator, of a message's constructor,
-- or one that the recovery prober lets through.
pub data TickError : Type 0 where
  of_coordinator : ElectionError → TickError
  message_validation_error : TickError
  of_prober : DecodeError → TickError

-- A node, if the constructor of the message that it sends accepts its fields.
unfoldable pub if_valid : {A : Type 0} → Bool → A → Result TickError A
if_valid valid n = if valid then ok n else err message_validation_error

module _ (scalar : Scalar) where
  -- `ReconnectionAck(new_host_ip=self.local_ip, ...)`
  unfoldable pub own_ack : Node scalar → ReconnectionAck
  own_ack n = record {
    new_host_ip = n.local_ip;
    udp_port = host_udp_port;
    game_events_port = game_event_ws_port;
    session_id = n.session_id;
  }

  unfoldable pub is_some_left : List RosterEntry → Bool
  is_some_left [] = false
  is_some_left (_ ∷ _) = true

  -- A promotion constructs its message if there is a survivor to tell.
  unfoldable pub can_announce : Node scalar → Bool
  can_announce n =
      let survivors = others scalar (replace_host scalar (take_authority scalar n)) in
      n.promotion_done || not (is_some_left survivors) || reconnection_is_valid (own_ack n)

  -- `_promote_to_host` with the check of its message.
  unfoldable pub promote : ℕ → Node scalar → Result TickError (Node scalar)
  promote now n = if_valid (can_announce n) (promote_to_host scalar now n)

  unfoldable pub own_claim : Node scalar → NewHostClaim
  own_claim n = record {
    claimer_ip = n.local_ip;
    claimer_join_index = n.join_index;
    session_id = n.session_id;
  }

  unfoldable pub claiming : ℕ → List String → Node scalar → Node scalar
  claiming now peers n =
      let claim = new_host_claim n.local_ip n.join_index n.session_id in
      record (send_election_message_udp scalar claim (some peers)
        (perform scalar (relayed claim) n)) {
          pending_election_acks = peers;
          election_claim_deadline = some (now + election_claim_timeout);
        }

  unfoldable pub send_claim : ℕ → List String → Node scalar → Result TickError (Node scalar)
  send_claim now peers n = if_valid (claim_is_valid (own_claim n)) (claiming now peers n)

  -- Without peers the node is the sole survivor.
  unfoldable pub claim_to : ℕ → List String → Node scalar → Result TickError (Node scalar)
  claim_to now [] n = promote now n
  claim_to now (p ∷ peers) n = send_claim now (p ∷ peers) n

  unfoldable pub on_self_elected : ℕ → Node scalar → Result TickError (Node scalar)
  on_self_elected now n = claim_to now (known_client_peers scalar n) n

  unfoldable pub promote_when_acknowledged : ℕ → Node scalar → Node scalar
  promote_when_acknowledged now n =
      if is_empty n.pending_election_acks then promote_to_host scalar now n else n

  unfoldable pub receive_ack : String → Node scalar → Node scalar
  receive_ack from_ip n = record n {
    pending_election_acks = set_discard from_ip n.pending_election_acks;
  }

  unfoldable pub on_election_ack : ℕ → String → Node scalar → Node scalar
  on_election_ack now from_ip n =
      if n.promotion_done || not (elem from_ip n.pending_election_acks)
      then n
      else promote_when_acknowledged now (receive_ack from_ip n)

  -- The node remembers whom it follows.
  unfoldable pub following : ℕ → String → Node scalar → Node scalar
  following now claimer_ip n = record n {
    following_host_ip = some claimer_ip;
    following_since = now;
  }

  unfoldable pub acknowledge_claim : String → Node scalar → Node scalar
  acknowledge_claim claimer_ip n =
      let ack = election_ack n.local_ip n.session_id in
      send_election_message_udp scalar ack (some (claimer_ip ∷ [])) (perform scalar (relayed ack) n)

  unfoldable pub follow : ℕ → String → Option ElectionEvent → Node scalar → Node scalar
  follow now claimer_ip (some (following_host _ _)) n =
      acknowledge_claim claimer_ip (following now claimer_ip n)
  follow now claimer_ip _ n = n

  unfoldable pub hear_claim :
      ℕ → String → ℕ → Option ElectionCoordinator → Node scalar → Node scalar
  hear_claim now claimer_ip claimer_join_index none n = n
  hear_claim now claimer_ip claimer_join_index (some c) n =
      let (c', event) = on_new_host_claim claimer_join_index claimer_ip c in
      follow now claimer_ip event (record n { election_coordinator = some c' })

  unfoldable pub on_new_host_claim_from : ℕ → String → ℕ → Node scalar → Node scalar
  on_new_host_claim_from now claimer_ip claimer_join_index n =
      if claimer_join_index == n.join_index
      then n
      else hear_claim now claimer_ip claimer_join_index n.election_coordinator n

  -- The other entry at an address, if any, goes.
  unfoldable pub address_entry : String → Node scalar → Option RosterEntry
  address_entry ip n = find? (λ e. e.host == ip && is_other scalar n e) (get_all_players n.roster)

  unfoldable pub evict_entry : Option RosterEntry → Node scalar → Node scalar
  evict_entry none n = n
  evict_entry (some entry) n = evict_player scalar entry.player_id n

  unfoldable pub evict_address : String → Node scalar → Node scalar
  evict_address ip n = evict_entry (address_entry ip n) n

  unfoldable pub evict_silent : List String → Node scalar → Node scalar
  evict_silent [] n = n
  evict_silent (ip ∷ rest) n = evict_silent rest (evict_address ip n)

  unfoldable pub silenced : Node scalar → Node scalar
  silenced n = record (evict_silent n.pending_election_acks n) { pending_election_acks = [] }

  -- The silent peers go, and the node is the host.
  unfoldable pub promote_anyway : ℕ → Node scalar → Node scalar
  unfolding silenced
  promote_anyway now n = promote_to_host scalar now (silenced n)

  -- `_tick_claim_deadline` waits.
  unfoldable pub is_waiting : ℕ → Node scalar → Bool
  is_waiting now n =
      n.promotion_done
      || is_empty n.pending_election_acks
      || not (deadline_passed now n.election_claim_deadline)

  unfoldable pub tick_claim_deadline : ℕ → Node scalar → Node scalar
  unfolding is_waiting
  tick_claim_deadline now n = if is_waiting now n then n else promote_anyway now n

  -- `_tick_claim_deadline` with the check of the promotion's message.
  unfoldable pub expire_claim : ℕ → Node scalar → Result TickError (Node scalar)
  expire_claim now n =
      if_valid (is_waiting now n || can_announce (silenced n)) (tick_claim_deadline now n)
