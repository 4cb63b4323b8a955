-- ===== src/Failover/Coordinator.antt =====
-- What leaves a node's coordinator and names as they are: promotions, evictions, claims and deadlines;
-- and that a node with an address and a session constructs its messages without error.
use mas_dsmb.Wire.Messages.{is_filled, claim_is_valid, reconnection_is_valid}
use mas_dsmb.Shared.Messages.{is_port}
use mas_dsmb.Election.{ElectionCoordinator}
use mas_dsmb.Prelude.{
  ◌≡◌, ◌&&◌, ◌||◌, ◌∷◌, ◌∙◌, if◌then◌else◌, ℕ, String, refl, ap, Bool, true, false, Option, none,
  some, List, [], arith, filter, elem, Result, ok, err, nat_Eq, text_Eq,
}
use mas_dsmb.Domain.Scalar.{Scalar}
use mas_dsmb.Failover.Claims.{
  evict_entry, TickError, if_valid, claiming, own_claim, own_ack, can_announce, promote,
  expire_claim, silenced, is_waiting, claim_to, evict_silent, tick_claim_deadline, promote_anyway,
  evict_address, send_claim, on_self_elected, address_entry,
}
use mas_dsmb.Failover.Promotion.{
  evict_host, bootstrap_from_snapshot, promote_to_host, promotion, finish_promotion,
  announce_promotion, replace_host, take_authority,
}
use mas_dsmb.Failover.Promoted.{announce_to-SendsOnly, send_to_each-SendsOnly}
use mas_dsmb.Election.{ElectionEvent, self_elected, following_host}
use mas_dsmb.Shared.Roster.{RosterEntry, get_host}
use mas_dsmb.Failover.Node.{
  Node, evict_player, Snapshot, known_client_peers, send_election_message_udp, perform,
  new_host_claim, others, relayed, rebuild_udp_as_host,
}
use mas_dsmb.Failover.Watch.{after_tick}

module _ (scalar : Scalar) where
  abbrev pub Lasting : Type 0
  Lasting = Option ElectionCoordinator × String × String

  -- The coordinator, the session and the address.
  abbrev pub lasting : Node scalar → Lasting
  lasting n = (n.election_coordinator, n.session_id, n.local_ip)

  pub evict_entry-coordinator :
      (e : Option RosterEntry) (n : Node scalar) → lasting (evict_entry scalar e n) ≡ lasting n
  unfolding evict_entry evict_player
  evict_entry-coordinator none n = refl
  evict_entry-coordinator (some _) n = refl

  pub evict_host-coordinator :
      (e : Option RosterEntry) (n : Node scalar) → lasting (evict_host scalar e n) ≡ lasting n
  unfolding evict_host evict_player
  evict_host-coordinator none n = refl
  evict_host-coordinator (some _) n = refl

  pub bootstrap-coordinator :
      (last : Option (Snapshot scalar)) (n : Node scalar)
      → lasting (bootstrap_from_snapshot scalar last n) ≡ lasting n
  unfolding bootstrap_from_snapshot
  bootstrap-coordinator none n = refl
  bootstrap-coordinator (some _) n = refl

  pub promotion-coordinator :
      (now : ℕ) (n : Node scalar) → lasting (promotion scalar now n) ≡ lasting n
  unfolding promotion finish_promotion perform announce_promotion replace_host take_authority
  promotion-coordinator now n =
      let started = record n {
        promotion_done = true;
        engine = record (n.engine) { is_authoritative = true };
      } in
      let taken = take_authority scalar n in
      let replaced = perform scalar rebuild_udp_as_host (replace_host scalar taken) in
      ap lasting (announce_to-SendsOnly scalar (others scalar replaced) replaced)
      ∙ evict_host-coordinator (get_host taken.roster) taken
      ∙ bootstrap-coordinator n.env_state_buffer started

  pub promote_to_host-coordinator :
      (now : ℕ) (n : Node scalar) → lasting (promote_to_host scalar now n) ≡ lasting n
  unfolding promote_to_host
  promote_to_host-coordinator now n =
      elim n.promotion_done
        as (λ b. lasting (if b then n else promotion scalar now n) ≡ lasting n) [
          | true ↦ refl
          | false ↦ promotion-coordinator now n
        ]

  pub evict_silent-coordinator :
      (ips : List String) (n : Node scalar) → lasting (evict_silent scalar ips n) ≡ lasting n
  unfolding evict_silent evict_address
  evict_silent-coordinator [] n = refl
  evict_silent-coordinator (ip ∷ rest) n =
      let found = address_entry scalar ip n in
      evict_silent-coordinator rest (evict_entry scalar found n) ∙ evict_entry-coordinator found n

  pub promote_anyway-coordinator :
      (now : ℕ) (n : Node scalar) → lasting (promote_anyway scalar now n) ≡ lasting n
  unfolding promote_anyway
  promote_anyway-coordinator now n =
      promote_to_host-coordinator now
        (record (evict_silent scalar n.pending_election_acks n) { pending_election_acks = [] })
      ∙ evict_silent-coordinator n.pending_election_acks n

  pub tick_claim_deadline-coordinator :
      (now : ℕ) (n : Node scalar) → lasting (tick_claim_deadline scalar now n) ≡ lasting n
  unfolding tick_claim_deadline
  tick_claim_deadline-coordinator now n =
      elim (is_waiting scalar now n)
        as (λ b. lasting (if b then n else promote_anyway scalar now n) ≡ lasting n) [
          | true ↦ refl
          | false ↦ promote_anyway-coordinator now n
        ]

  claiming-coordinator :
      (now : ℕ) (peers : List String) (n : Node scalar)
      → lasting (claiming scalar now peers n) ≡ lasting n
  unfolding claiming send_election_message_udp perform
  claiming-coordinator now peers n =
      let claim = new_host_claim n.local_ip n.join_index n.session_id in
      ap lasting (
        send_to_each-SendsOnly scalar claim (filter (λ e. elem e.host peers) (others scalar n))
          (perform scalar (relayed claim) n))

  -- No error, and a node with the same coordinator and names.
  abbrev pub Lasts : Node scalar → Result TickError (Node scalar) → Type 0
  Lasts n (err _) = ⊥
  Lasts n (ok m) = lasting m ≡ lasting n

  -- The node has an address and a session.
  abbrev pub is_named : Node scalar → Bool
  is_named n = is_filled n.local_ip && is_filled n.session_id

  pub if_valid-Lasts :
      (valid : Bool) (n m : Node scalar)
      → valid ≡ true
      → lasting m ≡ lasting n
      → Lasts n (if_valid valid m)
  unfolding if_valid
  if_valid-Lasts true n m h same = same
  if_valid-Lasts false n m h same = absurd (ground arith)

  can_announce-named : (n : Node scalar) → is_named n ≡ true → can_announce scalar n ≡ true
  unfolding can_announce reconnection_is_valid own_ack is_port
  can_announce-named n h = ground arith

  pub promote-Lasts :
      (now : ℕ) (n : Node scalar) → is_named n ≡ true → Lasts n (promote scalar now n)
  unfolding promote
  promote-Lasts now n h =
      if_valid-Lasts (can_announce scalar n) n (promote_to_host scalar now n)
        (can_announce-named n h) (promote_to_host-coordinator now n)

  claim_named : (n : Node scalar) → is_named n ≡ true → claim_is_valid (own_claim scalar n) ≡ true
  unfolding claim_is_valid own_claim
  claim_named n h = h

  claim_to-Lasts :
      (now : ℕ) (peers : List String) (n : Node scalar)
      → is_named n ≡ true
      → Lasts n (claim_to scalar now peers n)
  unfolding claim_to send_claim
  claim_to-Lasts now [] n h = promote-Lasts now n h
  claim_to-Lasts now (p ∷ peers) n h =
      if_valid-Lasts (claim_is_valid (own_claim scalar n)) n (claiming scalar now (p ∷ peers) n)
        (claim_named n h) (claiming-coordinator now (p ∷ peers) n)

  pub after_tick-Lasts :
      (now : ℕ) (event : Option ElectionEvent) (n : Node scalar)
      → is_named n ≡ true
      → Lasts n (after_tick scalar now event n)
  unfolding after_tick on_self_elected
  after_tick-Lasts now (some (self_elected _)) n h =
      claim_to-Lasts now (known_client_peers scalar n) n h
  after_tick-Lasts now (some (following_host _ _)) n h = refl
  after_tick-Lasts now none n h = refl

  pub silenced-named : (n : Node scalar) → is_named n ≡ true → is_named (silenced scalar n) ≡ true
  unfolding silenced
  silenced-named n h =
      ap (λ (l : Lasting). is_filled l.2 && is_filled l.1)
        (evict_silent-coordinator n.pending_election_acks n)
      ∙ h

  pub expire_claim-Lasts :
      (now : ℕ) (n : Node scalar) → is_named n ≡ true → Lasts n (expire_claim scalar now n)
  unfolding expire_claim
  expire_claim-Lasts now n h =
      if_valid-Lasts (is_waiting scalar now n || can_announce scalar (silenced scalar n)) n
        (tick_claim_deadline scalar now n)
        (ground (arith, can_announce-named (silenced scalar n) (silenced-named n h)))
        (tick_claim_deadline-coordinator now n)
