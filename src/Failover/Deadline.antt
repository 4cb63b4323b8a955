-- ===== src/Failover/Deadline.antt =====
-- The deadline of a claim, and the claims of others in the meantime.
use mas_dsmb.Prelude.{
  ◌≡◌, ◌≤◌, ◌<◌, ◌||◌, ◌∷◌, ◌∙◌, ◌==◌, if◌then◌else◌, ℕ, String, refl, ap, Bool, true, false, not,
  Option, none, some, List, [], arith, leb, filter, elem, le→leb, nat_Eq, text_Eq,
}
use mas_dsmb.Shared.Roster.{RosterEntry}
use mas_dsmb.Domain.Scalar.{Scalar}
use mas_dsmb.Election.{ElectionCoordinator, on_new_host_claim}
use mas_dsmb.Failover.Node.{
  election_ack, relayed, Node, host, send_election_message_udp, perform, evict_player, election_ack,
  others,
}
use mas_dsmb.Failover.Claims.{
  follow, is_empty, tick_claim_deadline, on_new_host_claim_from, evict_silent, promote_anyway,
  evict_address, deadline_passed, evict_entry, address_entry, hear_claim, acknowledge_claim,
  following,
}
use mas_dsmb.Failover.Promoted.{promote_to_host-Promoted, send_to_each-SendsOnly, SendsOnly}

module _ (scalar : Scalar) where
  evict_entry-done :
      (e : Option RosterEntry) (n : Node scalar)
      → (evict_entry scalar e n).promotion_done ≡ n.promotion_done
  unfolding evict_entry evict_player
  evict_entry-done none n = refl
  evict_entry-done (some _) n = refl

  evict_silent-done :
      (ips : List String) (n : Node scalar)
      → (evict_silent scalar ips n).promotion_done ≡ n.promotion_done
  unfolding evict_silent evict_address
  evict_silent-done [] n = refl
  evict_silent-done (ip ∷ rest) n =
      let found = address_entry scalar ip n in
      evict_silent-done rest (evict_entry scalar found n) ∙ evict_entry-done found n

  promote_anyway-done :
      (now : ℕ) (n : Node scalar)
      → n.promotion_done ≡ false
      → (promote_anyway scalar now n).role ≡ host
  unfolding promote_anyway
  promote_anyway-done now n fresh =
      let silent = evict_silent scalar n.pending_election_acks n in
      (promote_to_host-Promoted scalar now (record silent { pending_election_acks = [] })
        (evict_silent-done n.pending_election_acks n ∙ fresh)).role

  -- Once its deadline has passed, a claimant that was not promoted before and still waits for
  -- somebody becomes the host.
  pub tick_claim_deadline-promotes :
      (now deadline : ℕ) (n : Node scalar)
      → n.promotion_done ≡ false
      → is_empty n.pending_election_acks ≡ false
      → n.election_claim_deadline ≡ some deadline
      → deadline ≤ now
      → (tick_claim_deadline scalar now n).role ≡ host
  unfolding tick_claim_deadline deadline_passed
  tick_claim_deadline-promotes now deadline n fresh waits set passed =
      ap (λ b. (if b then n else promote_anyway scalar now n).role)
        (overdue (n.promotion_done) (is_empty n.pending_election_acks)
          (deadline_passed now n.election_claim_deadline) fresh waits
          (ap (deadline_passed now) set ∙ le→leb deadline now passed))
      ∙ promote_anyway-done now n fresh
    where
      overdue : (a b c : Bool) → a ≡ false → b ≡ false → c ≡ true → (a || b || not c) ≡ false
      overdue a b c ha hb hc = ground arith

  heard :
      (now index : ℕ) (ip : String) (c : ElectionCoordinator) (n : Node scalar)
      → leb c.join_index index ≡ false
      → hear_claim scalar now ip index (some c) n
        ≡ acknowledge_claim scalar ip (
            following scalar now ip
              (record n { election_coordinator = some ((on_new_host_claim index ip c).0) }))
  unfolding hear_claim follow on_new_host_claim
  heard now index ip c n lower = rw lower refl

  claim_followed :
      (now index : ℕ) (ip : String) (c : ElectionCoordinator) (n : Node scalar)
      → n.election_coordinator ≡ some c
      → c.join_index ≡ n.join_index
      → index < n.join_index
      → on_new_host_claim_from scalar now ip index n
        ≡ acknowledge_claim scalar ip (
            following scalar now ip
              (record n { election_coordinator = some ((on_new_host_claim index ip c).0) }))
  unfolding on_new_host_claim_from
  claim_followed now index ip c n set same lower =
      ap (λ b. if b then n else hear_claim scalar now ip index n.election_coordinator n)
        (differ index n.join_index lower)
      ∙ ap (λ o. hear_claim scalar now ip index o n) set
      ∙ heard now index ip c n (above index c.join_index n.join_index same lower)
    where
      differ : (i j : ℕ) → i < j → (i == j) ≡ false
      differ i j h = ground arith

      above : (i j k : ℕ) → j ≡ k → i < k → leb j i ≡ false
      above i j k same h = ground arith

  acknowledge_claim-SendsOnly :
      (ip : String) (n : Node scalar) → SendsOnly scalar n (acknowledge_claim scalar ip n)
  unfolding acknowledge_claim send_election_message_udp perform
  acknowledge_claim-SendsOnly ip n =
      let ack = election_ack n.local_ip n.session_id in
      send_to_each-SendsOnly scalar ack (filter (λ e. elem e.host (ip ∷ [])) (others scalar n))
        (perform scalar (relayed ack) n)

  -- A claimant that was not promoted before and waits for somebody, and that hears a claim with a lower
  -- join index than its own, which its coordinator shares, follows it, and still becomes the host when
  -- its own claim's deadline has passed.
  pub follower_promotes_itself :
      (now heard_at deadline index : ℕ) (ip : String) (c : ElectionCoordinator) (n : Node scalar)
      → n.promotion_done ≡ false
      → is_empty n.pending_election_acks ≡ false
      → n.election_claim_deadline ≡ some deadline
      → deadline ≤ now
      → n.election_coordinator ≡ some c
      → c.join_index ≡ n.join_index
      → index < n.join_index
      → let after = on_new_host_claim_from scalar heard_at ip index n in
        (after.following_host_ip ≡ some ip) × ((tick_claim_deadline scalar now after).role ≡ host)
  unfolding following
  follower_promotes_itself now heard_at deadline index ip c n fresh waits set passed running same
        lower =
      let before =
        following scalar heard_at ip
          (record n { election_coordinator = some ((on_new_host_claim index ip c).0) }) in
      let is = claim_followed heard_at index ip c n running same lower in
      let sent = is ∙ acknowledge_claim-SendsOnly ip before in
      let after = on_new_host_claim_from scalar heard_at ip index n in
      (
        ap (λ m. m.following_host_ip) is
            ∙ ap (λ m. m.following_host_ip) (acknowledge_claim-SendsOnly ip before),
        tick_claim_deadline-promotes now deadline after (ap (λ m. m.promotion_done) sent ∙ fresh)
            (ap (λ m. is_empty m.pending_election_acks) sent ∙ waits)
            (ap (λ m. m.election_claim_deadline) sent ∙ set) passed,
      )
