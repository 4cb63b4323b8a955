-- ===== src/Failover/Promoted.antt =====
-- What a promotion leaves, and when a claim ends in one.
use mas_dsmb.Prelude.{
  ◌≡◌, ◌∷◌, ◌∙◌, if◌then◌else◌, ℕ, refl, sym, ap, true, false, Option, none, some, List, [], subst,
}
use mas_dsmb.Shared.Roster.{RosterEntry, GlobalRoster, get_host, remove_player, promote_host}
use mathlib.Core.Path.{ap₂}
use mas_dsmb.Domain.Scalar.{Scalar}
use mas_dsmb.Failover.Node.{
  relayed, Node, Message, datagram, send_to_each, perform, others, evict_player, host,
  send_election_message_udp, rebuild_udp_as_host, Snapshot, reconnection_ack, host_udp_port,
  game_event_ws_port, relayed,
}
use mas_dsmb.Failover.Promotion.{
  announce_promotion, promote_to_host, evict_host, take_authority, replace_host, finish_promotion,
  bootstrap_from_snapshot, announce_to, promotion,
}

-- The roster without an entry, and without its host.
unfoldable pub without_entry : Option RosterEntry → GlobalRoster → GlobalRoster
without_entry none players = players
without_entry (some h) players = remove_player h.player_id players

abbrev pub without_host : GlobalRoster → GlobalRoster
without_host players = without_entry (get_host players) players

module _ (scalar : Scalar) where
  -- The second node is the first but for its outbox.
  abbrev pub SendsOnly : Node scalar → Node scalar → Type 0
  SendsOnly n m = m ≡ record n { outbox = m.outbox }

  pub send_to_each-SendsOnly :
      (message : Message) (es : List RosterEntry) (n : Node scalar)
      → SendsOnly n (send_to_each scalar message es n)
  unfolding send_to_each perform
  send_to_each-SendsOnly message [] n = refl
  send_to_each-SendsOnly message (e ∷ rest) n =
      send_to_each-SendsOnly message rest (perform scalar (datagram message e.host e.udp_port) n)

  pub announce_to-SendsOnly :
      (es : List RosterEntry) (n : Node scalar) → SendsOnly n (announce_to scalar es n)
  unfolding announce_to send_election_message_udp perform
  announce_to-SendsOnly [] n = refl
  announce_to-SendsOnly (_ ∷ _) n =
      let ack = reconnection_ack n.local_ip host_udp_port game_event_ws_port n.session_id in
      send_to_each-SendsOnly ack (others scalar n) (perform scalar (relayed ack) n)

  -- What `_promote_to_host` leaves of a node: it is the host, with authority, and of its roster.
  pub record Promoted (before after : Node scalar) : Type 0 where
    pub role : after.role ≡ host
    pub authority : after.engine.is_authoritative ≡ true
    pub done : after.promotion_done ≡ true
    pub roster : after.roster ≡ promote_host before.local_player_id (without_host before.roster)

  -- The parts that the steps of a promotion leave to each other.
  record Ready (before after : Node scalar) : Type 0 where
    authority : after.engine.is_authoritative ≡ true
    done : after.promotion_done ≡ true
    local : after.local_player_id ≡ before.local_player_id
    roster : after.roster ≡ before.roster

  bootstrap-Ready :
      (last : Option (Snapshot scalar)) (n : Node scalar)
      → n.engine.is_authoritative ≡ true
      → n.promotion_done ≡ true
      → Ready n (bootstrap_from_snapshot scalar last n)
  unfolding bootstrap_from_snapshot
  bootstrap-Ready none n authority done = record {
    authority = authority;
    done = done;
    local = refl;
    roster = refl;
  }
  bootstrap-Ready (some _) n authority done = record {
    authority = authority;
    done = done;
    local = refl;
    roster = refl;
  }

  take_authority-Ready : (n : Node scalar) → Ready n (take_authority scalar n)
  unfolding take_authority
  take_authority-Ready n =
      let ready =
        bootstrap-Ready n.env_state_buffer
          (record n {
            promotion_done = true;
            engine = record (n.engine) { is_authoritative = true };
          })
          refl refl in
      record {
        authority = ready.authority;
        done = ready.done;
        local = ready.local;
        roster = ready.roster;
      }

  -- The eviction of the crashed host.
  record Evicted (h : Option RosterEntry) (before after : Node scalar) : Type 0 where
    authority : after.engine.is_authoritative ≡ before.engine.is_authoritative
    done : after.promotion_done ≡ before.promotion_done
    local : after.local_player_id ≡ before.local_player_id
    roster : after.roster ≡ without_entry h before.roster

  evict_host-Evicted :
      (h : Option RosterEntry) (n : Node scalar) → Evicted h n (evict_host scalar h n)
  unfolding evict_host evict_player without_entry
  evict_host-Evicted none n = record { authority = refl; done = refl; local = refl; roster = refl }
  evict_host-Evicted (some _) n = record {
    authority = refl;
    done = refl;
    local = refl;
    roster = refl;
  }

  replace_host-Promoted :
      (n : Node scalar)
      → (replace_host scalar n).roster ≡ promote_host n.local_player_id (without_host n.roster)
  unfolding replace_host
  replace_host-Promoted n =
      let evicted = evict_host-Evicted (get_host n.roster) n in
      rw (evicted.local, evicted.roster) refl

  -- The node that announces its promotion, with its crashed host replaced.
  replaced : Node scalar → Node scalar
  replaced n = perform scalar rebuild_udp_as_host (replace_host scalar (take_authority scalar n))

  replaced-parts :
      (n : Node scalar)
      → ((replaced n).engine.is_authoritative ≡ true)
        × ((replaced n).promotion_done ≡ true)
        × ((replaced n).roster ≡ promote_host n.local_player_id (without_host n.roster))
  unfolding replaced perform replace_host
  replaced-parts n =
      let m = take_authority scalar n in
      let ready = take_authority-Ready n in
      let evicted = evict_host-Evicted (get_host m.roster) m in
      (
        evicted.authority ∙ ready.authority,
        evicted.done ∙ ready.done,
        replace_host-Promoted m
            ∙ ap₂ (λ i r. promote_host i (without_host r)) ready.local ready.roster,
      )

  promotion-Promoted : (now : ℕ) (n : Node scalar) → Promoted n (promotion scalar now n)
  unfolding promotion finish_promotion perform announce_promotion replaced
  promotion-Promoted now n =
      let parts = replaced-parts n in
      let sent = announce_to-SendsOnly (others scalar (replaced n)) (replaced n) in
      record {
        role = refl;
        authority = ap (λ m. m.engine.is_authoritative) sent ∙ parts.0;
        done = ap (λ m. m.promotion_done) sent ∙ parts.1;
        roster = ap (λ m. m.roster) sent ∙ parts.2;
      }

  promote_to_host-promotion :
      (now : ℕ) (n : Node scalar)
      → n.promotion_done ≡ false
      → promote_to_host scalar now n ≡ promotion scalar now n
  unfolding promote_to_host
  promote_to_host-promotion now n fresh = ap (λ b. if b then n else promotion scalar now n) fresh

  -- A node that was not promoted before is the host afterwards, with authority over its world; its
  -- roster is the one before without the crashed host, with the flag of the host moved to its own id.
  pub promote_to_host-Promoted :
      (now : ℕ) (n : Node scalar)
      → n.promotion_done ≡ false
      → Promoted n (promote_to_host scalar now n)
  promote_to_host-Promoted now n fresh =
      subst (Promoted n) (sym (promote_to_host-promotion now n fresh)) (promotion-Promoted now n)
