-- ===== src/Failover/Acks.antt =====
-- The acknowledgements of a claim: when the last one arrives, and not before, the node is promoted.
use mas_dsmb.Prelude.{
  ◌≡◌, ◌||◌, ◌∷◌, ◌∙◌, if◌then◌else◌, ℕ, String, refl, sym, ap, inl, inr, Bool, true, false, not,
  List, [], arith, Bool-cases, all, elem, set_discard, set_discard_absent, nat_Eq, text_Eq,
}
use mas_dsmb.Domain.Scalar.{Scalar}
use mas_dsmb.Failover.Node.{Node}
use mas_dsmb.Failover.Promotion.{promote_to_host}
use text.Mathlib.TextEquality.{eq_iff}
use mas_dsmb.Failover.Claims.{receive_ack, on_election_ack, is_empty, promote_when_acknowledged}
use mas_dsmb.Failover.Promoted.{promote_to_host-Promoted}

-- Everybody that is waited for has answered.
abbrev pub all_answered : List String → List String → Bool
all_answered answers waiting = all (λ ip. elem ip answers) waiting

all_answered-discard :
    (ip : String) (answers waiting : List String)
    → all_answered (ip ∷ answers) waiting ≡ all_answered answers (set_discard ip waiting)
all_answered-discard ip answers [] = refl
all_answered-discard ip answers (w ∷ waiting) =
    ground (arith, eq_iff w ip, eq_iff ip w, all_answered-discard ip answers waiting)

all_answered-absent :
    (ip : String) (answers waiting : List String)
    → elem ip waiting ≡ false
    → all_answered (ip ∷ answers) waiting ≡ all_answered answers waiting
all_answered-absent ip answers waiting absent =
    all_answered-discard ip answers waiting
    ∙ ap (all_answered answers) (set_discard_absent ip waiting absent)

module _ (scalar : Scalar) where
  -- Acknowledgements, each with the time of its arrival.
  unfoldable pub acknowledged : List (ℕ × String) → Node scalar → Node scalar
  acknowledged [] n = n
  acknowledged ((now, ip) ∷ rest) n = acknowledged rest (on_election_ack scalar now ip n)

  abbrev pub senders : List (ℕ × String) → List String
  senders [] = []
  senders ((now, ip) ∷ rest) = ip ∷ senders rest

  on_election_ack-ignored :
      (now : ℕ) (ip : String) (n : Node scalar)
      → (n.promotion_done || not (elem ip n.pending_election_acks)) ≡ true
      → on_election_ack scalar now ip n ≡ n
  unfolding on_election_ack
  on_election_ack-ignored now ip n h =
      ap (λ b. if b then n else promote_when_acknowledged scalar now (receive_ack scalar ip n)) h

  on_election_ack-received :
      (now : ℕ) (ip : String) (n : Node scalar)
      → (n.promotion_done || not (elem ip n.pending_election_acks)) ≡ false
      → on_election_ack scalar now ip n
        ≡ promote_when_acknowledged scalar now (receive_ack scalar ip n)
  unfolding on_election_ack
  on_election_ack-received now ip n h =
      ap (λ b. if b then n else promote_when_acknowledged scalar now (receive_ack scalar ip n)) h

  promote_when_acknowledged-last :
      (now : ℕ) (n : Node scalar)
      → is_empty n.pending_election_acks ≡ true
      → promote_when_acknowledged scalar now n ≡ promote_to_host scalar now n
  unfolding promote_when_acknowledged
  promote_when_acknowledged-last now n h = ap (λ b. if b then promote_to_host scalar now n else n) h

  promote_when_acknowledged-waits :
      (now : ℕ) (n : Node scalar)
      → is_empty n.pending_election_acks ≡ false
      → promote_when_acknowledged scalar now n ≡ n
  unfolding promote_when_acknowledged
  promote_when_acknowledged-waits now n h =
      ap (λ b. if b then promote_to_host scalar now n else n) h

  acknowledged_done :
      (acks : List (ℕ × String)) (n : Node scalar)
      → n.promotion_done ≡ true
      → acknowledged acks n ≡ n
  unfolding acknowledged
  acknowledged_done [] n done = refl
  acknowledged_done ((now, ip) ∷ rest) n done =
      ap (acknowledged rest) (on_election_ack-ignored now ip n (ground arith))
      ∙ acknowledged_done rest n done

  all_answered-waiting :
      (waiting : List String) → is_empty waiting ≡ false → all_answered [] waiting ≡ false
  unfolding is_empty
  all_answered-waiting [] h = h
  all_answered-waiting (_ ∷ _) h = refl

  all_answered-empty :
      (answers waiting : List String)
      → is_empty waiting ≡ true
      → all_answered answers waiting ≡ true
  unfolding is_empty
  all_answered-empty answers [] h = refl
  all_answered-empty answers (_ ∷ _) h = ground arith

  -- What one acknowledgement that was waited for does, when it is the last and when it is not.
  on_election_ack-last :
      (now : ℕ) (ip : String) (rest : List (ℕ × String)) (n : Node scalar)
      → n.promotion_done ≡ false
      → elem ip n.pending_election_acks ≡ true
      → is_empty (set_discard ip n.pending_election_acks) ≡ true
      → (acknowledged rest (on_election_ack scalar now ip n)).promotion_done ≡ true
  unfolding receive_ack
  on_election_ack-last now ip rest n fresh waited last =
      let done = (promote_to_host-Promoted scalar now (receive_ack scalar ip n) fresh).done in
      ap (λ m. (acknowledged rest m).promotion_done)
        (on_election_ack-received now ip n (ground arith)
          ∙ promote_when_acknowledged-last now (receive_ack scalar ip n) last)
      ∙ ap (λ m. m.promotion_done)
          (acknowledged_done rest (promote_to_host scalar now (receive_ack scalar ip n)) done)
      ∙ done

  on_election_ack-more :
      (now : ℕ) (ip : String) (n : Node scalar)
      → n.promotion_done ≡ false
      → elem ip n.pending_election_acks ≡ true
      → is_empty (set_discard ip n.pending_election_acks) ≡ false
      → on_election_ack scalar now ip n ≡ receive_ack scalar ip n
  unfolding receive_ack
  on_election_ack-more now ip n fresh waited more =
      on_election_ack-received now ip n (ground arith)
      ∙ promote_when_acknowledged-waits now (receive_ack scalar ip n) more

  -- A claimant that waits for somebody is promoted by a sequence of acknowledgements exactly if
  -- everybody that it waits for is among their senders.
  pub acknowledged_promotes :
      (acks : List (ℕ × String)) (n : Node scalar)
      → n.promotion_done ≡ false
      → is_empty n.pending_election_acks ≡ false
      → (acknowledged acks n).promotion_done ≡ all_answered (senders acks) n.pending_election_acks
  unfolding acknowledged receive_ack
  acknowledged_promotes [] n fresh waits =
      fresh ∙ sym (all_answered-waiting n.pending_election_acks waits)
  acknowledged_promotes ((now, ip) ∷ rest) n fresh waits =
      let waiting = n.pending_election_acks in
      let discarded = all_answered-discard ip (senders rest) waiting in
      elim (Bool-cases (elem ip waiting)) [
        | inr absent ↦
            ap (λ m. (acknowledged rest m).promotion_done)
              (on_election_ack-ignored now ip n (ground arith))
            ∙ acknowledged_promotes rest n fresh waits
            ∙ sym (all_answered-absent ip (senders rest) waiting absent)
        | inl waited ↦ elim (Bool-cases (is_empty (set_discard ip waiting))) [
          | inl last ↦
              on_election_ack-last now ip rest n fresh waited last
              ∙ sym (discarded ∙ all_answered-empty (senders rest) (set_discard ip waiting) last)
          | inr more ↦
              ap (λ m. (acknowledged rest m).promotion_done)
                (on_election_ack-more now ip n fresh waited more)
              ∙ acknowledged_promotes rest (receive_ack scalar ip n) fresh more
              ∙ sym discarded
        ]
      ]
