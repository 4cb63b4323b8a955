-- ===== src/Hosting/Inputs.antt =====
-- What a drain of packets leaves of each player's sequence number.
use mas_dsmb.Prelude.{
  ◌≡◌, ◌∷◌, ◌∙◌, ◌==◌, if◌then◌else◌, if-both, ℕ, String, refl, sym, ap, inl, inr, Bool, true,
  false, Option, none, some, List, [], arith, leb, Bool-cases, Dict, lookup, insert, lookup-insert,
  nat_Eq, text_Eq,
}
use mas_dsmb.Domain.Scalar.{Scalar}
use mas_dsmb.Failover.Node.{Node, perform}
use mas_dsmb.Domain.World.{InputState}
use mas_dsmb.Hosting.{
  accept_input, Packet, probe, player_input, other_packet, is_late, receive_packet,
  drain_remote_input_packets,
}
use text.Mathlib.TextEquality.{eq_iff}

-- The greater of a number and one that may be missing.
abbrev pub greater : Option ℕ → ℕ → Option ℕ
greater none number = some number
greater (some last) number = if leb number last then some last else some number

-- The greatest sequence number of a player's packets, and of one from before.
abbrev pub greatest_of : String → Option ℕ → List Packet → Option ℕ
greatest_of id best [] = best
greatest_of id best (player_input player_id number input ∷ rest) =
    greatest_of id (if player_id == id then greater best number else best) rest
greatest_of id best (probe _ _ _ ∷ rest) = greatest_of id best rest
greatest_of id best (other_packet ∷ rest) = greatest_of id best rest

greater_late :
    (best : Option ℕ) (number : ℕ) → is_late best number ≡ true → best ≡ greater best number
unfolding is_late
greater_late none number h = ground arith
greater_late (some last) number h = ground arith

greater_fresh :
    (best : Option ℕ) (number : ℕ) → is_late best number ≡ false → some number ≡ greater best number
unfolding is_late
greater_fresh none number h = refl
greater_fresh (some last) number h = ground arith

branch_eq :
    (b : Bool) (z : Option ℕ) {x y : Option ℕ}
    → (b ≡ true → x ≡ y)
    → (if b then x else z) ≡ (if b then y else z)
branch_eq true z same = same refl
branch_eq false z same = refl

branch_same : (b : Bool) {x y : Option ℕ} → (b ≡ true → x ≡ y) → x ≡ (if b then y else x)
branch_same true same = same refl
branch_same false same = refl

same_entry :
    (id player_id : String) (sequences : Dict String ℕ)
    → (player_id == id) ≡ true
    → lookup player_id sequences ≡ lookup id sequences
same_entry id player_id sequences same =
    ap (λ key. lookup key sequences) ((eq_iff player_id id).0 same)

accepted :
    (id player_id : String) (number : ℕ) (sequences : Dict String ℕ)
    → is_late (lookup player_id sequences) number ≡ false
    → lookup id (insert player_id number sequences)
      ≡ (if player_id == id then greater (lookup id sequences) number else lookup id sequences)
accepted id player_id number sequences fresh =
    lookup-insert player_id id number sequences
    ∙ branch_eq (player_id == id) (lookup id sequences) (λ same.
      greater_fresh (lookup player_id sequences) number fresh
      ∙ ap (λ best. greater best number) (same_entry id player_id sequences same))

late :
    (id player_id : String) (number : ℕ) (sequences : Dict String ℕ)
    → is_late (lookup player_id sequences) number ≡ true
    → lookup id sequences
      ≡ (if player_id == id then greater (lookup id sequences) number else lookup id sequences)
late id player_id number sequences old = branch_same (player_id == id) (λ same.
    sym (same_entry id player_id sequences same)
    ∙ greater_late (lookup player_id sequences) number old
    ∙ ap (λ best. greater best number) (same_entry id player_id sequences same))

module _ (scalar : Scalar) where
  abbrev pub sequence_of : String → Node scalar → Option ℕ
  sequence_of id n = lookup id n.last_remote_input_sequence

  received :
      (id : String) (now : ℕ) (player_id : String) (number : ℕ) (input : InputState)
      (n : Node scalar)
      → sequence_of id (receive_packet scalar now (player_input player_id number input) n)
        ≡ (if player_id == id then greater (sequence_of id n) number else sequence_of id n)
  unfolding receive_packet accept_input
  received id now player_id number input n =
      elim (Bool-cases (is_late (lookup player_id n.last_remote_input_sequence) number)) [
        | inl old ↦
            ap
              (λ b.
                sequence_of id (if b then n else accept_input scalar now player_id number input n))
              old
            ∙ late id player_id number n.last_remote_input_sequence old
        | inr fresh ↦
            ap
              (λ b.
                sequence_of id (if b then n else accept_input scalar now player_id number input n))
              fresh
            ∙ accepted id player_id number n.last_remote_input_sequence fresh
      ]

  probed-sequence_of :
      (id : String) (now : ℕ) (session_id address : String) (port : ℕ) (n : Node scalar)
      → sequence_of id (receive_packet scalar now (probe session_id address port) n)
        ≡ sequence_of id n
  unfolding receive_packet perform
  probed-sequence_of id now session_id address port n =
      if-both {A = Node scalar} (λ m. sequence_of id m ≡ sequence_of id n)
        (session_id == n.session_id) refl refl

  other-sequence_of :
      (id : String) (now : ℕ) (n : Node scalar)
      → sequence_of id (receive_packet scalar now other_packet n) ≡ sequence_of id n
  unfolding receive_packet
  other-sequence_of id now n = refl

  -- After a drain the sequence number that the host holds of a player is the greatest of the one that
  -- it held before and those of the player's own packets, in whatever order they arrive; nobody
  -- else's packets change it.
  pub drain_remote_input_packets-greatest :
      (id : String) (now : ℕ) (packets : List Packet) (n : Node scalar)
      → sequence_of id (drain_remote_input_packets scalar now packets n)
        ≡ greatest_of id (sequence_of id n) packets
  unfolding drain_remote_input_packets
  drain_remote_input_packets-greatest id now [] n = refl
  drain_remote_input_packets-greatest id now (player_input player_id number input ∷ rest) n =
      drain_remote_input_packets-greatest id now rest
        (receive_packet scalar now (player_input player_id number input) n)
      ∙ ap (λ best. greatest_of id best rest) (received id now player_id number input n)
  drain_remote_input_packets-greatest id now (probe session_id address port ∷ rest) n =
      drain_remote_input_packets-greatest id now rest
        (receive_packet scalar now (probe session_id address port) n)
      ∙ ap (λ best. greatest_of id best rest) (probed-sequence_of id now session_id address port n)
  drain_remote_input_packets-greatest id now (other_packet ∷ rest) n =
      drain_remote_input_packets-greatest id now rest (receive_packet scalar now other_packet n)
      ∙ ap (λ best. greatest_of id best rest) (other-sequence_of id now n)
