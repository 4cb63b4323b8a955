-- ===== src/Following/Stream.antt =====
-- Snapshots in any order, late or twice: what `_drain_snapshot_packets` makes of them.
use mas_dsmb.Prelude.{
  ◌≡◌, ◌+◌, ◌∷◌, ◌∙◌, if◌then◌else◌, ℕ, String, refl, sym, ap, inl, inr, true, false, List, [], map,
  arith, leb, Bool-cases, length,
}
use mas_dsmb.Domain.Scalar.{Scalar}
use mas_dsmb.Failover.Node.{Snapshot}
use mas_dsmb.Following.{
  Follower, snapshot, apply_snapshot, take_snapshot, receive, drain_snapshot_packets,
}

module _ (scalar : Scalar) where
  -- The snapshots that are newer than the number and than all before them.
  abbrev pub records : ℕ → List (Snapshot scalar) → List (Snapshot scalar)
  records last [] = []
  records last (s ∷ rest) =
      let newer = records s.sequence_number rest in
      let others = records last rest in if leb s.sequence_number last then others else s ∷ newer

  -- The greatest number of the list.
  abbrev pub newest : ℕ → List (Snapshot scalar) → ℕ
  newest last [] = last
  newest last (s ∷ rest) =
      newest (if leb s.sequence_number last then last else s.sequence_number) rest

module _ (scalar : Scalar) (local_player_id : String) (clock : ℕ) where
  abbrev pub State : Type 0
  State = Follower scalar local_player_id clock

  abbrev pub drain : ℕ → List (Snapshot scalar) → State → State
  drain now snapshots f =
      drain_snapshot_packets scalar local_player_id clock now (map snapshot snapshots) f

  abbrev pub last_of : State → ℕ
  last_of f = f.node.last_snapshot_sequence

  -- What the drain of a list leaves, against the drain of its records.
  abbrev pub OnlyRecords : ℕ → List (Snapshot scalar) → State → Type 0
  OnlyRecords now snapshots f =
      (drain now snapshots f ≡ drain now (records scalar (last_of f) snapshots) f)
      × (last_of (drain now snapshots f) ≡ newest scalar (last_of f) snapshots)
      × ((drain now snapshots f).received_snapshots
          ≡ f.received_snapshots + length (records scalar (last_of f) snapshots))

  abbrev apply : ℕ → Snapshot scalar → State → State
  apply now s f = apply_snapshot scalar local_player_id clock now s f

  drain_late :
      (now : ℕ) (s : Snapshot scalar) (rest : List (Snapshot scalar)) (f : State)
      → leb s.sequence_number (last_of f) ≡ true
      → drain now (s ∷ rest) f ≡ drain now rest f
  unfolding drain_snapshot_packets receive take_snapshot
  drain_late now s rest f old = ap (λ b. drain now rest (if b then f else apply now s f)) old

  drain_fresh :
      (now : ℕ) (s : Snapshot scalar) (rest : List (Snapshot scalar)) (f : State)
      → leb s.sequence_number (last_of f) ≡ false
      → drain now (s ∷ rest) f ≡ drain now rest (apply now s f)
  unfolding drain_snapshot_packets receive take_snapshot
  drain_fresh now s rest f new = ap (λ b. drain now rest (if b then f else apply now s f)) new

  apply-last_of :
      (now : ℕ) (s : Snapshot scalar) (f : State) → last_of (apply now s f) ≡ s.sequence_number
  unfolding apply_snapshot
  apply-last_of now s f = refl

  apply-received :
      (now : ℕ) (s : Snapshot scalar) (f : State)
      → (apply now s f).received_snapshots ≡ f.received_snapshots + 1
  unfolding apply_snapshot
  apply-received now s f = refl

  -- Late and repeated snapshots do nothing: the client ends as if only those had come that are newer
  -- than all before them, it has counted these, and its last number is the greatest that came.
  pub drain-OnlyRecords :
      (now : ℕ) (snapshots : List (Snapshot scalar)) (f : State) → OnlyRecords now snapshots f
  unfolding drain_snapshot_packets
  drain-OnlyRecords now [] f = (refl, refl, omega arith)
  drain-OnlyRecords now (s ∷ rest) f = elim (Bool-cases (leb s.sequence_number (last_of f))) [
    | inl old ↦
        let (same, last, received) = drain-OnlyRecords now rest f in
        let skipped = drain_late now s rest f old in
        rw old (
          skipped ∙ same,
          ap last_of skipped ∙ last,
          ap (λ (g : State). g.received_snapshots) skipped ∙ received,
        )
    | inr new ↦
        let (same, last, received) = drain-OnlyRecords now rest (apply now s f) in
        let taken = drain_fresh now s rest f new in
        let kept = records scalar s.sequence_number rest in
        let number = apply-last_of now s f in
        rw new (
          taken
              ∙ same
              ∙ ap (λ l. drain now (records scalar l rest) (apply now s f)) number
              ∙ sym (drain_fresh now s kept f new),
          ap last_of taken ∙ last ∙ ap (λ l. newest scalar l rest) number,
          ap (λ (g : State). g.received_snapshots) taken
              ∙ received
              ∙ omega
                  (arith, apply-received now s f, ap (λ l. length (records scalar l rest)) number),
        )
  ]
