-- ===== src/Hosting/Rejoined.antt =====
-- A roster of the lobby never makes the host fail, nor lose its own entry.
use mas_dsmb.Prelude.{
  ◌>>=◌, ◌≡◌, ◌||◌, ◌∷◌, ◌∙◌, ◌==◌, ℕ, refl, sym, ap, inl, inr, Bool, true, false, Option, none,
  some, List, [], arith, Bool-cases, find?, lookup, Result, ok, err, nat_Eq, text_Eq,
}
use mas_dsmb.Shared.Roster.{
  RosterEntry, GlobalRoster, RosterValidationError, HasDistinctIndices, has_index, get_all_players,
  get_player,
}
use mas_dsmb.Domain.Scalar.{Scalar}
use mas_dsmb.Domain.World.{Player}
use mas_dsmb.Failover.Node.{Node, perform}
use mas_dsmb.Hosting.Rejoin.{
  occupant, belongs_to_other, is_settled, seat_again, appear, re_enter, readmit, rejoin_entry,
  rejoin_entries, sync_if_new, check_for_rejoining_players,
}
use mas_dsmb.Hosting.Seating.{Keeps, Seats, seat_again-Seats, occupant-find?}

module _ (scalar : Scalar) where
  -- The node after, with its own entry as it was.
  abbrev pub Stays : Node scalar → Node scalar → Type 0
  Stays n after =
      (after.local_player_id ≡ n.local_player_id) × Keeps n.local_player_id n.roster after.roster

  abbrev Returns : Node scalar → Result RosterValidationError (Node scalar × Bool) → Type 0
  Returns n (ok (after, changed)) = Stays n after
  Returns n (err e) = ⊥

  re_enter-Stays :
      (now : ℕ) (entry : RosterEntry) (existing : Option RosterEntry)
      (restored : Option (Player scalar)) (n : Node scalar) (roster : GlobalRoster)
      → Keeps n.local_player_id n.roster roster
      → Stays n (re_enter scalar now entry existing restored n roster)
  unfolding re_enter appear
  re_enter-Stays now entry existing (some p) n roster kept = (refl, kept)
  re_enter-Stays now entry none none n roster kept = (refl, kept)
  re_enter-Stays now entry (some e) none n roster kept = (refl, kept)

  seated-Returns :
      (now : ℕ) (entry : RosterEntry) (existing : Option RosterEntry)
      (restored : Option (Player scalar)) (n : Node scalar)
      (call : Result RosterValidationError GlobalRoster)
      → Seats n.local_player_id n.roster call
      → Returns n
          (call >>= (λ roster. ok (re_enter scalar now entry existing restored n roster, true)))
  seated-Returns now entry existing restored n (ok roster) kept =
      re_enter-Stays now entry existing restored n roster kept
  seated-Returns now entry existing restored n (err e) kept = absurd kept

  Returns-trans :
      (n middle : Node scalar)
      → middle.local_player_id ≡ n.local_player_id
      → get_player n.local_player_id middle.roster ≡ get_player n.local_player_id n.roster
      → (call : Result RosterValidationError (Node scalar × Bool)) → Returns middle call
      → Returns n call
  Returns-trans n middle local same (ok (after, changed)) (local', (d, same')) = (
    local' ∙ local,
    (
      d,
      cc (
        local,
        same,
        same',
        ap (λ id. get_player id after.roster) local,
        ap (λ id. get_player id middle.roster) local,
      ),
    ),
  )
  Returns-trans n middle local same (err e) h = h

  readmit-Returns :
      (now : ℕ) (entry : RosterEntry) (existing : Option RosterEntry)
      (restored : Option (Player scalar)) (n : Node scalar)
      → HasDistinctIndices n.roster
      → find? (has_index entry.join_index) n.roster ≡ existing
      → (entry.player_id == n.local_player_id) ≡ false
      → Returns n (readmit scalar now entry existing restored n)
  unfolding readmit
  readmit-Returns now entry existing restored n d found differ =
      elim (Bool-cases
        (belongs_to_other entry.player_id existing || is_settled entry existing restored)) [
          | inl left_alone ↦ rw left_alone (refl, (d, refl))
          | inr seated ↦ rw seated (
              seated-Returns now entry existing restored n (seat_again existing entry n.roster) (
                seat_again-Seats n.local_player_id n.roster entry existing d found (ground arith)
                  differ))
        ]

  rejoin_entry-Returns :
      (now : ℕ) (entry : RosterEntry) (n : Node scalar)
      → HasDistinctIndices n.roster
      → Returns n (rejoin_entry scalar now entry n)
  unfolding rejoin_entry
  rejoin_entry-Returns now entry n d = elim (Bool-cases (entry.player_id == n.local_player_id)) [
    | inl own ↦ rw own (refl, (d, refl))
    | inr differ ↦ rw differ (
        readmit-Returns now entry (occupant entry.join_index n.roster)
          (lookup entry.join_index n.rejoin_states) n d
          (sym (occupant-find? entry.join_index n.roster d)) differ)
  ]

  then-Returns :
      (n : Node scalar) (changed : Bool)
      (next : Node scalar → Bool → Result RosterValidationError (Node scalar × Bool))
      → ((middle : Node scalar) (b : Bool)
          → HasDistinctIndices middle.roster
          → Returns middle (next middle b))
      → (call : Result RosterValidationError (Node scalar × Bool)) → Returns n call
      → Returns n (call >>= (λ after. next after.0 (changed || after.1)))
  then-Returns n changed next stays (ok (middle, new)) (local, (d, same)) =
      Returns-trans n middle local same (next middle (changed || new))
        (stays middle (changed || new) d)
  then-Returns n changed next stays (err e) h = absurd h

  rejoin_entries-Returns :
      (now : ℕ) (entries : List RosterEntry) (n : Node scalar) (changed : Bool)
      → HasDistinctIndices n.roster
      → Returns n (rejoin_entries scalar now entries n changed)
  unfolding rejoin_entries
  rejoin_entries-Returns now [] n changed d = (refl, (d, refl))
  rejoin_entries-Returns now (entry ∷ rest) n changed d =
      then-Returns n changed (rejoin_entries scalar now rest) (rejoin_entries-Returns now rest)
        (rejoin_entry scalar now entry n) (rejoin_entry-Returns now entry n d)

  abbrev pub ReturnsNode : Node scalar → Result RosterValidationError (Node scalar) → Type 0
  ReturnsNode n (ok after) = Stays n after
  ReturnsNode n (err e) = ⊥

  sync-ReturnsNode :
      (n : Node scalar) (call : Result RosterValidationError (Node scalar × Bool))
      → Returns n call
      → ReturnsNode n (call >>= (λ after. ok (sync_if_new scalar after)))
  unfolding perform
  sync-ReturnsNode n (ok (after, true)) h = h
  sync-ReturnsNode n (ok (after, false)) h = h
  sync-ReturnsNode n (err e) h = absurd h

  -- Whatever the lobby sends: if the join indices of the host's roster are distinct, the check for
  -- players that rejoin raises nothing, the indices stay distinct, and the host keeps its id and finds
  -- its own entry as it was.
  pub check_for_rejoining_players-Stays :
      (now : ℕ) (message : Option GlobalRoster) (n : Node scalar)
      → HasDistinctIndices n.roster
      → ReturnsNode n (check_for_rejoining_players scalar now message n)
  unfolding check_for_rejoining_players
  check_for_rejoining_players-Stays now none n d = (refl, (d, refl))
  check_for_rejoining_players-Stays now (some roster) n d =
      sync-ReturnsNode n (rejoin_entries scalar now (get_all_players roster) n false)
        (rejoin_entries-Returns now (get_all_players roster) n false d)
