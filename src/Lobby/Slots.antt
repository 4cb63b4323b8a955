-- ===== src/Lobby/Slots.antt =====
-- Which slot a joining player gets: `join_session` and `is_full` of
-- src/distributed_smb/network/lobby/service.py.
use mas_dsmb.Prelude.{
  ◌≡◌, ◌+◌, ◌≤◌, ◌<◌, ◌⊎◌, ◌==◌, ℕ, zero, suc, String, refl, inl, inr, true, false, not, Option,
  none, some, List, arith, leb, nat_eq_iff, Bool-cases, leb→lt, length, find?, elem,
  le-length_of_covers, nat_Eq, text_Eq,
}
use mas_dsmb.Shared.Messages.{max_players}
use mas_dsmb.Lobby.{
  SessionRecord, occupied_indices, seat, join_record, free_index, range_from, record_is_full,
}
use mas_dsmb.Lobby.Sound.{IsSound, slots, occupied-slots}

abbrev free_from : List ℕ → ℕ → ℕ → Option ℕ
free_from occupied start n = find? (λ index. not (elem index occupied)) (range_from start n)

-- The search returns the least number of the range that the list lacks.
free_from_lem :
    (occupied : List ℕ) (start n index : ℕ)
    → free_from occupied start n ≡ some index
    → (start ≤ index)
      × (index < start + n)
      × (elem index occupied ≡ false)
      × ((i : ℕ) → start ≤ i → i < index → elem i occupied ≡ true)
free_from_lem occupied start zero index h = absurd (ground arith)
free_from_lem occupied start (suc n) index h = elim (Bool-cases (elem start occupied)) [
  | inl taken ↦
      let (above, below, free, least) = free_from_lem occupied (start + 1) n index (ground arith) in
      (
        omega arith,
        omega arith,
        free,
        λ i from upto. elim (Bool-cases (i == start)) [
          | inl first ↦ rw ((nat_eq_iff i start).0 first) taken
          | inr other ↦ least i (ground arith) upto
        ],
      )
  | inr free ↦
      let here : index ≡ start = ground arith in
      (omega arith, omega arith, rw here free, λ i from upto. absurd (omega arith))
]

-- If the search fails, the list has every number of the range.
free_from-eq-none :
    (occupied : List ℕ) (start n : ℕ)
    → free_from occupied start n ≡ none
    → (i : ℕ) → start ≤ i
    → i < start + n
    → elem i occupied ≡ true
free_from-eq-none occupied start zero h i from upto = absurd (omega arith)
free_from-eq-none occupied start (suc n) h i from upto = elim (Bool-cases (elem start occupied)) [
  | inl taken ↦ elim (Bool-cases (i == start)) [
    | inl first ↦ rw ((nat_eq_iff i start).0 first) taken
    | inr other ↦
        free_from-eq-none occupied (start + 1) n (ground arith) i (ground arith) (omega arith)
  ]
  | inr free ↦ absurd (ground arith)
]

free_index_total :
    (occupied : List ℕ)
    → length occupied < max_players
    → (index : ℕ) × (free_index occupied ≡ some index)
unfolding free_index
free_index_total occupied short = go (free_index occupied) refl
  where
    go : (o : Option ℕ) → free_index occupied ≡ o → (index : ℕ) × (free_index occupied ≡ some index)
    go (some index) e = (index, e)
    go none e = absurd (
        omega (
          arith,
          le-length_of_covers max_players occupied
              (λ i lt. free_from-eq-none occupied 0 max_players e i (omega arith) lt),
        ))

-- In a sound session a new player is refused exactly when the session is full, and otherwise gets the
-- least slot that is neither taken nor reserved.
pub join_new_player :
    (player_id host : String) (port : ℕ) (r : SessionRecord)
    → IsSound r
    → ((record_is_full none r ≡ true) × (join_record player_id host port none r ≡ none))
      ⊎ ((record_is_full none r ≡ false)
          × ((index : ℕ) × (join_record player_id host port none r
                ≡ some (seat index host port r, index))
              × (index < max_players)
              × (elem index (slots r) ≡ false)
              × ((i : ℕ) → i < index → elem i (slots r) ≡ true)))
unfolding record_is_full join_record
join_new_player player_id host port r h =
    elim (Bool-cases (leb max_players (length (occupied_indices r)))) [
      | inl full ↦ inl (full, rw full)
      | inr room ↦
          let (index, found) = free_index_total (occupied_indices r) (leb→lt _ _ room) in
          let (_, lt, free, least) = free_from_lem (occupied_indices r) 0 max_players index found in
          inr (
            room,
            (
              index,
              rw (room, found),
              lt,
              rw (occupied-slots r h) at free,
              λ i below. rw (occupied-slots r h) at (least i (omega arith) below),
            ),
          )
    ]
