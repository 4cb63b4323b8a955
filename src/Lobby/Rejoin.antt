-- ===== src/Lobby/Rejoin.antt =====
-- A node that comes back with the join index that it had: `join_session` and `is_full` of
-- src/distributed_smb/network/lobby/service.py.
use mas_dsmb.Prelude.{
  ◌≡◌, ◌&&◌, ◌∷◌, ◌∙◌, ◌==◌, ℕ, String, refl, ap, inl, inr, true, false, not, Option, none, some,
  List, [], arith, nat_eq_iff, Bool-cases, any, find?, elem, set_discard, disjoint_of_distinct,
  subst, elem-append, elem-set_discard, nat_Eq, text_Eq,
}
use text.Mathlib.TextEquality.{eq_iff}
use mas_dsmb.Shared.PlayerId.{player_id_for}
use mas_dsmb.Shared.Roster.{RosterEntry, has_index}
use mas_dsmb.Shared.Roster.Membership.{indices}
use mas_dsmb.Shared.Messages.{rejoin_is_valid}
use mas_dsmb.Lobby.{SessionRecord, readdress, seat, unreserve, join_record, record_is_full}
use mas_dsmb.Lobby.Sound.{
  IsSound, AllSeats, IsAddress, slots, seat-IsSound, unreserve-IsSound, readdress-IsSound,
}
use mas_dsmb.Lobby.Slots.{join_new_player}

find?-absent :
    (index : ℕ) (entries : List RosterEntry)
    → elem index (indices entries) ≡ false
    → find? (has_index index) entries ≡ none
find?-absent index [] h = refl
find?-absent index (e ∷ rest) h = ground (arith, find?-absent index rest)

find?-present :
    (index : ℕ) (entries : List RosterEntry)
    → AllSeats entries
    → elem index (indices entries) ≡ true
    → (e : RosterEntry) × (find? (has_index index) entries ≡ some e)
      × (e.player_id ≡ player_id_for index)
find?-present index [] h found = cc
find?-present index (e ∷ rest) h found = elim (Bool-cases (has_index index e)) [
  | inl hit ↦ (e, rw hit, h.0.named ∙ ap player_id_for ((nat_eq_iff _ _).0 hit))
  | inr miss ↦
      let (e', at, named) = find?-present index rest h.1 (ground arith) in (e', rw miss at, named)
]

-- No entry of a sound record bears the id of another slot.
no_stranger :
    (index : ℕ) (entries : List RosterEntry)
    → AllSeats entries
    → any (λ e. has_index index e && not (e.player_id == player_id_for index)) entries ≡ false
no_stranger index [] h = refl
no_stranger index (e ∷ rest) h = ground (
  arith,
  no_stranger index rest h.1,
  h.0.named,
  eq_iff e.player_id (player_id_for index),
  nat_eq_iff e.join_index index,
)

full-rejoin :
    (index : ℕ) (r : SessionRecord)
    → IsSound r
    → record_is_full (some index) r ≡ not (elem index r.reserved_join_indices)
unfolding record_is_full
full-rejoin index r h = ground (arith, no_stranger index r.entries h.seats)

join-reserved :
    (host : String) (port index : ℕ) (r : SessionRecord)
    → IsSound r
    → elem index r.reserved_join_indices ≡ true
    → join_record (player_id_for index) host port (some index) r
      ≡ some (seat index host port (unreserve index r), index)
unfolding join_record
join-reserved host port index r h kept = ground (
  arith,
  find?-absent index r.entries
      (disjoint_of_distinct index (indices r.entries) r.reserved_join_indices h.once kept),
  kept,
)

join-seated :
    (host : String) (port index : ℕ) (r : SessionRecord)
    → IsSound r
    → elem index (indices r.entries) ≡ true
    → join_record (player_id_for index) host port (some index) r
      ≡ some (unreserve index (record r { entries = readdress index host port r.entries }), index)
unfolding join_record
join-seated host port index r h seated =
    let (e, found, named) = find?-present index r.entries h.seats seated in
    ground (arith, found, eq_iff e.player_id (player_id_for index), named)

join-lost :
    (player_id host : String) (port index : ℕ) (r : SessionRecord)
    → elem index (indices r.entries) ≡ false
    → elem index r.reserved_join_indices ≡ false
    → join_record player_id host port (some index) r ≡ none
unfolding join_record
join-lost player_id host port index r fresh lost =
    ground (arith, find?-absent index r.entries fresh, lost)

-- In a sound session a node that asks for its old slot passes the test of `is_full` exactly when
-- the slot is reserved, and then it gets that slot and the reservation is used up.
pub rejoin_reserved :
    (host : String) (port index : ℕ) (r : SessionRecord)
    → IsSound r
    → (record_is_full (some index) r ≡ not (elem index r.reserved_join_indices))
      × (elem index r.reserved_join_indices ≡ true
          → (join_record (player_id_for index) host port (some index) r
              ≡ some (seat index host port (unreserve index r), index))
            × (elem index (unreserve index r).reserved_join_indices ≡ false))
rejoin_reserved host port index r h = (
  full-rejoin index r h,
  λ kept. (
    join-reserved host port index r h kept,
    ground (arith, elem-set_discard index index r.reserved_join_indices, nat_eq_iff index index),
  ),
)

-- In a sound session a node whose slot is still in the record would be readmitted at its new address by
-- `join_session`, but `is_full` calls the session full for it, whatever the number of players.
pub rejoin_seated_is_full :
    (host : String) (port index : ℕ) (r : SessionRecord)
    → IsSound r
    → elem index (indices r.entries) ≡ true
    → (join_record (player_id_for index) host port (some index) r
        ≡ some
            (unreserve index (record r { entries = readdress index host port r.entries }), index))
      × (record_is_full (some index) r ≡ true)
rejoin_seated_is_full host port index r h seated = (
  join-seated host port index r h seated,
  ground (
    arith,
    full-rejoin index r h,
    disjoint_of_distinct index (indices r.entries) r.reserved_join_indices h.once,
  ),
)

-- Whoever is admitted to a sound record with a valid address, as a new player or under the id of the
-- slot that it asks for, leaves the record sound.
pub join_record-IsSound :
    (player_id host : String) (port : ℕ) (rejoin : Option ℕ) (r : SessionRecord)
    {r' : SessionRecord} {index : ℕ}
    → IsSound r
    → IsAddress host port
    → rejoin_is_valid player_id rejoin ≡ true
    → join_record player_id host port rejoin r ≡ some (r', index)
    → IsSound r'
join_record-IsSound player_id host port none r h address valid joined =
    elim (join_new_player player_id host port r h) [
      | inl (_, refused) ↦ absurd (ground (arith, refused))
      | inr (_, (j, admitted, lt, free, _)) ↦
          subst IsSound (ground (arith, admitted)) (seat-IsSound j host port r lt address free h)
    ]
join_record-IsSound player_id host port (some j) r h address valid joined =
    elim (Bool-cases (elem j (indices r.entries))) [
      | inl seated ↦
          subst IsSound (ground (arith, mine, join-seated host port j r h seated))
            (unreserve-IsSound j _ (readdress-IsSound j host port r address h))
      | inr fresh ↦ elim (Bool-cases (elem j r.reserved_join_indices)) [
        | inl kept ↦ subst IsSound (ground (arith, mine, join-reserved host port j r h kept)) (
            seat-IsSound j host port _ (ground (arith, valid)) address (free fresh)
              (unreserve-IsSound j r h))
        | inr lost ↦ absurd (ground (arith, join-lost player_id host port j r fresh lost))
      ]
    ]
  where
    mine : player_id ≡ player_id_for j
    mine = ground (arith, valid, eq_iff player_id (player_id_for j))

    free : elem j (indices r.entries) ≡ false → elem j (slots (unreserve j r)) ≡ false
    free fresh = ground (
      arith,
      fresh,
      elem-append j (indices r.entries) (set_discard j r.reserved_join_indices),
      elem-set_discard j j r.reserved_join_indices,
      nat_eq_iff j j,
    )
