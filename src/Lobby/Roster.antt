-- ===== src/Lobby/Roster.antt =====
-- Leaving a session and reading its roster: `leave_session` and `get_roster` of
-- src/distributed_smb/network/lobby/service.py.
use mas_dsmb.Prelude.{
  ◌≡◌, ◌∷◌, ◌++◌, ◌∙◌, ◌==◌, if◌then◌else◌, ℕ, refl, sym, ap, inl, inr, Bool, true, false, not,
  List, [], arith, nat_eq_iff, Bool-cases, filter, elem, distinct, ok, disjoint_of_distinct,
  elem-append, nat_Eq, text_Eq,
}
use text.Mathlib.TextEquality.{eq_iff}
use mathlib.Core.List.{map-append, append_assoc, append-nil}
use mas_dsmb.Shared.PlayerId.{player_id_for, player_id_for-ne-empty}
use mas_dsmb.Shared.Roster.{RosterEntry, GlobalRoster, has_index, validate, add_player}
use mas_dsmb.Shared.Roster.Membership.{indices, any-has_index}
use mas_dsmb.Shared.Messages.{is_port}
use mas_dsmb.Lobby.{SessionRecord, get_roster, rebuild}
use mas_dsmb.Lobby.Sound.{IsSound, IsSeat, AllSeats}

pub validate-IsSeat : (e : RosterEntry) → IsSeat e → validate e ≡ ok e
unfolding validate is_port
validate-IsSeat e h = ground (
  arith,
  h.named,
  player_id_for-ne-empty e.join_index,
  eq_iff e.player_id "",
  eq_iff (player_id_for e.join_index) "",
)

-- A player whose join index the roster lacks is added at the end.
pub add_player_fresh :
    (known : GlobalRoster) (e : RosterEntry) (rest : List RosterEntry)
    → distinct (indices (known ++ e ∷ rest)) ≡ true
    → add_player e known ≡ ok (known ++ e ∷ [])
unfolding add_player
add_player_fresh known e rest d = ground (
  arith,
  any-has_index e.join_index known,
  disjoint_of_distinct e.join_index (indices known) (indices (e ∷ rest))
      (rw (map-append (λ (x : RosterEntry). x.join_index) known (e ∷ rest)) at d)
      (ground (arith, nat_eq_iff e.join_index e.join_index)),
)

rebuild-append :
    (known entries : List RosterEntry)
    → AllSeats entries
    → distinct (indices (known ++ entries)) ≡ true
    → rebuild known entries ≡ ok (known ++ entries)
unfolding rebuild
rebuild-append known [] h d = ap ok (sym (append-nil known))
rebuild-append known (e ∷ rest) h d =
    rw (validate-IsSeat e h.0, add_player_fresh known e rest d)
      (rebuild-append (known ++ e ∷ []) rest h.1 (rw regroup d) ∙ ap ok regroup)
  where
    regroup : (known ++ e ∷ []) ++ rest ≡ known ++ e ∷ rest
    regroup = append_assoc known (e ∷ []) rest

distinct-left : (xs ys : List ℕ) → distinct (xs ++ ys) ≡ true → distinct xs ≡ true
distinct-left [] ys d = refl
distinct-left (x ∷ xs) ys d = ground (arith, distinct-left xs ys, elem-append x xs ys)

-- Building the roster of a sound session raises nothing, and lists its entries as they are.
pub get_roster-entries : (r : SessionRecord) → IsSound r → get_roster r ≡ ok r.entries
unfolding get_roster
get_roster-entries r h =
    rebuild-append [] r.entries h.seats
      (distinct-left (indices r.entries) r.reserved_join_indices h.once)

elem-filter-indices :
    (index i : ℕ) (entries : List RosterEntry)
    → elem i (indices (filter (λ e. not (has_index index e)) entries))
      ≡ (if index == i then false else elem i (indices entries))
elem-filter-indices index i [] = ground arith
elem-filter-indices index i (e ∷ rest) = ground (
  arith,
  elem-filter-indices index i rest,
  nat_eq_iff e.join_index index,
  nat_eq_iff e.join_index i,
  nat_eq_iff index i,
)

AllSeats-filter :
    (p : RosterEntry → Bool) (entries : List RosterEntry)
    → AllSeats entries
    → AllSeats (filter p entries)
AllSeats-filter p [] h = tt
AllSeats-filter p (e ∷ rest) h = elim (Bool-cases (p e)) [
  | inl kept ↦ rw kept (h.0, AllSeats-filter p rest h.1)
  | inr gone ↦ rw gone (AllSeats-filter p rest h.1)
]

distinct-filter-indices :
    (index : ℕ) (entries : List RosterEntry) (ys : List ℕ)
    → distinct (indices entries ++ ys) ≡ true
    → distinct (indices (filter (λ e. not (has_index index e)) entries) ++ ys) ≡ true
distinct-filter-indices index [] ys d = d
distinct-filter-indices index (e ∷ rest) ys d = ground (
  arith,
  distinct-filter-indices index rest ys,
  elem-filter-indices index e.join_index rest,
  elem-append e.join_index (indices rest) ys,
  elem-append e.join_index (indices (filter (λ x. not (has_index index x)) rest)) ys,
)

-- A record whose leaving participant is dropped stays sound, and the participant's slot is free.
pub leave-IsSound :
    (index : ℕ) (r : SessionRecord)
    → IsSound r
    → IsSound (record r { entries = filter (λ e. not (has_index index e)) r.entries })
leave-IsSound index r h = record {
  seats = AllSeats-filter _ r.entries h.seats;
  once = distinct-filter-indices index r.entries r.reserved_join_indices h.once;
  reserved_in_range = h.reserved_in_range;
}
