-- ===== src/Lobby/Sound.antt =====
-- What is always true of a session's record, and that the methods of `LobbyManager` keep it.
use mas_dsmb.Prelude.{
  ◌≡◌, ◌+◌, ◌≤◌, ◌<◌, ◌&&◌, ◌∷◌, ◌++◌, ◌==◌, if◌then◌else◌, ℕ, String, refl, inl, inr, Bool, true,
  false, List, [], arith, ltb, Bool-cases, length, all, length-append, elem, set_discard, distinct,
  elem-append, elem-set_discard, set_of-distinct, distinct-set_discard, length-le_of_distinct,
  nat_Eq, text_Eq,
}
use mathlib.Core.List.{map-append}
use mas_dsmb.Shared.PlayerId.{player_id_for}
use mas_dsmb.Shared.Roster.{RosterEntry, has_index}
use mas_dsmb.Shared.Roster.Membership.{indices}
use mas_dsmb.Shared.Messages.{max_players, is_port}
use mas_dsmb.Lobby.{SessionRecord, seat_entry, occupied_indices, readdress, seat, unreserve}

-- An entry bears the id of its slot, one of the slots of the game, and an address.
pub record IsSeat (e : RosterEntry) : Type 0 where
  pub named : e.player_id ≡ player_id_for e.join_index
  pub in_range : e.join_index < max_players
  pub has_host : (e.host == "") ≡ false
  pub has_port : is_port e.udp_port ≡ true

abbrev pub AllSeats : List RosterEntry → Type 0
AllSeats [] = Unit
AllSeats (e ∷ rest) = IsSeat e × AllSeats rest

-- The slots that are taken or kept for a node that comes back.
abbrev pub slots : SessionRecord → List ℕ
slots r = indices r.entries ++ r.reserved_join_indices

pub record IsSound (r : SessionRecord) : Type 0 where
  pub seats : AllSeats r.entries
  pub once : distinct (slots r) ≡ true
  pub reserved_in_range : all (λ index. ltb index max_players) r.reserved_join_indices ≡ true

-- An address as every decoded message has one.
abbrev pub IsAddress : String → ℕ → Type 0
IsAddress host port = ((host == "") ≡ false) × (is_port port ≡ true)

AllSeats-append_one :
    (entries : List RosterEntry) (e : RosterEntry)
    → AllSeats entries
    → IsSeat e
    → AllSeats (entries ++ e ∷ [])
AllSeats-append_one [] e h s = (s, tt)
AllSeats-append_one (x ∷ rest) e h s = (h.0, AllSeats-append_one rest e h.1 s)

pub IsSeat-seat_entry :
    (index : ℕ) (host : String) (port : ℕ) (is_host : Bool)
    → index < max_players
    → IsAddress host port
    → IsSeat (seat_entry index host port is_host)
IsSeat-seat_entry index host port is_host lt address = record {
  named = refl;
  in_range = lt;
  has_host = address.0;
  has_port = address.1;
}

all_in_range :
    (entries : List RosterEntry)
    → AllSeats entries
    → all (λ index. ltb index max_players) (indices entries) ≡ true
all_in_range [] h = refl
all_in_range (e ∷ rest) h = ground (arith, h.0.in_range, all_in_range rest h.1)

all-append : (p : ℕ → Bool) (xs ys : List ℕ) → all p (xs ++ ys) ≡ (all p xs && all p ys)
all-append p [] ys = refl
all-append p (x ∷ xs) ys = ground (arith, all-append p xs ys)

pub slots_in_range :
    (r : SessionRecord) → IsSound r → all (λ index. ltb index max_players) (slots r) ≡ true
slots_in_range r h = ground (
  arith,
  all-append (λ index. ltb index max_players) (indices r.entries) r.reserved_join_indices,
  all_in_range r.entries h.seats,
  h.reserved_in_range,
)

pub occupied-slots : (r : SessionRecord) → IsSound r → occupied_indices r ≡ slots r
unfolding occupied_indices
occupied-slots r h = set_of-distinct (slots r) h.once

length-indices : (entries : List RosterEntry) → length (indices entries) ≡ length entries
length-indices [] = refl
length-indices (e ∷ rest) = omega (arith, length-indices rest)

-- The participants and the reserved slots of a session are at most `max_players` together.
pub slots-le-max_players :
    (r : SessionRecord)
    → IsSound r
    → length r.entries + length r.reserved_join_indices ≤ max_players
slots-le-max_players r h = omega (
  arith,
  length-le_of_distinct max_players (slots r) h.once (slots_in_range r h),
  length-append (indices r.entries) r.reserved_join_indices,
  length-indices r.entries,
)

distinct-middle :
    (j : ℕ) (xs ys : List ℕ)
    → distinct ((xs ++ j ∷ []) ++ ys) ≡ (if elem j (xs ++ ys) then false else distinct (xs ++ ys))
distinct-middle j [] ys = refl
distinct-middle j (x ∷ xs) ys = ground (
  arith,
  distinct-middle j xs ys,
  elem-append x (xs ++ j ∷ []) ys,
  elem-append x xs (j ∷ []),
  elem-append x xs ys,
  elem-append j xs ys,
)

distinct-append-set_discard :
    (j : ℕ) (xs ys : List ℕ) → distinct (xs ++ ys) ≡ true → distinct (xs ++ set_discard j ys) ≡ true
distinct-append-set_discard j [] ys h = distinct-set_discard j ys h
distinct-append-set_discard j (x ∷ xs) ys h = ground (
  arith,
  distinct-append-set_discard j xs ys,
  elem-append x xs (set_discard j ys),
  elem-append x xs ys,
  elem-set_discard j x ys,
)

all-set_discard :
    (p : ℕ → Bool) (j : ℕ) (xs : List ℕ) → all p xs ≡ true → all p (set_discard j xs) ≡ true
all-set_discard p j [] h = refl
all-set_discard p j (x ∷ xs) h = ground (arith, all-set_discard p j xs)

-- Taking a free slot.
pub seat-IsSound :
    (index : ℕ) (host : String) (port : ℕ) (r : SessionRecord)
    → index < max_players
    → IsAddress host port
    → elem index (slots r) ≡ false
    → IsSound r
    → IsSound (seat index host port r)
unfolding seat
seat-IsSound index host port r lt address free h = record {
  seats =
      AllSeats-append_one r.entries _ h.seats (IsSeat-seat_entry index host port false lt address);
  once =
      rw (map-append (λ (e : RosterEntry). e.join_index) r.entries _)
        (ground (arith, distinct-middle index (indices r.entries) r.reserved_join_indices));
  reserved_in_range = h.reserved_in_range;
}

-- Giving a reservation up.
pub unreserve-IsSound : (index : ℕ) (r : SessionRecord) → IsSound r → IsSound (unreserve index r)
unreserve-IsSound index r h = record {
  seats = h.seats;
  once = distinct-append-set_discard index (indices r.entries) r.reserved_join_indices h.once;
  reserved_in_range = all-set_discard _ index r.reserved_join_indices h.reserved_in_range;
}

AllSeats-readdress :
    (index : ℕ) (host : String) (port : ℕ) (entries : List RosterEntry)
    → IsAddress host port
    → AllSeats entries
    → AllSeats (readdress index host port entries)
unfolding readdress
AllSeats-readdress index host port [] address h = tt
AllSeats-readdress index host port (e ∷ rest) address h = elim (Bool-cases (has_index index e)) [
  | inl hit ↦ rw hit (moved, h.1)
  | inr miss ↦ rw miss (h.0, AllSeats-readdress index host port rest address h.1)
]
  where
    moved : IsSeat (record e { host = host; udp_port = port })
    moved = record {
      named = h.0.named;
      in_range = h.0.in_range;
      has_host = address.0;
      has_port = address.1;
    }

indices-readdress :
    (index : ℕ) (host : String) (port : ℕ) (entries : List RosterEntry)
    → indices (readdress index host port entries) ≡ indices entries
unfolding readdress
indices-readdress index host port [] = refl
indices-readdress index host port (e ∷ rest) =
    ground (arith, indices-readdress index host port rest)

-- A node that comes back at another address.
pub readdress-IsSound :
    (index : ℕ) (host : String) (port : ℕ) (r : SessionRecord)
    → IsAddress host port
    → IsSound r
    → IsSound (record r { entries = readdress index host port r.entries })
readdress-IsSound index host port r address h = record {
  seats = AllSeats-readdress index host port r.entries address h.seats;
  once = rw (indices-readdress index host port r.entries) h.once;
  reserved_in_range = h.reserved_in_range;
}
