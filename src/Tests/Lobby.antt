-- ===== src/Tests/Lobby.antt =====
-- Tests of the lobby (src/distributed_smb/network/lobby/service.py).
use mas_dsmb.Prelude.{
  ◌≡◌, ◌<◌, ◌⊎◌, ◌∷◌, ℕ, String, refl, true, false, not, none, some, List, [], arith, elem, ok,
  nat_Eq, text_Eq,
}
use mas_dsmb.Shared.PlayerId.{player_id_for, decimal}
use mas_dsmb.Shared.Messages.{
  is_port, max_players, Request, session_create, session_join, rejoin_is_valid,
}
use mas_dsmb.Lobby.{
  SessionRecord, seat_entry, record_is_full, join_record, seat, unreserve, readdress, get_roster,
}
use mas_dsmb.Lobby.Sound.{IsSound, IsAddress, slots}
use mas_dsmb.Lobby.Slots.{join_new_player}
use mas_dsmb.Lobby.Rejoin.{rejoin_reserved, rejoin_seated_is_full, join_record-IsSound}
use mas_dsmb.Lobby.Roster.{get_roster-entries}
use mas_dsmb.Lobby.Registry.{AllSound-empty}
use mas_dsmb.Lobby.Endpoint.{Server, lobby_endpoint}
use mas_dsmb.Lobby.{is_active}
use mas_dsmb.Lobby.Endpoint.Bounds.{serve, new_server}
use mas_dsmb.Lobby.Endpoint.Sound.{IsHealthy, lobby_endpoint-IsHealthy}

-- Two players, and a slot that is kept for a third.
abbrev pair : SessionRecord
pair = record {
  session_id = "s";
  entries = seat_entry 0 "a" 50010 true ∷ seat_entry 2 "c" 50000 false ∷ [];
  connections = 7 ∷ 8 ∷ [];
  is_active = true;
  next_join_index = 3;
  reserved_join_indices = 1 ∷ [];
}

address : IsAddress "b" 50001
unfolding is_port
address = (refl, refl)

pair-IsSound : IsSound pair
unfolding is_port
pair-IsSound = record {
  seats = (
    record { named = refl; in_range = omega arith; has_host = refl; has_port = refl },
    (record { named = refl; in_range = omega arith; has_host = refl; has_port = refl }, tt),
  );
  once = refl;
  reserved_in_range = refl;
}

join_new_player_example :
    ((record_is_full none pair ≡ true) × (join_record "x" "d" 50001 none pair ≡ none))
    ⊎ ((record_is_full none pair ≡ false)
        × ((index : ℕ) × (join_record "x" "d" 50001 none pair
              ≡ some (seat index "d" 50001 pair, index))
            × (index < max_players)
            × (elem index (slots pair) ≡ false)
            × ((i : ℕ) → i < index → elem i (slots pair) ≡ true)))
join_new_player_example = join_new_player "x" "d" 50001 pair pair-IsSound

rejoin_reserved_example :
    (record_is_full (some 1) pair ≡ not (elem 1 pair.reserved_join_indices))
    × (elem 1 pair.reserved_join_indices ≡ true
        → (join_record (player_id_for 1) "b" 50001 (some 1) pair
            ≡ some (seat 1 "b" 50001 (unreserve 1 pair), 1))
          × (elem 1 (unreserve 1 pair).reserved_join_indices ≡ false))
rejoin_reserved_example = rejoin_reserved "b" 50001 1 pair pair-IsSound

rejoin_seated_is_full_example :
    (join_record (player_id_for 2) "b" 50001 (some 2) pair
      ≡ some (unreserve 2 (record pair { entries = readdress 2 "b" 50001 pair.entries }), 2))
    × (record_is_full (some 2) pair ≡ true)
rejoin_seated_is_full_example = rejoin_seated_is_full "b" 50001 2 pair pair-IsSound refl

rejoined :
    join_record "player2" "b" 50001 (some 1) pair ≡ some (seat 1 "b" 50001 (unreserve 1 pair), 1)
unfolding join_record seat
rejoined = refl

valid : rejoin_is_valid "player2" (some 1) ≡ true
unfolding player_id_for decimal
valid = refl

join_record-IsSound_example : IsSound (seat 1 "b" 50001 (unreserve 1 pair))
join_record-IsSound_example =
    join_record-IsSound "player2" "b" 50001 (some 1) pair pair-IsSound address valid rejoined

get_roster-entries_example : get_roster pair ≡ ok pair.entries
get_roster-entries_example = get_roster-entries pair pair-IsSound

abbrev server : Server
server = record { sessions = []; sent = []; session_id = none }

abbrev requests : List (String × Request)
requests =
    ("s", session_create (record { player_id = "p"; ip = "a"; udp_port = 50010 }))
    ∷ (
      "t",
      session_join (record {
        session_id = "s";
        player_id = "q";
        ip = "b";
        port = 50000;
        rejoin_join_index = none;
      }),
    )
    ∷ []

lobby_endpoint-IsHealthy_example : IsHealthy (lobby_endpoint (λ ws. true) 7 requests server)
lobby_endpoint-IsHealthy_example =
    lobby_endpoint-IsHealthy (λ ws. true) 7 requests server AllSound-empty

abbrev after_visit : Server
after_visit = serve (λ ws. true) ((7, requests) ∷ []) new_server

abbrev seated : SessionRecord
seated = record {
  session_id = "s";
  entries = seat_entry 0 "a" 50010 true ∷ seat_entry 1 "b" 50000 false ∷ [];
  connections = [];
  is_active = false;
  next_join_index = 2;
  reserved_join_indices = [];
}
