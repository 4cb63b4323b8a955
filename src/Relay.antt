-- ===== src/Relay.antt =====
-- The relay of game events: src/distributed_smb/network/game_events/server.py. A socket is a number,
-- its `id`; its event is the flag that ends the handler. Which sockets fail to take a text is an
-- argument. Threads, the HTTP front and the log are left out.
pub mod Steps
pub mod Counts
pub mod Accounts
use mas_dsmb.Prelude.{
  ◌∷◌, ◌++◌, ◌==◌, if◌then◌else◌, ℕ, String, Bool, true, false, Option, none, some, List, [],
  filter, Dict, lookup, insert, erase, nat_Eq, text_Eq,
}

pub record Relay : Type 0 where
  pub connections : List ℕ
  pub ws_to_player : Dict ℕ String
  pub ws_to_event : Dict ℕ Bool
  pub disconnect_queue : List String

-- `reset`
abbrev pub no_relay : Relay
no_relay = record { connections = []; ws_to_player = []; ws_to_event = []; disconnect_queue = [] }

unfoldable pub name_socket : ℕ → String → Dict ℕ String → Dict ℕ String
name_socket ws player_id players = if player_id == "" then players else insert ws player_id players

-- `game_event_endpoint` up to its wait
unfoldable pub connect : ℕ → String → Relay → Relay
unfolding name_socket
connect ws player_id s = record s {
  connections = s.connections ++ ws ∷ [];
  ws_to_event = insert ws false s.ws_to_event;
  ws_to_player = name_socket ws player_id s.ws_to_player;
}

unfoldable pub report : Option String → List String → List String
report none queue = queue
report (some player_id) queue = if player_id == "" then queue else queue ++ player_id ∷ []

-- `list.remove`: the first occurrence.
unfoldable pub remove_one : ℕ → List ℕ → List ℕ
remove_one ws [] = []
remove_one ws (x ∷ rest) = let later = remove_one ws rest in if x == ws then rest else x ∷ later

-- The `finally` of the handler.
unfoldable pub close : ℕ → Relay → Relay
unfolding report remove_one
close ws s = record {
  ws_to_event = erase ws s.ws_to_event;
  connections = remove_one ws s.connections;
  ws_to_player = erase ws s.ws_to_player;
  disconnect_queue = report (lookup ws s.ws_to_player) s.disconnect_queue;
}

-- `event.set()`, if the socket still has one
unfoldable pub set_event : ℕ → Dict ℕ Bool → Dict ℕ Bool
set_event ws [] = []
set_event ws ((key, flag) ∷ rest) =
    let later = set_event ws rest in if key == ws then (key, true) ∷ rest else (key, flag) ∷ later

unfoldable pub set_events : List ℕ → Dict ℕ Bool → Dict ℕ Bool
unfolding set_event
set_events [] events = events
set_events (ws ∷ rest) events = set_events rest (set_event ws events)

-- `_broadcast`, and one beat of `_heartbeat_loop`
unfoldable pub broadcast : (ℕ → Bool) → Relay → Relay
unfolding set_events
broadcast fails s = record s { ws_to_event = set_events (filter fails s.connections) s.ws_to_event }

unfoldable pub next_disconnected : List String → Relay → Option String × Relay
next_disconnected [] s = (none, s)
next_disconnected (player_id ∷ rest) s = (some player_id, record s { disconnect_queue = rest })

unfoldable pub get_disconnected_player : Relay → Option String × Relay
unfolding next_disconnected
get_disconnected_player s = next_disconnected s.disconnect_queue s
