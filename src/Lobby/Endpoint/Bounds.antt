-- ===== src/Lobby/Endpoint/Bounds.antt =====
-- How full a session gets, whatever the clients of a lobby send, one WebSocket after the other.
use mas_dsmb.Prelude.{◌∷◌, ℕ, String, Bool, none, List, [], nat_Eq, text_Eq}
use mas_dsmb.Shared.Messages.{Request}
use mas_dsmb.Lobby.Endpoint.{Server, lobby_endpoint}

-- A client: its WebSocket and its requests, each with the id that a new session would get.
abbrev pub Visitor : Type 0
Visitor = ℕ × List (String × Request)

abbrev pub new_server : Server
new_server = record { sessions = []; sent = []; session_id = none }

module _ (reachable : ℕ → Bool) where
  -- The handlers of the clients in turn, each of which begins outside of every session.
  abbrev pub serve : List Visitor → Server → Server
  serve [] s = s
  serve ((ws, requests) ∷ rest) s =
      serve rest (lobby_endpoint reachable ws requests (record s { session_id = none }))
