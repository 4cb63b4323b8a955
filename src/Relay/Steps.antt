-- ===== src/Relay/Steps.antt =====
-- The relay's steps, in any order: its handlers run interleaved, one at a time between two waits.
use mas_dsmb.Prelude.{◌≡◌, ◌∷◌, ℕ, String, Bool, true, false, List, [], elem, nat_Eq, text_Eq}
use mas_dsmb.Relay.{Relay, no_relay, connect, close, broadcast, get_disconnected_player}

-- The states that the relay reaches, with the ids of the sockets that came and with what the game was
-- told, the latest first. A socket's number is not in use when it comes. A handler ends when its
-- event is set, or when the server cancels it.
pub data Reach : List String → List String → Relay → Type 0 where
  starts : Reach [] [] no_relay
  connects :
      {came told : List String} {s : Relay} (ws : ℕ) (player_id : String)
      → elem ws s.connections ≡ false
      → Reach came told s
      → Reach (player_id ∷ came) told (connect ws player_id s)
  sends :
      {came told : List String} {s : Relay} (fails : ℕ → Bool)
      → Reach came told s
      → Reach came told (broadcast fails s)
  ends :
      {came told : List String} {s : Relay} (ws : ℕ)
      → elem ws s.connections ≡ true
      → Reach came told s
      → Reach came told (close ws s)
  polls :
      {came told : List String} {s : Relay} (player_id : String) (rest : List String)
      → s.disconnect_queue ≡ player_id ∷ rest
      → Reach came told s
      → Reach came (player_id ∷ told) ((get_disconnected_player s).1)
