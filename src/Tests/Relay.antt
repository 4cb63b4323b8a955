-- ===== src/Tests/Relay.antt =====
-- Two players come, one leaves, and the game asks.
use mas_dsmb.Prelude.{◌≡◌, ◌∷◌, refl, true, false, [], elem, nat_Eq, text_Eq}
use mas_dsmb.Relay.{Relay, no_relay, connect, close, get_disconnected_player, name_socket, report}
use mas_dsmb.Relay.Steps.{Reach, starts, connects, ends, polls}
use mas_dsmb.Relay.Accounts.{IsBalanced, Reach-IsBalanced}

abbrev both : Relay
both = connect 2 "player2" (connect 1 "player1" no_relay)

fresh : elem 2 (connect 1 "player1" no_relay).connections ≡ false
unfolding connect
fresh = refl

there : elem 1 both.connections ≡ true
unfolding connect
there = refl

waiting : (close 1 both).disconnect_queue ≡ "player1" ∷ []
unfolding close connect name_socket report
waiting = refl

left :
    Reach ("player2" ∷ "player1" ∷ []) ("player1" ∷ []) ((get_disconnected_player (close 1 both)).1)
left =
    polls "player1" [] waiting
      (ends 1 there (connects 2 "player2" fresh (connects 1 "player1" refl starts)))

Reach-IsBalanced_example :
    IsBalanced "player1"
      ("player2" ∷ "player1" ∷ [])
      ("player1" ∷ [])
      ((get_disconnected_player (close 1 both)).1)
Reach-IsBalanced_example = Reach-IsBalanced "player1" refl left
