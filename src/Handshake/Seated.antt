-- ===== src/Handshake/Seated.antt =====
-- What a node is after the lobby: it bears the id of its slot, and its world holds the roster's
-- players.
use mas_dsmb.Prelude.{
  ◌>>=◌, ◌≡◌, ◌∷◌, if-both, ℕ, String, Bool, true, false, Option, none, some, List, [], length, ok,
  err,
}
use mas_dsmb.Shared.PlayerId.{player_id_for}
use mas_dsmb.Shared.Roster.{GlobalRoster}
use mas_dsmb.Domain.Scalar.{Scalar}
use mas_dsmb.Wire.Messages.{WsMessage}
use mas_dsmb.Handshake.{keep_roster, roster_in, Entrant, Window, Turn, Phase, take_roster, notify}
use mas_dsmb.Handshake.Phases.{wait_turn, adopt_session}
use mas_dsmb.Handshake.Phases.{wait_for_game_start, started_by, is_closed}

module _ (scalar : Scalar) where
  -- The node bears the id of its slot.
  abbrev pub IsNamed : Entrant scalar → Type 0
  IsNamed s = s.node.local_player_id ≡ player_id_for s.node.join_index

  abbrev pub EndsNamed : Phase (Entrant scalar) → Type 0
  EndsNamed (ok s) = IsNamed s
  EndsNamed (err e) = Unit

  keep_roster-IsNamed :
      (roster : Option GlobalRoster) (s : Entrant scalar)
      → IsNamed s
      → IsNamed (keep_roster scalar roster s)
  unfolding keep_roster
  keep_roster-IsNamed none s h = h
  keep_roster-IsNamed (some r) s h = h

  take_roster-IsNamed :
      (message : Option WsMessage) (s : Entrant scalar)
      → IsNamed s
      → IsNamed (take_roster scalar message s)
  unfolding take_roster
  take_roster-IsNamed message s h = keep_roster-IsNamed (roster_in message) s h

  notify-EndsNamed :
      (window : Window) (remaining : ℕ) (status : String) (s : Entrant scalar)
      → IsNamed s
      → EndsNamed (notify scalar window remaining status s)
  unfolding notify
  notify-EndsNamed window remaining status s h =
      if-both EndsNamed (window.on_update remaining status s.node.session_id s.node.roster) h tt

  told-EndsNamed :
      (call : Phase (Entrant scalar)) (again : Phase (Entrant scalar))
      → EndsNamed again
      → EndsNamed (call >>= (λ told. again))
  told-EndsNamed (ok told) again h = h
  told-EndsNamed (err e) again h = tt

  wait_turn-EndsNamed :
      (window : Window) (remaining : ℕ) (adopt : Bool) (s : Entrant scalar)
      (started : Option String) (ended : Bool) (on : Phase (Entrant scalar))
      → IsNamed s
      → EndsNamed on
      → EndsNamed (wait_turn scalar window remaining adopt s started ended on)
  unfolding wait_turn adopt_session
  wait_turn-EndsNamed window remaining true s (some session_id) ended on h later =
      notify-EndsNamed window remaining "Starting game" _ h
  wait_turn-EndsNamed window remaining false s (some session_id) ended on h later =
      notify-EndsNamed window remaining "Starting game" s h
  wait_turn-EndsNamed window remaining adopt s none true on h later = tt
  wait_turn-EndsNamed window remaining adopt s none false on h later = later

  pub wait_for_game_start-EndsNamed :
      (window : Window) (waiting : String) (adopt : Bool) (turns : List Turn) (s : Entrant scalar)
      → IsNamed s
      → EndsNamed (wait_for_game_start scalar window waiting adopt turns s)
  unfolding wait_for_game_start
  wait_for_game_start-EndsNamed window waiting adopt [] s h = tt
  wait_for_game_start-EndsNamed window waiting adopt (turn ∷ rest) s h =
      let taken = take_roster scalar turn.message s in
      wait_turn-EndsNamed window (length rest) adopt s (started_by turn.message)
        (is_closed turn.message) _ h
        (told-EndsNamed (notify scalar window (length rest) waiting taken)
          (wait_for_game_start scalar window waiting adopt rest taken)
          (wait_for_game_start-EndsNamed window waiting adopt rest taken
            (take_roster-IsNamed turn.message s h)))
