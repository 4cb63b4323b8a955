-- ===== src/Tests/Shadows.antt =====
-- A remote player whose snapshots come out of order, and then no more.
use mas_dsmb.Prelude.{◌≡◌, ◌∷◌, pos, refl, none, some, List, []}
use mas_dsmb.Tests.Integers.{integers}
use mas_dsmb.Tests.Engine.{player}
use mas_dsmb.Domain.World.{Player}
use mas_dsmb.Shadows.{ShadowCopy, new_shadow, get_visual_state, elapsed_since, is_old}
use mas_dsmb.Shadows.Display.{
  Arrival, updated, latest, shown, updated-latest, at_rest, get_visual_state-at_rest,
}

abbrev arrivals : List (Arrival integers)
arrivals =
    (player "player2" 1 100, 7, pos 1000)
    ∷ (player "player2" 1 90, 6, pos 1010)
    ∷ (player "player2" 1 110, 8, pos 1020)
    ∷ []

newest : latest integers none none arrivals ≡ (some 8, some (player "player2" 1 110))
unfolding is_old
newest = refl

updated-latest_example :
    shown integers (updated integers arrivals (new_shadow integers))
    ≡ latest integers none none arrivals
updated-latest_example = updated-latest integers arrivals (new_shadow integers)

abbrev running : Player integers
running = record (player "player2" 1 100) { vx = pos 3 }

abbrev shadow : ShadowCopy integers
shadow = record {
  snapshot_timeout = pos 150;
  max_extrapolation_time = pos 350;
  last_confirmed = some running;
  target = some running;
  last_sequence_number = some 8;
  last_snapshot_time = some (pos 1000);
  interpolation_window = pos 150;
}

get_visual_state-at_rest_example :
    get_visual_state integers (λ a b. a) (pos 1600) shadow ≡ some (at_rest integers shadow running)
unfolding elapsed_since
get_visual_state-at_rest_example =
    get_visual_state-at_rest integers (λ a b. a) (pos 1600) (pos 1000) running shadow refl refl refl
      refl

there : (at_rest integers shadow running).box.x ≡ pos 1150
there = refl
