-- ===== src/Shared/Roster/Host.antt =====
-- Who is the host: `get_host` and `promote_host` of shared/roster.py.
use mas_dsmb.Prelude.{◌≡◌, ◌∷◌, String, refl, true, [], arith}
use mathlib.Core.Option
use mas_dsmb.Shared.Roster.{RosterEntry, GlobalRoster, get_player, get_host, promote_host}

abbrev pub as_host : RosterEntry → RosterEntry
as_host entry = record entry { is_host = true }

module _ (player_id : String) where
  -- After a promotion the host is the promoted player's entry, and there is none if the roster does
  -- not know that player.
  pub get_host-promote_host :
      (players : GlobalRoster)
      → get_host (promote_host player_id players)
        ≡ Option.map as_host (get_player player_id players)
  unfolding get_host promote_host get_player
  get_host-promote_host [] = refl
  get_host-promote_host (p ∷ rest) = ground (arith, get_host-promote_host rest)
