-- ===== src/Wire/World/Letters.antt =====
-- What Python iterates over in a text: its letters, as texts.
use Prim.Native.String.{[], ◌∷◌}
use mas_dsmb.Prelude.{String}
use mas_dsmb.Wire.Json.{Items, no_items, item, text}

unfoldable pub letters : String → Items
letters [] = no_items
letters (c ∷ rest) = item (text (c ∷ [])) (letters rest)
