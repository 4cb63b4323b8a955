-- ===== src/Recovery/Texts.antt =====
-- Prefixes and digits of texts, for src/distributed_smb/shared/session_metadata.py.
use Prim.Native.Char.{code}
use Prim.Native.String.{[], ◌∷◌}
use mas_dsmb.Prelude.{
  ◌&&◌, if◌then◌else◌, String, Bool, true, Option, none, some, leb, nat_Eq, ◌==◌,
}

-- The rest of a text behind a prefix, if it starts with it.
unfoldable pub after_prefix : String → String → Option String
after_prefix [] s = some s
after_prefix (c ∷ prefix) [] = none
after_prefix (c ∷ prefix) (d ∷ s) =
    let rest = after_prefix prefix s in if code c == code d then rest else none

unfoldable pub all_digits : String → Bool
all_digits [] = true
all_digits (c ∷ rest) = leb 48 (code c) && leb (code c) 57 && all_digits rest
