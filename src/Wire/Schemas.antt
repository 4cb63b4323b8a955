-- ===== src/Wire/Schemas.antt =====
-- src/distributed_smb/shared/messages/schemas.py: how the fields of a schema are read
-- and bounded. A schema ignores other keys. The field `message_type` of a schema accepts the text
-- that selected the schema, and is left out.
pub mod Lobby
pub mod Play
use mas_dsmb.Prelude.{
  ◌>>=◌, ◌∷◌, if◌then◌else◌, ℤ, pos, ℕ, String, Bool, true, Option, none, some, List, [], ltb,
  Result, ok, err, ◌>>=◌,
}
use mas_dsmb.Shared.Roster.{
  RosterEntry, GlobalRoster, ConnectionStatus, connected, disconnected, validate, add_player,
  RosterValidationError,
}
use mas_dsmb.Shared.Messages.{SessionCreate, SessionJoin, SessionRecreate, max_players, is_port}
use mas_dsmb.Domain.World.{InputState}
use mas_dsmb.Wire.Json.{
  Value, Items, Fields, no_items, item, no_fields, field, get, FieldTypes, null, flag, number, real,
  text, array, object,
}
use mas_dsmb.Wire.Messages.{
  NewHostClaim, ElectionAck, ReconnectionAck, PlayerInputPacket, is_filled,
}

-- What a decoder raises: `DeserializationError`, `MessageValidationError` of a constructor,
-- `RosterValidationError`, or an error of the language that nothing turns into one of these.
pub data DecodeError : Type 0 where
  deserialization_error message_validation_error value_error type_error attribute_error key_error :
      DecodeError
  roster_error : RosterValidationError → DecodeError

abbrev pub Read : Type 0 → Type 0
Read A = Result DecodeError A

unfoldable pub at_least_0 : ℕ → Bool
at_least_0 n = true

unfoldable pub below_max_players : ℕ → Bool
below_max_players n = ltb n max_players

-- `Field(..., min_length=1)` on what was read as a text
unfoldable pub filled : Option String → Read String
unfolding is_filled
filled none = err deserialization_error
filled (some s) = if is_filled s then ok s else err deserialization_error

unfoldable pub present : {A : Type 0} → Option A → Read A
present none = err deserialization_error
present (some a) = ok a

-- `Field(..., ge=..., lt=...)` on what was read as a number: every bound is 0 or more
unfoldable pub within : (ℕ → Bool) → Option ℤ → Read ℕ
within bound (some (pos n)) = if bound n then ok n else err deserialization_error
within bound _ = err deserialization_error

module _ (types : FieldTypes) where
  open types use {read_int, read_str, read_bool, read_list, read_dict}

  -- A field without a default.
  unfoldable pub required : {A : Type 0} → (Value → Read A) → Option Value → Read A
  required read none = err deserialization_error
  required read (some v) = read v

  unfoldable pub text_field : String → Fields → Read String
  unfolding filled required get
  text_field key body = required (λ v. filled (read_str v)) (get key body)

  unfoldable pub number_field : (ℕ → Bool) → String → Fields → Read ℕ
  unfolding within required get
  number_field bound key body = required (λ v. within bound (read_int v)) (get key body)

  unfoldable pub int_field : String → Fields → Read ℤ
  unfolding present required get
  int_field key body = required (λ v. present (read_int v)) (get key body)

  unfoldable pub bool_field : String → Fields → Read Bool
  unfolding present required get
  bool_field key body = required (λ v. present (read_bool v)) (get key body)

  -- `int | None`
  unfoldable pub optional_number : (ℕ → Bool) → Option Value → Read (Option ℕ)
  unfolding within
  optional_number bound none = ok none
  optional_number bound (some null) = ok none
  optional_number bound (some v) = within bound (read_int v) >>= (λ n. ok (some n))

  -- `list[int]`
  unfoldable pub numbers : Items → Read (List ℤ)
  unfolding present
  numbers no_items = ok []
  numbers (item v rest) = do n ← present (read_int v); more ← numbers rest; ok (n ∷ more)

  unfoldable pub list_field : {A : Type 0} → (Items → Read A) → String → Fields → Read A
  unfolding present required get
  list_field read key body = required (λ v. present (read_list v) >>= read) (get key body)

  unfoldable pub dict_field : {A : Type 0} → (Fields → Read A) → String → Fields → Read A
  unfolding present required get
  dict_field read key body = required (λ v. present (read_dict v) >>= read) (get key body)
