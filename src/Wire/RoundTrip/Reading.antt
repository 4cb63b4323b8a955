-- ===== src/Wire/RoundTrip/Reading.antt =====
-- The fields of a schema read what the encoder wrote.
use mas_dsmb.Prelude.{
  ◌≡◌, ◌∷◌, ℤ, pos, ℕ, String, refl, Bool, true, Option, none, some, List, [], map, ok,
}
use mas_dsmb.Wire.Json.{Items, Fields, FieldTypes, get, text, number, array, object, flag, items_of}
use mas_dsmb.Wire.Messages.{is_filled}
use mas_dsmb.Wire.Encode.{natural_value, index_value}
use mas_dsmb.Wire.Schemas.{
  Read, filled, within, present, required, text_field, number_field, int_field, bool_field,
  list_field, dict_field, optional_number, numbers,
}

-- A bound on a number that may be missing.
abbrev pub all_of : (ℕ → Bool) → Option ℕ → Bool
all_of bound none = true
all_of bound (some n) = bound n

module _ (types : FieldTypes) where
  open types use {
    read_int, read_str, read_bool, read_list, read_dict, read_int-number, read_str-text,
    read_bool-flag, read_list-array, read_dict-object,
  }

  pub text_field-text :
      (key : String) (body : Fields) {s : String}
      → get key body ≡ some (text s)
      → is_filled s ≡ true
      → text_field types key body ≡ ok s
  unfolding text_field required filled
  text_field-text key body {s} found h = rw found (rw (read_str-text s) (rw h refl))

  pub number_field-number :
      (bound : ℕ → Bool) (key : String) (body : Fields) {n : ℕ}
      → get key body ≡ some (natural_value n)
      → bound n ≡ true
      → number_field types bound key body ≡ ok n
  unfolding number_field required within
  number_field-number bound key body {n} found h =
      rw found (rw (read_int-number (pos n)) (rw h refl))

  pub int_field-number :
      (key : String) (body : Fields) {n : ℤ}
      → get key body ≡ some (number n)
      → int_field types key body ≡ ok n
  unfolding int_field required present
  int_field-number key body {n} found = rw found (rw (read_int-number n) refl)

  pub bool_field-flag :
      (key : String) (body : Fields) {b : Bool}
      → get key body ≡ some (flag b)
      → bool_field types key body ≡ ok b
  unfolding bool_field required present
  bool_field-flag key body {b} found = rw found (rw (read_bool-flag b) refl)

  pub list_field-array :
      {A : Type 0} (read : Items → Read A) (key : String) (body : Fields) {xs : Items}
      → get key body ≡ some (array xs)
      → list_field types read key body ≡ read xs
  unfolding list_field required present
  list_field-array read key body {xs} found = rw found (rw (read_list-array xs) refl)

  pub dict_field-object :
      {A : Type 0} (read : Fields → Read A) (key : String) (body : Fields) {inner : Fields}
      → get key body ≡ some (object inner)
      → dict_field types read key body ≡ read inner
  unfolding dict_field required present
  dict_field-object read key body {inner} found = rw found (rw (read_dict-object inner) refl)

  pub optional_number-index :
      (bound : ℕ → Bool) (index : Option ℕ)
      → all_of bound index ≡ true
      → optional_number types bound (some (index_value index)) ≡ ok index
  unfolding optional_number index_value within
  optional_number-index bound none h = refl
  optional_number-index bound (some n) h = rw (read_int-number (pos n)) (rw h refl)

  pub numbers-items : (l : List ℤ) → numbers types (items_of (map number l)) ≡ ok l
  unfolding numbers items_of present
  numbers-items [] = refl
  numbers-items (n ∷ l) = rw (read_int-number n) (rw (numbers-items l) refl)
