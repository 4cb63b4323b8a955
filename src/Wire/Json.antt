-- ===== src/Wire/Json.antt =====
-- The values of JSON, as `json.loads` builds them and `asdict` writes them. The library that reads
-- texts and the one that checks fields against their declared types (pydantic) are no code of the
-- repository: what they read is a parameter, with the documented law that a value of the declared
-- type is accepted as it is. A number with a fraction is kept as its literal. The keys of an object
-- come once.
use mas_dsmb.Prelude.{
  ◌≡◌, ◌∷◌, ◌==◌, if◌then◌else◌, ℤ, String, Bool, Option, none, some, List, [], nat_Eq, text_Eq,
}

mutual
  -- The entries of a dictionary, first key first.
  pub data Fields : Type 0 where
    no_fields : Fields
    field : (key : String) (value : Value) → Fields → Fields

  pub data Items : Type 0 where
    no_items : Items
    item : (value : Value) → Items → Items

  pub data Value : Type 0 where
    object : Fields → Value
    array : Items → Value
    number : ℤ → Value
    text real : String → Value
    flag : Bool → Value
    null : Value

-- `data.get(key)`
unfoldable pub get : String → Fields → Option Value
get key no_fields = none
get key (field k v rest) = let found = get key rest in if k == key then some v else found

unfoldable pub items_of : List Value → Items
items_of [] = no_items
items_of (v ∷ rest) = item v (items_of rest)

unfoldable pub values_of : Items → List Value
values_of no_items = []
values_of (item v rest) = v ∷ values_of rest

-- How a field of a declared type reads a value, and of the literals with a fraction which are
-- zero and what the absolute value is.
pub record FieldTypes : Type 0 where
  pub read_int : Value → Option ℤ
  pub read_str : Value → Option String
  pub read_bool : Value → Option Bool
  pub read_list : Value → Option Items
  pub read_dict : Value → Option Fields
  pub is_zero : String → Bool
  pub absolute_literal : String → String
  pub read_int-number : (n : ℤ) → read_int (number n) ≡ some n
  pub read_str-text : (s : String) → read_str (text s) ≡ some s
  pub read_bool-flag : (b : Bool) → read_bool (flag b) ≡ some b
  pub read_list-array : (xs : Items) → read_list (array xs) ≡ some xs
  pub read_dict-object : (fs : Fields) → read_dict (object fs) ≡ some fs

-- How a text becomes a value and back: `json.dumps`, `json.loads` and UTF-8.
pub record Encoding : Type 1 where
  pub Datagram : Type 0
  pub dumps : Value → Datagram
  pub loads : Datagram → Option Value
  pub loads-dumps : (v : Value) → loads (dumps v) ≡ some v
