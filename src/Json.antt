-- ===== src/Json.antt =====
-- JSON values as `json.loads` gives them to src/kil/scenario.py and src/kil/ext_authz_http.py. Texts hold
-- Unicode scalar values only, so their encoding as UTF-8 never fails.
use kil.Prelude.{
  ◌&&◌, is_distinct, true, Result, ok, raise, value_error, Bool, List, [], ◌∷◌, Option, none, some,
  String, str_eq, ℤ, if◌then◌else◌,
}

mutual
  -- `number` is a float, whose value the code never reads.
  pub data Json : Type 0 where
    null number : Json
    boolean : Bool → Json
    integer : ℤ → Json
    text : String → Json
    array : Items → Json
    object : Fields → Json

  pub data Items : Type 0 where
    no_items : Items
    item : Json → Items → Items

  -- A dict, in insertion order; or the pairs that the parser hands to an `object_pairs_hook`, where a key
  -- may stand twice.
  pub data Fields : Type 0 where
    no_fields : Fields
    field : String → Json → Fields → Fields

unfoldable pub field_of : String → Fields → Option Json
field_of key no_fields = none
field_of key (field k v rest) =
    let later = field_of key rest in if str_eq k key then some v else later

unfoldable pub keys_of : Fields → List String
keys_of no_fields = []
keys_of (field k v rest) = k ∷ keys_of rest

-- A value of one type, or a ValueError.
unfoldable pub as_text : Json → Result String
as_text (text s) = ok s
as_text _ = raise value_error

unfoldable pub as_integer : Json → Result ℤ
as_integer (integer n) = ok n
as_integer _ = raise value_error

unfoldable pub as_boolean : Json → Result Bool
as_boolean (boolean b) = ok b
as_boolean _ = raise value_error

unfoldable pub as_array : Json → Result Items
as_array (array xs) = ok xs
as_array _ = raise value_error

-- No key stands twice, in any object.
unfoldable mutual
  pub is_closed : Json → Bool
  is_closed (array xs) = are_closed xs
  is_closed (object fs) = is_distinct (keys_of fs) && has_closed fs
  is_closed _ = true

  pub are_closed : Items → Bool
  are_closed no_items = true
  are_closed (item v rest) = is_closed v && are_closed rest

  pub has_closed : Fields → Bool
  has_closed no_fields = true
  has_closed (field k v rest) = is_closed v && has_closed rest
