-- ===== src/Scenario/Readers.antt =====
-- The readers of single fields in src/kil/scenario.py. Every refusal is a ValueError.
use kil.Prelude.{
  contains_text, is_distinct, ℕ, Bool, true, false, not, ◌&&◌, List, [], ◌∷◌, ◌++◌, Option, none,
  some, all, is_empty, length, ◌==◌, ℤ, pos, sub_ℕ, leb_ℤ, String, codes, is_digit, is_nonblank,
  Result, ok, raise, require, value_error, if◌then◌else◌, ◌>>=◌, ◌>>◌,
}
use kil.Decimal.{Decimal, finite, is_finite}
use kil.Json.{
  as_text, as_integer, as_boolean, as_array, Json, Items, Fields, object, no_items, item, field_of,
  keys_of,
}
use kil.QState.{split_point, digits_value}

-- `_mapping`
unfoldable pub mapping : Json → Result Fields
mapping (object fs) = ok fs
mapping _ = raise value_error

-- `_required`
unfoldable pub required : Fields → String → Result Json
required fs key = elim (field_of key fs) [ none ↦ raise value_error | some v ↦ ok v ]

-- `_expect_keys`
unfoldable pub expect_keys : Fields → List String → Result (Unit {0})
expect_keys fs allowed = require (all (λ k. contains_text k allowed) (keys_of fs))

-- `_string`
unfoldable pub string_field : Fields → String → Result String
unfolding required as_text
string_field fs key = do v ← required fs key; s ← as_text v; require (is_nonblank s); ok s

-- `_integer`
unfoldable pub integer_field : Fields → String → ℤ → Result ℤ
unfolding required as_integer
integer_field fs key minimum = do
  v ← required fs key
  n ← as_integer v
  require (leb_ℤ minimum n)
  ok n

-- `_boolean`
unfoldable pub boolean_field : Fields → String → Result Bool
unfolding required as_boolean
boolean_field fs key = do v ← required fs key; as_boolean v

all_digits : List ℕ → Bool
all_digits cs = not (is_empty cs) && all is_digit cs

-- `[0-9]+(\.[0-9]+)?`, with the decimal that it denotes.
unsigned_decimal : Bool → List ℕ × Option (List ℕ) → Option Decimal
unfolding all_digits
unsigned_decimal sign (whole, none) =
    if all_digits whole then some (finite sign (digits_value 0 whole) (pos 0)) else none
unsigned_decimal sign (whole, some fraction) =
    if all_digits whole && all_digits fraction
    then some (finite sign (digits_value 0 (whole ++ fraction)) (sub_ℕ 0 (length fraction)))
    else none

signed_decimal : List ℕ → Option Decimal
unfolding unsigned_decimal
signed_decimal [] = none
signed_decimal (c ∷ cs) =
    if c == b'-'
    then unsigned_decimal true (split_point cs)
    else unsigned_decimal false (split_point (c ∷ cs))

-- `DECIMAL_PATTERN.fullmatch(value)`, and then `Decimal(value)`.
unfoldable pub decimal_of_text : String → Option Decimal
unfolding signed_decimal
decimal_of_text s = signed_decimal (codes s)

as_decimal : Option Decimal → Result Decimal
as_decimal none = raise value_error
as_decimal (some d) = require (is_finite d) >> ok d

-- `_decimal`
unfoldable pub decimal_field : Fields → String → Result Decimal
unfolding required as_text as_decimal
decimal_field fs key = do v ← required fs key; s ← as_text v; as_decimal (decimal_of_text s)

-- `_uri`. What `urlsplit` says of a text is a parameter: whether it is an absolute HTTP(S) URI.
unfoldable pub uri_field : (String → Bool) → Fields → String → Result String
unfolding string_field
uri_field is_http_uri fs key = do s ← string_field fs key; require (is_http_uri s); ok s

-- The texts of a list of dependencies, none of them blank.
pub nonblank_texts : Items → Result (List String)
unfolding as_text
nonblank_texts no_items = ok []
nonblank_texts (item v rest) = do
  s ← as_text v
  require (is_nonblank s)
  others ← nonblank_texts rest
  ok (s ∷ others)

-- `_dependencies`
unfoldable pub dependencies : Fields → List String → Result (List String)
unfolding required as_array nonblank_texts is_distinct
dependencies fs seen = do
  v ← required fs "depends_on"
  items ← as_array v
  parents ← nonblank_texts items
  -- `len(set(parents)) == len(parents)`
  require (is_distinct parents)
  require (all (λ p. contains_text p seen) parents)
  ok parents
