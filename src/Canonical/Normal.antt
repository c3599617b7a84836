-- ===== src/Canonical/Normal.antt =====
-- `_normalize` of src/kil/canonical.py: the JSON value of a Python value, with the number of items that
-- the traversal has counted.
use Prim.Native.Nat.{◌/◌, ◌%◌}
use Prim.Native.String.{slice, ◌++◌ as text_append}
use kil.Prelude.{
  ◌&&◌, ◌||◌, all, ℕ, zero, suc, ◌^◌, Bool, true, false, not, length, leb, ltb, ℤ, pos, negsuc,
  String, str_eq, codes, utf8_length, Result, ok, raise, require, value_error, type_error,
  if◌then◌else◌, ◌>>=◌, ◌>>◌,
}
use kil.Decimal.{Decimal, finite}
use kil.Json.{Json, Items, Fields, no_items, item, no_fields, field}
use kil.QState.{strip_zeros}
use kil.Canonical.Values.{
  Value, Members, Values, no_members, member, no_values, value, sort_members,
}

abbrev pub max_depth : ℕ
max_depth = 64

abbrev pub max_items : ℕ
max_items = 10000

abbrev pub max_output_bytes : ℕ
max_output_bytes = 1000000

abbrev decimal_tag : String
decimal_tag = "$kil.decimal"

digit : ℕ → String
digit n = slice "0123456789" n (suc n)

-- The digits of a number, the last of them in front of `acc`, with the number as fuel.
digits_fuel : ℕ → ℕ → String → String
unfolding digit
digits_fuel zero n acc = text_append (digit (n % 10)) acc
digits_fuel (suc f) n acc =
    let rest = digits_fuel f (n / 10) (text_append (digit (n % 10)) acc) in
    if ltb n 10 then text_append (digit (n % 10)) acc else rest

unfoldable pub digits_of : ℕ → String
unfolding digits_fuel
digits_of n = digits_fuel n n ""

-- A code point that UTF-8 encodes: no surrogate.
is_scalar : ℕ → Bool
is_scalar c = ltb c 55296 || leb 57344 c

-- A text has a UTF-8 encoding, and it is short enough.
unfoldable pub is_printable : String → Bool
unfolding is_scalar
is_printable s = all is_scalar (codes s) && leb (utf8_length (codes s)) max_output_bytes

-- `_validate_string`
unfoldable pub validate_string : String → Result (Unit {0})
unfolding is_printable
validate_string s = require (is_printable s)

-- `_normalize_decimal` before it is tagged: sign, coefficient and exponent without the trailing zeros.
unfoldable pub canonical_parts : Bool → ℕ → ℤ → Bool × (ℕ × ℤ)
canonical_parts sign zero e = (false, (0, pos 0))
canonical_parts sign (suc c) e = (sign, strip_zeros (suc c) e)

coefficient_text : Bool → ℕ → String
coefficient_text true c = text_append "-" (digits_of c)
coefficient_text false c = digits_of c

unfoldable pub tagged : Bool × (ℕ × ℤ) → Result Json
unfolding coefficient_text
tagged (sign, (c, e)) = do
  let coefficient = coefficient_text sign c
  require (leb (length (codes coefficient)) max_output_bytes)
  ok (
      Json.object (
        field decimal_tag
          (Json.array (item (Json.text coefficient) (item (Json.integer e) no_items))) no_fields))

-- `_normalize_decimal`
unfoldable pub normalize_decimal : Decimal → Result Json
unfolding canonical_parts tagged
normalize_decimal (finite sign c e) = tagged (canonical_parts sign c e)
normalize_decimal _ = raise value_error

absolute : ℤ → ℕ
absolute (pos n) = n
absolute (negsuc n) = suc n

-- `value.bit_length() > _MAX_INTEGER_BITS`
normalize_integer : ℤ → Result Json
unfolding absolute
normalize_integer n = require (ltb (absolute n) (2 ^ 4096)) >> ok (Json.integer n)

-- What a traversal gives of a value of type `A`: the result, and the items counted.
abbrev pub Traversal {ℓ} : Type ℓ → Type ℓ
Traversal A = ℕ → Result (A × ℕ)

uncounted : Result Json → Traversal Json
uncounted r items = do j ← r; ok (j, items)

-- A key is a text that can be printed, and not the tag of a decimal.
unfoldable pub is_key : String → Bool
unfolding is_printable
is_key k = is_printable k && not (str_eq k decimal_tag)

-- The keys of a dict are checked before its values.
unfoldable pub check_keys : Members → Result (Unit {0})
unfolding is_key
check_keys no_members = ok tt
check_keys (member k v rest) = require (is_key k) >> check_keys rest

module _ (normalize_one : Value → Traversal Json) where
  unfoldable pub normalize_values : Values → Traversal Items
  normalize_values no_values items = ok (no_items, items)
  normalize_values (value v rest) items = do
    (j, counted) ← normalize_one v items
    (js, total) ← normalize_values rest counted
    ok (item j js, total)

  unfoldable pub normalize_members : Members → Traversal Fields
  normalize_members no_members items = ok (no_fields, items)
  normalize_members (member k v rest) items = do
    (j, counted) ← normalize_one v items
    (js, total) ← normalize_members rest counted
    ok (field k j js, total)

  unfoldable pub normalize_object : Members → Traversal Json
  unfolding normalize_members
  normalize_object ms items = do
    (js, total) ← normalize_members ms items
    ok (Json.object js, total)

  -- One level: the values inside are normalized one level deeper.
  unfoldable pub normalize_within : Value → Traversal Json
  unfolding normalize_decimal normalize_integer validate_string uncounted check_keys
      normalize_values normalize_object
  normalize_within Value.null items = ok (Json.null, items)
  normalize_within Value.unsupported items = raise type_error
  normalize_within (Value.boolean b) items = ok (Json.boolean b, items)
  normalize_within (Value.integer n) items = uncounted (normalize_integer n) items
  normalize_within (Value.text s) items = uncounted (validate_string s >> ok (Json.text s)) items
  normalize_within (Value.decimal d) items = uncounted (normalize_decimal d) items
  normalize_within (Value.enumeration v) items = normalize_one v items
  normalize_within (Value.dataclass ms) items = normalize_object ms items
  normalize_within (Value.dict ms) items = check_keys ms >> normalize_object (sort_members ms) items
  normalize_within (Value.sequence vs) items = do
    (js, total) ← normalize_values vs items
    ok (Json.array js, total)

-- `_normalize`, with the levels that are left.
unfoldable pub normalize : ℕ → Value → Traversal Json
unfolding normalize_within
normalize zero v items = raise value_error
normalize (suc levels) v items =
    let within = normalize_within (normalize levels) v (suc items) in
    if ltb max_items (suc items) then raise value_error else within
