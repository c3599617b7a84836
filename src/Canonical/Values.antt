-- ===== src/Canonical/Values.antt =====
-- The values that src/kil/canonical.py serializes, and the order of their keys.
use kil.Prelude.{
  map, Option, none, some, ℕ, Bool, true, false, List, [], ◌∷◌, ℤ, String, codes, ltb, ◌==◌,
  if◌then◌else◌,
}
use kil.Decimal.{Decimal}

mutual
  -- A Python value. An enumeration stands for the value that its member has. `unsupported` is any value of
  -- another type, and a dict with a key that is no text: both end in a TypeError. A value holds no cycle.
  pub data Value : Type 0 where
    null unsupported : Value
    boolean : Bool → Value
    integer : ℤ → Value
    text : String → Value
    decimal : Decimal → Value
    enumeration : Value → Value
    dataclass : Members → Value
    dict : Members → Value
    sequence : Values → Value

  -- The fields of a dataclass, or the items of a dict, in their order.
  pub data Members : Type 0 where
    no_members : Members
    member : String → Value → Members → Members

  pub data Values : Type 0 where
    no_values : Values
    value : Value → Values → Values

unfoldable pub values_of : List Value → Values
values_of [] = no_values
values_of (v ∷ vs) = value v (values_of vs)

unfoldable pub members_of : List (String × Value) → Members
members_of [] = no_members
members_of ((k, v) ∷ rest) = member k v (members_of rest)

-- A member of an enumeration of texts.
abbrev pub enum_text : String → Value
enum_text s = Value.enumeration (Value.text s)

-- A tuple of texts.
unfoldable pub texts_value : List String → Value
unfolding values_of
texts_value ss = Value.sequence (values_of (map Value.text ss))

-- A text or None.
unfoldable pub optional_text : Option String → Value
optional_text none = Value.null
optional_text (some s) = Value.text s

-- The order of Python's texts, by their code points.
unfoldable pub lt_codes : List ℕ → List ℕ → Bool
lt_codes xs [] = false
lt_codes [] (y ∷ ys) = true
lt_codes (x ∷ xs) (y ∷ ys) =
    let rest = lt_codes xs ys in if ltb x y then true else if x == y then rest else false

abbrev pub before : String → String → Bool
before k l = lt_codes (codes k) (codes l)

unfoldable pub insert_member : String → Value → Members → Members
unfolding lt_codes
insert_member k v no_members = member k v no_members
insert_member k v (member l w rest) =
    let later = member l w (insert_member k v rest) in
    if before k l then member k v (member l w rest) else later

-- `sorted(value)`, with the values that the keys have.
unfoldable pub sort_members : Members → Members
unfolding insert_member
sort_members no_members = no_members
sort_members (member k v rest) = insert_member k v (sort_members rest)
