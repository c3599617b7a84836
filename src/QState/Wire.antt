-- ===== src/QState/Wire.antt =====
-- Decimals on the wire (src/kil/q_state.py): the length of the fixed-point text of a decimal, and
-- the texts that `_DECIMAL_PATTERN` accepts, with the decimal that `Decimal(raw)` makes of them.
use kil.Prelude.{
  ℕ, zero, suc, ◌+◌, ◌-◌, ◌*◌, ◌||◌, Bool, false, ◌&&◌, List, [], ◌∷◌, ◌++◌, Option, none, some,
  all, length, is_empty, ltb, leb, ◌==◌, is_digit, codes, String, ℤ, pos, sub_ℕ, ◌+ℤ◌,
  if◌then◌else◌,
}
use Prim.Native.Nat.{◌/◌, ◌%◌}
use kil.Decimal.{Decimal, finite}

abbrev pub max_decimal_wire_length : ℕ
max_decimal_wire_length = 64

-- `len(digits)` of a coefficient, with the coefficient as fuel; a number has at most as many digits
-- as its value, and one digit at least.
digit_count_fuel : ℕ → ℕ → ℕ
digit_count_fuel zero n = 1
digit_count_fuel (suc f) n =
    let rest = digit_count_fuel f (n / 10) in if ltb n 10 then 1 else suc rest

unfoldable pub digit_count : ℕ → ℕ
unfolding digit_count_fuel
digit_count n = digit_count_fuel n n

-- `while len(digits) > 1 and digits[-1] == 0: digits.pop(); exponent += 1`
strip_zeros_fuel : ℕ → ℕ → ℤ → ℕ × ℤ
strip_zeros_fuel zero n e = (n, e)
strip_zeros_fuel (suc f) n e =
    let rest = strip_zeros_fuel f (n / 10) (e +ℤ pos 1) in
    if leb 10 n && (n % 10 == 0) then rest else (n, e)

unfoldable pub strip_zeros : ℕ → ℤ → ℕ × ℤ
unfolding strip_zeros_fuel
strip_zeros n e = strip_zeros_fuel n n e

-- The length of the text of `count` digits at a (negative) exponent.
wire_length_of : ℕ → ℤ → ℕ
wire_length_of count (pos e) = count + e
wire_length_of count (ℤ.negsuc e) =
    if ltb (suc e) count then count + 1 else 2 + (suc e - count) + count

-- `_decimal_wire_length`, of a finite decimal.
unfoldable pub decimal_wire_length : Decimal → ℕ
unfolding strip_zeros digit_count wire_length_of
decimal_wire_length (finite s zero e) = 1
decimal_wire_length (finite s (suc c) e) =
    let stripped = strip_zeros (suc c) e in wire_length_of (digit_count stripped.0) stripped.1
decimal_wire_length _ = 0

-- The part of a text before the first point, and what follows the point if there is one.
unfoldable pub split_point : List ℕ → List ℕ × Option (List ℕ)
split_point [] = ([], none)
split_point (x ∷ xs) =
    let rest = split_point xs in if x == b'.' then ([], some xs) else (x ∷ rest.0, rest.1)

-- `0|[1-9][0-9]*`
is_whole : List ℕ → Bool
unfolding is_digit
is_whole [] = false
is_whole (x ∷ xs) = (x == b'0' && is_empty xs) || (leb b'1' x && leb x b'9' && all is_digit xs)

-- `[0-9]*[1-9]`
is_fraction : List ℕ → Bool
unfolding is_digit
is_fraction [] = false
is_fraction (x ∷ []) = leb b'1' x && leb x b'9'
is_fraction (x ∷ y ∷ ys) = is_digit x && is_fraction (y ∷ ys)

unfoldable pub digits_value : ℕ → List ℕ → ℕ
digits_value acc [] = acc
digits_value acc (x ∷ xs) = digits_value (acc * 10 + (x - b'0')) xs

-- The text of a whole part and a fraction that `_DECIMAL_PATTERN` matches, as a decimal.
unfoldable pub decimal_of_parts : List ℕ × Option (List ℕ) → Option Decimal
unfolding is_whole is_fraction digits_value
decimal_of_parts (whole, none) =
    if is_whole whole then some (finite false (digits_value 0 whole) (pos 0)) else none
decimal_of_parts (whole, some fraction) =
    if is_whole whole && is_fraction fraction
    then some (finite false (digits_value 0 (whole ++ fraction)) (sub_ℕ 0 (length fraction)))
    else none

-- `_DECIMAL_PATTERN.fullmatch(raw)` with the length bound, and then `Decimal(raw)`.
unfoldable pub parse_decimal : String → Option Decimal
unfolding split_point decimal_of_parts
parse_decimal raw =
    let cs = codes raw in
    if leb (length cs) max_decimal_wire_length then decimal_of_parts (split_point cs) else none
