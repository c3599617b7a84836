-- ===== src/Tests/QState.antt =====
-- Tests of src/kil/q_state.py's model, and its theorems at concrete tokens.
use kil.Prelude.{◌≡◌, refl, some, none, ℤ, Bool}
use kil.Decimal.{finite}
use kil.QState.{parse_decimal, decimal_wire_length}

parse_decimal_fraction : parse_decimal "12.05" ≡ some (finite Bool.false 1205 (ℤ.negsuc 1))
unfolding parse_decimal
parse_decimal_fraction = refl

parse_decimal_trailing_zero : parse_decimal "12.50" ≡ none
unfolding parse_decimal
parse_decimal_trailing_zero = refl

decimal_wire_length_small : decimal_wire_length (finite Bool.false 500 (ℤ.negsuc 4)) ≡ 5
unfolding decimal_wire_length
decimal_wire_length_small = refl
