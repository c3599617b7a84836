-- ===== src/Decimal/Arithmetic.antt =====
-- `_KIL_DECIMAL_CONTEXT` of src/kil/decay.py: 28 digits, rounding half to even, with the signals
-- InvalidOperation, DivisionByZero and Overflow trapped. Rounded arithmetic is the C library's, so
-- its operations are parameters, and what the code relies on is stated as laws.
use kil.Prelude.{ℤ, ◌≡◌, true, Result, ok, raise, is_arithmetic}
use kil.Decimal.Order.{Decimal, Le, zero_dec, is_finite}

-- Each operation rounds its exact result, or raises a trapped signal.
pub record Context : Type 0 where
  pub minus_op : Decimal → Result Decimal
  pub add_op : Decimal → Decimal → Result Decimal
  pub subtract_op : Decimal → Decimal → Result Decimal
  pub multiply_op : Decimal → Decimal → Result Decimal
  pub divide_op : Decimal → Decimal → Result Decimal
  pub power_op : Decimal → ℤ → Result Decimal
  pub exp_op : Decimal → Result Decimal

-- What an operation on finite operands does: it gives a finite value, since overflow and invalid results
-- are trapped, or it raises a trapped signal. Infinities and NaN pass through an operation without a
-- signal, and nothing is said of them.
abbrev pub Traps : Result Decimal → Type 0
Traps (ok d) = is_finite d ≡ true
Traps (raise e) = is_arithmetic e ≡ true

abbrev pub Nonneg : Decimal → Type 0
Nonneg d = Le zero_dec d

abbrev pub Finite : Decimal → Type 0
Finite d = is_finite d ≡ true

-- A finite decimal that is not negative.
abbrev pub Charge : Decimal → Type 0
Charge d = Finite d × Nonneg d

-- A result of an operation, where there is one, is not negative.
abbrev pub NonnegResult : Result Decimal → Type 0
NonnegResult (ok d) = Nonneg d
NonnegResult (raise e) = Unit

-- Rounding keeps the sign of the exact result.
pub record ContextLaws (c : Context) : Type 0 where
  pub minus_traps : (a : Decimal) → Finite a → Traps (c.minus_op a)
  pub subtract_traps : (a b : Decimal) → Finite a → Finite b → Traps (c.subtract_op a b)
  pub multiply_traps : (a b : Decimal) → Finite a → Finite b → Traps (c.multiply_op a b)
  pub divide_traps : (a b : Decimal) → Finite a → Finite b → Traps (c.divide_op a b)
  pub power_traps : (a : Decimal) (n : ℤ) → Finite a → Traps (c.power_op a n)
  pub exp_traps : (a : Decimal) → Finite a → Traps (c.exp_op a)
  pub multiply_nonneg : (a b : Decimal) → Charge a → Charge b → NonnegResult (c.multiply_op a b)
  pub divide_nonneg : (a b : Decimal) → Charge a → Charge b → NonnegResult (c.divide_op a b)
  pub power_nonneg : (a : Decimal) (n : ℤ) → Charge a → NonnegResult (c.power_op a n)
