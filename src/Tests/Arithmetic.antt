-- ===== src/Tests/Arithmetic.antt =====
-- A decimal context to evaluate the model in: exact where that needs no rounding, with 28 further
-- digits in a quotient, and `exp` at zero only. It meets the laws of a context.
use kil.Prelude.{
  ℕ, zero, suc, ◌+◌, ◌-◌, ◌*◌, ◌^◌, ◌≡◌, refl, Bool, true, false, not, arith, ltb, ℤ, pos, negsuc,
  pos_part, neg_part, sub_ℕ, ◌+ℤ◌, ◌-ℤ◌, Result, ok, raise, invalid_operation, division_by_zero,
  ◌>>=◌, if◌then◌else◌,
}
use Prim.Native.Nat.{◌/◌}
use native.Mathlib.Nat.{one-le-pow}
use kil.Decimal.{Decimal, finite, Le, one_dec, Context, ContextLaws, Nonneg, NonnegResult, Traps}

xor : Bool → Bool → Bool
xor true b = not b
xor false b = b

minus_exact : Decimal → Result Decimal
minus_exact (finite s c e) = ok (finite (not s) c e)
minus_exact _ = raise invalid_operation

multiply_exact : Decimal → Decimal → Result Decimal
unfolding xor
multiply_exact (finite s c e) (finite s' c' e') = ok (finite (xor s s') (c * c') (e +ℤ e'))
multiply_exact _ _ = raise invalid_operation

-- The sum of two signed fractions over the product of their denominators.
signed_difference : ℕ → ℕ → ℤ → Decimal
signed_difference a b e = if ltb a b then finite true (b - a) e else finite false (a - b) e

numerator : Bool → Bool → ℕ → ℤ → ℕ
numerator s t c e = if xor s t then 0 else c * 10 ^ pos_part e

add_exact : Decimal → Decimal → Result Decimal
unfolding signed_difference numerator xor
add_exact (finite s c e) (finite s' c' e') = ok (
    signed_difference
      (numerator s false c e * 10 ^ neg_part e' + numerator s' false c' e' * 10 ^ neg_part e)
      (numerator s true c e * 10 ^ neg_part e' + numerator s' true c' e' * 10 ^ neg_part e)
      (sub_ℕ 0 (neg_part e + neg_part e')))
add_exact _ _ = raise invalid_operation

subtract_exact : Decimal → Decimal → Result Decimal
unfolding minus_exact add_exact
subtract_exact a b = do negated ← minus_exact b; add_exact a negated

divide_scaled : Decimal → Decimal → Result Decimal
unfolding xor
divide_scaled (finite s c e) (finite s' zero e') = raise division_by_zero
divide_scaled (finite s c e) (finite s' (suc c') e') =
    ok (finite (xor s s') (c * 10 ^ 28 / suc c') (e -ℤ e' -ℤ pos 28))
divide_scaled _ _ = raise invalid_operation

power_by : Decimal → ℕ → Result Decimal
power_by a zero = ok one_dec
power_by a (suc n) = do p ← power_by a n; multiply_exact a p

power_exact : Decimal → ℤ → Result Decimal
unfolding power_by multiply_exact
power_exact a (pos n) = power_by a n
power_exact a (negsuc n) = raise invalid_operation

exp_at_zero : Decimal → Result Decimal
exp_at_zero (finite s zero e) = ok one_dec
exp_at_zero _ = raise invalid_operation

-- A signed zero is the only nonnegative decimal with a minus sign.
Nonneg-signed : (c : ℕ) (e : ℤ) → Nonneg (finite true c e) → c ≡ 0
unfolding Le
Nonneg-signed zero e h = refl
Nonneg-signed (suc c) e h =
    let positive = one-le-pow (pos_part e) 10 (omega arith) in absurd (omega arith)

Nonneg-unsigned : (c : ℕ) (e : ℤ) → Nonneg (finite false c e)
unfolding Le
Nonneg-unsigned c e = omega arith

Nonneg-zero : (s : Bool) (c : ℕ) (e : ℤ) → c ≡ 0 → Nonneg (finite s c e)
unfolding Le
Nonneg-zero true c e h = rw h (omega arith)
Nonneg-zero false c e h = Nonneg-unsigned c e

multiply_exact-Nonneg : (a b : Decimal) → Nonneg a → Nonneg b → NonnegResult (multiply_exact a b)
unfolding multiply_exact
multiply_exact-Nonneg (finite false c e) (finite false c' e') h k = Nonneg-unsigned (c * c') _
multiply_exact-Nonneg (finite true c e) (finite s' c' e') h k =
    Nonneg-zero _ (c * c') _ (rw (Nonneg-signed c e h) (omega arith))
multiply_exact-Nonneg (finite false c e) (finite true c' e') h k =
    Nonneg-zero _ (c * c') _ (rw (Nonneg-signed c' e' k) (omega arith))
multiply_exact-Nonneg _ _ h k = ground arith

divide_scaled-Nonneg : (a b : Decimal) → Nonneg a → Nonneg b → NonnegResult (divide_scaled a b)
unfolding divide_scaled
divide_scaled-Nonneg (finite s c e) (finite s' zero e') h k = tt
divide_scaled-Nonneg (finite false c e) (finite false (suc c') e') h k = Nonneg-unsigned _ _
divide_scaled-Nonneg (finite true c e) (finite s' (suc c') e') h k =
    Nonneg-zero _ _ _ (rw (Nonneg-signed c e h) (omega arith))
divide_scaled-Nonneg (finite false c e) (finite true (suc c') e') h k =
    absurd (omega (arith, Nonneg-signed (suc c') e' k))
divide_scaled-Nonneg _ _ h k = ground arith

Nonneg-bind :
    (m : Result Decimal) (f : Decimal → Result Decimal)
    → NonnegResult m
    → ((d : Decimal) → Nonneg d → NonnegResult (f d))
    → NonnegResult (m >>= f)
Nonneg-bind (ok d) f h k = k d h
Nonneg-bind (raise e) f h k = tt

power_by-Nonneg : (a : Decimal) (n : ℕ) → Nonneg a → NonnegResult (power_by a n)
unfolding power_by
power_by-Nonneg a zero h = Nonneg-unsigned 1 (pos 0)
power_by-Nonneg a (suc n) h =
    Nonneg-bind (power_by a n) (multiply_exact a) (power_by-Nonneg a n h)
      λ p k. multiply_exact-Nonneg a p h k

power_exact-Nonneg : (a : Decimal) (n : ℤ) → Nonneg a → NonnegResult (power_exact a n)
unfolding power_exact
power_exact-Nonneg a (pos n) h = power_by-Nonneg a n h
power_exact-Nonneg a (negsuc n) h = tt

Traps-bind :
    (m : Result Decimal) (f : Decimal → Result Decimal)
    → Traps m
    → ((d : Decimal) → Traps (f d))
    → Traps (m >>= f)
Traps-bind (ok d) f h k = k d
Traps-bind (raise e) f h k = h

minus_exact-Traps : (a : Decimal) → Traps (minus_exact a)
unfolding minus_exact
minus_exact-Traps (finite s c e) = refl
minus_exact-Traps _ = refl

multiply_exact-Traps : (a b : Decimal) → Traps (multiply_exact a b)
unfolding multiply_exact
multiply_exact-Traps (finite s c e) (finite s' c' e') = refl
multiply_exact-Traps _ _ = refl

add_exact-Traps : (a b : Decimal) → Traps (add_exact a b)
unfolding add_exact
add_exact-Traps (finite s c e) (finite s' c' e') = ground arith
add_exact-Traps _ _ = refl

subtract_exact-Traps : (a b : Decimal) → Traps (subtract_exact a b)
unfolding subtract_exact
subtract_exact-Traps a b =
    Traps-bind (minus_exact b) (add_exact a) (minus_exact-Traps b) (add_exact-Traps a)

divide_scaled-Traps : (a b : Decimal) → Traps (divide_scaled a b)
unfolding divide_scaled
divide_scaled-Traps (finite s c e) (finite s' zero e') = refl
divide_scaled-Traps (finite s c e) (finite s' (suc c') e') = refl
divide_scaled-Traps _ _ = refl

power_by-Traps : (a : Decimal) (n : ℕ) → Traps (power_by a n)
unfolding power_by
power_by-Traps a zero = refl
power_by-Traps a (suc n) =
    Traps-bind (power_by a n) (multiply_exact a) (power_by-Traps a n) (multiply_exact-Traps a)

power_exact-Traps : (a : Decimal) (n : ℤ) → Traps (power_exact a n)
unfolding power_exact
power_exact-Traps a (pos n) = power_by-Traps a n
power_exact-Traps a (negsuc n) = refl

exp_at_zero-Traps : (a : Decimal) → Traps (exp_at_zero a)
unfolding exp_at_zero
exp_at_zero-Traps (finite s zero e) = refl
exp_at_zero-Traps _ = refl

unfoldable pub exact_context : Context
unfolding minus_exact add_exact subtract_exact multiply_exact divide_scaled power_exact exp_at_zero
exact_context = record {
  minus_op = minus_exact;
  add_op = add_exact;
  subtract_op = subtract_exact;
  multiply_op = multiply_exact;
  divide_op = divide_scaled;
  power_op = power_exact;
  exp_op = exp_at_zero;
}

pub exact_context-ContextLaws : ContextLaws exact_context
unfolding exact_context
exact_context-ContextLaws = record {
  minus_traps = λ a _. minus_exact-Traps a;
  subtract_traps = λ a b _ _. subtract_exact-Traps a b;
  multiply_traps = λ a b _ _. multiply_exact-Traps a b;
  divide_traps = λ a b _ _. divide_scaled-Traps a b;
  power_traps = λ a n _. power_exact-Traps a n;
  exp_traps = λ a _. exp_at_zero-Traps a;
  multiply_nonneg = λ a b h k. multiply_exact-Nonneg a b h.1 k.1;
  divide_nonneg = λ a b h k. divide_scaled-Nonneg a b h.1 k.1;
  power_nonneg = λ a n h. power_exact-Nonneg a n h.1;
}
