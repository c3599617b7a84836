-- ===== src/Decay/Defs.antt =====
-- The functions of src/kil/decay.py: each checks its inputs, then computes in the context. `Context`
-- stands for the C implementation of rounded decimal arithmetic.
use kil.Prelude.{Bool, not, ◌||◌, ℤ, pos, leb_ℤ, Result, ok, require, ◌>>=◌, ◌>>◌, if◌then◌else◌}
use kil.Decimal.{
  Decimal, finite, is_finite, le_dec, lt_dec, min_dec, max_dec, zero_dec, one_dec, Context,
}

-- `_require_finite_decimal` and the sign checks that follow it.
unfoldable pub require_finite : Decimal → Result (Unit {0})
require_finite value = require (is_finite value)

unfoldable pub require_nonneg : Decimal → Result (Unit {0})
require_nonneg value = require (not (lt_dec value zero_dec))

unfoldable pub require_positive : Decimal → Result (Unit {0})
require_positive value = require (not (le_dec value zero_dec))

abbrev pub two_dec : Decimal
two_dec = finite Bool.false 2 (pos 0)

unfoldable pub logistic_squash : Context → Decimal → Decimal → Result Decimal
unfolding require_finite require_nonneg require_positive
logistic_squash c raw k = do
  require_finite raw
  require_finite k
  require_nonneg raw
  require_positive k
  negated ← c.minus_op k
  scaled ← c.multiply_op negated raw
  shrunk ← c.exp_op scaled
  denominator ← c.add_op one_dec shrunk
  quotient ← c.divide_op two_dec denominator
  c.subtract_op quotient one_dec

-- The body of `passive_decay` under its context: `exact_charge * (-decay_rate * elapsed).exp()`.
unfoldable pub decayed_exactly : Context → Decimal → Decimal → Decimal → Result Decimal
decayed_exactly c charge decay_rate elapsed = do
  negated ← c.minus_op decay_rate
  scaled ← c.multiply_op negated elapsed
  factor ← c.exp_op scaled
  c.multiply_op charge factor

unfoldable pub passive_decay : Context → Decimal → Decimal → Decimal → Result Decimal
unfolding require_finite require_nonneg decayed_exactly
passive_decay c charge decay_rate elapsed = do
  require_finite charge
  require_finite decay_rate
  require_finite elapsed
  require_nonneg charge
  require_nonneg decay_rate
  require_nonneg elapsed
  computed ← decayed_exactly c charge decay_rate elapsed
  ok (min_dec charge (max_dec zero_dec computed))

-- `loss_rate * (divergence / threshold) ** exponent`
unfoldable pub penalty : Context → Decimal → Decimal → Decimal → ℤ → Result Decimal
penalty c divergence threshold loss_rate exponent = do
  ratio ← c.divide_op divergence threshold
  raised ← c.power_op ratio exponent
  c.multiply_op loss_rate raised

unfoldable pub superlinear_loss : Context → Decimal → Decimal → Decimal → ℤ → Result Decimal
unfolding require_finite require_nonneg require_positive penalty
superlinear_loss c divergence threshold loss_rate exponent = do
  require_finite divergence
  require_finite threshold
  require_finite loss_rate
  require (not (lt_dec divergence zero_dec || lt_dec one_dec divergence))
  require_positive threshold
  require_nonneg loss_rate
  require (not (leb_ℤ exponent (pos 1)))
  let computed = penalty c divergence threshold loss_rate exponent
  if le_dec divergence threshold then ok zero_dec else computed

-- `decayed_charge - loss - coupled_loss`
unfoldable pub reduced_charge : Context → Decimal → Decimal → Decimal → Result Decimal
reduced_charge c decayed_charge loss coupled_loss = do
  after_loss ← c.subtract_op decayed_charge loss
  c.subtract_op after_loss coupled_loss

unfoldable pub local_effective_charge :
    Context → Decimal → Decimal → Decimal → Decimal → Result Decimal
unfolding require_finite require_nonneg reduced_charge
local_effective_charge c decayed_charge loss coupled_loss maximum = do
  require_finite decayed_charge
  require_finite loss
  require_finite coupled_loss
  require_finite maximum
  require_nonneg decayed_charge
  require_nonneg loss
  require_nonneg coupled_loss
  require_nonneg maximum
  reduced ← reduced_charge c decayed_charge loss coupled_loss
  ok (min_dec (min_dec maximum decayed_charge) (max_dec zero_dec reduced))
