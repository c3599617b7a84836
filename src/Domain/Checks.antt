-- ===== src/Domain/Checks.antt =====
-- The `__post_init__` checks of src/kil/domain.py, in the order of the source.
use kil.Prelude.{
  Bool, false, not, ◌&&◌, ℤ, pos, negsuc, ltb_ℤ, leb_ℤ, List, [], ◌∷◌, any, is_empty, is_nonblank,
  String, Result, require, ◌>>◌,
}
use kil.Decimal.{Decimal, is_finite, le_dec, lt_dec, zero_dec, one_dec}
use kil.Domain.Types.{
  DecisionOutcome, ReasonCode, is_permitted, ActionRequest, CompositeState, LocalEvidence,
  ReductionProfile, DecisionRecord,
}

abbrev pub min_timestamp_s : ℤ
min_timestamp_s = negsuc 9223372036854775807

abbrev pub max_timestamp_s : ℤ
max_timestamp_s = pos 9223372036854775807

unfoldable pub require_identifier : String → Result (Unit {0})
require_identifier value = require (is_nonblank value)

unfoldable pub require_timestamp : ℤ → Result (Unit {0})
require_timestamp value = require (leb_ℤ min_timestamp_s value && leb_ℤ value max_timestamp_s)

unfoldable pub require_finite_decimal : Decimal → Result (Unit {0})
require_finite_decimal value = require (is_finite value)

-- `if value < ZERO: raise ValueError(...)`
unfoldable pub require_nonneg_decimal : Decimal → Result (Unit {0})
require_nonneg_decimal value = require (not (lt_dec value zero_dec))

unfoldable pub check_action_request : ActionRequest → Result (Unit {0})
unfolding require_identifier require_timestamp
check_action_request r = do
  require_identifier r.request_id
  require_identifier r.identity
  require_identifier r.authority_class
  require_timestamp r.timestamp_s

-- The three stages of `CompositeState.__post_init__`: names and times, finite decimals, bounds.
unfoldable pub check_state_names : CompositeState → Result (Unit {0})
unfolding require_identifier require_timestamp
check_state_names s = do
  require_identifier s.state_id
  require_identifier s.identity
  require_identifier s.authority_class
  require_timestamp s.issued_at_s
  require_timestamp s.not_before_s
  require_timestamp s.expires_at_s

unfoldable pub check_state_decimals : CompositeState → Result (Unit {0})
unfolding require_finite_decimal
check_state_decimals s = do
  require_finite_decimal s.charge
  require_finite_decimal s.threshold
  require_finite_decimal s.decay_rate
  require_finite_decimal s.maximum_charge

unfoldable pub check_state_bounds : CompositeState → Result (Unit {0})
unfolding require_nonneg_decimal
check_state_bounds s = do
  require (leb_ℤ s.issued_at_s s.not_before_s && ltb_ℤ s.not_before_s s.expires_at_s)
  require_nonneg_decimal s.charge
  require_nonneg_decimal s.threshold
  require_nonneg_decimal s.decay_rate
  require_nonneg_decimal s.maximum_charge
  require (not (lt_dec s.maximum_charge s.charge))
  require (not (ltb_ℤ s.history_count (pos 0)) && not (ltb_ℤ s.minimum_history (pos 0)))

unfoldable pub check_composite_state : CompositeState → Result (Unit {0})
unfolding check_state_names check_state_decimals check_state_bounds
check_composite_state s = do check_state_names s; check_state_decimals s; check_state_bounds s

unfoldable pub check_local_evidence : LocalEvidence → Result (Unit {0})
unfolding require_finite_decimal require_nonneg_decimal
check_local_evidence e = do
  require_finite_decimal e.divergence
  require_finite_decimal e.coupled_loss
  require (le_dec zero_dec e.divergence && le_dec e.divergence one_dec)
  require_nonneg_decimal e.coupled_loss

unfoldable pub check_reduction_profile : ReductionProfile → Result (Unit {0})
unfolding require_finite_decimal require_nonneg_decimal
check_reduction_profile p = do
  require_finite_decimal p.divergence_threshold
  require_finite_decimal p.loss_rate
  require (not (le_dec p.divergence_threshold zero_dec))
  require_nonneg_decimal p.loss_rate
  require (not (leb_ℤ p.exponent (pos 1)))

-- `self.reasons == (ReasonCode.PERMITTED,)`
unfoldable pub is_exactly_permitted : List ReasonCode → Bool
is_exactly_permitted [] = false
is_exactly_permitted (r ∷ []) = is_permitted r
is_exactly_permitted (r ∷ s ∷ rs) = false

-- The end of `DecisionRecord.__post_init__`: what each outcome demands of the reasons.
unfoldable pub check_outcome : DecisionOutcome → List ReasonCode → Result (Unit {0})
unfolding is_exactly_permitted
check_outcome DecisionOutcome.permit reasons = require (is_exactly_permitted reasons)
check_outcome DecisionOutcome.deny reasons = do
  require (not (any is_permitted reasons))
  require (not (is_empty reasons))
check_outcome DecisionOutcome.constrain reasons = do
  require (not (any is_permitted reasons))
  require (not (is_empty reasons))
check_outcome DecisionOutcome.indeterminate reasons = require (not (any is_permitted reasons))

unfoldable pub check_decision_record : DecisionRecord → Result (Unit {0})
unfolding require_identifier require_finite_decimal require_nonneg_decimal check_outcome
check_decision_record d = do
  require_identifier d.request_id
  require_identifier d.state_id
  require_finite_decimal d.signed_charge
  require_nonneg_decimal d.signed_charge
  require_finite_decimal d.decayed_charge
  require_nonneg_decimal d.decayed_charge
  require_finite_decimal d.effective_charge
  require_nonneg_decimal d.effective_charge
  require (not (lt_dec d.signed_charge d.decayed_charge))
  require (not (lt_dec d.decayed_charge d.effective_charge))
  check_outcome d.outcome d.reasons
