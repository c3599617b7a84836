-- ===== src/Domain/Validity.antt =====
-- What the checks of src/kil/domain.py establish, as predicates, and that they are exact.
use kil.Prelude.{◌≡◌, ◌↔◌, true, not, arith, ℤ, pos, ◌≤ℤ◌, is_nonblank, ok}
use kil.Decimal.{
  Decimal, is_finite, Le, le_dec, lt_dec, zero_dec, one_dec, Nonneg, le_dec→Le, Le→le_dec,
  not_lt_dec→Le, Le→not_lt_dec,
}
use kil.Domain.Types.{ActionRequest, CompositeState, LocalEvidence, ReductionProfile}
use kil.Domain.Checks.{
  min_timestamp_s, max_timestamp_s, check_state_names, check_state_decimals, check_state_bounds,
  check_composite_state, check_local_evidence, check_reduction_profile, check_action_request,
}

abbrev pub InRange : ℤ → Type 0
InRange t = (min_timestamp_s ≤ℤ t) × (t ≤ℤ max_timestamp_s)

pub record IsValidRequest (r : ActionRequest) : Type 0 where
  pub request_id_nonblank : is_nonblank r.request_id ≡ true
  pub identity_nonblank : is_nonblank r.identity ≡ true
  pub authority_class_nonblank : is_nonblank r.authority_class ≡ true
  pub timestamp_in_range : InRange r.timestamp_s

pub record IsValidEvidence (e : LocalEvidence) : Type 0 where
  pub divergence_finite : is_finite e.divergence ≡ true
  pub coupled_loss_finite : is_finite e.coupled_loss ≡ true
  pub divergence_nonneg : Nonneg e.divergence
  pub divergence_bounded : Le e.divergence one_dec
  pub coupled_loss_nonneg : Nonneg e.coupled_loss

pub record IsValidProfile (p : ReductionProfile) : Type 0 where
  pub divergence_threshold_finite : is_finite p.divergence_threshold ≡ true
  pub loss_rate_finite : is_finite p.loss_rate ≡ true
  pub divergence_threshold_pos : ¬ Le p.divergence_threshold zero_dec
  pub loss_rate_nonneg : Nonneg p.loss_rate
  pub exponent_large : pos 2 ≤ℤ p.exponent

pub le_dec_iff : (a b : Decimal) → (le_dec a b ≡ true) ↔ Le a b
le_dec_iff a b = (le_dec→Le a b, Le→le_dec a b)

pub not-lt_dec_iff : (a b : Decimal) → (not (lt_dec a b) ≡ true) ↔ Le b a
not-lt_dec_iff a b = ground (arith, not_lt_dec→Le a b, Le→not_lt_dec a b)

-- A request is constructed exactly when its names are not blank and its time is a signed 64-bit
-- integer.
pub check_action_request_iff :
    (r : ActionRequest) → (check_action_request r ≡ ok tt) ↔ IsValidRequest r
unfolding check_action_request
check_action_request_iff r = ground arith

-- The fields that each stage of the check establishes.
pub record ValidNames (s : CompositeState) : Type 0 where
  pub state_id_nonblank : is_nonblank s.state_id ≡ true
  pub identity_nonblank : is_nonblank s.identity ≡ true
  pub authority_class_nonblank : is_nonblank s.authority_class ≡ true
  pub issued_in_range : InRange s.issued_at_s
  pub not_before_in_range : InRange s.not_before_s
  pub expires_in_range : InRange s.expires_at_s

pub record ValidDecimals (s : CompositeState) : Type 0 where
  pub charge_finite : is_finite s.charge ≡ true
  pub threshold_finite : is_finite s.threshold ≡ true
  pub decay_rate_finite : is_finite s.decay_rate ≡ true
  pub maximum_charge_finite : is_finite s.maximum_charge ≡ true

pub record ValidBounds (s : CompositeState) : Type 0 where
  pub issued_first : s.issued_at_s ≤ℤ s.not_before_s
  pub window_open : ¬ (s.expires_at_s ≤ℤ s.not_before_s)
  pub charge_nonneg : Nonneg s.charge
  pub threshold_nonneg : Nonneg s.threshold
  pub decay_rate_nonneg : Nonneg s.decay_rate
  pub maximum_charge_nonneg : Nonneg s.maximum_charge
  pub charge_bounded : Le s.charge s.maximum_charge
  pub history_count_nonneg : pos 0 ≤ℤ s.history_count
  pub minimum_history_nonneg : pos 0 ≤ℤ s.minimum_history

pub record IsValidState (s : CompositeState) : Type 0 where
  pub names : ValidNames s
  pub open names use *
  pub decimals : ValidDecimals s
  pub open decimals use *
  pub bounds : ValidBounds s
  pub open bounds use *

check_state_names_iff : (s : CompositeState) → (check_state_names s ≡ ok tt) ↔ ValidNames s
unfolding check_state_names
check_state_names_iff s = ground arith

check_state_decimals_iff : (s : CompositeState) → (check_state_decimals s ≡ ok tt) ↔ ValidDecimals s
unfolding check_state_decimals
check_state_decimals_iff s = ground arith

check_state_bounds_iff : (s : CompositeState) → (check_state_bounds s ≡ ok tt) ↔ ValidBounds s
unfolding check_state_bounds
check_state_bounds_iff s = ground (
  arith,
  not-lt_dec_iff s.charge zero_dec,
  not-lt_dec_iff s.threshold zero_dec,
  not-lt_dec_iff s.decay_rate zero_dec,
  not-lt_dec_iff s.maximum_charge zero_dec,
  not-lt_dec_iff s.maximum_charge s.charge,
)

-- A state is constructed exactly when every one of the stated invariants holds of it.
pub check_composite_state_iff :
    (s : CompositeState) → (check_composite_state s ≡ ok tt) ↔ IsValidState s
unfolding check_composite_state
check_composite_state_iff s =
    ground (arith, check_state_names_iff s, check_state_decimals_iff s, check_state_bounds_iff s)

-- Local evidence is constructed exactly when its divergence lies in [0, 1] and its loss is finite
-- and not negative.
pub check_local_evidence_iff :
    (e : LocalEvidence) → (check_local_evidence e ≡ ok tt) ↔ IsValidEvidence e
unfolding check_local_evidence
check_local_evidence_iff e = ground (
  arith,
  le_dec_iff zero_dec e.divergence,
  le_dec_iff e.divergence one_dec,
  not-lt_dec_iff e.coupled_loss zero_dec,
)

pub check_reduction_profile_iff :
    (p : ReductionProfile) → (check_reduction_profile p ≡ ok tt) ↔ IsValidProfile p
unfolding check_reduction_profile
check_reduction_profile_iff p =
    ground (arith, le_dec_iff p.divergence_threshold zero_dec, not-lt_dec_iff p.loss_rate zero_dec)
