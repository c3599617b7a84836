-- ===== src/Tests/Engine.antt =====
-- Tests of the model of src/kil/engine.py and src/kil/decay.py, and their theorems at a request.
use kil.Prelude.{
  ◌≡◌, refl, ◌*◌, ◌^◌, ◌≤ℤ◌, [], ◌∷◌, none, some, true, false, arith, pos, negsuc, ok, IsOk,
  is_nonblank, ◌↔◌,
}
use kil.Decimal.{
  Charge, finite, Le, zero_dec, of_ℕ, Nonneg, is_finite, lt_dec, le_dec, min_dec, max_dec,
}
use kil.Domain.{
  EnforcementMode, DecisionOutcome, FailureDisposition, ReasonCode, ActionRequest, CompositeState,
  LocalEvidence, ReductionProfile, DecisionRecord, check_composite_state, check_local_evidence,
  check_reduction_profile, check_action_request, check_decision_record,
}
use kil.Domain.Validity.{
  IsValidRequest, IsValidState, IsValidEvidence, IsValidProfile, check_composite_state_iff,
  check_local_evidence_iff, check_reduction_profile_iff, check_action_request_iff,
}
use kil.Decay.{passive_decay, local_effective_charge, superlinear_loss}
use kil.Decay.Bounds.{
  Ensures, Within, passive_decay-Ensures, local_effective_charge-Ensures, superlinear_loss-Ensures,
}
use kil.Engine.{decide, measure}
use kil.Engine.Reasons.{Authorised, UsableEvidence, decide-permit_iff}
use kil.Engine.Escalation.{decide-total, local-permit-signed}
use kil.Tests.Arithmetic.{exact_context, exact_context-ContextLaws}

abbrev pub request : ActionRequest
request = record {
  request_id = "r-1";
  identity = "agent";
  authority_class = "ops";
  timestamp_s = pos 100;
}

abbrev pub state : CompositeState
state = record {
  state_id = "s-1";
  identity = "agent";
  authority_class = "ops";
  issued_at_s = pos 100;
  not_before_s = pos 100;
  expires_at_s = pos 110;
  charge = of_ℕ 9;
  threshold = of_ℕ 5;
  history_count = pos 4;
  minimum_history = pos 2;
  authentic = true;
  veto_clear = true;
  envelope_allows = true;
  decay_rate = finite false 5 (negsuc 1);
  maximum_charge = of_ℕ 10;
}

-- A divergence of 0.4 over a threshold of 0.2, squared, at a rate of 1.5: a loss of 6.
abbrev pub evidence : LocalEvidence
evidence = record { divergence = finite false 4 (negsuc 0); coupled_loss = zero_dec; fresh = true }

abbrev pub steep_profile : ReductionProfile
steep_profile = record {
  divergence_threshold = finite false 2 (negsuc 0);
  loss_rate = finite false 15 (negsuc 0);
  exponent = pos 2;
}

abbrev pub flat_profile : ReductionProfile
flat_profile = record steep_profile { loss_rate = finite false 5 (negsuc 1) }

pub request-IsValidRequest : IsValidRequest request
unfolding check_action_request is_nonblank
request-IsValidRequest = (check_action_request_iff request).0 refl

pub state-IsValidState : IsValidState state
unfolding check_composite_state is_nonblank lt_dec
state-IsValidState = (check_composite_state_iff state).0 refl

pub evidence-IsValidEvidence : IsValidEvidence evidence
unfolding check_local_evidence le_dec lt_dec
evidence-IsValidEvidence = (check_local_evidence_iff evidence).0 refl

pub flat_profile-IsValidProfile : IsValidProfile flat_profile
unfolding check_reduction_profile le_dec lt_dec
flat_profile-IsValidProfile = (check_reduction_profile_iff flat_profile).0 refl

-- The same state permits without local evidence, and denies with it.
abbrev permitted_record : DecisionRecord
permitted_record = record {
  request_id = "r-1";
  state_id = "s-1";
  mode = EnforcementMode.signed_state_only;
  outcome = DecisionOutcome.permit;
  reasons = ReasonCode.permitted ∷ [];
  signed_charge = of_ℕ 9;
  decayed_charge = of_ℕ 9;
  effective_charge = of_ℕ 9;
}

decide-permits :
    decide exact_context request state EnforcementMode.signed_state_only none none
      FailureDisposition.closed
    ≡ ok permitted_record
unfolding decide exact_context is_nonblank lt_dec min_dec max_dec passive_decay
    check_decision_record
decide-permits = refl

nine : Nonneg (of_ℕ 9)
unfolding Le
nine = omega arith

one : Nonneg (of_ℕ 1)
unfolding Le
one = omega arith

ten : Nonneg (of_ℕ 10)
unfolding Le
ten = omega arith

none_elapsed : Nonneg zero_dec
unfolding Le
none_elapsed = omega arith

rate : Nonneg (finite false 15 (negsuc 0))
unfolding Le
rate = omega arith

-- With the loss of 6 the effective charge is 3, below the threshold.
decide-denies :
    (d : DecisionRecord) × (decide exact_context request state
        EnforcementMode.signed_plus_local_reduce
        (some evidence)
        (some steep_profile)
        FailureDisposition.closed
      ≡ ok d)
    × (d.outcome ≡ DecisionOutcome.deny)
    × (d.reasons ≡ ReasonCode.insufficient_charge ∷ [])
unfolding decide exact_context is_nonblank lt_dec le_dec min_dec max_dec passive_decay
    superlinear_loss local_effective_charge check_decision_record
decide-denies = (_, refl, refl, refl)

passive_decay-Ensures_example :
    Ensures (Within (of_ℕ 9)) (passive_decay exact_context (of_ℕ 9) (of_ℕ 1) zero_dec)
passive_decay-Ensures_example =
    passive_decay-Ensures exact_context exact_context-ContextLaws (of_ℕ 9) (of_ℕ 1) zero_dec
      (refl, nine) (refl, one) (refl, none_elapsed)

superlinear_loss-Ensures_example : Ensures Charge (
    superlinear_loss exact_context evidence.divergence steep_profile.divergence_threshold
      steep_profile.loss_rate
      (pos 2))
superlinear_loss-Ensures_example =
    superlinear_loss-Ensures exact_context exact_context-ContextLaws evidence.divergence
      steep_profile.divergence_threshold steep_profile.loss_rate (pos 2)
      (refl, evidence-IsValidEvidence.divergence_nonneg) evidence-IsValidEvidence.divergence_bounded
      refl flat_profile-IsValidProfile.divergence_threshold_pos (refl, rate) (omega arith)

local_effective_charge-Ensures_example :
    Ensures
      (λ d. (is_finite d ≡ true) × Nonneg d × Le d (of_ℕ 9) × Le d (of_ℕ 10))
      (local_effective_charge exact_context (of_ℕ 9) (of_ℕ 1) zero_dec (of_ℕ 10))
local_effective_charge-Ensures_example =
    local_effective_charge-Ensures exact_context exact_context-ContextLaws (of_ℕ 9) (of_ℕ 1)
      zero_dec (of_ℕ 10) (refl, nine) (refl, one) (refl, none_elapsed) (refl, ten)

decide-permit_iff_example : (DecisionOutcome.permit ≡ DecisionOutcome.permit) ↔ (
    Authorised request state
    × Le state.threshold (of_ℕ 9)
    × (state.minimum_history ≤ℤ state.history_count)
    × UsableEvidence EnforcementMode.signed_state_only none none
    × IsOk (measure exact_context request state EnforcementMode.signed_state_only none none))
decide-permit_iff_example =
    decide-permit_iff exact_context request state EnforcementMode.signed_state_only none none
      FailureDisposition.closed permitted_record decide-permits

decide-total_example :
    (d : DecisionRecord) × (decide exact_context request state
        EnforcementMode.signed_plus_local_reduce
        (some evidence)
        (some flat_profile)
        FailureDisposition.constrained
      ≡ ok d)
    × Nonneg d.effective_charge
    × Le d.effective_charge d.decayed_charge
    × Le d.decayed_charge d.signed_charge
    × (d.signed_charge ≡ state.charge)
decide-total_example =
    decide-total exact_context exact_context-ContextLaws request state
      EnforcementMode.signed_plus_local_reduce (some evidence) (some flat_profile)
      FailureDisposition.constrained request-IsValidRequest state-IsValidState
      evidence-IsValidEvidence flat_profile-IsValidProfile

-- The flat profile costs 0.2, so the local mode permits.
abbrev pub mild_record : DecisionRecord
mild_record = record permitted_record {
  mode = EnforcementMode.signed_plus_local_reduce;
  effective_charge = finite false (88 * 10 ^ 57) (negsuc 57);
}

mild-permits :
    decide exact_context request state EnforcementMode.signed_plus_local_reduce
      (some evidence)
      (some flat_profile)
      FailureDisposition.closed
    ≡ ok mild_record
unfolding decide exact_context is_nonblank lt_dec le_dec min_dec max_dec passive_decay
    superlinear_loss local_effective_charge check_decision_record
mild-permits = refl

local-permit-signed_example :
    (d : DecisionRecord) × (decide exact_context request state EnforcementMode.signed_state_only
        none none FailureDisposition.closed
      ≡ ok d)
    × (d.outcome ≡ DecisionOutcome.permit)
local-permit-signed_example =
    local-permit-signed exact_context exact_context-ContextLaws request state (some evidence)
      (some flat_profile) FailureDisposition.closed mild_record request-IsValidRequest
      state-IsValidState evidence-IsValidEvidence flat_profile-IsValidProfile mild-permits refl
