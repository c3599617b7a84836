-- ===== src/Engine/Defs.antt =====
-- `decide` of src/kil/engine.py. The statements between its early checks and its record are helpers
-- here: the authority checks, the charges of the `try` block, its handler, and the outcome.
use kil.Prelude.{
  not, ◌++◌, List, [], ◌∷◌, Option, none, some, any, keep, is_empty, when, ◌-ℤ◌, max_zero, ltb_ℤ,
  leb_ℤ, str_eq, Result, ok, raise, ◌>>=◌, ◌>>◌, is_arithmetic, if◌then◌else◌,
}
use kil.Decimal.{Decimal, Context, zero_dec, of_ℕ, lt_dec}
use kil.Domain.{
  EnforcementMode, DecisionOutcome, FailureDisposition, ReasonCode, ActionRequest, CompositeState,
  LocalEvidence, ReductionProfile, DecisionRecord, is_stale, check_decision_record,
}
use kil.Decay.{passive_decay, superlinear_loss, local_effective_charge}

-- The reasons appended before the charges are computed.
unfoldable pub authority_reasons : ActionRequest → CompositeState → List ReasonCode
authority_reasons request state =
    when (not (str_eq request.identity state.identity)) ReasonCode.identity_mismatch
    ++ when (not (str_eq request.authority_class state.authority_class)) ReasonCode.class_mismatch
    ++ when (not state.veto_clear) ReasonCode.veto
    ++ when (not state.envelope_allows) ReasonCode.outside_envelope
    ++ when (not state.authentic) ReasonCode.state_unauthentic
    ++ when (ltb_ℤ request.timestamp_s state.not_before_s) ReasonCode.state_not_yet_valid
    ++ when (leb_ℤ state.expires_at_s request.timestamp_s) ReasonCode.state_expired

-- What the `try` block leaves behind: the two charges, and the reasons that it appends.
pub record Charges : Type 0 where
  pub decayed : Decimal
  pub effective : Decimal
  pub appended : List ReasonCode

-- `effective = decayed`, with what is appended to the reasons.
unfoldable pub unreduced : Decimal → List ReasonCode → Charges
unreduced decayed appended = record { decayed = decayed; effective = decayed; appended = appended }

-- The `else` branch of mode SIGNED_PLUS_LOCAL_REDUCE: fresh evidence reduces the charge.
unfoldable pub reduce_locally :
    Context → CompositeState → Decimal → LocalEvidence → ReductionProfile → Result Charges
reduce_locally c state decayed evidence profile = do
  loss ←
      superlinear_loss c evidence.divergence profile.divergence_threshold profile.loss_rate
        profile.exponent
  effective ← local_effective_charge c decayed loss evidence.coupled_loss state.maximum_charge
  ok (record { decayed = decayed; effective = effective; appended = [] })

-- Mode SIGNED_PLUS_LOCAL_REDUCE: missing or stale evidence is noted, and reduces nothing.
unfoldable pub local_reduction :
    Context
    → CompositeState
    → Decimal
    → Option LocalEvidence
    → Option ReductionProfile
    → Result Charges
unfolding unreduced reduce_locally
local_reduction c state decayed (some evidence) (some profile) =
    let reduced = reduce_locally c state decayed evidence profile in
    if evidence.fresh
    then reduced
    else ok (unreduced decayed (ReasonCode.local_evidence_stale ∷ []))
local_reduction c state decayed none profile =
    ok (unreduced decayed (ReasonCode.local_evidence_stale ∷ []))
local_reduction c state decayed (some evidence) none =
    ok (unreduced decayed (ReasonCode.local_evidence_stale ∷ []))

-- `Decimal(max(0, request.timestamp_s - state.issued_at_s))`
unfoldable pub elapsed_since_issue : ActionRequest → CompositeState → Decimal
elapsed_since_issue request state = of_ℕ (max_zero (request.timestamp_s -ℤ state.issued_at_s))

-- The charge under the mode, once the decay is known.
unfoldable pub charges_of_mode :
    Context
    → CompositeState
    → EnforcementMode
    → Option LocalEvidence
    → Option ReductionProfile
    → Decimal
    → Result Charges
unfolding unreduced local_reduction
charges_of_mode c state EnforcementMode.signed_state_only evidence profile decayed =
    ok (unreduced decayed [])
charges_of_mode c state EnforcementMode.signed_plus_local_reduce evidence profile decayed =
    local_reduction c state decayed evidence profile

-- The body of the `try` block.
unfoldable pub measure :
    Context
    → ActionRequest
    → CompositeState
    → EnforcementMode
    → Option LocalEvidence
    → Option ReductionProfile
    → Result Charges
unfolding elapsed_since_issue charges_of_mode
measure c request state mode evidence profile = do
  decayed ← passive_decay c state.charge state.decay_rate (elapsed_since_issue request state)
  charges_of_mode c state mode evidence profile decayed

-- `except (DivisionByZero, InvalidOperation, Overflow)`: any other exception passes through.
unfoldable pub on_arithmetic_failure : Result Charges → Result Charges
unfolding unreduced
on_arithmetic_failure (ok charges) = ok charges
on_arithmetic_failure (raise e) =
    if is_arithmetic e
    then ok (unreduced zero_dec (ReasonCode.arithmetic_failure ∷ []))
    else raise e

-- All reasons before the outcome is settled, in the order in which the code appends them.
unfoldable pub all_reasons : ActionRequest → CompositeState → Charges → List ReasonCode
unfolding authority_reasons
all_reasons request state charges =
    authority_reasons request state
    ++ (charges.appended
        ++ (when (lt_dec charges.effective state.threshold) ReasonCode.insufficient_charge
            ++ when (ltb_ℤ state.history_count state.minimum_history)
                ReasonCode.insufficient_history))

unfoldable pub decisive_reasons : List ReasonCode → List ReasonCode
decisive_reasons = keep (λ r. not (is_stale r))

-- The outcome of a request whose only weakness is stale local evidence.
unfoldable pub on_stale_evidence : FailureDisposition → DecisionOutcome
on_stale_evidence FailureDisposition.constrained = DecisionOutcome.constrain
on_stale_evidence FailureDisposition.closed = DecisionOutcome.deny

-- The outcome, and the reasons that the record carries.
unfoldable pub settle : FailureDisposition → List ReasonCode → DecisionOutcome × List ReasonCode
unfolding decisive_reasons on_stale_evidence
settle disposition reasons =
    if not (is_empty (decisive_reasons reasons))
    then (DecisionOutcome.deny, reasons)
    else if any is_stale reasons
    then (on_stale_evidence disposition, reasons)
    else (DecisionOutcome.permit, reasons ++ ReasonCode.permitted ∷ [])

unfoldable pub record_of :
    ActionRequest → CompositeState → EnforcementMode → FailureDisposition → Charges → DecisionRecord
unfolding all_reasons settle
record_of request state mode disposition charges =
    let settled = settle disposition (all_reasons request state charges) in
    record {
      request_id = request.request_id;
      state_id = state.state_id;
      mode = mode;
      outcome = settled.0;
      reasons = settled.1;
      signed_charge = state.charge;
      decayed_charge = charges.decayed;
      effective_charge = charges.effective;
    }

-- `DecisionRecord(...)`: the record, if its own checks pass.
unfoldable pub checked_record : DecisionRecord → Result DecisionRecord
checked_record d = check_decision_record d >> ok d

unfoldable pub decide :
    Context
    → ActionRequest
    → CompositeState
    → EnforcementMode
    → Option LocalEvidence
    → Option ReductionProfile
    → FailureDisposition
    → Result DecisionRecord
unfolding measure on_arithmetic_failure record_of checked_record
decide c request state mode evidence profile disposition = do
  charges ← on_arithmetic_failure (measure c request state mode evidence profile)
  checked_record (record_of request state mode disposition charges)
