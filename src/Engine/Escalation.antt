-- ===== src/Engine/Escalation.antt =====
-- The two modes of `decide` (src/kil/engine.py) on valid inputs.
use kil.Prelude.{
  ◌≡◌, refl, List, [], ◌∷◌, Option, none, false, any, any-append, arith, ok, >>=-eq-ok, IsOk-eq,
}
use kil.Decimal.{Decimal, Context, ContextLaws, Le, Le-trans, Nonneg, Le→not_lt_dec, zero_dec}
use kil.Domain.{
  EnforcementMode, DecisionOutcome, FailureDisposition, ReasonCode, ActionRequest, CompositeState,
  LocalEvidence, ReductionProfile, DecisionRecord, is_permitted, check_outcome,
  check_decision_record,
}
use kil.Domain.Validity.{IsValidRequest, IsValidState, IsValidEvidence, IsValidProfile}
use mathlib.Core.Path.{subst}
use kil.Decay.{passive_decay}
use kil.Decay.Bounds.{Ensures}
use kil.Engine.Defs.{
  authority_reasons, Charges, unreduced, elapsed_since_issue, charges_of_mode, measure,
  on_arithmetic_failure, all_reasons, decisive_reasons, settle, on_stale_evidence, record_of,
  checked_record, decide,
}
use kil.Engine.Reasons.{decide-permit_iff, decide-inv, decisive_or_stale, charges_of_mode-appended}
use kil.Engine.Totality.{Optional, Measured, measure-Measured, on_arithmetic_failure-Measured}

authority_reasons-not_permitted :
    (r : ActionRequest) (s : CompositeState) → any is_permitted (authority_reasons r s) ≡ false
unfolding authority_reasons
authority_reasons-not_permitted r s = simp any-append (ground arith)

all_reasons-not_permitted :
    (r : ActionRequest) (s : CompositeState) (ch : Charges)
    → any is_permitted ch.appended ≡ false
    → any is_permitted (all_reasons r s ch) ≡ false
unfolding all_reasons
all_reasons-not_permitted r s ch h = simp (any-append, h) (ground arith)

-- The reasons that `decide` settles on are those that its record demands.
settle-checks :
    (f : FailureDisposition) (rs : List ReasonCode)
    → any is_permitted rs ≡ false
    → check_outcome (settle f rs).0 (settle f rs).1 ≡ ok tt
unfolding settle on_stale_evidence check_outcome decisive_reasons
settle-checks f [] h = refl
settle-checks f (x ∷ rs) h = ground (arith, decisive_or_stale (x ∷ rs))

record_of-checks :
    (r : ActionRequest) (s : CompositeState) (m : EnforcementMode) (f : FailureDisposition)
    (ch : Charges)
    → IsValidRequest r
    → IsValidState s
    → Measured s ch
    → check_decision_record (record_of r s m f ch) ≡ ok tt
unfolding check_decision_record record_of
record_of-checks r s m f ch vr vs v =
    rw
      (
        vr.request_id_nonblank,
        vs.names.state_id_nonblank,
        vs.decimals.charge_finite,
        Le→not_lt_dec s.charge zero_dec vs.bounds.charge_nonneg,
        v.decayed_finite,
        Le→not_lt_dec ch.decayed zero_dec v.decayed_nonneg,
        v.effective_finite,
        Le→not_lt_dec ch.effective zero_dec v.effective_nonneg,
        Le→not_lt_dec s.charge ch.decayed v.decayed_reduced,
        Le→not_lt_dec ch.decayed ch.effective v.effective_reduced,
      )
      (settle-checks f (all_reasons r s ch) (all_reasons-not_permitted r s ch v.no_permit))

-- A decision on a valid request and state, and on evidence and a profile that are valid if given,
-- always returns, whatever signals the arithmetic raises, and its charges only fall:
-- 0 ≤ effective ≤ decayed ≤ signed.
pub decide-total :
    (c : Context) (laws : ContextLaws c) (r : ActionRequest) (s : CompositeState)
    (m : EnforcementMode) (e : Option LocalEvidence) (p : Option ReductionProfile)
    (f : FailureDisposition)
    → IsValidRequest r
    → IsValidState s
    → Optional IsValidEvidence e
    → Optional IsValidProfile p
    → (d : DecisionRecord) × (decide c r s m e p f ≡ ok d)
      × Nonneg d.effective_charge
      × Le d.effective_charge d.decayed_charge
      × Le d.decayed_charge d.signed_charge
      × (d.signed_charge ≡ s.charge)
unfolding decide checked_record record_of
decide-total c laws r s m e p f vr vs ve vp =
    let (ch, done, v) =
      on_arithmetic_failure-Measured c laws s vs (measure c r s m e p)
        (measure-Measured c laws s vs r m e p ve vp) in
    (
      record_of r s m f ch,
      rw (done, record_of-checks r s m f ch vr vs v) refl,
      v.effective_nonneg,
      v.effective_reduced,
      v.decayed_reduced,
      refl,
    )

measure-decayed :
    (c : Context) (r : ActionRequest) (s : CompositeState) (m : EnforcementMode)
    (e : Option LocalEvidence) (p : Option ReductionProfile) (ch : Charges)
    → measure c r s m e p ≡ ok ch
    → passive_decay c s.charge s.decay_rate (elapsed_since_issue r s) ≡ ok ch.decayed
unfolding measure
measure-decayed c r s m e p ch h =
    let decay = passive_decay c s.charge s.decay_rate (elapsed_since_issue r s) in
    let (x, h₁, h₂) = >>=-eq-ok decay (charges_of_mode c s m e p) h in
    rw (charges_of_mode-appended c s m e p x ch h₂).1 h₁

measure-signed :
    (c : Context) (r : ActionRequest) (s : CompositeState) (x : Decimal)
    → passive_decay c s.charge s.decay_rate (elapsed_since_issue r s) ≡ ok x
    → measure c r s EnforcementMode.signed_state_only none none ≡ ok (unreduced x [])
unfolding measure charges_of_mode
measure-signed c r s x h = rw h

-- The effective charge of a decision is that of its measurement.
decide-effective :
    (c : Context) (r : ActionRequest) (s : CompositeState) (m : EnforcementMode)
    (e : Option LocalEvidence) (p : Option ReductionProfile) (f : FailureDisposition)
    (d : DecisionRecord) (ch : Charges)
    → decide c r s m e p f ≡ ok d
    → measure c r s m e p ≡ ok ch
    → d.effective_charge ≡ ch.effective
unfolding decide on_arithmetic_failure checked_record record_of
decide-effective c r s m e p f d ch h measured =
    let (ch', h₁, same, _) = decide-inv c r s m e p f d h in
    let handled : on_arithmetic_failure (measure c r s m e p) ≡ ok ch = rw measured refl in
    rw (← same) (ground (arith, h₁, handled))

Measured-reduced : {s : CompositeState} (ch : Charges) → Measured s ch → Le ch.effective ch.decayed
Measured-reduced ch v = v.effective_reduced

-- Local evidence only takes permits away: where SIGNED_PLUS_LOCAL_REDUCE permits a valid request on a
-- valid state, with evidence and a profile that are valid if given, SIGNED_STATE_ONLY permits it too.
pub local-permit-signed :
    (c : Context) (laws : ContextLaws c) (r : ActionRequest) (s : CompositeState)
    (e : Option LocalEvidence) (p : Option ReductionProfile) (f : FailureDisposition)
    (d : DecisionRecord)
    → IsValidRequest r
    → IsValidState s
    → Optional IsValidEvidence e
    → Optional IsValidProfile p
    → decide c r s EnforcementMode.signed_plus_local_reduce e p f ≡ ok d
    → d.outcome ≡ DecisionOutcome.permit
    → (d' : DecisionRecord) × (decide c r s EnforcementMode.signed_state_only none none f ≡ ok d')
      × (d'.outcome ≡ DecisionOutcome.permit)
unfolding unreduced
local-permit-signed c laws r s e p f d vr vs ve vp h permits =
    let local = EnforcementMode.signed_plus_local_reduce in
    let signed = EnforcementMode.signed_state_only in
    let (auth, enough, hist, usable, measurable) =
      (decide-permit_iff c r s local e p f d h).0 permits in
    let (ch, measured) = IsOk-eq (measure c r s local e p) measurable in
    let (d', h', _, _, _, _) = decide-total c laws r s signed none none f vr vs tt tt in
    let plain = measure-signed c r s ch.decayed (measure-decayed c r s local e p ch measured) in
    let reduced =
      Measured-reduced ch
        (subst (Ensures (Measured s)) measured (measure-Measured c laws s vs r local e p ve vp)) in
    let charged : Le s.threshold d'.effective_charge =
      rw (decide-effective c r s signed none none f d' _ h' plain) (
        Le-trans s.threshold ch.effective ch.decayed
          (rw (decide-effective c r s local e p f d ch h measured) at enough) reduced) in
    (
      d',
      h',
      (decide-permit_iff c r s signed none none f d' h').1 (auth, charged, hist, tt, rw plain tt),
    )
