-- ===== src/Engine/Reasons.antt =====
-- What a permit of `decide` (src/kil/engine.py) rests on.
use kil.Prelude.{
  ◌≡◌, refl, ◌↔◌, List, [], ◌∷◌, Option, true, false, any, is_empty, is_empty-append, is_empty-when,
  eq-nil_iff, arith, ◌≤ℤ◌, str_eq_iff, Result, ok, raise, IsOk, some, none, ◌⊎◌, inl, inr, ◌≢◌,
  ◌>>◌, >>=-eq-ok,
}
use kil.Decimal.{Decimal, Context, Le, not_lt_dec→Le, Le→not_lt_dec}
use kil.Domain.{
  EnforcementMode, DecisionOutcome, FailureDisposition, ReasonCode, ActionRequest, CompositeState,
  LocalEvidence, ReductionProfile, DecisionRecord, is_stale, check_decision_record,
}
use kil.Decay.{passive_decay, superlinear_loss, local_effective_charge}
use kil.Engine.Defs.{
  authority_reasons, Charges, unreduced, reduce_locally, charges_of_mode, elapsed_since_issue,
  measure, on_arithmetic_failure, all_reasons, decisive_reasons, settle, record_of, checked_record,
  decide,
}

-- The signed state authorises the request: the identities and classes agree, no veto or envelope
-- stands against it, the state is authentic, and the time lies in its window.
pub record Authorised (r : ActionRequest) (s : CompositeState) : Type 0 where
  pub same_identity : r.identity ≡ s.identity
  pub same_class : r.authority_class ≡ s.authority_class
  pub veto_clear : s.veto_clear ≡ true
  pub envelope_allows : s.envelope_allows ≡ true
  pub authentic : s.authentic ≡ true
  pub begun : s.not_before_s ≤ℤ r.timestamp_s
  pub running : ¬ (s.expires_at_s ≤ℤ r.timestamp_s)

-- No reason at all speaks against the request.
pub record Sufficient (r : ActionRequest) (s : CompositeState) (ch : Charges) : Type 0 where
  pub authorised : Authorised r s
  pub measured : ch.appended ≡ []
  pub charged : Le s.threshold ch.effective
  pub experienced : s.minimum_history ≤ℤ s.history_count

ruleset empty_laws = (is_empty-append, is_empty-when)

authority_reasons-empty_iff :
    (r : ActionRequest) (s : CompositeState)
    → (is_empty (authority_reasons r s) ≡ true) ↔ Authorised r s
unfolding authority_reasons
authority_reasons-empty_iff r s = simp empty_laws (
    ground
      (arith, str_eq_iff r.identity s.identity, str_eq_iff r.authority_class s.authority_class))

all_reasons-empty_iff :
    (r : ActionRequest) (s : CompositeState) (ch : Charges)
    → (is_empty (all_reasons r s ch) ≡ true) ↔ Sufficient r s ch
unfolding all_reasons
all_reasons-empty_iff r s ch = simp empty_laws (
    ground (
      arith,
      authority_reasons-empty_iff r s,
      eq-nil_iff ch.appended,
      not_lt_dec→Le ch.effective s.threshold,
      Le→not_lt_dec ch.effective s.threshold,
    ))

-- Among non-empty reasons either one is decisive or one is stale evidence.
pub decisive_or_stale :
    (rs : List ReasonCode)
    → is_empty (decisive_reasons rs) ≡ true
    → any is_stale rs ≡ false
    → is_empty rs ≡ true
unfolding decisive_reasons
decisive_or_stale [] h k = refl
decisive_or_stale (x ∷ rs) h k = ground arith

settle-permit_iff :
    (f : FailureDisposition) (rs : List ReasonCode)
    → ((settle f rs).0 ≡ DecisionOutcome.permit) ↔ (is_empty rs ≡ true)
unfolding settle
settle-permit_iff f [] = ((λ h. refl), (λ h. refl))
settle-permit_iff f (x ∷ rs) = ground (arith, decisive_or_stale (x ∷ rs))

-- The mode has the evidence that it needs.
abbrev pub UsableEvidence :
    EnforcementMode → Option LocalEvidence → Option ReductionProfile → Type 0
UsableEvidence EnforcementMode.signed_state_only evidence profile = Unit
UsableEvidence EnforcementMode.signed_plus_local_reduce (some evidence) (some profile) =
    evidence.fresh ≡ true
UsableEvidence EnforcementMode.signed_plus_local_reduce (some evidence) none = ⊥
UsableEvidence EnforcementMode.signed_plus_local_reduce none profile = ⊥

module _ (c : Context) (s : CompositeState) where
  reduce_locally-appended :
      (x : Decimal) (e : LocalEvidence) (p : ReductionProfile) (ch : Charges)
      → reduce_locally c s x e p ≡ ok ch
      → (ch.appended ≡ []) × (ch.decayed ≡ x)
  unfolding reduce_locally
  reduce_locally-appended x e p ch h =
      let (loss, _, h₁) =
        >>=-eq-ok (superlinear_loss c e.divergence p.divergence_threshold p.loss_rate p.exponent) _
          h in
      let (effective, _, h₂) =
        >>=-eq-ok (local_effective_charge c x loss e.coupled_loss s.maximum_charge) _ h₁ in
      ground arith

  pub charges_of_mode-appended :
      (m : EnforcementMode) (e : Option LocalEvidence) (p : Option ReductionProfile) (x : Decimal)
      (ch : Charges)
      → charges_of_mode c s m e p x ≡ ok ch
      → ((ch.appended ≡ []) ↔ UsableEvidence m e p) × (ch.decayed ≡ x)
  unfolding charges_of_mode unreduced
  charges_of_mode-appended EnforcementMode.signed_state_only e p x ch h = ground arith
  charges_of_mode-appended EnforcementMode.signed_plus_local_reduce none p x ch h = ground arith
  charges_of_mode-appended EnforcementMode.signed_plus_local_reduce (some e) none x ch h =
      ground arith
  charges_of_mode-appended EnforcementMode.signed_plus_local_reduce (some e) (some p) x ch h =
      ground (arith, reduce_locally-appended x e p ch)

  measure-appended :
      (r : ActionRequest) (m : EnforcementMode) (e : Option LocalEvidence)
      (p : Option ReductionProfile) (ch : Charges)
      → measure c r s m e p ≡ ok ch
      → (ch.appended ≡ []) ↔ UsableEvidence m e p
  unfolding measure
  measure-appended r m e p ch h =
      let (x, _, h₁) =
        >>=-eq-ok (passive_decay c s.charge s.decay_rate (elapsed_since_issue r s)) _ h in
      (charges_of_mode-appended m e p x ch h₁).0

-- The handler leaves its mark on the reasons.
on_arithmetic_failure-appended :
    (m : Result Charges) (ch : Charges)
    → on_arithmetic_failure m ≡ ok ch
    → (m ≡ ok ch) ⊎ ((ch.appended ≢ []) × ¬ IsOk m)
unfolding on_arithmetic_failure unreduced
on_arithmetic_failure-appended (ok a) ch h = inl h
on_arithmetic_failure-appended (raise e) ch h = inr (ground arith, λ i. i)

then_ok :
    (m : Result (Unit {0})) (x d : DecisionRecord) → (m >> ok x) ≡ ok d → (x ≡ d) × (m ≡ ok tt)
then_ok (ok u) x d h = (cc, refl)
then_ok (raise e) x d h = cc

-- What a decision that returns was made of.
pub decide-inv :
    (c : Context) (r : ActionRequest) (s : CompositeState) (m : EnforcementMode)
    (e : Option LocalEvidence) (p : Option ReductionProfile) (f : FailureDisposition)
    (d : DecisionRecord)
    → decide c r s m e p f ≡ ok d
    → (ch : Charges) × (on_arithmetic_failure (measure c r s m e p) ≡ ok ch)
      × (record_of r s m f ch ≡ d)
      × (check_decision_record (record_of r s m f ch) ≡ ok tt)
unfolding decide checked_record
decide-inv c r s m e p f d h =
    let (ch, h₁, h₂) = >>=-eq-ok (on_arithmetic_failure (measure c r s m e p)) _ h in
    let (h₃, h₄) = then_ok (check_decision_record (record_of r s m f ch)) _ d h₂ in (ch, h₁, h₃, h₄)

record_of-permit_iff :
    (r : ActionRequest) (s : CompositeState) (m : EnforcementMode) (f : FailureDisposition)
    (ch : Charges)
    → ((record_of r s m f ch).outcome ≡ DecisionOutcome.permit) ↔ Sufficient r s ch
unfolding record_of
record_of-permit_iff r s m f ch =
    ground (arith, settle-permit_iff f (all_reasons r s ch), all_reasons-empty_iff r s ch)

record_of-effective :
    (r : ActionRequest) (s : CompositeState) (m : EnforcementMode) (f : FailureDisposition)
    (ch : Charges)
    → (record_of r s m f ch).effective_charge ≡ ch.effective
unfolding record_of
record_of-effective r s m f ch = refl

-- A decision is a permit exactly when the signed state authorises the request, the effective charge
-- meets the threshold, the history is long enough, the mode has fresh evidence where it needs it,
-- and the arithmetic raised no signal.
pub decide-permit_iff :
    (c : Context) (r : ActionRequest) (s : CompositeState) (m : EnforcementMode)
    (e : Option LocalEvidence) (p : Option ReductionProfile) (f : FailureDisposition)
    (d : DecisionRecord)
    → decide c r s m e p f ≡ ok d
    → (d.outcome ≡ DecisionOutcome.permit) ↔ (
        Authorised r s
        × Le s.threshold d.effective_charge
        × (s.minimum_history ≤ℤ s.history_count)
        × UsableEvidence m e p
        × IsOk (measure c r s m e p))
decide-permit_iff c r s m e p f d h =
    let (ch, h₁, same, _) = decide-inv c r s m e p f d h in
    let permit_iff = record_of-permit_iff r s m f ch in
    let effective = record_of-effective r s m f ch in
    elim (on_arithmetic_failure-appended (measure c r s m e p) ch h₁) [
      | inl measured ↦
          rw (← same, measured, effective)
            (ground (arith, permit_iff, measure-appended c s r m e p ch measured))
      | inr (marked, failed) ↦ rw (← same, effective) (ground (arith, permit_iff))
    ]
