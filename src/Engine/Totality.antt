-- ===== src/Engine/Totality.antt =====
-- The charges that `decide` (src/kil/engine.py) computes on valid inputs.
use kil.Prelude.{
  ℕ, ◌≡◌, refl, List, [], ◌∷◌, Option, none, some, true, false, any, arith, Result, ok, raise,
  Bool-cases, inl, inr,
}
use kil.Decimal.{
  Charge, Decimal, Context, ContextLaws, Le, Le-refl, Nonneg, zero_dec, of_ℕ, is_finite,
}
use kil.Domain.{
  EnforcementMode, ReasonCode, ActionRequest, CompositeState, LocalEvidence, ReductionProfile,
  is_permitted,
}
use kil.Domain.Validity.{IsValidState, IsValidEvidence, IsValidProfile}
use kil.Decay.{passive_decay, superlinear_loss, local_effective_charge}
use kil.Decay.Bounds.{
  Ensures, Ensures-bind, Within, passive_decay-Ensures, superlinear_loss-Ensures,
  local_effective_charge-Ensures,
}
use kil.Engine.Defs.{
  Charges, unreduced, reduce_locally, local_reduction, elapsed_since_issue, charges_of_mode,
  measure, on_arithmetic_failure,
}

-- An argument that may be missing is valid if it is there.
abbrev pub Optional : {A : Type 0} → (A → Type 0) → Option A → Type 0
Optional P none = Unit
Optional P (some a) = P a

-- What the `try` block and its handler leave behind.
pub record Measured (s : CompositeState) (ch : Charges) : Type 0 where
  pub decayed_finite : is_finite ch.decayed ≡ true
  pub effective_finite : is_finite ch.effective ≡ true
  pub effective_nonneg : Nonneg ch.effective
  pub effective_reduced : Le ch.effective ch.decayed
  pub decayed_reduced : Le ch.decayed s.charge
  pub decayed_nonneg : Nonneg ch.decayed
  pub no_permit : any is_permitted ch.appended ≡ false

unreduced-Measured :
    (s : CompositeState) (x : Decimal) (rs : List ReasonCode)
    → Within s.charge x
    → any is_permitted rs ≡ false
    → Measured s (unreduced x rs)
unfolding unreduced
unreduced-Measured s x rs (finite, nonneg, below) h = record {
  decayed_finite = finite;
  effective_finite = finite;
  effective_nonneg = nonneg;
  effective_reduced = Le-refl x;
  decayed_reduced = below;
  decayed_nonneg = nonneg;
  no_permit = h;
}

of_ℕ-Charge : (n : ℕ) → Charge (of_ℕ n)
unfolding Le
of_ℕ-Charge n = (refl, omega arith)

module _ (c : Context) (laws : ContextLaws c) (s : CompositeState) (vs : IsValidState s) where
  reduce_locally-Measured :
      (x : Decimal) (e : LocalEvidence) (p : ReductionProfile)
      → IsValidEvidence e
      → IsValidProfile p
      → Within s.charge x
      → Ensures (Measured s) (reduce_locally c s x e p)
  unfolding reduce_locally
  reduce_locally-Measured x e p ve vp (finite, nonneg, below) =
      Ensures-bind Charge (Measured s)
        (superlinear_loss c e.divergence p.divergence_threshold p.loss_rate p.exponent) _
        (superlinear_loss-Ensures c laws e.divergence p.divergence_threshold p.loss_rate p.exponent
          (ve.divergence_finite, ve.divergence_nonneg) ve.divergence_bounded
          vp.divergence_threshold_finite vp.divergence_threshold_pos
          (vp.loss_rate_finite, vp.loss_rate_nonneg) vp.exponent_large)
        λ loss hl.
          Ensures-bind (λ d. (is_finite d ≡ true) × Nonneg d × Le d x × Le d s.maximum_charge)
            (Measured s) (local_effective_charge c x loss e.coupled_loss s.maximum_charge) _
            (local_effective_charge-Ensures c laws x loss e.coupled_loss s.maximum_charge
              (finite, nonneg) hl (ve.coupled_loss_finite, ve.coupled_loss_nonneg)
              (vs.decimals.maximum_charge_finite, vs.bounds.maximum_charge_nonneg))
            λ d (f, n, l, _). record {
              decayed_finite = finite;
              effective_finite = f;
              effective_nonneg = n;
              effective_reduced = l;
              decayed_reduced = below;
              decayed_nonneg = nonneg;
              no_permit = refl;
            }

  charges_of_mode-Measured :
      (m : EnforcementMode) (e : Option LocalEvidence) (p : Option ReductionProfile) (x : Decimal)
      → Optional IsValidEvidence e
      → Optional IsValidProfile p
      → Within s.charge x
      → Ensures (Measured s) (charges_of_mode c s m e p x)
  unfolding charges_of_mode
  charges_of_mode-Measured EnforcementMode.signed_state_only e p x ve vp w =
      unreduced-Measured s x [] w refl
  charges_of_mode-Measured EnforcementMode.signed_plus_local_reduce none p x ve vp w =
      unreduced-Measured s x _ w refl
  charges_of_mode-Measured EnforcementMode.signed_plus_local_reduce (some e) none x ve vp w =
      unreduced-Measured s x _ w refl
  charges_of_mode-Measured EnforcementMode.signed_plus_local_reduce (some e) (some p) x ve vp w =
      elim (Bool-cases e.fresh) [
        | inl fresh ↦ rw (fresh, local_reduction) (reduce_locally-Measured x e p ve vp w)
        | inr old ↦ rw (old, local_reduction) (unreduced-Measured s x _ w refl)
      ]

  pub measure-Measured :
      (r : ActionRequest) (m : EnforcementMode) (e : Option LocalEvidence)
      (p : Option ReductionProfile)
      → Optional IsValidEvidence e
      → Optional IsValidProfile p
      → Ensures (Measured s) (measure c r s m e p)
  unfolding measure
  measure-Measured r m e p ve vp =
      Ensures-bind (Within s.charge) (Measured s)
        (passive_decay c s.charge s.decay_rate (elapsed_since_issue r s)) _
        (passive_decay-Ensures c laws s.charge s.decay_rate (elapsed_since_issue r s)
          (vs.decimals.charge_finite, vs.bounds.charge_nonneg)
          (vs.decimals.decay_rate_finite, vs.bounds.decay_rate_nonneg) elapsed)
        λ x w. charges_of_mode-Measured m e p x ve vp w
    where
      elapsed : Charge (elapsed_since_issue r s)
      elapsed = of_ℕ-Charge _

  -- The handler turns every signal into charges of zero.
  pub on_arithmetic_failure-Measured :
      (m : Result Charges)
      → Ensures (Measured s) m
      → (ch : Charges) × (on_arithmetic_failure m ≡ ok ch) × Measured s ch
  unfolding on_arithmetic_failure
  on_arithmetic_failure-Measured (ok ch) h = (ch, refl, h)
  on_arithmetic_failure-Measured (raise e) h = (
    unreduced zero_dec _,
    rw h refl,
    unreduced-Measured s zero_dec (ReasonCode.arithmetic_failure ∷ [])
        (refl, Le-refl zero_dec, vs.bounds.charge_nonneg) refl,
  )
