-- ===== src/LiveAuthz/Digests.antt =====
-- The digest that a decision of src/kil/live_authz.py carries.
use kil.Prelude.{
  ◌≡◌, refl, List, [], ◌∷◌, ◌++◌, Option, none, some, String, Result, ok, raise,
  q_state_verification_error, >>=-eq-ok, Bool-cases, inl, inr, ok-inj, ◌||◌, is_empty,
}
use mathlib.Core.Path.{subst}
use kil.Canonical.{canonical_digest}
use kil.Domain.{DecisionOutcome, DecisionRecord}
use kil.QState.{VerifiedQState, verify_q_state}
use kil.LiveAuthz.Identity.{LiveTrack, DecisionIdentity, identity_value}
use kil.LiveAuthz.Defs.{
  is_baseline, LiveFixture, LiveDecision, Platform, AuthorizationAdapter, decide_on_track,
  ignored_reasons, digested, result, evaluate_baseline, expectation, decide_verified,
  evaluate_signed, evaluate, baseline_reasons, is_only_ignored,
}

module _ (p : Platform) where
  -- The digest is of the decision's own facts.
  abbrev pub OwnDigest : LiveDecision → Type 0
  OwnDigest d = canonical_digest p.sha256_hex (identity_value d.identity) ≡ ok d.decision_digest

  digested-OwnDigest :
      (i : DecisionIdentity) (d : LiveDecision)
      → digested p i ≡ ok d
      → OwnDigest d × (d.identity ≡ i)
  unfolding digested
  digested-OwnDigest i d h =
      let (digest, e, same) = >>=-eq-ok (canonical_digest p.sha256_hex (identity_value i)) _ h in
      subst (λ (x : LiveDecision). OwnDigest x × (x.identity ≡ i)) (ok-inj same) (e, refl)

  result-OwnDigest :
      (t : LiveTrack) (x : LiveFixture) (o : DecisionOutcome) (rs : List String)
      (e : Option DecisionRecord) (d : LiveDecision)
      → result p t x o rs e ≡ ok d
      → OwnDigest d
  unfolding result
  result-OwnDigest t x o rs e d h = (digested-OwnDigest _ d h).0

  decide_verified-OwnDigest :
      (a : AuthorizationAdapter p) (x : LiveFixture) (r : Result VerifiedQState) (d : LiveDecision)
      → decide_verified p a x r ≡ ok d
      → OwnDigest d
  unfolding decide_verified
  decide_verified-OwnDigest a x (ok v) d h =
      let (e, decided, same) =
        >>=-eq-ok (decide_on_track p.context a.track x v.composite_state) _ h in
      result-OwnDigest a.track x e.outcome (ignored_reasons x) (some e) d same
  decide_verified-OwnDigest a x (raise q_state_verification_error) d h =
      result-OwnDigest a.track x DecisionOutcome.deny
        (ignored_reasons x ++ "q_state_verification_failed" ∷ []) none d h
  decide_verified-OwnDigest a x (raise e) d h = cc

  evaluate_signed-OwnDigest :
      (a : AuthorizationAdapter p) (x : LiveFixture) (o : Option String) (d : LiveDecision)
      → evaluate_signed p a x o ≡ ok d
      → OwnDigest d
  unfolding evaluate_signed
  evaluate_signed-OwnDigest a x none d h =
      result-OwnDigest a.track x DecisionOutcome.deny (ignored_reasons x ++ "q_state_missing" ∷ [])
        none d h
  evaluate_signed-OwnDigest a x (some token) d h =
      decide_verified-OwnDigest a x (verify_q_state p.tokens token a.keys (expectation p a x)) d h

  evaluate_baseline-OwnDigest :
      (t : LiveTrack) (x : LiveFixture) (d : LiveDecision)
      → evaluate_baseline p t x ≡ ok d
      → OwnDigest d
  unfolding evaluate_baseline
  evaluate_baseline-OwnDigest t x d h =
      elim (Bool-cases (is_empty (baseline_reasons x) || is_only_ignored (baseline_reasons x))) [
        | inl e ↦
            result-OwnDigest t x DecisionOutcome.permit
              (baseline_reasons x ++ "baseline_permitted" ∷ []) none d (rw e at h)
        | inr e ↦ result-OwnDigest t x DecisionOutcome.deny (baseline_reasons x) none d (rw e at h)
      ]

  pub evaluate-OwnDigest :
      (a : AuthorizationAdapter p) (x : LiveFixture) (d : LiveDecision)
      → evaluate p a x ≡ ok d
      → OwnDigest d
  unfolding evaluate
  evaluate-OwnDigest a x d h = elim (Bool-cases (is_baseline a.track)) [
    | inl e ↦ evaluate_baseline-OwnDigest a.track x d (rw e at h)
    | inr e ↦ evaluate_signed-OwnDigest a x x.q_state_jws d (rw e at h)
  ]
