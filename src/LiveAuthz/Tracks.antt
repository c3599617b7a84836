-- ===== src/LiveAuthz/Tracks.antt =====
-- What a permit of `AuthorizationAdapter.evaluate` (src/kil/live_authz.py) rests on, track by track.
use kil.Prelude.{
  ◌≡◌, refl, ◌↔◌, Bool, true, false, ◌||◌, Option, none, some, is_empty, arith, String, Result, ok,
  raise, q_state_verification_error, >>=-eq-ok,
}
use kil.Domain.{DecisionOutcome, DecisionRecord}
use kil.QState.{VerifiedQState, verify_q_state}
use kil.QState.Verification.{Accepted, verify_q_state-Accepted}
use kil.LiveAuthz.Identity.{LiveTrack}
use kil.LiveAuthz.Defs.{
  is_baseline, LiveFixture, LiveDecision, Platform, AuthorizationAdapter, has_mode_header,
  reasons_of, is_only_ignored, decide_on_track, result, expectation, decide_verified,
  evaluate_signed, evaluate,
}

baseline-permits :
    (ignored credential policy : Bool)
    → ((is_empty (reasons_of ignored credential policy)
          || is_only_ignored (reasons_of ignored credential policy))
        ≡ true)
      ↔ ((credential ≡ true) × (policy ≡ true))
unfolding is_only_ignored
baseline-permits true true true = ground arith
baseline-permits true true false = ground arith
baseline-permits true false true = ground arith
baseline-permits true false false = ground arith
baseline-permits false true true = ground arith
baseline-permits false true false = ground arith
baseline-permits false false true = ground arith
baseline-permits false false false = ground arith

module _ (p : Platform) where
  -- The baseline track permits exactly the requests whose credential is valid and whose action the
  -- policy allows: no header and no signed state matters.
  pub evaluate-baseline_iff :
      (a : AuthorizationAdapter p) (x : LiveFixture) (d : LiveDecision)
      → a.track ≡ LiveTrack.credential_policy_baseline
      → evaluate p a x ≡ ok d
      → (d.outcome ≡ DecisionOutcome.permit)
        ↔ ((x.credential_valid ≡ true) × (x.policy_allows_action ≡ true))
  unfolding evaluate
  evaluate-baseline_iff a x d t h =
      ground (arith, baseline-permits (has_mode_header x) x.credential_valid x.policy_allows_action)

  -- A permit of a signed track rests on a token that verifies for that track's audience, and on the
  -- engine's permit for the state that the token carries.
  pub record SignedPermit (a : AuthorizationAdapter p) (x : LiveFixture) (d : LiveDecision)
      : Type 0 where
    pub token : String
    pub verified : VerifiedQState
    pub engine_record : DecisionRecord
    pub presented : x.q_state_jws ≡ some token
    pub verifies : verify_q_state p.tokens token a.keys (expectation p a x) ≡ ok verified
    pub accepted : Accepted p.tokens token a.keys (expectation p a x) verified
    pub decided : decide_on_track p.context a.track x verified.composite_state ≡ ok engine_record
    pub permitted : engine_record.outcome ≡ DecisionOutcome.permit

  decide_verified-permit :
      (a : AuthorizationAdapter p) (x : LiveFixture) (r : Result VerifiedQState) (d : LiveDecision)
      → decide_verified p a x r ≡ ok d
      → d.outcome ≡ DecisionOutcome.permit
      → (v : VerifiedQState) × (e : DecisionRecord) × (r ≡ ok v)
        × (decide_on_track p.context a.track x v.composite_state ≡ ok e)
        × (e.outcome ≡ DecisionOutcome.permit)
  unfolding decide_verified result
  decide_verified-permit a x (ok v) d h permits =
      let (e, decided, same) =
        >>=-eq-ok (decide_on_track p.context a.track x v.composite_state) _ h in
      (v, e, refl, decided, ground arith)
  decide_verified-permit a x (raise q_state_verification_error) d h permits = ground arith
  decide_verified-permit a x (raise e) d h permits = cc

  evaluate_signed-permit :
      (a : AuthorizationAdapter p) (x : LiveFixture) (o : Option String) (d : LiveDecision)
      → x.q_state_jws ≡ o
      → evaluate_signed p a x o ≡ ok d
      → d.outcome ≡ DecisionOutcome.permit
      → SignedPermit a x d
  unfolding evaluate_signed result
  evaluate_signed-permit a x none d e h permits = absurd (ground arith)
  evaluate_signed-permit a x (some token) d e h permits =
      let (v, r, verified, decided, permitted) =
        decide_verified-permit a x (verify_q_state p.tokens token a.keys (expectation p a x)) d h
          permits in
      record {
        token = token;
        verified = v;
        engine_record = r;
        presented = e;
        verifies = verified;
        accepted = verify_q_state-Accepted p.tokens token a.keys (expectation p a x) v verified;
        decided = decided;
        permitted = permitted;
      }

  -- A permit of an adapter on a signed track comes with a presented token that verifies for what the
  -- adapter expects, and with a permit of the engine for the state that the token carries.
  pub evaluate-SignedPermit :
      (a : AuthorizationAdapter p) (x : LiveFixture) (d : LiveDecision)
      → is_baseline a.track ≡ false
      → evaluate p a x ≡ ok d
      → d.outcome ≡ DecisionOutcome.permit
      → SignedPermit a x d
  unfolding evaluate
  evaluate-SignedPermit a x d t h permits =
      evaluate_signed-permit a x x.q_state_jws d refl (rw t at h) permits
