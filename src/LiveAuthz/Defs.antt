-- ===== src/LiveAuthz/Defs.antt =====
-- `LiveFixture`, `AuthorizationAdapter` and its `evaluate` (src/kil/live_authz.py). The decimal
-- context, the token libraries and SHA-256 are gathered in `Platform`.
use kil.Prelude.{
  ℕ, Bool, true, false, not, ◌||◌, List, [], ◌∷◌, ◌++◌, Option, none, some, any, is_empty, when,
  String, str_eq, codes, lower, eq_codes, is_nonblank, Result, ok, raise, require,
  q_state_verification_error, ◌>>=◌, ◌>>◌, if◌then◌else◌, all,
}
use kil.Canonical.{canonical_digest}
use kil.Decimal.{Context}
use kil.Domain.{
  ActionRequest, CompositeState, DecisionOutcome, DecisionRecord, EnforcementMode,
  FailureDisposition, LocalEvidence, ReductionProfile,
}
use kil.Engine.{decide}
use kil.LiveAuthz.Identity.{LiveTrack, DecisionIdentity, identity_value}
use kil.QState.{TokenLibrary, Expectation, VerifiedQState, verify_q_state}

abbrev pub is_baseline : LiveTrack → Bool
is_baseline LiveTrack.credential_policy_baseline = true
is_baseline _ = false

abbrev pub same_track : LiveTrack → LiveTrack → Bool
same_track LiveTrack.credential_policy_baseline LiveTrack.credential_policy_baseline = true
same_track LiveTrack.signed_state_only LiveTrack.signed_state_only = true
same_track LiveTrack.signed_plus_local_reduce LiveTrack.signed_plus_local_reduce = true
same_track _ _ = false

-- `TRACK_AUDIENCE`; the baseline has no audience.
abbrev pub track_audience : LiveTrack → String
track_audience LiveTrack.credential_policy_baseline = ""
track_audience LiveTrack.signed_state_only = "kil-v3-signed"
track_audience LiveTrack.signed_plus_local_reduce = "kil-v3-local"

pub record LiveFixture : Type 0 where
  pub request : ActionRequest
  pub action_class : String
  pub credential_valid : Bool
  pub policy_allows_action : Bool
  pub q_state_jws : Option String
  pub local_evidence : Option LocalEvidence
  pub reduction_profile : Option ReductionProfile
  pub untrusted_headers : List (String × String)

optional_nonblank : Option String → Bool
optional_nonblank none = true
optional_nonblank (some s) = is_nonblank s

-- `LiveFixture.__post_init__`
unfoldable pub check_live_fixture : LiveFixture → Result (Unit {0})
unfolding optional_nonblank
check_live_fixture x = do
  require (is_nonblank x.action_class)
  require (optional_nonblank x.q_state_jws)

pub record LiveDecision : Type 0 where
  pub identity : DecisionIdentity
  pub open identity use *
  pub decision_digest : String

-- The library code that `evaluate` runs on. SHA-256 is of a text as UTF-8.
pub record Platform : Type 1 where
  pub context : Context
  pub tokens : TokenLibrary
  pub sha256_hex : List ℕ → String

-- `name.lower() == "x-kil-mode"`
unfoldable pub is_mode_header : String → Bool
is_mode_header name = eq_codes (lower name) (codes "x-kil-mode")

-- `baseline_reasons == ["untrusted_mode_header_ignored"]`
unfoldable pub is_only_ignored : List String → Bool
is_only_ignored [] = false
is_only_ignored (r ∷ []) = str_eq r "untrusted_mode_header_ignored"
is_only_ignored (r ∷ s ∷ rs) = false

-- The baseline's reasons, given whether a mode header was ignored, the credential is valid and the
-- policy allows the action.
abbrev pub reasons_of : Bool → Bool → Bool → List String
reasons_of ignored credential_valid policy_allows_action =
    when ignored "untrusted_mode_header_ignored"
    ++ (when (not credential_valid) "credential_invalid"
        ++ when (not policy_allows_action) "policy_denied")

unfoldable pub has_mode_header : LiveFixture → Bool
unfolding is_mode_header
has_mode_header x = any (λ (h : String × String). is_mode_header h.0) x.untrusted_headers

unfoldable pub ignored_reasons : LiveFixture → List String
unfolding has_mode_header
ignored_reasons x = when (has_mode_header x) "untrusted_mode_header_ignored"

-- The baseline's reasons before its outcome is known.
unfoldable pub baseline_reasons : LiveFixture → List String
unfolding has_mode_header
baseline_reasons x = reasons_of (has_mode_header x) x.credential_valid x.policy_allows_action

-- The mode and the local facts that a track hands to the engine.
unfoldable pub decide_on_track :
    Context → LiveTrack → LiveFixture → CompositeState → Result DecisionRecord
decide_on_track c LiveTrack.signed_plus_local_reduce x state =
    decide c x.request state EnforcementMode.signed_plus_local_reduce x.local_evidence
      x.reduction_profile FailureDisposition.closed
decide_on_track c track x state =
    decide c x.request state EnforcementMode.signed_state_only none none FailureDisposition.closed

module _ (p : Platform) where
  open p use {context, tokens, sha256_hex}

  abbrev pub Keys : Type 0
  Keys = List (String × tokens.Key)

  pub record AuthorizationAdapter : Type 0 where
    pub track : LiveTrack
    pub keys : Keys
    pub revoked_state_ids : List String

  -- The checks of `__init__`.
  unfoldable pub check_adapter : AuthorizationAdapter → Result (Unit {0})
  check_adapter a = do
    require (all (λ (entry : String × tokens.Key). is_nonblank entry.0) a.keys)
    require (all (λ i. not (str_eq i "")) a.revoked_state_ids)
    require (if is_baseline a.track then true else not (is_empty a.keys))

  -- The digest of a decision is of its own facts, and can fail as any canonical text can.
  unfoldable pub digested : DecisionIdentity → Result LiveDecision
  unfolding identity_value canonical_digest
  digested i = do
    digest ← canonical_digest sha256_hex (identity_value i)
    ok (record { identity = i; decision_digest = digest })

  -- `_result`
  unfoldable pub result :
      LiveTrack
      → LiveFixture
      → DecisionOutcome
      → List String
      → Option DecisionRecord
      → Result LiveDecision
  unfolding digested
  result track x outcome reasons engine_record = digested (record {
    request_id = x.request.request_id;
    track = track;
    outcome = outcome;
    adapter_reasons = reasons;
    engine_record = engine_record;
  })

  unfoldable pub evaluate_baseline : LiveTrack → LiveFixture → Result LiveDecision
  unfolding result baseline_reasons is_only_ignored
  evaluate_baseline track x =
      let reasons = baseline_reasons x in
      let permitted =
        result track x DecisionOutcome.permit (reasons ++ "baseline_permitted" ∷ []) none in
      let denied = result track x DecisionOutcome.deny reasons none in
      if is_empty reasons || is_only_ignored reasons then permitted else denied

  -- The arguments of `verify_q_state`.
  unfoldable pub expectation : AuthorizationAdapter → LiveFixture → Expectation
  expectation a x = record {
    now_s = x.request.timestamp_s;
    subject = x.request.identity;
    audience = track_audience a.track;
    authority_class = x.request.authority_class;
    action_class = x.action_class;
    revoked_state_ids = a.revoked_state_ids;
  }

  -- A verified state is decided on; a token that fails verification is denied, and any other
  -- exception passes through.
  unfoldable pub decide_verified :
      AuthorizationAdapter → LiveFixture → Result VerifiedQState → Result LiveDecision
  unfolding result ignored_reasons decide_on_track
  decide_verified a x (ok verified) = do
    engine_record ← decide_on_track context a.track x verified.composite_state
    result a.track x engine_record.outcome (ignored_reasons x) (some engine_record)
  decide_verified a x (raise q_state_verification_error) =
      result a.track x DecisionOutcome.deny
        (ignored_reasons x ++ "q_state_verification_failed" ∷ []) none
  decide_verified a x (raise e) = raise e

  unfoldable pub evaluate_signed :
      AuthorizationAdapter → LiveFixture → Option String → Result LiveDecision
  unfolding result ignored_reasons expectation decide_verified
  evaluate_signed a x none =
      result a.track x DecisionOutcome.deny (ignored_reasons x ++ "q_state_missing" ∷ []) none
  evaluate_signed a x (some token) =
      decide_verified a x (verify_q_state tokens token a.keys (expectation a x))

  unfoldable pub evaluate : AuthorizationAdapter → LiveFixture → Result LiveDecision
  unfolding evaluate_baseline evaluate_signed
  evaluate a x =
      let signed = evaluate_signed a x x.q_state_jws in
      if is_baseline a.track then evaluate_baseline a.track x else signed
