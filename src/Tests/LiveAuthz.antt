-- ===== src/Tests/LiveAuthz.antt =====
-- The theorems of src/kil/live_authz.py and src/kil/reference_gateway.py at a fixture.
use kil.Prelude.{
  contains_text, ◌≡◌, refl, [], ◌∷◌, ◌++◌, none, some, true, false, ok, ◌↔◌, All, is_nonblank,
  lower, eq_codes,
}
use kil.Decimal.{lt_dec, le_dec, min_dec, max_dec}
use kil.Domain.{DecisionOutcome, check_decision_record, check_composite_state}
use kil.Decay.{passive_decay, superlinear_loss, local_effective_charge}
use kil.Engine.{decide}
use kil.QState.{
  verify_q_state, composite_state_of, has_exactly, from_payload, parse_decimal, check_claims,
  decimal_wire_length, to_composite_state,
}
use kil.LiveAuthz.{
  LiveTrack, LiveFixture, LiveDecision, Platform, AuthorizationAdapter, evaluate, is_mode_header,
}
use kil.LiveAuthz.Tracks.{evaluate-baseline_iff, SignedPermit, evaluate-SignedPermit}
use kil.Gateway.{gate, handle_all}
use kil.Gateway.Markers.{markers, gate-proof_iff, expected_markers, handle_all-marks}
use kil.Tests.Arithmetic.{exact_context}
use kil.Tests.Engine.{request, evidence, flat_profile, mild_record}
use kil.Tests.Tokens.{library, keys, json}

-- Every text has the same digest.
abbrev pub platform : Platform
platform = record { context = exact_context; tokens = library; sha256_hex = λ text. "r-1" }

abbrev pub local_adapter : AuthorizationAdapter platform
local_adapter = record {
  track = LiveTrack.signed_plus_local_reduce;
  keys = keys;
  revoked_state_ids = "s-0" ∷ [];
}

abbrev baseline_adapter : AuthorizationAdapter platform
baseline_adapter = record {
  track = LiveTrack.credential_policy_baseline;
  keys = [];
  revoked_state_ids = [];
}

abbrev fixture : LiveFixture
fixture = record {
  request = request;
  action_class = "read";
  credential_valid = true;
  policy_allows_action = true;
  q_state_jws = some "h.p.ss";
  local_evidence = some evidence;
  reduction_profile = some flat_profile;
  untrusted_headers = ("X-KIL-Mode", "baseline") ∷ [];
}

abbrev denied_fixture : LiveFixture
denied_fixture = record fixture { policy_allows_action = false }

abbrev pub local_decision : LiveDecision
local_decision = record {
  identity = record {
    request_id = "r-1";
    track = LiveTrack.signed_plus_local_reduce;
    outcome = DecisionOutcome.permit;
    adapter_reasons = "untrusted_mode_header_ignored" ∷ [];
    engine_record = some mild_record;
  };
  decision_digest = "r-1";
}

abbrev baseline_decision : LiveDecision
baseline_decision = record {
  identity = record {
    request_id = "r-1";
    track = LiveTrack.credential_policy_baseline;
    outcome = DecisionOutcome.permit;
    adapter_reasons = "untrusted_mode_header_ignored" ∷ "baseline_permitted" ∷ [];
    engine_record = none;
  };
  decision_digest = "r-1";
}

evaluate-local : evaluate platform local_adapter fixture ≡ ok local_decision
unfolding evaluate verify_q_state json composite_state_of is_nonblank lt_dec le_dec contains_text
    has_exactly from_payload parse_decimal check_claims decimal_wire_length decide exact_context
    min_dec max_dec passive_decay superlinear_loss local_effective_charge check_decision_record
    is_mode_header to_composite_state check_composite_state lower kil.Canonical.canonical_json
    kil.Canonical.normalize kil.Prelude.utf8_length kil.Canonical.sort_members
    kil.Canonical.digits_of
evaluate-local = refl

evaluate-baseline : evaluate platform baseline_adapter fixture ≡ ok baseline_decision
unfolding evaluate is_mode_header lower eq_codes kil.Canonical.canonical_json
    kil.Canonical.normalize kil.Prelude.utf8_length kil.Canonical.sort_members
evaluate-baseline = refl

evaluate-baseline_iff_example :
    (DecisionOutcome.permit ≡ DecisionOutcome.permit) ↔ ((true ≡ true) × (true ≡ true))
evaluate-baseline_iff_example =
    evaluate-baseline_iff platform baseline_adapter fixture baseline_decision refl evaluate-baseline

evaluate-SignedPermit_example : SignedPermit platform local_adapter fixture local_decision
evaluate-SignedPermit_example =
    evaluate-SignedPermit platform local_adapter fixture local_decision refl evaluate-local refl

gate-proof_iff_example :
    ((gate fixture local_decision []).0.proof_valid ≡ true)
    ↔ (markers fixture local_decision [] ≡ 0)
gate-proof_iff_example = gate-proof_iff fixture local_decision []

handle_all-marks_example :
    handle_all platform baseline_adapter (denied_fixture ∷ fixture ∷ []) []
    ≡ [] ++ expected_markers platform baseline_adapter (denied_fixture ∷ fixture ∷ [])
handle_all-marks_example =
    handle_all-marks platform baseline_adapter (denied_fixture ∷ fixture ∷ []) []
