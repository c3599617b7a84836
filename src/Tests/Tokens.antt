-- ===== src/Tests/Tokens.antt =====
-- A token of src/kil/q_state.py under stand-ins for base64, JSON and Ed25519, and the theorems
-- of q_state.py at it.
use kil.Prelude.{
  contains_text, ◌^◌, ◌+◌, ◌-◌, raise, value_error, ◌≡◌, refl, ℕ, List, [], ◌∷◌, some, true, false,
  pos, negsuc, String, ok, length, ◌==◌, codes, eq_codes, if◌then◌else◌, is_nonblank,
}
use kil.Decimal.{finite, of_ℕ, lt_dec, le_dec}
use kil.Domain.{check_composite_state}
use kil.QState.{
  Loaded, loaded_object, undecodable, text, integer, boolean, Object, Bytes, TokenLibrary,
  QStateClaims, Expectation, VerifiedQState, verify_q_state, composite_state_of, has_exactly,
  from_payload, parse_decimal, check_claims, decimal_wire_length, to_composite_state,
}
use kil.QState.Verification.{Accepted, verify_q_state-Accepted}

abbrev protected_header : Object
protected_header = ("alg", text "EdDSA") ∷ ("kid", text "k1") ∷ ("typ", text "KIL-Q+JWT") ∷ []

abbrev digest_text : String
digest_text = "sha256:0123456789abcdef0123456789abcdef0123456789abcdef0123456789abcdef"

abbrev payload : Object
payload =
    ("schema_version", text "kil.q-state.v0")
    ∷ ("state_id", text "s-1")
    ∷ ("issuer", text "issuer")
    ∷ ("subject", text "agent")
    ∷ ("audience", text "kil-v3-local")
    ∷ ("authority_class", text "ops")
    ∷ ("action_class", text "read")
    ∷ ("issued_at_s", integer (pos 100))
    ∷ ("not_before_s", integer (pos 100))
    ∷ ("expires_at_s", integer (pos 110))
    ∷ ("evidence_horizon_s", integer (pos 100))
    ∷ ("trust_proof_id", text "t")
    ∷ ("trust_proof_digest", text digest_text)
    ∷ ("envelope_result_id", text "e")
    ∷ ("envelope_result_digest", text digest_text)
    ∷ ("deployment_profile", text "p")
    ∷ ("charge", text "9")
    ∷ ("threshold", text "5")
    ∷ ("history_count", integer (pos 4))
    ∷ ("minimum_history", integer (pos 2))
    ∷ ("veto_clear", boolean true)
    ∷ ("envelope_allows", boolean true)
    ∷ ("decay_rate", text "0.05")
    ∷ ("maximum_charge", text "10")
    ∷ ("model_version", text "m")
    ∷ ("parameter_version", text "v")
    ∷ []

unfoldable pub json : Bytes → Loaded
unfolding eq_codes
json b =
    if eq_codes b (codes "h")
    then loaded_object protected_header
    else if eq_codes b (codes "p")
    then loaded_object payload
    else undecodable

-- Text stands for its own encoding; a key is a number, and signs with as many bytes.
abbrev pub library : TokenLibrary
library = record {
  Key = ℕ;
  decode64 = some;
  encode64 = λ b. b;
  json_loads = json;
  verifies = λ key signature input. key == length signature;
}

abbrev pub keys : List (String × ℕ)
keys = ("k1", 2) ∷ []

abbrev pub expected : Expectation
expected = record {
  now_s = pos 100;
  subject = "agent";
  audience = "kil-v3-local";
  authority_class = "ops";
  action_class = "read";
  revoked_state_ids = "s-0" ∷ [];
}

abbrev pub claims : QStateClaims
claims = record {
  schema_version = "kil.q-state.v0";
  state_id = "s-1";
  issuer = "issuer";
  subject = "agent";
  audience = "kil-v3-local";
  authority_class = "ops";
  action_class = "read";
  issued_at_s = pos 100;
  not_before_s = pos 100;
  expires_at_s = pos 110;
  evidence_horizon_s = pos 100;
  trust_proof_id = "t";
  trust_proof_digest = digest_text;
  envelope_result_id = "e";
  envelope_result_digest = digest_text;
  deployment_profile = "p";
  charge = of_ℕ 9;
  threshold = of_ℕ 5;
  history_count = pos 4;
  minimum_history = pos 2;
  veto_clear = true;
  envelope_allows = true;
  decay_rate = finite false 5 (negsuc 1);
  maximum_charge = of_ℕ 10;
  model_version = "m";
  parameter_version = "v";
}

abbrev pub verified : VerifiedQState
verified = record { claims = claims; composite_state = composite_state_of claims; key_id = "k1" }

pub verify_q_state-accepts : verify_q_state library "h.p.ss" keys expected ≡ ok verified
unfolding verify_q_state json composite_state_of is_nonblank lt_dec le_dec contains_text has_exactly
    from_payload parse_decimal check_claims decimal_wire_length to_composite_state
    check_composite_state
verify_q_state-accepts = refl

verify_q_state-Accepted_example : Accepted library "h.p.ss" keys expected verified
verify_q_state-Accepted_example =
    verify_q_state-Accepted library "h.p.ss" keys expected verified verify_q_state-accepts

-- The claims of a window past the largest 64-bit timestamp are accepted, and their state is not: the
-- verification of such a token ends in a plain ValueError.
abbrev far_claims : QStateClaims
far_claims = record claims {
  issued_at_s = pos (2 ^ 63 - 2);
  not_before_s = pos (2 ^ 63 - 2);
  expires_at_s = pos (2 ^ 63 + 2);
}

far_claims_accepted : check_claims far_claims ≡ ok tt
unfolding check_claims is_nonblank lt_dec decimal_wire_length
far_claims_accepted = refl

far_state_refused : to_composite_state far_claims ≡ raise value_error
unfolding to_composite_state composite_state_of check_composite_state is_nonblank lt_dec
far_state_refused = refl
