-- ===== src/QState/Carried.antt =====
-- The members of a payload that the claims of src/kil/q_state.py are read from.
use kil.Prelude.{
  ◌≡◌, ap, Option, some, none, ℤ, String, ok, >>=-eq-ok, ok-inj, require, checked-eq-ok,
}
use mathlib.Core.Path.{subst}
use kil.QState.Claims.{QStateClaims, check_claims}
use kil.QState.Payload.{
  Value, text, integer, boolean, Object, get, text_value, integer_value, boolean_value,
  decimal_value, claims_of_values, claim_fields, has_exactly, from_payload,
}

text_value-eq-ok : (o : Option Value) (s : String) → text_value o ≡ ok s → o ≡ some (text s)
unfolding text_value
text_value-eq-ok (some (text t)) s h = ap (λ x. some (text x)) (ok-inj h)
text_value-eq-ok (some (integer n)) s h = cc h
text_value-eq-ok (some (boolean b)) s h = cc h
text_value-eq-ok (some (Value.other j)) s h = cc h
text_value-eq-ok none s h = cc h

integer_value-eq-ok : (o : Option Value) (n : ℤ) → integer_value o ≡ ok n → o ≡ some (integer n)
unfolding integer_value
integer_value-eq-ok (some (integer m)) n h = ap (λ x. some (integer x)) (ok-inj h)
integer_value-eq-ok (some (text s)) n h = cc h
integer_value-eq-ok (some (boolean b)) n h = cc h
integer_value-eq-ok (some (Value.other j)) n h = cc h
integer_value-eq-ok none n h = cc h

-- The claims that bind a state are the members of the payload under their own names.
pub record CarriedBy (o : Object) (q : QStateClaims) : Type 0 where
  pub state_id_carried : get "state_id" o ≡ some (text q.state_id)
  pub subject_carried : get "subject" o ≡ some (text q.subject)
  pub audience_carried : get "audience" o ≡ some (text q.audience)
  pub authority_class_carried : get "authority_class" o ≡ some (text q.authority_class)
  pub action_class_carried : get "action_class" o ≡ some (text q.action_class)
  pub not_before_s_carried : get "not_before_s" o ≡ some (integer q.not_before_s)
  pub expires_at_s_carried : get "expires_at_s" o ≡ some (integer q.expires_at_s)

claims_of_values-CarriedBy :
    (o : Object) (q : QStateClaims) → claims_of_values o ≡ ok q → CarriedBy o q
unfolding claims_of_values
claims_of_values-CarriedBy o q h₀ =
    let (schema_version, schema_version_read, h0) =
      >>=-eq-ok (text_value (get "schema_version" o)) _ h₀ in
    let (state_id, state_id_read, h1) = >>=-eq-ok (text_value (get "state_id" o)) _ h0 in
    let (issuer, issuer_read, h2) = >>=-eq-ok (text_value (get "issuer" o)) _ h1 in
    let (subject, subject_read, h3) = >>=-eq-ok (text_value (get "subject" o)) _ h2 in
    let (audience, audience_read, h4) = >>=-eq-ok (text_value (get "audience" o)) _ h3 in
    let (authority_class, authority_class_read, h5) =
      >>=-eq-ok (text_value (get "authority_class" o)) _ h4 in
    let (action_class, action_class_read, h6) =
      >>=-eq-ok (text_value (get "action_class" o)) _ h5 in
    let (issued_at_s, issued_at_s_read, h7) =
      >>=-eq-ok (integer_value (get "issued_at_s" o)) _ h6 in
    let (not_before_s, not_before_s_read, h8) =
      >>=-eq-ok (integer_value (get "not_before_s" o)) _ h7 in
    let (expires_at_s, expires_at_s_read, h9) =
      >>=-eq-ok (integer_value (get "expires_at_s" o)) _ h8 in
    let (evidence_horizon_s, evidence_horizon_s_read, h10) =
      >>=-eq-ok (integer_value (get "evidence_horizon_s" o)) _ h9 in
    let (trust_proof_id, trust_proof_id_read, h11) =
      >>=-eq-ok (text_value (get "trust_proof_id" o)) _ h10 in
    let (trust_proof_digest, trust_proof_digest_read, h12) =
      >>=-eq-ok (text_value (get "trust_proof_digest" o)) _ h11 in
    let (envelope_result_id, envelope_result_id_read, h13) =
      >>=-eq-ok (text_value (get "envelope_result_id" o)) _ h12 in
    let (envelope_result_digest, envelope_result_digest_read, h14) =
      >>=-eq-ok (text_value (get "envelope_result_digest" o)) _ h13 in
    let (deployment_profile, deployment_profile_read, h15) =
      >>=-eq-ok (text_value (get "deployment_profile" o)) _ h14 in
    let (charge, charge_read, h16) = >>=-eq-ok (decimal_value (get "charge" o)) _ h15 in
    let (threshold, threshold_read, h17) = >>=-eq-ok (decimal_value (get "threshold" o)) _ h16 in
    let (history_count, history_count_read, h18) =
      >>=-eq-ok (integer_value (get "history_count" o)) _ h17 in
    let (minimum_history, minimum_history_read, h19) =
      >>=-eq-ok (integer_value (get "minimum_history" o)) _ h18 in
    let (veto_clear, veto_clear_read, h20) = >>=-eq-ok (boolean_value (get "veto_clear" o)) _ h19 in
    let (envelope_allows, envelope_allows_read, h21) =
      >>=-eq-ok (boolean_value (get "envelope_allows" o)) _ h20 in
    let (decay_rate, decay_rate_read, h22) = >>=-eq-ok (decimal_value (get "decay_rate" o)) _ h21 in
    let (maximum_charge, maximum_charge_read, h23) =
      >>=-eq-ok (decimal_value (get "maximum_charge" o)) _ h22 in
    let (model_version, model_version_read, h24) =
      >>=-eq-ok (text_value (get "model_version" o)) _ h23 in
    let (parameter_version, parameter_version_read, h25) =
      >>=-eq-ok (text_value (get "parameter_version" o)) _ h24 in
    subst (CarriedBy o) (ok-inj h25) (record {
      state_id_carried = text_value-eq-ok _ state_id state_id_read;
      subject_carried = text_value-eq-ok _ subject subject_read;
      audience_carried = text_value-eq-ok _ audience audience_read;
      authority_class_carried = text_value-eq-ok _ authority_class authority_class_read;
      action_class_carried = text_value-eq-ok _ action_class action_class_read;
      not_before_s_carried = integer_value-eq-ok _ not_before_s not_before_s_read;
      expires_at_s_carried = integer_value-eq-ok _ expires_at_s expires_at_s_read;
    })

pub from_payload-CarriedBy : (o : Object) (q : QStateClaims) → from_payload o ≡ ok q → CarriedBy o q
unfolding from_payload
from_payload-CarriedBy o q h =
    let (_, _, h₁) = >>=-eq-ok (require (has_exactly o claim_fields)) _ h in
    let (claims, read, h₂) = >>=-eq-ok (claims_of_values o) _ h₁ in
    let (_, same) = checked-eq-ok (check_claims claims) claims h₂ in
    subst (CarriedBy o) same (claims_of_values-CarriedBy o claims read)
