-- ===== src/QState/Payload.antt =====
-- `QStateClaims.from_payload` of src/kil/q_state.py: a JSON object with exactly the fields of the
-- claims, each of its type.
use kil.Prelude.{
  contains_text, Bool, true, false, ◌&&◌, List, [], ◌∷◌, Option, none, some, all, ℤ, String, str_eq,
  Result, ok, raise, value_error, require, ◌>>=◌, ◌>>◌, if◌then◌else◌,
}
use kil.Json.{Json}
use kil.Decimal.{Decimal}
use kil.QState.Wire.{parse_decimal}
use kil.QState.Claims.{QStateClaims, check_claims}

-- A member of a JSON object, by Python's type test: a text, an integer, a boolean, or another JSON value,
-- which is no field's type.
pub data Value : Type 0 where
  text : String → Value
  integer : ℤ → Value
  boolean : Bool → Value
  other : Json → Value

-- A dict, in insertion order; `json.loads` keeps one member for each key.
abbrev pub Object : Type 0
Object = List (String × Value)

unfoldable pub get : String → Object → Option Value
get key [] = none
get key ((k, v) ∷ rest) = let later = get key rest in if str_eq k key then some v else later

unfoldable pub has_key : String → Object → Bool
unfolding get
has_key key o = elim (get key o) [ none ↦ false | some v ↦ true ]

-- `set(o) == set(names)`
unfoldable pub has_exactly : Object → List String → Bool
unfolding has_key contains_text
has_exactly o names =
    all (λ (entry : String × Value). contains_text entry.0 names) o && all (λ n. has_key n o) names

unfoldable pub text_value : Option Value → Result String
text_value (some (text s)) = ok s
text_value _ = raise value_error

unfoldable pub integer_value : Option Value → Result ℤ
integer_value (some (integer n)) = ok n
integer_value _ = raise value_error

unfoldable pub boolean_value : Option Value → Result Bool
boolean_value (some (boolean b)) = ok b
boolean_value _ = raise value_error

parsed : Option Decimal → Result Decimal
parsed none = raise value_error
parsed (some d) = ok d

unfoldable pub decimal_value : Option Value → Result Decimal
unfolding text_value parsed
decimal_value v = do raw ← text_value v; parsed (parse_decimal raw)

abbrev pub claim_fields : List String
claim_fields =
    "schema_version" ∷ "state_id" ∷ "issuer" ∷ "subject" ∷ "audience" ∷ "authority_class"
    ∷ "action_class" ∷ "issued_at_s" ∷ "not_before_s" ∷ "expires_at_s" ∷ "evidence_horizon_s"
    ∷ "trust_proof_id" ∷ "trust_proof_digest" ∷ "envelope_result_id" ∷ "envelope_result_digest"
    ∷ "deployment_profile" ∷ "charge" ∷ "threshold" ∷ "history_count" ∷ "minimum_history"
    ∷ "veto_clear" ∷ "envelope_allows" ∷ "decay_rate" ∷ "maximum_charge" ∷ "model_version"
    ∷ "parameter_version" ∷ []

-- The arguments of `cls(**values)`, each at its type.
unfoldable pub claims_of_values : Object → Result QStateClaims
unfolding text_value integer_value boolean_value decimal_value get
claims_of_values o = do
  schema_version ← text_value (get "schema_version" o)
  state_id ← text_value (get "state_id" o)
  issuer ← text_value (get "issuer" o)
  subject ← text_value (get "subject" o)
  audience ← text_value (get "audience" o)
  authority_class ← text_value (get "authority_class" o)
  action_class ← text_value (get "action_class" o)
  issued_at_s ← integer_value (get "issued_at_s" o)
  not_before_s ← integer_value (get "not_before_s" o)
  expires_at_s ← integer_value (get "expires_at_s" o)
  evidence_horizon_s ← integer_value (get "evidence_horizon_s" o)
  trust_proof_id ← text_value (get "trust_proof_id" o)
  trust_proof_digest ← text_value (get "trust_proof_digest" o)
  envelope_result_id ← text_value (get "envelope_result_id" o)
  envelope_result_digest ← text_value (get "envelope_result_digest" o)
  deployment_profile ← text_value (get "deployment_profile" o)
  charge ← decimal_value (get "charge" o)
  threshold ← decimal_value (get "threshold" o)
  history_count ← integer_value (get "history_count" o)
  minimum_history ← integer_value (get "minimum_history" o)
  veto_clear ← boolean_value (get "veto_clear" o)
  envelope_allows ← boolean_value (get "envelope_allows" o)
  decay_rate ← decimal_value (get "decay_rate" o)
  maximum_charge ← decimal_value (get "maximum_charge" o)
  model_version ← text_value (get "model_version" o)
  parameter_version ← text_value (get "parameter_version" o)
  ok (record {
    schema_version = schema_version;
    state_id = state_id;
    issuer = issuer;
    subject = subject;
    audience = audience;
    authority_class = authority_class;
    action_class = action_class;
    issued_at_s = issued_at_s;
    not_before_s = not_before_s;
    expires_at_s = expires_at_s;
    evidence_horizon_s = evidence_horizon_s;
    trust_proof_id = trust_proof_id;
    trust_proof_digest = trust_proof_digest;
    envelope_result_id = envelope_result_id;
    envelope_result_digest = envelope_result_digest;
    deployment_profile = deployment_profile;
    charge = charge;
    threshold = threshold;
    history_count = history_count;
    minimum_history = minimum_history;
    veto_clear = veto_clear;
    envelope_allows = envelope_allows;
    decay_rate = decay_rate;
    maximum_charge = maximum_charge;
    model_version = model_version;
    parameter_version = parameter_version;
  })

unfoldable pub from_payload : Object → Result QStateClaims
unfolding has_exactly claims_of_values
from_payload o = do
  require (has_exactly o claim_fields)
  claims ← claims_of_values o
  check_claims claims
  ok claims
