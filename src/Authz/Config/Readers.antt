-- ===== src/Authz/Config/Readers.antt =====
-- The readers of the parts of a configuration (src/kil/ext_authz_http.py). A ConfigError is a
-- ValueError.
use kil.Prelude.{
  contains_text, List, [], ◌∷◌, Option, none, some, all, String, codes, is_nonblank, Result, ok,
  raise, require, value_error, ◌>>=◌, ◌>>◌,
}
use kil.Decimal.{Decimal}
use kil.Domain.{LocalEvidence, ReductionProfile, check_local_evidence, check_reduction_profile}
use kil.Json.{Json, Fields, null, keys_of, as_text, as_integer, as_boolean}
use kil.QState.{split_point, decimal_of_parts}
use kil.Scenario.{mapping, required}
use kil.Authz.Fixtures.{ServerFixture, check_server_fixture}

-- `_exact_fields`
unfoldable pub exact_fields : Json → List String → Result Fields
exact_fields value expected = do
  fs ← mapping value
  require (all (λ k. contains_text k expected) (keys_of fs))
  require (all (λ k. contains_text k (keys_of fs)) expected)
  ok fs

-- `_config_string` of a field.
unfoldable pub config_string : Fields → String → Result String
config_string fs key = do v ← required fs key; s ← as_text v; require (is_nonblank s); ok s

present_decimal : Option Decimal → Result Decimal
present_decimal none = raise value_error
present_decimal (some d) = ok d

-- `_config_decimal` of a field: `(0|[1-9][0-9]*)(\.[0-9]*[1-9])?`, and then `Decimal(value)`.
unfoldable pub config_decimal : Fields → String → Result Decimal
unfolding present_decimal
config_decimal fs key = do
  v ← required fs key
  s ← as_text v
  present_decimal (decimal_of_parts (split_point (codes s)))

abbrev evidence_fields : List String
evidence_fields = "divergence" ∷ "coupled_loss" ∷ "fresh" ∷ []

abbrev profile_fields : List String
profile_fields = "divergence_threshold" ∷ "loss_rate" ∷ "exponent" ∷ []

-- `LocalEvidence(...)` of the fields of an object.
unfoldable pub config_evidence : Json → Result LocalEvidence
config_evidence value = do
  fs ← exact_fields value evidence_fields
  fresh_value ← required fs "fresh"
  fresh ← as_boolean fresh_value
  divergence ← config_decimal fs "divergence"
  coupled_loss ← config_decimal fs "coupled_loss"
  let e : LocalEvidence = record {
    divergence = divergence;
    coupled_loss = coupled_loss;
    fresh = fresh;
  }
  check_local_evidence e
  ok e

-- `ReductionProfile(...)` of the fields of an object.
unfoldable pub config_profile : Json → Result ReductionProfile
config_profile value = do
  fs ← exact_fields value profile_fields
  exponent_value ← required fs "exponent"
  exponent ← as_integer exponent_value
  divergence_threshold ← config_decimal fs "divergence_threshold"
  loss_rate ← config_decimal fs "loss_rate"
  let p : ReductionProfile = record {
    divergence_threshold = divergence_threshold;
    loss_rate = loss_rate;
    exponent = exponent;
  }
  check_reduction_profile p
  ok p

-- `None`, or what the object says.
unfoldable pub optional {ℓ} : {A : Type ℓ} → (Json → Result A) → Json → Result (Option A)
optional read null = ok none
optional read value = do a ← read value; ok (some a)

abbrev pub fixture_fields : List String
fixture_fields =
    "request_id" ∷ "method" ∷ "path" ∷ "identity" ∷ "authority_class" ∷ "action_class"
    ∷ "expected_authorization_sha256" ∷ "policy_allows_action" ∷ "local_evidence"
    ∷ "reduction_profile" ∷ []

-- The arguments of `ServerFixture(...)`.
unfoldable pub read_fixture : Json → Result ServerFixture
read_fixture raw = do
  fs ← exact_fields raw fixture_fields
  policy_value ← required fs "policy_allows_action"
  policy_allows_action ← as_boolean policy_value
  request_id ← config_string fs "request_id"
  method ← config_string fs "method"
  path ← config_string fs "path"
  identity ← config_string fs "identity"
  authority_class ← config_string fs "authority_class"
  action_class ← config_string fs "action_class"
  expected ← config_string fs "expected_authorization_sha256"
  evidence_value ← required fs "local_evidence"
  local_evidence ← optional config_evidence evidence_value
  profile_value ← required fs "reduction_profile"
  reduction_profile ← optional config_profile profile_value
  ok (record {
    request_id = request_id;
    method = method;
    path = path;
    identity = identity;
    authority_class = authority_class;
    action_class = action_class;
    expected_authorization_sha256 = expected;
    policy_allows_action = policy_allows_action;
    local_evidence = local_evidence;
    reduction_profile = reduction_profile;
  })

-- `ServerFixture(...)`: its own checks run.
unfoldable pub load_fixture : Json → Result ServerFixture
load_fixture raw = do x ← read_fixture raw; check_server_fixture x; ok x
