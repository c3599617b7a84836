-- ===== src/Tests/Config.antt =====
-- The loading of a configuration of src/kil/ext_authz_http.py with one key and one fixture.
use kil.Prelude.{◌≡◌, refl, true, false, pos, String, Bool, str_eq, ok, some, [], ◌∷◌}
use kil.Authz.Config.{KeyLibrary, ConfigFile, AuthorizationServiceRuntime, load_service_config}
use kil.Authz.Config.Safety.{IsSafe, load_service_config-IsSafe}
use kil.Json.{Json, null, boolean, integer, text, array, object, no_items, item, no_fields, field}
use kil.Tests.LiveAuthz.{platform}

-- Every text is the base64 of one key, whose bytes are their own digest.
abbrev key_library : KeyLibrary platform
key_library = record {
  key_of_base64 = λ s. some 2;
  public_bytes = λ k. k ∷ [];
  sha256_hex = λ b. "0123456789abcdef0123456789abcdef0123456789abcdef0123456789abcdef";
}

abbrev evidence_value : Json
evidence_value = object (
    field "divergence" (text "0.25")
      (field "coupled_loss" (text "0") (field "fresh" (boolean true) no_fields)))

abbrev fixture_value : Json
fixture_value = object (
    field "request_id" (text "r-1") (
      field "method" (text "GET") (
        field "path" (text "/benign/read") (
          field "identity" (text "agent") (
            field "authority_class" (text "ops") (
              field "action_class" (text "read") (
                field "expected_authorization_sha256"
                  (text "0123456789abcdef0123456789abcdef0123456789abcdef0123456789abcdef")
                  (field "policy_allows_action" (boolean true) (
                    field "local_evidence" evidence_value
                      (field "reduction_profile" null no_fields))))))))))

abbrev key_value : Json
key_value =
    object (field "key_id" (text "0123456789abcdef") (field "raw_base64url" (text "AQ") no_fields))

abbrev file : ConfigFile
file = record {
  is_regular = true;
  is_writable = false;
  size = 700;
  content = some (
      object (
        field "schema_version" (text "kil.v3b-authz-http.v1") (
          field "track" (text "signed_state_only") (
            field "bind_host" (text "0.0.0.0") (
              field "bind_port" (integer (pos 8080)) (
                field "records_path" (text "/records/a.jsonl") (
                  field "public_keys" (array (item key_value no_items)) (
                    field "revoked_state_ids" (array (item (text "s-0") no_items))
                      (field "fixtures" (array (item fixture_value no_items)) no_fields)))))))));
}

abbrev can_record : String → Bool
can_record path = str_eq path "/records/a.jsonl"

loaded :
    (r : AuthorizationServiceRuntime platform) × (load_service_config platform key_library
        can_record file
      ≡ ok r)
unfolding load_service_config kil.Json.is_closed kil.Prelude.is_distinct kil.Json.keys_of
    kil.Authz.Config.exact_fields kil.Scenario.mapping kil.Authz.Config.config_string
    kil.Scenario.required kil.Json.field_of kil.Json.as_text kil.Prelude.is_nonblank
    kil.Json.as_integer kil.Json.as_array kil.Authz.Config.is_base64url kil.Prelude.is_letter
    kil.Authz.Config.key_id kil.LiveAuthz.check_adapter kil.Authz.Config.load_fixture
    kil.Authz.Config.read_fixture kil.Json.as_boolean kil.Authz.Config.optional
    kil.Authz.Config.config_evidence kil.Authz.Config.config_decimal kil.QState.split_point
    kil.Prelude.is_digit kil.QState.decimal_of_parts kil.Domain.check_local_evidence
    kil.Decimal.le_dec kil.QState.digits_value kil.Decimal.lt_dec kil.Authz.check_server_fixture
    kil.Prelude.is_identifier kil.Http.is_method kil.Http.is_rooted kil.Authz.check_app
    kil.Prelude.is_digest
loaded = (_, refl)

load_service_config-IsSafe_example :
    IsSafe platform key_library loaded.0.app
    × ((loaded.0.bind_host ≡ "0.0.0.0") × (loaded.0.bind_port ≡ pos 8080))
load_service_config-IsSafe_example =
    load_service_config-IsSafe platform key_library can_record file loaded.0 loaded.1
