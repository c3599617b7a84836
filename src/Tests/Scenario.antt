-- ===== src/Tests/Scenario.antt =====
-- The theorems of src/kil/scenario.py at a scenario of one event.
use kil.Prelude.{
  contains_text, is_distinct, ◌≡◌, refl, Bool, true, pos, String, ok, str_eq, is_nonblank, is_digit,
}
use kil.Decimal.{lt_dec, le_dec}
use kil.Domain.{check_composite_state, check_local_evidence, check_action_request}
use kil.Evidence.{is_nonblank_string, check_labeled_value}
use kil.Json.{
  Json, boolean, integer, text, array, object, no_items, item, no_fields, field, field_of, keys_of,
}
use kil.QState.{split_point, digits_value}
use kil.Replay.{Scenario, ReplayReport, replay}
use kil.Scenario.{
  load_scenario, decimal_of_text, mapping, expect_keys, string_field, uri_field, integer_field,
  boolean_field, dependencies, decimal_field,
}
use kil.Scenario.WellFormed.{IsWellFormed, load_scenario-IsWellFormed, load_scenario-replays}
use kil.Tests.Arithmetic.{exact_context, exact_context-ContextLaws}
use kil.Tests.Engine.{flat_profile, flat_profile-IsValidProfile}

abbrev state_value : Json
state_value = object (
    field "state_id" (text "s-1") (
      field "issued_at_s" (integer (pos 100)) (
        field "not_before_s" (integer (pos 100)) (
          field "expires_at_s" (integer (pos 110)) (
            field "charge" (text "9") (
              field "threshold" (text "5") (
                field "history_count" (integer (pos 4)) (
                  field "minimum_history" (integer (pos 2)) (
                    field "authentic" (boolean true) (
                      field "veto_clear" (boolean true) (
                        field "envelope_allows" (boolean true) (
                          field "decay_rate" (text "0.05")
                            (field "maximum_charge" (text "10.0") no_fields)))))))))))))

abbrev context_value : Json
context_value = object (
    field "divergence" (text "0.4") (
      field "coupled_loss" (text "0")
        (field "fresh" (boolean true) (field "rationale" (text "assumed") no_fields))))

abbrev event_value : Json
event_value = object (
    field "event_id" (text "r-1") (
      field "phase" (integer (pos 1)) (
        field "timestamp_s" (integer (pos 100)) (
          field "identity" (text "agent") (
            field "authority_class" (text "ops") (
              field "summary" (text "seen") (
                field "source_ref" (text "p1") (
                  field "credential_valid" (boolean true) (
                    field "policy_allows_action" (boolean true) (
                      field "control_rationale" (text "assumed") (
                        field "state_rationale" (text "assumed") (
                          field "depends_on" (array no_items) (
                            field "state" state_value
                              (field "modeled_context" context_value no_fields))))))))))))))

abbrev scenario_value : Json
scenario_value = object (
    field "schema_version" (text "kil.scenario.v1") (
      field "scenario_id" (text "one") (
        field "primary_source" (text "https://example.org")
          (field "events" (array (item event_value no_items)) no_fields))))

abbrev is_example_uri : String → Bool
is_example_uri s = str_eq s "https://example.org"

loaded : (s : Scenario) × (load_scenario is_example_uri scenario_value ≡ ok s)
unfolding load_scenario field_of keys_of contains_text is_nonblank decimal_of_text split_point
    digits_value check_composite_state check_local_evidence check_action_request is_nonblank_string
    lt_dec le_dec is_distinct mapping expect_keys string_field uri_field integer_field boolean_field
    dependencies decimal_field is_digit check_labeled_value
loaded = (_, refl)

load_scenario-IsWellFormed_example : IsWellFormed loaded.0
load_scenario-IsWellFormed_example =
    load_scenario-IsWellFormed is_example_uri scenario_value loaded.0 loaded.1

load_scenario-replays_example :
    (report : ReplayReport) × (replay exact_context loaded.0 flat_profile ≡ ok report)
load_scenario-replays_example =
    load_scenario-replays exact_context exact_context-ContextLaws flat_profile
      flat_profile-IsValidProfile is_example_uri scenario_value loaded.0 loaded.1
