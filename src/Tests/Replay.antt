-- ===== src/Tests/Replay.antt =====
-- The theorems of src/kil/replay.py at a scenario of two events.
use kil.Prelude.{
  contains_text, ◌≡◌, refl, [], ◌∷◌, none, some, true, false, pos, ok, All, ◌⊎◌, is_nonblank,
}
use kil.Decimal.{lt_dec, le_dec, min_dec, max_dec}
use kil.Domain.{check_decision_record, check_action_request}
use kil.Domain.Validity.{check_action_request_iff, IsValidRequest}
use kil.Decay.{passive_decay, superlinear_loss, local_effective_charge}
use kil.Engine.{decide}
use kil.Evidence.{LabeledValue, EvidenceClass}
use kil.Replay.{
  ScenarioEvent, Scenario, ReplayReport, replay, validate_event_evidence, all_in, local_succeeds,
  signed_succeeds,
}
use kil.Replay.Order.{decision_ids, event_ids, replay-ids}
use kil.Replay.Totality.{IsPlaced, replay-total}
use kil.Replay.Conservative.{IsValidEvent, replay-Safe}
use kil.Tests.Arithmetic.{exact_context, exact_context-ContextLaws}
use kil.Tests.Engine.{
  request, state, evidence, flat_profile, request-IsValidRequest, state-IsValidState,
  evidence-IsValidEvidence, flat_profile-IsValidProfile,
}

abbrev modelled {ℓ} : {A : Type ℓ} → A → LabeledValue A
modelled a = record {
  value = a;
  evidence_class = EvidenceClass.modeled;
  source_ref = none;
  rationale = some "assumed";
  run_id = none;
}

abbrev first_event : ScenarioEvent
first_event = record {
  event_id = "r-1";
  phase = pos 1;
  request = request;
  observed_summary = record {
    value = "seen";
    evidence_class = EvidenceClass.observed;
    source_ref = some "log";
    rationale = none;
    run_id = none;
  };
  control_assumption = modelled (true, true);
  depends_on = [];
  state_assumption = modelled state;
  local_evidence_assumption = modelled evidence;
}

abbrev second_event : ScenarioEvent
second_event = record first_event {
  event_id = "r-2";
  request = record request { request_id = "r-2" };
  depends_on = "r-1" ∷ [];
}

abbrev scenario : Scenario
scenario = record {
  schema_version = "kil.scenario.v1";
  scenario_id = "two";
  primary_source = "https://example.org";
  events = first_event ∷ second_event ∷ [];
}

first_event-IsValidEvent : IsValidEvent first_event
first_event-IsValidEvent = record {
  valid_request = request-IsValidRequest;
  valid_state = state-IsValidState;
  valid_evidence = evidence-IsValidEvidence;
}

second_request-IsValidRequest : IsValidRequest second_event.request
unfolding check_action_request is_nonblank
second_request-IsValidRequest = (check_action_request_iff second_event.request).0 refl

second_event-IsValidEvent : IsValidEvent second_event
second_event-IsValidEvent = record {
  valid_request = second_request-IsValidRequest;
  valid_state = state-IsValidState;
  valid_evidence = evidence-IsValidEvidence;
}

replayed : (report : ReplayReport) × (replay exact_context scenario flat_profile ≡ ok report)
unfolding replay decide exact_context is_nonblank lt_dec le_dec min_dec max_dec passive_decay
    superlinear_loss local_effective_charge check_decision_record
replayed = (_, refl)

replay-ids_example : decision_ids replayed.0.decisions ≡ event_ids (first_event ∷ second_event ∷ [])
replay-ids_example = replay-ids exact_context scenario flat_profile replayed.0 replayed.1

replay-Safe_example :
    All (λ d. (local_succeeds d ≡ false) ⊎ (signed_succeeds d ≡ true)) replayed.0.decisions
replay-Safe_example =
    replay-Safe exact_context exact_context-ContextLaws flat_profile flat_profile-IsValidProfile
      scenario replayed.0 (first_event-IsValidEvent, (second_event-IsValidEvent, tt)) replayed.1

first_event-IsPlaced : IsPlaced [] first_event
unfolding validate_event_evidence is_nonblank contains_text all_in
first_event-IsPlaced = record { labelled = refl; named = refl; fresh = refl; ordered = refl }

second_event-IsPlaced : IsPlaced ("r-1" ∷ []) second_event
unfolding validate_event_evidence is_nonblank contains_text all_in
second_event-IsPlaced = record { labelled = refl; named = refl; fresh = refl; ordered = refl }

scenario_named : is_nonblank "two" ≡ true
unfolding is_nonblank
scenario_named = refl

replay-total_example :
    (report : ReplayReport) × (replay exact_context scenario flat_profile ≡ ok report)
replay-total_example =
    replay-total exact_context exact_context-ContextLaws flat_profile flat_profile-IsValidProfile
      scenario scenario_named refl (first_event-IsValidEvent, (second_event-IsValidEvent, tt))
      (first_event-IsPlaced, (second_event-IsPlaced, tt))
