-- ===== src/Scenario/Load.antt =====
-- `load_scenario` of src/kil/scenario.py, on the value that the file or the caller gives.
use Prim.Native.String.{◌++◌ as text_append}
use kil.Prelude.{
  Bool, List, [], ◌∷◌, none, some, String, str_eq, Result, ok, raise, require, value_error, ◌>>=◌,
  ◌>>◌,
}
use kil.Domain.{CompositeState, LocalEvidence, check_action_request}
use kil.Evidence.{LabeledValue, EvidenceClass, check_labeled_value}
use kil.Json.{Json, Items, no_items, item, array}
use kil.Replay.{ScenarioEvent, Scenario}
use kil.Scenario.Readers.{mapping, required, expect_keys, string_field, uri_field, dependencies}
use kil.Scenario.Parts.{
  scenario_schema_version, scenario_fields, event_fields, state_fields, modeled_fields, EventHead,
  load_event_id, load_head, load_state, load_evidence,
}

abbrev modeled {ℓ} : {A : Type ℓ} → A → String → LabeledValue A
modeled a rationale = record {
  value = a;
  evidence_class = EvidenceClass.modeled;
  source_ref = none;
  rationale = some rationale;
  run_id = none;
}

-- f"{primary_source}#{source_ref}"
source_of : String → String → String
source_of primary_source source_ref = text_append primary_source (text_append "#" source_ref)

unfoldable pub event_of :
    String
    → String
    → EventHead
    → List String
    → CompositeState
    → LocalEvidence
    → String
    → ScenarioEvent
unfolding source_of
event_of primary_source event_id h parents state evidence local_rationale = record {
  event_id = event_id;
  phase = h.phase;
  request = record {
    request_id = event_id;
    identity = h.identity;
    authority_class = h.authority_class;
    timestamp_s = h.timestamp;
  };
  observed_summary = record {
    value = h.summary;
    evidence_class = EvidenceClass.observed;
    source_ref = some (source_of primary_source h.source_ref);
    rationale = none;
    run_id = none;
  };
  control_assumption = modeled (h.credential_valid, h.policy_allows_action) h.control_rationale;
  depends_on = parents;
  state_assumption = modeled state h.state_rationale;
  local_evidence_assumption = modeled evidence local_rationale;
}

-- The checks of the request and of the four labels as the event is built.
unfoldable pub check_event_parts : ScenarioEvent → Result (Unit {0})
check_event_parts e = do
  check_action_request e.request
  check_labeled_value e.observed_summary
  check_labeled_value e.control_assumption
  check_labeled_value e.state_assumption
  check_labeled_value e.local_evidence_assumption

-- One round of the loop over the events.
unfoldable pub load_event : String → List String → Json → Result ScenarioEvent
unfolding load_event_id load_head load_state load_evidence event_of check_event_parts
load_event primary_source seen raw = do
  fs ← mapping raw
  expect_keys fs event_fields
  event_id ← load_event_id fs seen
  h ← load_head fs
  parents ← dependencies fs seen
  state_value ← required fs "state"
  state_raw ← mapping state_value
  modeled_value ← required fs "modeled_context"
  modeled_raw ← mapping modeled_value
  expect_keys state_raw state_fields
  expect_keys modeled_raw modeled_fields
  local_rationale ← string_field modeled_raw "rationale"
  state ← load_state h state_raw
  evidence ← load_evidence modeled_raw
  let e = event_of primary_source event_id h parents state evidence local_rationale
  check_event_parts e
  ok e

unfoldable pub load_events : String → List String → Items → Result (List ScenarioEvent)
unfolding load_event
load_events primary_source seen no_items = ok []
load_events primary_source seen (item raw rest) = do
  e ← load_event primary_source seen raw
  es ← load_events primary_source (e.event_id ∷ seen) rest
  ok (e ∷ es)

-- `type(event_values) is not list or not event_values`
unfoldable pub nonempty_array : Json → Result Items
nonempty_array (array (item v rest)) = ok (item v rest)
nonempty_array _ = raise value_error

-- `load_scenario`
unfoldable pub load_scenario : (String → Bool) → Json → Result Scenario
unfolding nonempty_array load_events
load_scenario is_http_uri value = do
  raw ← mapping value
  expect_keys raw scenario_fields
  version ← string_field raw "schema_version"
  require (str_eq version scenario_schema_version)
  scenario_id ← string_field raw "scenario_id"
  primary_source ← uri_field is_http_uri raw "primary_source"
  event_values ← required raw "events"
  items ← nonempty_array event_values
  events ← load_events primary_source [] items
  ok (record {
    schema_version = scenario_schema_version;
    scenario_id = scenario_id;
    primary_source = primary_source;
    events = events;
  })
