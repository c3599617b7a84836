-- ===== src/Scenario/Parts.antt =====
-- The parts of an event that `load_scenario` of src/kil/scenario.py reads.
use kil.Prelude.{
  contains_text, Bool, not, List, [], ◌∷◌, ℤ, pos, String, Result, ok, require, ◌>>=◌, ◌>>◌,
}
use kil.Domain.{CompositeState, LocalEvidence, check_composite_state, check_local_evidence}
use kil.Json.{Fields}
use kil.Scenario.Readers.{string_field, integer_field, boolean_field, decimal_field}

abbrev pub scenario_schema_version : String
scenario_schema_version = "kil.scenario.v1"

abbrev pub scenario_fields : List String
scenario_fields = "schema_version" ∷ "scenario_id" ∷ "primary_source" ∷ "events" ∷ []

abbrev pub event_fields : List String
event_fields =
    "event_id" ∷ "phase" ∷ "timestamp_s" ∷ "identity" ∷ "authority_class" ∷ "summary" ∷ "source_ref"
    ∷ "credential_valid" ∷ "policy_allows_action" ∷ "control_rationale" ∷ "state_rationale"
    ∷ "depends_on" ∷ "state" ∷ "modeled_context" ∷ []

abbrev pub state_fields : List String
state_fields =
    "state_id" ∷ "issued_at_s" ∷ "not_before_s" ∷ "expires_at_s" ∷ "charge" ∷ "threshold"
    ∷ "history_count" ∷ "minimum_history" ∷ "authentic" ∷ "veto_clear" ∷ "envelope_allows"
    ∷ "decay_rate" ∷ "maximum_charge" ∷ []

abbrev pub modeled_fields : List String
modeled_fields = "divergence" ∷ "coupled_loss" ∷ "fresh" ∷ "rationale" ∷ []

-- The plain fields of an event, after its identifier.
pub record EventHead : Type 0 where
  pub phase : ℤ
  pub timestamp : ℤ
  pub identity : String
  pub authority_class : String
  pub summary : String
  pub source_ref : String
  pub credential_valid : Bool
  pub policy_allows_action : Bool
  pub control_rationale : String
  pub state_rationale : String

-- The identifier of an event, which is new.
unfoldable pub load_event_id : Fields → List String → Result String
load_event_id fs seen = do
  event_id ← string_field fs "event_id"
  require (not (contains_text event_id seen))
  ok event_id

unfoldable pub load_head : Fields → Result EventHead
load_head fs = do
  phase ← integer_field fs "phase" (pos 1)
  timestamp ← integer_field fs "timestamp_s" (pos 0)
  identity ← string_field fs "identity"
  authority_class ← string_field fs "authority_class"
  summary ← string_field fs "summary"
  source_ref ← string_field fs "source_ref"
  credential_valid ← boolean_field fs "credential_valid"
  policy_allows_action ← boolean_field fs "policy_allows_action"
  control_rationale ← string_field fs "control_rationale"
  state_rationale ← string_field fs "state_rationale"
  ok (record {
    phase = phase;
    timestamp = timestamp;
    identity = identity;
    authority_class = authority_class;
    summary = summary;
    source_ref = source_ref;
    credential_valid = credential_valid;
    policy_allows_action = policy_allows_action;
    control_rationale = control_rationale;
    state_rationale = state_rationale;
  })

unfoldable pub read_state : EventHead → Fields → Result CompositeState
read_state h fs = do
  state_id ← string_field fs "state_id"
  issued_at_s ← integer_field fs "issued_at_s" (pos 0)
  not_before_s ← integer_field fs "not_before_s" (pos 0)
  expires_at_s ← integer_field fs "expires_at_s" (pos 1)
  charge ← decimal_field fs "charge"
  threshold ← decimal_field fs "threshold"
  history_count ← integer_field fs "history_count" (pos 0)
  minimum_history ← integer_field fs "minimum_history" (pos 0)
  authentic ← boolean_field fs "authentic"
  veto_clear ← boolean_field fs "veto_clear"
  envelope_allows ← boolean_field fs "envelope_allows"
  decay_rate ← decimal_field fs "decay_rate"
  maximum_charge ← decimal_field fs "maximum_charge"
  ok (record {
    state_id = state_id;
    identity = h.identity;
    authority_class = h.authority_class;
    issued_at_s = issued_at_s;
    not_before_s = not_before_s;
    expires_at_s = expires_at_s;
    charge = charge;
    threshold = threshold;
    history_count = history_count;
    minimum_history = minimum_history;
    authentic = authentic;
    veto_clear = veto_clear;
    envelope_allows = envelope_allows;
    decay_rate = decay_rate;
    maximum_charge = maximum_charge;
  })

-- `CompositeState(...)`: its own checks run.
unfoldable pub load_state : EventHead → Fields → Result CompositeState
unfolding read_state
load_state h fs = do s ← read_state h fs; check_composite_state s; ok s

-- `LocalEvidence(...)`
unfoldable pub load_evidence : Fields → Result LocalEvidence
load_evidence fs = do
  divergence ← decimal_field fs "divergence"
  coupled_loss ← decimal_field fs "coupled_loss"
  fresh ← boolean_field fs "fresh"
  let e : LocalEvidence = record {
    divergence = divergence;
    coupled_loss = coupled_loss;
    fresh = fresh;
  }
  check_local_evidence e
  ok e
