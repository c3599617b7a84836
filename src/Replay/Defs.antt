-- ===== src/Replay/Defs.antt =====
-- `PairedDecision`, `ReplayReport` and `replay` (src/kil/replay.py), over the `ScenarioEvent` and the
-- `Scenario` of src/kil/scenario.py. A set of event identifiers is a list.
use kil.Prelude.{
  contains_text, ℤ, Bool, true, false, not, ◌&&◌, List, [], ◌∷◌, ◌++◌, some, none, all, is_empty,
  String, str_eq, is_nonblank, Result, ok, require, ◌>>=◌, ◌>>◌, if◌then◌else◌,
}
use kil.Decimal.{Context}
use kil.Domain.{
  ActionRequest, CompositeState, DecisionRecord, EnforcementMode, FailureDisposition, LocalEvidence,
  ReductionProfile, is_permit,
}
use kil.Engine.{decide}
use kil.Evidence.{LabeledValue, EvidenceClass, is_modeled, is_observed}

pub record ScenarioEvent : Type 0 where
  pub event_id : String
  pub phase : ℤ
  pub request : ActionRequest
  pub observed_summary : LabeledValue String
  pub control_assumption : LabeledValue (Bool × Bool)
  pub depends_on : List String
  pub state_assumption : LabeledValue CompositeState
  pub local_evidence_assumption : LabeledValue LocalEvidence

pub record Scenario : Type 0 where
  pub schema_version : String
  pub scenario_id : String
  pub primary_source : String
  pub events : List ScenarioEvent

pub record PairedDecision : Type 0 where
  pub event_id : String
  pub baseline_permit : Bool
  pub baseline_reachable : Bool
  pub signed_state_only : DecisionRecord
  pub signed_state_only_reachable : Bool
  pub signed_plus_local_reduce : DecisionRecord
  pub signed_plus_local_reduce_reachable : Bool
  pub evidence_class : EvidenceClass

is_signed_only : EnforcementMode → Bool
is_signed_only EnforcementMode.signed_state_only = true
is_signed_only _ = false

is_local_reduce : EnforcementMode → Bool
is_local_reduce EnforcementMode.signed_plus_local_reduce = true
is_local_reduce _ = false

-- `PairedDecision.__post_init__`
unfoldable pub check_paired_decision : PairedDecision → Result (Unit {0})
unfolding is_signed_only is_local_reduce
check_paired_decision d = do
  require (is_nonblank d.event_id)
  require (is_signed_only d.signed_state_only.mode)
  require (is_local_reduce d.signed_plus_local_reduce.mode)
  require (is_modeled d.evidence_class)

pub record ReplayReport : Type 0 where
  pub scenario_id : String
  pub decisions : List PairedDecision
  pub evidence_class : EvidenceClass

-- `ReplayReport.__post_init__`
unfoldable pub check_replay_report : ReplayReport → Result (Unit {0})
check_replay_report r = do
  require (is_nonblank r.scenario_id)
  require (not (is_empty r.decisions))
  require (is_modeled r.evidence_class)

-- `_validate_event_evidence`
unfoldable pub validate_event_evidence : ScenarioEvent → Result (Unit {0})
validate_event_evidence e = do
  require (str_eq e.request.request_id e.event_id)
  require (is_observed e.observed_summary.evidence_class)
  require (is_modeled e.control_assumption.evidence_class)
  require (is_modeled e.state_assumption.evidence_class)
  require (is_modeled e.local_evidence_assumption.evidence_class)

-- The variables of the loop of `replay`.
pub record Progress : Type 0 where
  pub decisions : List PairedDecision
  pub baseline_success : List String
  pub signed_success : List String
  pub local_success : List String
  pub seen : List String

abbrev pub no_progress : Progress
no_progress = record {
  decisions = [];
  baseline_success = [];
  signed_success = [];
  local_success = [];
  seen = [];
}

-- `all(parent in success for parent in event.depends_on)`
unfoldable pub all_in : List String → List String → Bool
unfolding contains_text
all_in success parents = all (λ p. contains_text p success) parents

-- `if test: success.add(event_id)`
unfoldable pub add_if : Bool → String → List String → List String
add_if b event_id success = if b then event_id ∷ success else success

unfoldable pub paired_decision :
    ScenarioEvent → Progress → DecisionRecord → DecisionRecord → PairedDecision
unfolding all_in
paired_decision e p signed local = record {
  event_id = e.event_id;
  baseline_permit = e.control_assumption.value.0 && e.control_assumption.value.1;
  baseline_reachable = all_in p.baseline_success e.depends_on;
  signed_state_only = signed;
  signed_state_only_reachable = all_in p.signed_success e.depends_on;
  signed_plus_local_reduce = local;
  signed_plus_local_reduce_reachable = all_in p.local_success e.depends_on;
  evidence_class = EvidenceClass.modeled;
}

-- The event is reached, and permitted, in the mode.
unfoldable pub signed_succeeds : PairedDecision → Bool
signed_succeeds d = d.signed_state_only_reachable && is_permit d.signed_state_only.outcome

unfoldable pub local_succeeds : PairedDecision → Bool
local_succeeds d =
    d.signed_plus_local_reduce_reachable && is_permit d.signed_plus_local_reduce.outcome

-- The decision is recorded, and the event is added to the sets of the modes in which it succeeds.
unfoldable pub advance : PairedDecision → Progress → Progress
unfolding add_if signed_succeeds local_succeeds
advance d p = record {
  decisions = p.decisions ++ d ∷ [];
  baseline_success =
      add_if (d.baseline_reachable && d.baseline_permit) d.event_id p.baseline_success;
  signed_success = add_if (signed_succeeds d) d.event_id p.signed_success;
  local_success = add_if (local_succeeds d) d.event_id p.local_success;
  seen = d.event_id ∷ p.seen;
}

unfoldable pub decide_signed : Context → ScenarioEvent → Result DecisionRecord
decide_signed c e =
    decide c e.request e.state_assumption.value EnforcementMode.signed_state_only none none
      FailureDisposition.closed

unfoldable pub decide_local : Context → ReductionProfile → ScenarioEvent → Result DecisionRecord
decide_local c profile e =
    decide c e.request e.state_assumption.value EnforcementMode.signed_plus_local_reduce
      (some e.local_evidence_assumption.value) (some profile) FailureDisposition.closed

-- The checks on an event against the events before it.
unfoldable pub check_event : ScenarioEvent → Progress → Result (Unit {0})
unfolding validate_event_evidence all_in contains_text
check_event e p = do
  validate_event_evidence e
  require (not (contains_text e.event_id p.seen))
  require (all_in p.seen e.depends_on)

-- One round of the loop.
unfoldable pub replay_event :
    Context → ReductionProfile → ScenarioEvent → Progress → Result Progress
unfolding check_event decide_signed decide_local paired_decision check_paired_decision advance
replay_event c profile e p = do
  check_event e p
  signed ← decide_signed c e
  local ← decide_local c profile e
  let d = paired_decision e p signed local
  check_paired_decision d
  ok (advance d p)

unfoldable pub replay_events :
    Context → ReductionProfile → List ScenarioEvent → Progress → Result Progress
unfolding replay_event
replay_events c profile [] p = ok p
replay_events c profile (e ∷ es) p = do
  p' ← replay_event c profile e p
  replay_events c profile es p'

unfoldable pub replay_report : Scenario → Progress → ReplayReport
replay_report s p = record {
  scenario_id = s.scenario_id;
  decisions = p.decisions;
  evidence_class = EvidenceClass.modeled;
}

unfoldable pub replay : Context → Scenario → ReductionProfile → Result ReplayReport
unfolding replay_events replay_report check_replay_report
replay c s profile = do
  require (not (is_empty s.events))
  p ← replay_events c profile s.events no_progress
  check_replay_report (replay_report s p)
  ok (replay_report s p)
