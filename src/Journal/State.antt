-- ===== src/Journal/State.antt =====
-- `_validate_history` of src/kil/v3b2_journal.py: the state that the loop keeps over the events, and
-- the step that it makes for each. Every refusal is a JournalError.
use kil.Prelude.{
  contains_text, ℕ, Bool, true, false, not, ◌&&◌, ◌||◌, List, [], ◌∷◌, Option, none, some, any, all,
  is_empty, leb, String, str_eq, Result, guard, journal_error, if◌then◌else◌,
}
use kil.QState.{Object}
use kil.Journal.Events.{
  Family, profile_stop, profile_delete, cluster_delete, envoy_quiesce, driver_cancel,
  evidence_freeze, cluster_absence_proof, profile_absence_proof, foreign_snapshot_comparison,
  publication, Stage, same_family,
}
use kil.Journal.Details.{Key, whole, of_request, of_driver}

pub data LifecycleMode : Type 0 where
  nominal request_free : LifecycleMode

abbrev pub is_nominal : LifecycleMode → Bool
is_nominal nominal = true
is_nominal request_free = false

unfoldable pub same_key : Key → Key → Bool
same_key whole whole = true
same_key (of_request t i) (of_request t' i') = str_eq t t' && str_eq i i'
same_key (of_driver n p u) (of_driver n' p' u') = str_eq n n' && str_eq p p' && str_eq u u'
same_key _ _ = false

-- A family with the instance that an event names.
abbrev pub StateKey : Type 0
StateKey = Family × Key

unfoldable pub same_state_key : StateKey → StateKey → Bool
unfolding same_family same_key
same_state_key (f, k) (g, j) = same_family f g && same_key k j

-- The status of a key: `intent` is Python's "pending", any other stage is how it ended.
pub record Entry : Type 0 where
  pub key : StateKey
  pub status : Stage
  pub details : Object

pub record DriverId : Type 0 where
  pub namespace : String
  pub pod : String
  pub uid : String

-- The variables of the loop.
pub record History : Type 0 where
  pub states : List Entry
  pub active : Option StateKey
  pub completed : List StateKey
  pub driver_starts : List DriverId
  pub driver_cancels : List String
  pub request_claims : List String
  pub request_results : List String
  pub foreign_unchanged : Option Bool
  pub failed_families : List Family
  pub abandoned_families : List Family

abbrev pub empty_history : History
empty_history = record {
  states = [];
  active = none;
  completed = [];
  driver_starts = [];
  driver_cancels = [];
  request_claims = [];
  request_results = [];
  foreign_unchanged = none;
  failed_families = [];
  abandoned_families = [];
}

-- What the loop is run for: the lifecycle mode and the sequence of the teardown latch.
pub record Lifecycle : Type 0 where
  pub mode : LifecycleMode
  pub teardown_from_sequence : Option ℕ

pub record Event : Type 0 where
  pub sequence : ℕ
  pub name : String
  pub details : Object

-- `states.get(key)`
unfoldable pub find_state : StateKey → List Entry → Option Entry
unfolding same_state_key
find_state k [] = none
find_state k (e ∷ es) =
    let later = find_state k es in if same_state_key k e.key then some e else later

-- `states[key] = (status, details)`
unfoldable pub set_state : Entry → List Entry → List Entry
unfolding same_state_key
set_state e [] = e ∷ []
set_state e (x ∷ xs) =
    let rest = set_state e xs in if same_state_key e.key x.key then e ∷ xs else x ∷ rest

unfoldable pub done : Family → List StateKey → Bool
unfolding same_state_key
done f completed = any (same_state_key (f, whole)) completed

unfoldable pub is_started : String → List DriverId → Bool
is_started n drivers = any (λ (d : DriverId). str_eq d.namespace n) drivers

unfoldable pub find_driver : String → List DriverId → Option DriverId
find_driver n [] = none
find_driver n (d ∷ ds) =
    let later = find_driver n ds in if str_eq d.namespace n then some d else later

-- `driver_starts[namespace] = ...`
unfoldable pub set_driver : DriverId → List DriverId → List DriverId
set_driver d [] = d ∷ []
set_driver d (x ∷ xs) =
    let rest = set_driver d xs in if str_eq x.namespace d.namespace then d ∷ xs else x ∷ rest

-- `set(driver_starts) == driver_cancels`
unfoldable pub all_cancelled : List DriverId → List String → Bool
unfolding contains_text is_started
all_cancelled starts cancels =
    all (λ (d : DriverId). contains_text d.namespace cancels) starts
    && all (λ n. is_started n starts) cancels

-- The last element of a list.
unfoldable pub last : List String → Option String
last [] = none
last (x ∷ []) = some x
last (x ∷ y ∷ ys) = last (y ∷ ys)

-- `bool(request_claims and request_claims[-1] not in request_results)`
unfoldable pub is_request_pending : History → Bool
unfolding last contains_text
is_request_pending h = elim (last h.request_claims) [
  | none ↦ false
  | some t ↦ not (contains_text t h.request_results)
]

unfoldable pub is_latched : Lifecycle → ℕ → Bool
is_latched c sequence = elim c.teardown_from_sequence [ none ↦ false | some n ↦ leb n sequence ]

unfoldable pub is_teardown_only : Lifecycle → ℕ → History → Bool
unfolding is_latched
is_teardown_only c sequence h =
    not (is_empty h.failed_families && is_empty h.abandoned_families) || is_latched c sequence

-- The families that a failed or latched lifecycle still admits.
abbrev pub teardown_families : List Family
teardown_families =
    driver_cancel ∷ envoy_quiesce ∷ evidence_freeze ∷ cluster_delete ∷ cluster_absence_proof
    ∷ profile_stop ∷ profile_delete ∷ profile_absence_proof ∷ foreign_snapshot_comparison ∷ []

-- The families that may follow a request which was given up at the evidence freeze.
abbrev pub after_abandoned_request : List Family
after_abandoned_request =
    driver_cancel ∷ cluster_delete ∷ cluster_absence_proof ∷ profile_stop ∷ profile_delete
    ∷ profile_absence_proof ∷ foreign_snapshot_comparison ∷ publication ∷ []

abbrev pub refuse_unless : Bool → Result (Unit {0})
refuse_unless b = guard b journal_error
