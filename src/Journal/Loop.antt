-- ===== src/Journal/Loop.antt =====
-- The loop of `_validate_history` (src/kil/v3b2_journal.py) over the steps for intents and terminals.
use kil.Prelude.{
  contains_text, ℕ, ◌+◌, Bool, true, false, not, ◌&&◌, ◌||◌, List, [], ◌∷◌, ◌++◌, Option, none,
  some, any, length, ◌==◌, leb, String, str_eq, eqb_ℤ, Result, ok, raise, journal_error,
  if◌then◌else◌, ◌>>=◌, ◌>>◌,
}
use kil.QState.{Value, text, integer, boolean, Object, get, has_key}
use kil.Journal.Events.{
  Family, request, profile_start, cluster_create, envoy_quiesce, evidence_freeze, driver_start,
  driver_cancel, foreign_snapshot_comparison, Stage, intent, complete, failed, abandoned, is_one_of,
  same_family,
}
use kil.Journal.Details.{Key, validate_event_details}
use kil.Journal.State.{
  StateKey, same_state_key, Entry, History, empty_history, Lifecycle, Event, find_state, set_state,
  done, set_driver, is_request_pending, is_latched, is_teardown_only, teardown_families,
  after_abandoned_request, refuse_unless,
}
use kil.Journal.Steps.{driver_of, track_of, adopt_driver, family_guard}

-- The checks that come before the ladder of the families.
unfoldable pub admission_guard : Lifecycle → ℕ → StateKey → History → Result (Unit {0})
unfolding find_state is_teardown_only is_request_pending done is_one_of
admission_guard c sequence k h = do
  refuse_unless (elim (find_state k h.states) [ none ↦ true | some e ↦ false ])
  refuse_unless (elim h.active [ none ↦ true | some a ↦ false ])
  refuse_unless (not (is_teardown_only c sequence h) || is_one_of k.0 teardown_families)
  let abandoned_request = is_request_pending h && done evidence_freeze h.completed
  refuse_unless (
      not (is_request_pending h)
      || abandoned_request
      || is_one_of k.0 (envoy_quiesce ∷ evidence_freeze ∷ []))
  refuse_unless (not abandoned_request || is_one_of k.0 after_abandoned_request)

-- `driver_starts` as the cancellation of a driver leaves it.
unfoldable pub before_guard : Lifecycle → ℕ → Family → Object → History → History
unfolding is_teardown_only adopt_driver driver_of
before_guard c sequence driver_cancel o h =
    adopt_driver (is_teardown_only c sequence h) (driver_of o) h
before_guard c sequence f o h = h

-- `states[state_key] = ("pending", details)`; a request is claimed, any other intent is active.
unfoldable pub open_intent : StateKey → Object → History → History
unfolding set_state track_of
open_intent (request, j) o h = record h {
  states = set_state (record { key = (request, j); status = intent; details = o }) h.states;
  request_claims = h.request_claims ++ track_of o ∷ [];
}
open_intent (f, j) o h = record h {
  states = set_state (record { key = (f, j); status = intent; details = o }) h.states;
  active = some (f, j);
}

unfoldable pub step_intent : Lifecycle → ℕ → StateKey → Object → History → Result History
unfolding admission_guard before_guard family_guard open_intent is_teardown_only
step_intent c sequence k o h = do
  admission_guard c sequence k h
  let h' = before_guard c sequence k.0 o h
  family_guard c sequence (is_teardown_only c sequence h) k.0 o h'
  ok (open_intent k o h')

-- Python's `==` on the values that a validated intent holds.
same_value : Value → Value → Bool
same_value (text s) (text t) = str_eq s t
same_value (integer m) (integer n) = eqb_ℤ m n
same_value (boolean true) (boolean b) = b
same_value (boolean false) (boolean b) = not b
same_value _ _ = false

-- The results of a foreign comparison are observed, so they may differ from its intent.
is_observed_result : Family → Stage → Object → String → Bool
unfolding has_key contains_text
is_observed_result foreign_snapshot_comparison complete o name =
    has_key "observed_proof_sha256" o
    && contains_text name ("unchanged" ∷ "attestation_sha256" ∷ [])
is_observed_result f stage o name = false

-- The details of a terminal event repeat those of its intent.
unfoldable pub matches_intent : Family → Stage → Object → Object → Bool
unfolding get same_value is_observed_result
matches_intent f stage o [] = true
matches_intent f stage o ((name, expected) ∷ rest) =
    (is_observed_result f stage o name
      || (elim (get name o) [ none ↦ false | some v ↦ same_value v expected ]))
    && matches_intent f stage o rest

-- What a terminal event demands of the lifecycle: a request must end before recovery begins, and any
-- other event ends the active intent.
unfoldable pub order_guard : Lifecycle → ℕ → StateKey → History → Result (Unit {0})
unfolding is_latched same_family same_state_key
order_guard c sequence (request, j) h = do
  refuse_unless (not (is_latched c sequence))
  refuse_unless (elim h.active [ none ↦ true | some a ↦ false ])
  refuse_unless (not (any (λ (e : Entry). same_family e.key.0 evidence_freeze) h.states))
order_guard c sequence k h =
    refuse_unless (elim h.active [ none ↦ false | some a ↦ same_state_key a k ])

unfoldable pub abandonment_guard : Family → History → Result (Unit {0})
unfolding is_one_of done
abandonment_guard f h = refuse_unless (
    is_one_of f (profile_start ∷ cluster_create ∷ [])
    || done cluster_create h.completed
    || is_one_of cluster_create h.abandoned_families)

-- The end of a request or of the active intent.
unfoldable pub close_intent : StateKey → Object → History → History
unfolding track_of
close_intent (request, j) o h = record h { request_results = track_of o ∷ h.request_results }
close_intent k o h = record h { active = none }

-- What a completed event of a family leaves behind.
unfoldable pub completion_effect : Family → Object → History → History
unfolding driver_of set_driver get
completion_effect driver_start o h = record h {
  driver_starts = set_driver (driver_of o) h.driver_starts;
}
completion_effect driver_cancel o h =
    let d = driver_of o in record h { driver_cancels = d.namespace ∷ h.driver_cancels }
completion_effect foreign_snapshot_comparison o h = record h {
  foreign_unchanged = elim (get "unchanged" o) [ some (boolean b) ↦ some b | _ ↦ none ];
}
completion_effect f o h = h

unfoldable pub abandonment_effect : Family → Object → History → History
unfolding driver_of
abandonment_effect driver_cancel o h =
    let d = driver_of o in record h { driver_cancels = d.namespace ∷ h.driver_cancels }
abandonment_effect f o h = h

-- The outcome of a stage: `completed`, `failed_families` or `abandoned_families` grows.
unfoldable pub settle_stage : Stage → StateKey → Object → History → Result History
unfolding close_intent completion_effect abandonment_effect abandonment_guard
settle_stage complete k o h =
    ok (completion_effect k.0 o (close_intent k o (record h { completed = k ∷ h.completed })))
settle_stage failed k o h =
    ok (close_intent k o (record h { failed_families = k.0 ∷ h.failed_families }))
settle_stage abandoned k o h = do
  abandonment_guard k.0 h
  ok (
      abandonment_effect k.0 o
        (close_intent k o (record h { abandoned_families = k.0 ∷ h.abandoned_families })))
settle_stage intent k o h = raise journal_error

is_pending : Stage → Bool
is_pending intent = true
is_pending _ = false

-- The intent that a terminal event ends.
unfoldable pub pending_intent : StateKey → History → Option Object
unfolding find_state is_pending
pending_intent k h = elim (find_state k h.states) [
  | none ↦ none
  | some e ↦ if is_pending e.status then some e.details else none
]

-- Ends the intent with the given details, if there is one.
unfoldable pub end_intent :
    Lifecycle → ℕ → Stage → StateKey → Object → History → Option Object → Result History
unfolding order_guard matches_intent set_state settle_stage
end_intent c sequence stage k o h none = raise journal_error
end_intent c sequence stage k o h (some begun) = do
  order_guard c sequence k h
  refuse_unless (matches_intent k.0 stage o begun)
  settle_stage stage k o
      (record h { states = set_state (record { key = k; status = stage; details = o }) h.states })

unfoldable pub step_terminal : Lifecycle → ℕ → Stage → StateKey → Object → History → Result History
unfolding pending_intent end_intent
step_terminal c sequence stage k o h = end_intent c sequence stage k o h (pending_intent k h)

unfoldable pub step_checked :
    Lifecycle → ℕ → Object → Family × Stage × Key → History → Result History
unfolding step_intent step_terminal
step_checked c sequence o (f, intent, j) h = step_intent c sequence (f, j) o h
step_checked c sequence o (f, stage, j) h = step_terminal c sequence stage (f, j) o h

-- One round of the loop.
unfoldable pub step : (Value → Bool) → Lifecycle → ℕ → Event → History → Result History
unfolding validate_event_details step_checked
step binding_valid c sequence e h = do
  refuse_unless (e.sequence == sequence)
  checked ← validate_event_details binding_valid e.name e.details
  step_checked c sequence e.details checked h

unfoldable pub run_events : (Value → Bool) → Lifecycle → ℕ → List Event → History → Result History
unfolding step
run_events binding_valid c sequence [] h = ok h
run_events binding_valid c sequence (e ∷ es) h = do
  h' ← step binding_valid c sequence e h
  run_events binding_valid c (sequence + 1) es h'

-- `_validate_history`, which returns the state at the end where the source returns nothing.
unfoldable pub validate_history : (Value → Bool) → Lifecycle → List Event → Result History
unfolding run_events
validate_history binding_valid c events = do
  refuse_unless (leb (length events) 10000)
  run_events binding_valid c 1 events empty_history
