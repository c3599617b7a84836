-- ===== src/Tests/Journal.antt =====
-- The theorems of src/kil/v3b2_journal.py at short journals.
use kil.Prelude.{◌≡◌, refl, List, [], ◌∷◌, ◌++◌, none, Bool, true, false, ℕ, String, ok}
use kil.QState.{Value, text, Object}
use kil.Journal.{
  profile_start, tracks, nominal, History, Lifecycle, Event, empty_history, run_events,
  validate_history, done, find_state, event_family, validate_event_details, set_state,
  driver_start_guard, request_guard,
}
use kil.Journal.Teardown.{is_torn, run_events-torn}
use kil.Journal.Requests.{validate_history-claims}

abbrev lifecycle : Lifecycle
lifecycle = record { mode = nominal; teardown_from_sequence = none }

-- A journal in which the start of the profile failed.
abbrev torn_history : History
torn_history = record empty_history { failed_families = profile_start ∷ [] }

abbrev digest : String
digest = "0123456789abcdef0123456789abcdef0123456789abcdef0123456789abcdef"

abbrev images : Object
images =
    (
      "image",
      text
          "kil.local/kil-v3b2:sha256-0123456789abcdef0123456789abcdef0123456789abcdef0123456789abcdef",
    )
    ∷ (
      "envoy_image",
      text
          "docker.io/envoyproxy/envoy@sha256:0123456789abcdef0123456789abcdef0123456789abcdef0123456789abcdef",
    )
    ∷ []

abbrev event : ℕ → String → Object → Event
event n name details = record { sequence = n; name = name; details = details }

abbrev profile_start_details : Object
profile_start_details = ("colima_profile", text "kil-v3-lab") ∷ []

abbrev cluster_create_details : Object
cluster_create_details =
    ("kind_cluster", text "kil-v3-lab") ∷ ("kubeconfig", text "/lab/config") ∷ []

abbrev cluster_create_result : Object
cluster_create_result =
    ("kind_cluster", text "kil-v3-lab")
    ∷ ("kubeconfig", text "/lab/config")
    ∷ ("cluster_incarnation_uid", text "uid")
    ∷ ("node_container_id", text digest)
    ∷ ("docker_host", text "unix:///lab/docker.sock")
    ∷ []

abbrev image_import_details : Object
image_import_details = ("archive_sha256", text digest) ∷ images

abbrev image_load_details : Object
image_load_details = images

abbrev calico_apply_details : Object
calico_apply_details = ("manifest_sha256", text digest) ∷ []

abbrev application_apply_details : Object
application_apply_details = ("manifest_sha256", text digest) ∷ []

abbrev readiness_details : Object
readiness_details = ("attestation_sha256", text digest) ∷ []

abbrev driver_start_details : Object
driver_start_details =
    ("namespace", text "kil-v3-baseline") ∷ ("pod", text "driver") ∷ ("uid", text "pod-1") ∷ []

abbrev request_details : Object
request_details =
    ("track", text "credential_policy_baseline")
    ∷ ("request_id", text "v3b1-central-request")
    ∷ ("case_sha256", text digest)
    ∷ []

-- A nominal run up to its first request.
abbrev journal : List Event
journal =
    event 1 "profile_start_intent" profile_start_details
    ∷ event 2 "profile_start_complete" profile_start_details
    ∷ event 3 "cluster_create_intent" cluster_create_details
    ∷ event 4 "cluster_create_complete" cluster_create_result
    ∷ event 5 "image_import_intent" image_import_details
    ∷ event 6 "image_import_complete" image_import_details
    ∷ event 7 "image_load_intent" image_load_details
    ∷ event 8 "image_load_complete" image_load_details
    ∷ event 9 "calico_apply_intent" calico_apply_details
    ∷ event 10 "calico_apply_complete" calico_apply_details
    ∷ event 11 "application_apply_intent" application_apply_details
    ∷ event 12 "application_apply_complete" application_apply_details
    ∷ event 13 "readiness_intent" readiness_details
    ∷ event 14 "readiness_complete" readiness_details
    ∷ event 15 "driver_start_intent" driver_start_details
    ∷ event 16 "driver_start_complete" driver_start_details
    ∷ event 17 "request_intent" request_details
    ∷ []

abbrev no_binding : Value → Bool
no_binding v = false

accepted_journal : (h : History) × (validate_history no_binding lifecycle journal ≡ ok h)
unfolding validate_history validate_event_details event_family find_state set_state done
    driver_start_guard request_guard
accepted_journal = (_, refl)

validate_history-claims_example :
    (rest : List String) × (accepted_journal.0.request_claims ++ rest ≡ tracks)
validate_history-claims_example =
    validate_history-claims no_binding lifecycle journal accepted_journal.0 accepted_journal.1

abbrev torn_journal : List Event
torn_journal = event 3 "profile_absence_proof_intent" profile_start_details ∷ []

torn_continuation :
    (h : History) × (run_events no_binding lifecycle 3 torn_journal torn_history ≡ ok h)
unfolding run_events validate_event_details event_family find_state set_state done
torn_continuation = (_, refl)

torn : is_torn torn_history ≡ true
unfolding is_torn
torn = refl

run_events-torn_example :
    (torn_continuation.0.request_claims ≡ []) × (is_torn torn_continuation.0 ≡ true)
run_events-torn_example =
    run_events-torn no_binding lifecycle 3 torn_journal torn_history torn_continuation.0 torn
      torn_continuation.1
