-- ===== src/Journal/Steps.antt =====
-- The body of the loop of `_validate_history` (src/kil/v3b2_journal.py): what an intent requires, and
-- how intents and terminal events change the state.
use kil.Prelude.{
  contains_text, ℕ, ◌-◌, Bool, false, not, ◌&&◌, ◌||◌, List, [], ◌∷◌, none, some, is_empty, length,
  get_elem?, ◌==◌, String, str_eq, Result, if◌then◌else◌, ◌>>◌, keep,
}
use kil.QState.{Object, get}
use kil.Journal.Events.{
  Family, request, profile_start, profile_stop, profile_delete, cluster_create, cluster_delete,
  image_import, image_load, calico_apply, application_apply, readiness, envoy_quiesce, driver_start,
  driver_cancel, evidence_freeze, cluster_absence_proof, profile_absence_proof,
  foreign_snapshot_comparison, publication, is_one_of,
}
use kil.Journal.Fields.{tracks, namespaces}
use kil.Journal.Details.{text_or_empty}
use kil.Journal.State.{
  LifecycleMode, is_nominal, DriverId, History, Lifecycle, done, is_started, find_driver,
  set_driver, all_cancelled, is_request_pending, refuse_unless,
}

-- `items[i] == value`. The code's indices are in range where it tests.
unfoldable pub is_at : List String → ℕ → String → Bool
is_at items i value = elim (get_elem? items i) [ none ↦ false | some x ↦ str_eq x value ]

unfoldable pub driver_of : Object → DriverId
unfolding get text_or_empty
driver_of o = record {
  namespace = text_or_empty (get "namespace" o);
  pod = text_or_empty (get "pod" o);
  uid = text_or_empty (get "uid" o);
}

unfoldable pub same_driver : DriverId → DriverId → Bool
same_driver d e = str_eq d.namespace e.namespace && str_eq d.pod e.pod && str_eq d.uid e.uid

-- `track_namespace[track]`
unfoldable pub namespace_of : String → List String → List String → String
namespace_of t (x ∷ xs) (n ∷ ns) =
    let later = namespace_of t xs ns in if str_eq x t then n else later
namespace_of t _ _ = ""

unfoldable pub track_of : Object → String
unfolding get text_or_empty
track_of o = text_or_empty (get "track" o)

-- The namespaces, in order, of the drivers that have started and are not cancelled.
unfoldable pub remaining : History → List String
unfolding is_started contains_text
remaining h =
    keep (λ n. is_started n h.driver_starts && not (contains_text n h.driver_cancels)) namespaces

unfoldable pub is_first : String → List String → Bool
is_first n [] = false
is_first n (x ∷ xs) = str_eq n x

-- A driver that only the durable readiness inventory names is adopted by its cancellation.
unfoldable pub adopt_driver : Bool → DriverId → History → History
unfolding is_started set_driver done
adopt_driver teardown_only d h =
    if not (is_started d.namespace h.driver_starts) && (teardown_only && done readiness h.completed)
    then record h { driver_starts = set_driver d h.driver_starts }
    else h

unfoldable pub is_bound_driver : DriverId → History → Bool
unfolding find_driver same_driver
is_bound_driver d h = elim (find_driver d.namespace h.driver_starts) [
  | none ↦ false
  | some e ↦ same_driver e d
]

unfoldable pub driver_start_guard : LifecycleMode → DriverId → History → Result (Unit {0})
unfolding done is_started is_at contains_text
driver_start_guard mode d h = do
  refuse_unless (done readiness h.completed && not (done evidence_freeze h.completed))
  refuse_unless (not (is_started d.namespace h.driver_starts))
  refuse_unless (is_at namespaces (length h.driver_starts) d.namespace)
  refuse_unless (
      is_empty h.driver_starts
      || not (is_nominal mode)
      || (elim (get_elem? tracks (length h.driver_starts - 1)) [
        | none ↦ false
        | some t ↦ contains_text t h.request_results
      ]))

unfoldable pub request_guard : LifecycleMode → String → History → Result (Unit {0})
unfolding done is_started is_at is_request_pending namespace_of
request_guard mode track h = do
  refuse_unless (is_nominal mode)
  refuse_unless (done readiness h.completed && not (done evidence_freeze h.completed))
  refuse_unless (is_at tracks (length h.request_claims) track)
  refuse_unless (is_started (namespace_of track tracks namespaces) h.driver_starts)
  refuse_unless (not (is_request_pending h))

-- On the state after `adopt_driver`.
unfoldable pub driver_cancel_guard : LifecycleMode → DriverId → History → Result (Unit {0})
unfolding done is_started is_bound_driver contains_text remaining is_first
driver_cancel_guard mode d h = do
  refuse_unless (done evidence_freeze h.completed || not (is_nominal mode))
  refuse_unless (is_started d.namespace h.driver_starts)
  refuse_unless (is_bound_driver d h)
  refuse_unless (not (contains_text d.namespace h.driver_cancels))
  refuse_unless (is_first d.namespace (remaining h))

unfoldable pub freeze_guard : LifecycleMode → History → Result (Unit {0})
unfolding done all_cancelled is_one_of
freeze_guard mode h = do
  refuse_unless (done readiness h.completed)
  let waiting = not (is_nominal mode) && not (is_empty h.driver_starts)
  refuse_unless (not waiting || all_cancelled h.driver_starts h.driver_cancels)
  refuse_unless (
      not waiting || done envoy_quiesce h.completed || is_one_of envoy_quiesce h.abandoned_families)

unfoldable pub quiesce_guard : LifecycleMode → Bool → History → Result (Unit {0})
unfolding done all_cancelled
quiesce_guard mode teardown_only h = do
  refuse_unless (done readiness h.completed && not (done evidence_freeze h.completed))
  refuse_unless (is_nominal mode || teardown_only || (length h.driver_starts == length tracks))
  refuse_unless (is_nominal mode || all_cancelled h.driver_starts h.driver_cancels)

unfoldable pub cluster_delete_guard : History → Result (Unit {0})
unfolding done all_cancelled is_one_of
cluster_delete_guard h = do
  refuse_unless (done cluster_create h.completed || is_one_of cluster_create h.abandoned_families)
  refuse_unless (all_cancelled h.driver_starts h.driver_cancels)
  refuse_unless (
      not (done readiness h.completed)
      || done evidence_freeze h.completed
      || not (is_empty h.abandoned_families))

unfoldable pub profile_stop_guard : History → Result (Unit {0})
unfolding done is_one_of
profile_stop_guard h = do
  refuse_unless (done profile_start h.completed || is_one_of profile_start h.abandoned_families)
  refuse_unless (
      not (done cluster_create h.completed || is_one_of cluster_create h.abandoned_families)
      || done cluster_absence_proof h.completed)

unfoldable pub publication_guard : Bool → History → Result (Unit {0})
unfolding done
publication_guard teardown_only h = do
  refuse_unless (not teardown_only)
  refuse_unless (done foreign_snapshot_comparison h.completed)
  refuse_unless (elim h.foreign_unchanged [ none ↦ false | some b ↦ b ])

-- The `if family == ...` ladder: what each family requires of its intent.
unfoldable pub family_guard : Lifecycle → ℕ → Bool → Family → Object → History → Result (Unit {0})
unfolding done driver_of track_of is_one_of
family_guard c sequence t profile_start o h = refuse_unless (sequence == 1)
family_guard c sequence t cluster_create o h = refuse_unless (done profile_start h.completed)
family_guard c sequence t calico_apply o h =
    refuse_unless (done cluster_create h.completed && done image_load h.completed)
family_guard c sequence t image_import o h = refuse_unless (done cluster_create h.completed)
family_guard c sequence t image_load o h =
    refuse_unless (done cluster_create h.completed && done image_import h.completed)
family_guard c sequence t application_apply o h = refuse_unless (done calico_apply h.completed)
family_guard c sequence t readiness o h = refuse_unless (done application_apply h.completed)
family_guard c sequence t driver_start o h = driver_start_guard c.mode (driver_of o) h
family_guard c sequence t request o h = request_guard c.mode (track_of o) h
family_guard c sequence t evidence_freeze o h = freeze_guard c.mode h
family_guard c sequence t envoy_quiesce o h = quiesce_guard c.mode t h
family_guard c sequence t driver_cancel o h = driver_cancel_guard c.mode (driver_of o) h
family_guard c sequence t cluster_delete o h = cluster_delete_guard h
family_guard c sequence t cluster_absence_proof o h =
    refuse_unless (done cluster_delete h.completed)
family_guard c sequence t profile_stop o h = profile_stop_guard h
family_guard c sequence t profile_delete o h = refuse_unless (done profile_stop h.completed)
family_guard c sequence t profile_absence_proof o h =
    refuse_unless (done profile_delete h.completed || is_one_of profile_start h.failed_families)
family_guard c sequence t foreign_snapshot_comparison o h =
    refuse_unless (done profile_absence_proof h.completed)
family_guard c sequence t publication o h = publication_guard t h
