-- ===== src/Journal/Events.antt =====
-- The event families of src/kil/v3b2_journal.py, their stages, and how an event's name is read.
use kil.Prelude.{
  ℕ, Bool, true, false, List, [], ◌∷◌, Option, none, some, String, codes, eq_codes, ◌==◌,
  if◌then◌else◌,
}

pub data Family : Type 0 where
  request profile_start profile_stop profile_delete cluster_create cluster_delete : Family
  image_import image_load calico_apply application_apply readiness envoy_quiesce : Family
  driver_start driver_cancel evidence_freeze cluster_absence_proof : Family
  profile_absence_proof foreign_snapshot_comparison publication : Family

pub data Stage : Type 0 where
  intent complete failed abandoned : Stage

-- A number for each family, by which two are compared.
unfoldable pub family_code : Family → ℕ
family_code request = 0
family_code profile_start = 1
family_code profile_stop = 2
family_code profile_delete = 3
family_code cluster_create = 4
family_code cluster_delete = 5
family_code image_import = 6
family_code image_load = 7
family_code calico_apply = 8
family_code application_apply = 9
family_code readiness = 10
family_code envoy_quiesce = 11
family_code driver_start = 12
family_code driver_cancel = 13
family_code evidence_freeze = 14
family_code cluster_absence_proof = 15
family_code profile_absence_proof = 16
family_code foreign_snapshot_comparison = 17
family_code publication = 18

unfoldable pub same_family : Family → Family → Bool
unfolding family_code
same_family f g = family_code f == family_code g

unfoldable pub is_one_of : Family → List Family → Bool
unfolding same_family
is_one_of f [] = false
is_one_of f (g ∷ gs) = let rest = is_one_of f gs in if same_family f g then true else rest

-- The keys of `_PAIR_DETAILS`.
abbrev pub pair_families : List (String × Family)
pair_families =
    ("profile_start", profile_start)
    ∷ ("profile_stop", profile_stop)
    ∷ ("profile_delete", profile_delete)
    ∷ ("cluster_create", cluster_create)
    ∷ ("cluster_delete", cluster_delete)
    ∷ ("image_import", image_import)
    ∷ ("image_load", image_load)
    ∷ ("calico_apply", calico_apply)
    ∷ ("application_apply", application_apply)
    ∷ ("readiness", readiness)
    ∷ ("envoy_quiesce", envoy_quiesce)
    ∷ ("driver_start", driver_start)
    ∷ ("driver_cancel", driver_cancel)
    ∷ ("evidence_freeze", evidence_freeze)
    ∷ ("cluster_absence_proof", cluster_absence_proof)
    ∷ ("profile_absence_proof", profile_absence_proof)
    ∷ ("foreign_snapshot_comparison", foreign_snapshot_comparison)
    ∷ ("publication", publication)
    ∷ []

family_named : List ℕ → List (String × Family) → Option Family
unfolding eq_codes
family_named cs [] = none
family_named cs ((name, f) ∷ rest) =
    let later = family_named cs rest in if eq_codes (codes name) cs then some f else later

-- `name[: -len(suffix)]` if `name.endswith(suffix)`.
strip_suffix : List ℕ → List ℕ → Option (List ℕ)
unfolding eq_codes
strip_suffix suffix [] = none
strip_suffix suffix (c ∷ cs) =
    let rest = strip_suffix suffix cs in
    if eq_codes (c ∷ cs) suffix then some [] else elim rest [ none ↦ none | some p ↦ some (c ∷ p) ]

-- The family before a suffix, if it is one of the pairs.
family_before : String → String → Option Family
unfolding strip_suffix family_named
family_before suffix name = elim (strip_suffix (codes suffix) (codes name)) [
  | none ↦ none
  | some p ↦ family_named p pair_families
]

first_stage : String → List (String × Stage) → Option (Family × Stage)
unfolding family_before
first_stage name [] = none
first_stage name ((suffix, stage) ∷ rest) =
    let later = first_stage name rest in
    elim (family_before suffix name) [ none ↦ later | some f ↦ some (f, stage) ]

-- `_event_family`, with `none` for the JournalError on an unknown event.
unfoldable pub event_family : String → Option (Family × Stage)
unfolding eq_codes first_stage
event_family name =
    let suffixed = first_stage name (
      ("_abandoned_for_teardown", abandoned)
      ∷ ("_intent", intent)
      ∷ ("_complete", complete)
      ∷ ("_failed", failed)
      ∷ []) in
    if eq_codes (codes name) (codes "request_intent")
    then some (request, intent)
    else if eq_codes (codes name) (codes "request_result")
    then some (request, complete)
    else suffixed
