-- ===== src/Journal/Details.antt =====
-- `_validate_event_details` of src/kil/v3b2_journal.py: the fields of an event are closed, each has
-- its reviewed value, and some identify which instance of the family is meant.
use kil.Prelude.{
  contains_text, Bool, true, not, ◌&&◌, [], ◌∷◌, Option, none, some, String, str_eq, codes,
  is_prefix, is_digest, Result, ok, raise, journal_error, if◌then◌else◌,
}
use kil.QState.{Value, text, Object, get, has_exactly}
use kil.Journal.Events.{
  Family, request, profile_start, cluster_create, image_import, image_load, driver_start,
  driver_cancel, foreign_snapshot_comparison, publication, Stage, intent, complete, failed,
  abandoned, is_one_of, event_family, pair_families,
}
use kil.Journal.Fields.{
  lab_identity, tracks, namespaces, is_exact_string, is_prefixed_digest, is_absolute_path, text_is,
  if_text, is_true, is_boolean, failure_families, expected_fields, family_name,
}

-- Which instance of its family an event speaks of.
pub data Key : Type 0 where
  whole : Key
  of_request : String → String → Key
  of_driver : String → String → String → Key

cluster_valid : Object → Bool
unfolding get text_is is_digest is_exact_string is_prefix
cluster_valid o =
    text_is is_exact_string (get "cluster_incarnation_uid" o)
    && text_is is_digest (get "node_container_id" o)
    && text_is (λ s. is_exact_string s && is_prefix (codes "unix:///") (codes s))
        (get "docker_host" o)

-- What a stage demands beyond its fields.
stage_valid : Family → Stage → Object → Bool
unfolding get text_is is_digest is_one_of family_name is_true cluster_valid contains_text
stage_valid request _ o = true
stage_valid f intent o = true
stage_valid f complete o = if is_one_of f (cluster_create ∷ []) then cluster_valid o else true
stage_valid f failed o =
    is_one_of f failure_families
    && text_is (λ s. contains_text s ("execution_not_started" ∷ "not_applied" ∷ []))
        (get "failure_category" o)
    && text_is is_digest (get "proof_sha256" o)
stage_valid f abandoned o =
    not (is_one_of f (publication ∷ []))
    && text_is (str_eq (family_name f pair_families)) (get "abandoned_family" o)
    && text_is (str_eq "uncertain_or_partial") (get "stage_category" o)
    && is_true (get "promotion_forbidden" o)
    && text_is is_digest (get "observation_sha256" o)

-- The fields that are checked wherever they occur.
shared_fields_valid : Object → Bool
unfolding get if_text is_digest is_absolute_path
shared_fields_valid o =
    if_text (str_eq lab_identity) (get "colima_profile" o)
    && if_text (str_eq lab_identity) (get "kind_cluster" o)
    && if_text is_absolute_path (get "kubeconfig" o)
    && if_text is_digest (get "manifest_sha256" o)
    && if_text is_digest (get "attestation_sha256" o)
    && if_text is_digest (get "evidence_sha256" o)
    && if_text is_digest (get "public_commitment_sha256" o)
    && if_text is_digest (get "tree_commitment_sha256" o)
    && if_text is_digest (get "node_container_id" o)

images_valid : Object → Bool
unfolding get text_is is_prefixed_digest
images_valid o =
    text_is (is_prefixed_digest "kil.local/kil-v3b2:sha256-") (get "image" o)
    && text_is (is_prefixed_digest "docker.io/envoyproxy/envoy@sha256:") (get "envoy_image" o)

driver_valid : Object → Bool
unfolding get text_is is_exact_string contains_text
driver_valid o =
    text_is (λ s. contains_text s namespaces) (get "namespace" o)
    && text_is (str_eq "driver") (get "pod" o)
    && text_is is_exact_string (get "uid" o)

-- The checks of single families.
family_valid : Family → Stage → Object → Bool
unfolding get text_is is_digest is_boolean is_absolute_path images_valid driver_valid contains_text
family_valid request stage o =
    text_is (λ s. contains_text s tracks) (get "track" o)
    && text_is (str_eq "v3b1-central-request") (get "request_id" o)
    && text_is is_digest (get "case_sha256" o)
    && (elim stage [ intent ↦ true | _ ↦ text_is is_digest (get "result_sha256" o) ])
family_valid image_import stage o = images_valid o && text_is is_digest (get "archive_sha256" o)
family_valid image_load stage o = images_valid o
family_valid publication stage o = text_is is_absolute_path (get "destination" o)
family_valid driver_start stage o = driver_valid o
family_valid driver_cancel stage o = driver_valid o
family_valid foreign_snapshot_comparison stage o = is_boolean (get "unchanged" o)
family_valid _ stage o = true

-- `str(details[name])` of a field that is a text.
unfoldable pub text_or_empty : Option Value → String
text_or_empty (some (text s)) = s
text_or_empty _ = ""

key_of : Family → Object → Key
unfolding get text_or_empty
key_of request o = of_request (text_or_empty (get "track" o)) (text_or_empty (get "request_id" o))
key_of driver_start o =
    of_driver (text_or_empty (get "namespace" o)) (text_or_empty (get "pod" o))
      (text_or_empty (get "uid" o))
key_of driver_cancel o =
    of_driver (text_or_empty (get "namespace" o)) (text_or_empty (get "pod" o))
      (text_or_empty (get "uid" o))
key_of _ o = whole

unfoldable pub remove_key : String → Object → Object
remove_key k [] = []
remove_key k ((j, v) ∷ o) = let rest = remove_key k o in if str_eq j k then rest else (j, v) ∷ rest

-- A completed or abandoned profile start may carry its binding. `binding_valid` is
-- `validate_binding` of src/kil/v3b2_profile_state.py.
strip_binding : (Value → Bool) → Family → Stage → Object → Option Object
unfolding get remove_key is_one_of
strip_binding binding_valid f failed o = some o
strip_binding binding_valid f stage o = elim (get "profile_binding" o) [
  | none ↦ some o
  | some v ↦
      if is_one_of f (profile_start ∷ [])
      then (if binding_valid v then some (remove_key "profile_binding" o) else none)
      else some o
]

-- A terminal event of a pair may carry the digest of its observed proof.
strip_proof : (Value → Bool) → Family → Stage → Object → Option Object
unfolding get remove_key text_is is_digest strip_binding
strip_proof binding_valid request stage o = some o
strip_proof binding_valid f intent o = some o
strip_proof binding_valid f stage o = elim (get "observed_proof_sha256" o) [
  | none ↦ some o
  | some v ↦
      if text_is is_digest (some v)
      then strip_binding binding_valid f stage (remove_key "observed_proof_sha256" o)
      else none
]

-- The fields and values of an event whose family and stage are known.
details_valid : Family → Stage → Object → Bool
unfolding has_exactly expected_fields stage_valid shared_fields_valid family_valid
details_valid f stage o =
    has_exactly o (expected_fields f stage)
    && (stage_valid f stage o && (shared_fields_valid o && family_valid f stage o))

checked_details : (Value → Bool) → Object → Family × Stage → Result (Family × Stage × Key)
unfolding strip_proof details_valid key_of
checked_details binding_valid o (f, stage) = elim (strip_proof binding_valid f stage o) [
  | none ↦ raise journal_error
  | some o' ↦ if details_valid f stage o' then ok (f, stage, key_of f o') else raise journal_error
]

-- `_validate_event_details`
unfoldable pub validate_event_details :
    (Value → Bool) → String → Object → Result (Family × Stage × Key)
unfolding event_family checked_details
validate_event_details binding_valid name o = elim (event_family name) [
  | none ↦ raise journal_error
  | some fs ↦ checked_details binding_valid o fs
]
