-- ===== src/Journal/Fields.antt =====
-- The reviewed constants of an event's fields, the forms of their values and the fields of each
-- family (src/kil/v3b2_journal.py).
use kil.Prelude.{
  utf8_length, ℕ, ◌+◌, Bool, true, false, not, ◌&&◌, ◌||◌, List, [], ◌∷◌, ◌++◌, Option, none, some,
  all, is_empty, length, drop, leb, ◌==◌, String, codes, eq_codes, is_prefix, is_hex_code,
  if◌then◌else◌,
}
use kil.QState.{Value, text, boolean}
use kil.Journal.Events.{
  Family, request, profile_start, profile_stop, profile_delete, cluster_create, cluster_delete,
  image_import, image_load, calico_apply, application_apply, readiness, envoy_quiesce, driver_start,
  driver_cancel, evidence_freeze, cluster_absence_proof, profile_absence_proof,
  foreign_snapshot_comparison, publication, Stage, intent, complete, failed, abandoned, is_one_of,
}

abbrev pub lab_identity : String
lab_identity = "kil-v3-lab"

abbrev pub tracks : List String
tracks = "credential_policy_baseline" ∷ "signed_state_only" ∷ "signed_plus_local_reduce" ∷ []

-- The namespaces of `TRACK_NAMESPACES`, in the order of the tracks.
abbrev pub namespaces : List String
namespaces = "kil-v3-baseline" ∷ "kil-v3-signed" ∷ "kil-v3-local-reduce" ∷ []

-- `_exact_string`: not empty, and at most 4096 bytes.
unfoldable pub is_exact_string : String → Bool
unfolding utf8_length
is_exact_string s = let cs = codes s in not (is_empty cs) && leb (utf8_length cs) 4096

-- `_HEX64.fullmatch` after a fixed prefix.
unfoldable pub is_prefixed_digest : String → String → Bool
unfolding is_prefix is_hex_code
is_prefixed_digest prefix s =
    let p = codes prefix in
    let cs = codes s in
    is_prefix p cs && (length cs == length p + 64) && all is_hex_code (drop (length p) cs)

-- The components of a path after its root are neither empty nor dots.
is_component : List ℕ → Bool
unfolding eq_codes
is_component c = not (is_empty c || eq_codes c (codes ".") || eq_codes c (codes ".."))

extend_component : ℕ → List (List ℕ) → List (List ℕ)
extend_component c [] = (c ∷ []) ∷ []
extend_component c (p ∷ ps) = (c ∷ p) ∷ ps

path_components : List ℕ → List (List ℕ)
unfolding extend_component
path_components [] = [] ∷ []
path_components (c ∷ cs) =
    let rest = path_components cs in if c == b'/' then [] ∷ rest else extend_component c rest

-- What may follow the root: nothing, or components.
is_normal_rest : List ℕ → Bool
unfolding is_component path_components
is_normal_rest [] = true
is_normal_rest (c ∷ cs) = all is_component (path_components (c ∷ cs))

-- A path begins with one slash, or with two, which POSIX keeps apart.
is_normal_path : List ℕ → Bool
unfolding is_normal_rest is_prefix
is_normal_path cs =
    (is_prefix (codes "/") cs && is_normal_rest (drop 1 cs))
    || (is_prefix (codes "//") cs && is_normal_rest (drop 2 cs))

-- `_absolute_path`: a normalized absolute path.
unfoldable pub is_absolute_path : String → Bool
unfolding is_exact_string is_normal_path
is_absolute_path s = is_exact_string s && is_normal_path (codes s)

-- `value[name]` is a text with the property.
unfoldable pub text_is : (String → Bool) → Option Value → Bool
text_is p (some (text s)) = p s
text_is p _ = false

-- The same, if the name is there at all.
unfoldable pub if_text : (String → Bool) → Option Value → Bool
unfolding text_is
if_text p none = true
if_text p (some v) = text_is p (some v)

unfoldable pub is_true : Option Value → Bool
is_true (some (boolean b)) = b
is_true _ = false

unfoldable pub is_boolean : Option Value → Bool
is_boolean (some (boolean b)) = true
is_boolean _ = false

-- `_PAIR_DETAILS[family]`
unfoldable pub pair_details : Family → List String
pair_details profile_start = "colima_profile" ∷ []
pair_details profile_stop = "colima_profile" ∷ []
pair_details profile_delete = "colima_profile" ∷ []
pair_details cluster_create = "kind_cluster" ∷ "kubeconfig" ∷ []
pair_details cluster_delete = "kind_cluster" ∷ "kubeconfig" ∷ []
pair_details image_import = "archive_sha256" ∷ "image" ∷ "envoy_image" ∷ []
pair_details image_load = "image" ∷ "envoy_image" ∷ []
pair_details calico_apply = "manifest_sha256" ∷ []
pair_details application_apply = "manifest_sha256" ∷ []
pair_details readiness = "attestation_sha256" ∷ []
pair_details envoy_quiesce = "attestation_sha256" ∷ []
pair_details driver_start = "namespace" ∷ "pod" ∷ "uid" ∷ []
pair_details driver_cancel = "namespace" ∷ "pod" ∷ "uid" ∷ []
pair_details evidence_freeze = "evidence_sha256" ∷ []
pair_details cluster_absence_proof = "kind_cluster" ∷ "node_container_id" ∷ []
pair_details profile_absence_proof = "colima_profile" ∷ []
pair_details foreign_snapshot_comparison = "unchanged" ∷ "attestation_sha256" ∷ []
pair_details publication =
    "destination" ∷ "public_commitment_sha256" ∷ "tree_commitment_sha256" ∷ []
pair_details request = []

abbrev pub failure_families : List Family
failure_families =
    profile_start ∷ profile_stop ∷ profile_delete ∷ cluster_create ∷ cluster_delete ∷ image_import
    ∷ image_load ∷ calico_apply ∷ application_apply ∷ envoy_quiesce ∷ driver_start ∷ driver_cancel
    ∷ []

-- The fields that an event of a family and stage must have, and no others.
unfoldable pub expected_fields : Family → Stage → List String
unfolding pair_details
expected_fields request intent = "track" ∷ "request_id" ∷ "case_sha256" ∷ []
expected_fields request _ = "track" ∷ "request_id" ∷ "case_sha256" ∷ "result_sha256" ∷ []
expected_fields cluster_create complete =
    "kind_cluster" ∷ "kubeconfig" ∷ "cluster_incarnation_uid" ∷ "node_container_id" ∷ "docker_host"
    ∷ []
expected_fields f failed = pair_details f ++ "failure_category" ∷ "proof_sha256" ∷ []
expected_fields f abandoned =
    pair_details f
    ++ "abandoned_family" ∷ "stage_category" ∷ "observation_sha256" ∷ "promotion_forbidden" ∷ []
expected_fields f _ = pair_details f

-- The name of a family, as `abandoned_family` repeats it.
unfoldable pub family_name : Family → List (String × Family) → String
unfolding is_one_of
family_name f [] = "request"
family_name f ((name, g) ∷ rest) =
    let later = family_name f rest in if is_one_of f (g ∷ []) then name else later
