-- ===== src/Authz/Fixtures.antt =====
-- `ServerFixture` of src/kil/ext_authz_http.py, and what the service reads of a request's headers.
use kil.Prelude.{
  contains_text, Bool, not, ◌&&◌, List, [], ◌∷◌, Option, none, some, all, length, leb, String,
  str_eq, lower_text, lt_text, is_nonblank, is_identifier, is_digest, Result, require,
  if◌then◌else◌, ◌>>◌,
}
use kil.Domain.{LocalEvidence, ReductionProfile}
use kil.Http.{header_values, is_bodiless, is_method, is_rooted}

-- The facts that the server holds of a request, found by its identifier.
pub record ServerFixture : Type 0 where
  pub request_id : String
  pub method : String
  pub path : String
  pub identity : String
  pub authority_class : String
  pub action_class : String
  pub expected_authorization_sha256 : String
  pub policy_allows_action : Bool
  pub local_evidence : Option LocalEvidence
  pub reduction_profile : Option ReductionProfile

-- `ServerFixture.__post_init__`
unfoldable pub check_server_fixture : ServerFixture → Result (Unit {0})
check_server_fixture x = do
  require (is_identifier x.request_id)
  require (is_method x.method)
  require (is_rooted x.path)
  require (is_nonblank x.identity)
  require (is_nonblank x.authority_class)
  require (is_nonblank x.action_class)
  require (is_digest x.expected_authorization_sha256)

abbrev pub trusted_headers : List String
trusted_headers = "x-request-id" ∷ "authorization" ∷ "x-kil-q-state" ∷ []

abbrev pub ignored_transport_headers : List String
ignored_transport_headers =
    "host" ∷ "content-length" ∷ "x-envoy-expected-rq-timeout-ms" ∷ "x-envoy-internal" ∷ []

-- The refusals of `_header_groups`: a trusted header that stands twice, and headers that announce a body.
unfoldable pub check_header_groups : List (String × String) → Result (Unit {0})
check_header_groups headers = do
  require (all (λ name. leb (length (header_values name headers)) 1) trusted_headers)
  require (is_bodiless headers)

-- A name takes its place in a sorted list without repetitions.
insert_name : String → List String → List String
insert_name name [] = name ∷ []
insert_name name (n ∷ names) =
    let later = insert_name name names in
    if str_eq name n then n ∷ names else if lt_text name n then name ∷ n ∷ names else n ∷ later

is_untrusted : String → Bool
unfolding contains_text
is_untrusted name =
    not (contains_text name trusted_headers) && not (contains_text name ignored_transport_headers)

-- `_untrusted_names`
unfoldable pub untrusted_names : List (String × String) → List String
unfolding insert_name is_untrusted lower_text
untrusted_names [] = []
untrusted_names ((name, value) ∷ rest) =
    let later = untrusted_names rest in
    if is_untrusted (lower_text name) then insert_name (lower_text name) later else later

identifier_of : List String → Option String
identifier_of (value ∷ []) = if is_identifier value then some value else none
identifier_of _ = none

-- `_safe_request_id`
unfoldable pub safe_request_id : List (String × String) → Option String
unfolding identifier_of
safe_request_id headers = identifier_of (header_values "x-request-id" headers)

-- `values[0] if values else None`
unfoldable pub first : List String → Option String
first [] = none
first (value ∷ values) = some value
