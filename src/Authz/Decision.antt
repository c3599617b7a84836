-- ===== src/Authz/Decision.antt =====
-- What `AuthorizationHttpApp` of src/kil/ext_authz_http.py decides on a request. The clocks and the
-- file system's answers are an argument of each step; SHA-256 is a parameter.
use kil.Prelude.{
  Bool, not, ◌&&◌, List, [], ◌∷◌, map, Option, none, some, all, is_empty, ℤ, String, str_eq, Result,
  ok, raise, value_error, require, if◌then◌else◌, ◌>>=◌, ◌>>◌,
}
use kil.Domain.{check_action_request}
use kil.Files.{FileAnswers}
use kil.Http.{HttpRequest, header_values}
use kil.LiveAuthz.{
  LiveFixture, LiveDecision, check_live_fixture, Platform, AuthorizationAdapter, evaluate,
}
use kil.Authz.Fixtures.{ServerFixture, check_header_groups, untrusted_names, safe_request_id, first}

-- What the clocks and the file system answer while one request is handled: the last two are for the
-- record of an error.
pub record Surroundings : Type 0 where
  pub clock_s : ℤ
  pub record_ns : ℤ
  pub record_file : FileAnswers
  pub error_ns : ℤ
  pub error_file : FileAnswers

unfoldable pub fixture_of : String → List (String × ServerFixture) → Result ServerFixture
fixture_of request_id [] = raise value_error
fixture_of request_id ((i, x) ∷ rest) =
    let later = fixture_of request_id rest in if str_eq i request_id then ok x else later

required_id : Option String → Result String
required_id none = raise value_error
required_id (some i) = ok i

text_or_empty : Option String → String
text_or_empty none = ""
text_or_empty (some s) = s

-- The facts of the server, with what the trusted headers carry.
unfoldable pub live_fixture_of :
    (String → String) → Surroundings → HttpRequest → ServerFixture → LiveFixture
unfolding text_or_empty
live_fixture_of sha256_hex s request x =
    let authorization = text_or_empty (first (header_values "authorization" request.headers)) in
    record {
      request = record {
        request_id = text_or_empty (safe_request_id request.headers);
        identity = x.identity;
        authority_class = x.authority_class;
        timestamp_s = s.clock_s;
      };
      action_class = x.action_class;
      credential_valid = str_eq (sha256_hex authorization) x.expected_authorization_sha256;
      policy_allows_action = x.policy_allows_action;
      q_state_jws = first (header_values "x-kil-q-state" request.headers);
      local_evidence = x.local_evidence;
      reduction_profile = x.reduction_profile;
      untrusted_headers = map (λ name. (name, "[ignored]")) (untrusted_names request.headers);
    }

module _ (p : Platform) where
  -- The fields of the app that a request reads. The app has a recorder or keeps records in memory only.
  pub record AuthorizationHttpApp : Type 0 where
    pub adapter : AuthorizationAdapter p
    pub fixtures : List (String × ServerFixture)
    pub has_recorder : Bool

  -- The checks of `__init__`.
  unfoldable pub check_app : AuthorizationHttpApp → Result (Unit {0})
  check_app app = do
    require (not (is_empty app.fixtures))
    require (all (λ (x : String × ServerFixture). str_eq x.0 x.1.request_id) app.fixtures)

  -- The fixture that the request names, which it must match.
  unfoldable pub matched_fixture : AuthorizationHttpApp → HttpRequest → Result ServerFixture
  unfolding fixture_of required_id
  matched_fixture app request = do
    require (is_empty request.body)
    check_header_groups request.headers
    request_id ← required_id (safe_request_id request.headers)
    fixture ← fixture_of request_id app.fixtures
    require (str_eq request.method fixture.method && str_eq request.path fixture.path)
    ok fixture

  -- `ActionRequest(...)`, `LiveFixture(...)` and `self.adapter.evaluate(live_fixture)`.
  unfoldable pub evaluate_checked : AuthorizationHttpApp → LiveFixture → Result LiveDecision
  evaluate_checked app x = do
    check_action_request x.request
    check_live_fixture x
    evaluate p app.adapter x

  -- The `try` block up to the decision.
  unfoldable pub decide_request :
      (String → String) → AuthorizationHttpApp → Surroundings → HttpRequest → Result LiveDecision
  unfolding matched_fixture live_fixture_of evaluate_checked
  decide_request sha256_hex app s request = do
    x ← matched_fixture app request
    evaluate_checked app (live_fixture_of sha256_hex s request x)
