-- ===== src/Tests/Authz.antt =====
-- The theorems of src/kil/ext_authz_http.py at a request to a service on the local track.
use kil.Prelude.{
  ◌≡◌, refl, [], ◌∷◌, none, some, true, false, ok, pos, String, Result, codes, is_identifier, lower,
  eq_codes, lower_text,
}
use kil.Authz.{
  ServerFixture, AuthorizationHttpApp, Surroundings, AuthorizationHttpRecord, handle_authz,
  untrusted_names,
}
use kil.Http.{HttpRequest, is_health_check}
use kil.LiveAuthz.{Platform}
use kil.QState.{Bytes}
use kil.Tests.Engine.{evidence, flat_profile}
use kil.Tests.LiveAuthz.{platform, local_adapter}

-- The credential stands for its own digest.
abbrev sha256_hex : String → String
sha256_hex credential = credential

abbrev fixture : ServerFixture
fixture = record {
  request_id = "r-1";
  method = "GET";
  path = "/benign/read";
  identity = "agent";
  authority_class = "ops";
  action_class = "read";
  expected_authorization_sha256 = "secret";
  policy_allows_action = true;
  local_evidence = some evidence;
  reduction_profile = some flat_profile;
}

abbrev app : AuthorizationHttpApp platform
app = record { adapter = local_adapter; fixtures = ("r-1", fixture) ∷ []; has_recorder = true }

abbrev request : HttpRequest
request = record {
  method = "GET";
  path = "/benign/read";
  headers =
      ("X-Request-Id", "r-1")
      ∷ ("Host", "kil")
      ∷ ("X-KIL-Mode", "baseline")
      ∷ ("Authorization", "secret")
      ∷ ("X-KIL-Q-State", "h.p.ss")
      ∷ ("Accept", "a")
      ∷ ("accept", "b")
      ∷ [];
  body = [];
}

-- The first write is short, and the second one fails.
abbrev surroundings : Surroundings
surroundings = record {
  clock_s = pos 100;
  record_ns = pos 7;
  record_file = record { opens = true; writes = some 1 ∷ none ∷ []; syncs = true };
  error_ns = pos 8;
  error_file = record { opens = false; writes = []; syncs = false };
}

names : untrusted_names request.headers ≡ "accept" ∷ "x-kil-mode" ∷ []
unfolding untrusted_names
names = refl

-- The record of the permit could not be appended: the answer is 503.
unavailable :
    (handle_authz platform sha256_hex app surroundings request []).0
    ≡ ok (record {
      status = 503;
      headers = ("x-kil-decision-digest", "r-1") ∷ [];
      body = codes "unavailable\n";
    })
unfolding handle_authz is_health_check kil.Authz.check_header_groups kil.Http.header_values eq_codes
    lower kil.Http.is_bodiless kil.Authz.safe_request_id is_identifier
    kil.Domain.check_action_request kil.Prelude.is_nonblank kil.LiveAuthz.check_live_fixture
    kil.Authz.first kil.LiveAuthz.evaluate kil.QState.verify_q_state kil.Tests.Tokens.json
    kil.QState.has_exactly kil.QState.from_payload kil.QState.parse_decimal kil.QState.check_claims
    kil.Decimal.lt_dec kil.QState.decimal_wire_length kil.QState.to_composite_state
    kil.Domain.check_composite_state kil.Engine.decide kil.Decay.passive_decay
    kil.Tests.Arithmetic.exact_context kil.Decay.superlinear_loss kil.Decimal.le_dec
    kil.Decay.local_effective_charge kil.Decimal.min_dec kil.Decimal.max_dec
    kil.Domain.check_decision_record kil.Http.check_http_response kil.Canonical.normalize
    kil.Canonical.sort_members untrusted_names kil.Canonical.digits_of
unavailable = refl
