-- ===== src/Tests/Target.antt =====
-- The theorems of src/kil/target_http.py at two requests with one identifier.
use kil.Prelude.{
  is_distinct, ◌≡◌, refl, [], ◌∷◌, map, true, some, pos, lower, eq_codes, is_identifier, is_digest,
}
use kil.LiveAuthz.{LiveTrack}
use kil.Target.{
  LedgerRecord, Answers, empty_ledger, HttpResponse, TargetHttpApp, handle_http, run_http,
}
use kil.Http.{HttpRequest}
use kil.Target.Answering.{Answered, handle_http-Answered, run_http-distinct}

abbrev app : TargetHttpApp
app = record { run_id = "run-1"; track = LiveTrack.signed_state_only }

abbrev request : HttpRequest
request = record {
  method = "GET";
  path = "/benign/read";
  headers =
      ("X-Request-Id", "r-1")
      ∷ ("X-KIL-Track", "signed_state_only")
      ∷ (
        "X-KIL-Decision-Digest", "0123456789abcdef0123456789abcdef0123456789abcdef0123456789abcdef",
      )
      ∷ [];
  body = [];
}

-- The line has 269 bytes, and the first write is short.
abbrev answers : Answers
answers = record {
  received_ns = pos 7;
  response_ns = pos 8;
  file = record { opens = true; writes = some 100 ∷ some 169 ∷ []; syncs = true };
}

answers_recorded : (handle_http app request answers empty_ledger).0 ≡ HttpResponse.recorded_ok
unfolding handle_http eq_codes lower is_identifier is_digest kil.Canonical.normalize
    kil.Canonical.digits_of
answers_recorded = refl

answers_conflict :
    (handle_http app request answers (handle_http app request answers empty_ledger).1).0
    ≡ HttpResponse.conflict
unfolding handle_http eq_codes lower is_identifier is_digest kil.Canonical.normalize
    kil.Canonical.digits_of
answers_conflict = refl

handle_http-Answered_example :
    Answered request app empty_ledger (handle_http app request answers empty_ledger)
handle_http-Answered_example = handle_http-Answered app request answers empty_ledger

run_http-distinct_example :
    is_distinct (
      map
        (λ (r : LedgerRecord). r.request_id)
        (run_http app ((request, answers) ∷ (request, answers) ∷ []) empty_ledger).records)
    ≡ true
run_http-distinct_example = run_http-distinct app ((request, answers) ∷ (request, answers) ∷ [])
