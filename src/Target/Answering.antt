-- ===== src/Target/Answering.antt =====
-- How the answers of the target (src/kil/target_http.py) go with the records of its ledger.
use kil.Prelude.{
  is_distinct, ◌≡◌, refl, String, ◌⊎◌, inl, inr, Bool, true, false, not, ◌||◌, List, [], ◌∷◌, ◌++◌,
  map, Option, none, some, Result, ok, raise, Bool-cases, if◌then◌else◌, is_empty,
  duplicate_target_record, ap,
}
use kil.Target.Store.{
  LedgerRecord, Answers, Ledger, append_marker, add_record, invalidate, empty_ledger,
}
use kil.Target.App.{
  TargetHttpApp, HttpResponse, response_of, marking_of, mark, handle_http, join_values, is_route,
  run_http,
}
use kil.Http.{HttpRequest, is_bodiless, is_health_check}
use kil.Target.Markers.{Appended, append_marker-Appended, Appended-Consistent, Consistent}

is_recorded : HttpResponse → Bool
is_recorded HttpResponse.recorded_ok = true
is_recorded _ = false

-- A request is answered as recorded, and its record is the one that the ledger gains; or it is
-- answered otherwise, and the records are those of before.
pub Answered : HttpRequest → TargetHttpApp → Ledger → HttpResponse × Ledger → Type 0
Answered request app l x =
    ((x.0 ≡ HttpResponse.recorded_ok)
      × ((join : String × String) × (r : LedgerRecord) × (join_values app request ≡ some join)
          × (join.0 ≡ r.request_id)
          × (x.1.records ≡ l.records ++ r ∷ [])))
    ⊎ ((is_recorded x.0 ≡ false) × (x.1.records ≡ l.records))

after_append :
    (app : TargetHttpApp) (request : HttpRequest) (l : Ledger) (join : String × String)
    (x : Result LedgerRecord × Ledger)
    → join_values app request ≡ some join
    → Appended (marking_of app request join) l x
    → Answered request app l (response_of x.0, x.1)
unfolding Answered Appended response_of marking_of is_recorded add_record invalidate
after_append app request l join (ok r, l') e (own, fresh, same) =
    inl (refl, (join, r, e, own, ap (λ (m : Ledger). m.records) same))
after_append app request l join (raise duplicate_target_record, l') e same =
    inr (refl, ap (λ (m : Ledger). m.records) same)
after_append app request l join (raise f, l') e same =
    inr (refl, ap (λ (m : Ledger). m.records) same)

mark-Answered :
    (app : TargetHttpApp) (request : HttpRequest) (a : Answers) (l : Ledger)
    (join : Option (String × String))
    → join_values app request ≡ join
    → Answered request app l (mark app request a l join)
unfolding mark Answered is_recorded
mark-Answered app request a l none e = inr (refl, refl)
mark-Answered app request a l (some join) e =
    after_append app request l join (append_marker (marking_of app request join) a l) e
      (append_marker-Appended (marking_of app request join) a l)

mark-Consistent :
    (app : TargetHttpApp) (request : HttpRequest) (a : Answers) (l : Ledger)
    (join : Option (String × String))
    → Consistent l
    → Consistent (mark app request a l join).1
unfolding mark
mark-Consistent app request a l none k = k
mark-Consistent app request a l (some join) k =
    Appended-Consistent (marking_of app request join) l
      (append_marker (marking_of app request join) a l)
      (append_marker-Appended (marking_of app request join) a l) k

not_recorded :
    (request : HttpRequest) (app : TargetHttpApp) (l : Ledger) (answer : HttpResponse)
    → is_recorded answer ≡ false
    → Answered request app l (answer, l)
unfolding Answered
not_recorded request app l answer h = inr (h, refl)

health_answer :
    (request : HttpRequest) (app : TargetHttpApp) (l : Ledger) (b : Bool)
    → Answered request app l (if b then HttpResponse.bad_request else HttpResponse.healthy, l)
unfolding is_recorded
health_answer request app l true = not_recorded request app l HttpResponse.bad_request refl
health_answer request app l false = not_recorded request app l HttpResponse.healthy refl

module _ (app : TargetHttpApp) where
  -- Whatever the system answers to the writes, either a request is answered 200 as recorded, its join
  -- is valid and the ledger gains one record, which has the request's identifier; or it is answered
  -- otherwise, and the records stay as they were.
  pub handle_http-Answered :
      (request : HttpRequest) (a : Answers) (l : Ledger)
      → Answered request app l (handle_http app request a l)
  unfolding handle_http is_recorded
  handle_http-Answered request a l = elim (Bool-cases (is_health_check request)) [
    | inl e ↦ rw e (
        health_answer request app l
          (not (is_empty request.body) || not (is_bodiless request.headers)))
    | inr e ↦ rw e (elim (Bool-cases (is_route request)) [
      | inr e₁ ↦ rw e₁ (not_recorded request app l HttpResponse.not_found refl)
      | inl e₁ ↦ rw e₁ (elim (Bool-cases (is_empty request.body)) [
        | inr e₂ ↦ rw e₂ (not_recorded request app l HttpResponse.bad_request refl)
        | inl e₂ ↦ rw e₂ (mark-Answered app request a l (join_values app request) refl)
      ])
    ])
  ]

  handle_http-Consistent :
      (request : HttpRequest) (a : Answers) (l : Ledger)
      → Consistent l
      → Consistent (handle_http app request a l).1
  unfolding handle_http
  handle_http-Consistent request a l k = elim (Bool-cases (is_health_check request)) [
    | inl e ↦ rw e k
    | inr e ↦ rw e (elim (Bool-cases (is_route request)) [
      | inr e₁ ↦ rw e₁ k
      | inl e₁ ↦ rw e₁ (elim (Bool-cases (is_empty request.body)) [
        | inr e₂ ↦ rw e₂ k
        | inl e₂ ↦ rw e₂ (mark-Consistent app request a l (join_values app request) k)
      ])
    ])
  ]

  run_http-Consistent :
      (requests : List (HttpRequest × Answers)) (l : Ledger)
      → Consistent l
      → Consistent (run_http app requests l)
  unfolding run_http
  run_http-Consistent [] l k = k
  run_http-Consistent ((request, a) ∷ rest) l k =
      run_http-Consistent rest (handle_http app request a l).1
        (handle_http-Consistent request a l k)

  -- Over any run of requests and any answers of the system, a ledger that began empty holds no two
  -- records of one request.
  pub run_http-distinct :
      (requests : List (HttpRequest × Answers))
      → is_distinct
          (map (λ (r : LedgerRecord). r.request_id) (run_http app requests empty_ledger).records)
        ≡ true
  unfolding is_distinct
  run_http-distinct requests =
      let k = run_http-Consistent requests empty_ledger (record { held = refl; distinct = refl }) in
      rw k.held k.distinct
