-- ===== src/Http.antt =====
-- `HttpRequest` of src/kil/ext_authz_http.py, which src/kil/target_http.py takes too, and what both
-- apps read of a request.
use kil.Prelude.{
  is_distinct, contains_text, ℕ, ◌+◌, Bool, false, not, ◌&&◌, ◌||◌, List, [], ◌∷◌, all, any, keep,
  length, is_empty, leb, ◌==◌, String, str_eq, codes, eq_codes, lower, map, is_space, between,
  is_letter, is_digit, is_prefix, utf8_length, lower_text, ◌≡◌, refl, ok, true, Result, require,
  ◌>>◌, if◌then◌else◌,
}
use kil.QState.{Bytes}

pub record HttpRequest : Type 0 where
  pub method : String
  pub path : String
  pub headers : List (String × String)
  pub body : Bytes

abbrev max_header_bytes : ℕ
max_header_bytes = 16384

abbrev max_header_count : ℕ
max_header_count = 64

abbrev max_path_bytes : ℕ
max_path_bytes = 2048

abbrev max_body_bytes : ℕ
max_body_bytes = 1048576

-- `[!#$%&'*+.^_`|~0-9A-Za-z-]`
is_token_code : ℕ → Bool
is_token_code c = is_letter c || is_digit c || any (λ d. c == d) (codes "!#$%&'*+.^_`|~-")

-- `_HEADER_NAME.fullmatch`
unfoldable pub is_header_name : String → Bool
unfolding is_token_code
is_header_name s = not (is_empty (codes s)) && all is_token_code (codes s)

-- No character ends a line, and none is NUL.
unfoldable pub is_one_line : String → Bool
is_one_line s = not (any (λ c. c == 13 || c == 10 || c == 0) (codes s))

-- `_METHOD.fullmatch`
unfoldable pub is_method : String → Bool
is_method s = between 1 16 (length (codes s)) && all (λ c. between b'A' b'Z' c) (codes s)

unfoldable pub is_rooted : String → Bool
unfolding is_prefix utf8_length
is_rooted s = is_prefix (codes "/") (codes s) && leb (utf8_length (codes s)) max_path_bytes

unfoldable pub header_bytes : List (String × String) → ℕ
unfolding utf8_length
header_bytes [] = 0
header_bytes ((name, value) ∷ rest) =
    utf8_length (codes name) + (utf8_length (codes value) + 4) + header_bytes rest

-- `HttpRequest.__post_init__`
unfoldable pub check_http_request : HttpRequest → Result (Unit {0})
unfolding is_header_name is_one_line is_method is_rooted header_bytes
check_http_request r = do
  require (is_method r.method)
  require (is_rooted r.path && is_one_line r.path)
  require (leb (length r.headers) max_header_count)
  require (all (λ (h : String × String). is_header_name h.0 && is_one_line h.1) r.headers)
  require (leb (header_bytes r.headers) max_header_bytes)
  require (leb (length r.body) max_body_bytes)

pub record HttpResponse : Type 0 where
  pub status : ℕ
  pub headers : List (String × String)
  pub body : Bytes

-- `HttpResponse.__post_init__`
unfoldable pub check_http_response : HttpResponse → Result (Unit {0})
unfolding is_header_name is_one_line is_distinct lower_text
check_http_response r = do
  require (between 100 599 r.status)
  require (all (λ (h : String × String). is_header_name h.0 && is_one_line h.1) r.headers)
  require (is_distinct (map (λ (h : String × String). lower_text h.0) r.headers))

-- A response whose only header carries a text of one line.
pub check_http_response-digest :
    (status : ℕ) (digest : String) (body : Bytes)
    → between 100 599 status ≡ true
    → is_one_line digest ≡ true
    → check_http_response
        (record { status = status; headers = ("x-kil-decision-digest", digest) ∷ []; body = body })
      ≡ ok tt
unfolding check_http_response is_header_name is_token_code is_letter is_digit is_distinct
    contains_text lower_text
check_http_response-digest status digest body h k = rw (h, k) refl

-- `grouped.get(name, ())`
unfoldable pub header_values : String → List (String × String) → List String
header_values name headers =
    map (λ (h : String × String). h.1)
      (keep (λ (h : String × String). eq_codes (lower h.0) (codes name)) headers)

-- `value.strip() == "0"`: white space around one zero.
skip_space : List ℕ → List ℕ
skip_space [] = []
skip_space (c ∷ cs) = let rest = skip_space cs in if is_space c then rest else c ∷ cs

is_zero_text : String → Bool
unfolding skip_space
is_zero_text s = elim (skip_space (codes s)) [ [] ↦ false | c ∷ cs ↦ c == b'0' && all is_space cs ]

-- No body is announced: neither encoding header, and at most one length, which is zero.
unfoldable pub is_bodiless : List (String × String) → Bool
unfolding header_values is_zero_text
is_bodiless headers =
    is_empty (header_values "transfer-encoding" headers)
    && is_empty (header_values "content-encoding" headers)
    && leb (length (header_values "content-length" headers)) 1
    && all is_zero_text (header_values "content-length" headers)

unfoldable pub is_health_check : HttpRequest → Bool
is_health_check request = str_eq request.method "GET" && str_eq request.path "/healthz"
