-- ===== src/Authz/Headers.antt =====
-- The headers that the authorization service (src/kil/ext_authz_http.py) acts on.
use kil.Prelude.{◌≡◌, List, [], ◌∷◌, ◌++◌, String, All}
use kil.Http.{HttpRequest, header_values}
use kil.Authz.Fixtures.{trusted_headers}

-- The trusted headers, and those that could announce a body.
abbrev pub read_headers : List String
read_headers = trusted_headers ++ "transfer-encoding" ∷ "content-encoding" ∷ "content-length" ∷ []

-- Two header lists carry the same values under every name that the service reads.
abbrev pub Agree : List (String × String) → List (String × String) → Type 0
Agree headers headers' =
    All (λ name. header_values name headers ≡ header_values name headers') read_headers

abbrev pub replaced : HttpRequest → List (String × String) → HttpRequest
replaced request headers = record request { headers = headers }
