-- ===== src/Authz/Config/Keys.antt =====
-- `_public_keys` of src/kil/ext_authz_http.py, and `key_id` of src/kil/q_state.py. Base64, Ed25519 and
-- SHA-256 are parameters.
use Prim.Native.String.{slice}
use kil.Prelude.{
  contains_text, ◌+◌, ℕ, Bool, not, ◌&&◌, ◌||◌, List, [], ◌∷◌, Option, none, some, all, is_empty,
  leb, ◌==◌, String, str_eq, codes, is_letter, is_digit, Result, ok, raise, require, value_error,
  ◌>>=◌, ◌>>◌,
}
use kil.Json.{Json, Items, no_items, item, as_array}
use kil.LiveAuthz.{Platform}
use kil.QState.{Bytes}
use kil.Authz.Config.Readers.{exact_fields, config_string}

abbrev pub max_public_keys : ℕ
max_public_keys = 32

abbrev pub key_fields : List String
key_fields = "key_id" ∷ "raw_base64url" ∷ []

unfoldable pub items_length : Items → ℕ
items_length no_items = 0
items_length (item v rest) = 1 + items_length rest

-- `_BASE64URL.fullmatch`
unfoldable pub is_base64url : String → Bool
is_base64url s =
    not (is_empty (codes s))
    && all (λ c. is_letter c || is_digit c || c == b'_' || c == b'-') (codes s)

module _ (p : Platform) where
  open p use {tokens}

  -- Base64 and the keys of Ed25519, and the digest of a key's bytes.
  pub record KeyLibrary : Type 0 where
    pub key_of_base64 : String → Option tokens.Key
    pub public_bytes : tokens.Key → Bytes
    pub sha256_hex : Bytes → String

module _ (p : Platform) (library : KeyLibrary p) where
  open p use {tokens}

  -- `key_id` of src/kil/q_state.py: sixteen hexadecimal digits.
  unfoldable pub key_id : tokens.Key → String
  key_id key = slice (library.sha256_hex (library.public_bytes key)) 0 16

  unfoldable pub present_key : Option tokens.Key → Result tokens.Key
  present_key none = raise value_error
  present_key (some key) = ok key

  -- One round of the loop over the keys.
  unfoldable pub load_key : List String → Json → Result (String × tokens.Key)
  unfolding present_key
  load_key known raw = do
    fs ← exact_fields raw key_fields
    identifier ← config_string fs "key_id"
    encoded ← config_string fs "raw_base64url"
    require (is_base64url encoded)
    key ← present_key (library.key_of_base64 encoded)
    require (str_eq (key_id key) identifier)
    require (not (contains_text identifier known))
    ok (identifier, key)

  unfoldable pub load_keys : List String → Items → Result (List (String × tokens.Key))
  unfolding load_key
  load_keys known no_items = ok []
  load_keys known (item raw rest) = do
    entry ← load_key known raw
    others ← load_keys (entry.0 ∷ known) rest
    ok (entry ∷ others)

  -- `_public_keys`
  unfoldable pub public_keys : Json → Result (List (String × tokens.Key))
  unfolding items_length load_keys
  public_keys value = do
    items ← as_array value
    require (leb (items_length items) max_public_keys)
    load_keys [] items
