-- ===== src/Authz/Config/Load.antt =====
-- `_fixtures` and `load_service_config` of src/kil/ext_authz_http.py. What the file system
-- says of a path is a parameter.
use kil.Prelude.{
  contains_text, is_distinct, ℕ, Bool, true, not, ◌&&◌, List, [], ◌∷◌, Option, none, some, is_empty,
  leb, ltb, ℤ, pos, eqb_ℤ, String, str_eq, codes, Result, ok, raise, require, value_error,
  if◌then◌else◌, ◌>>=◌, ◌>>◌,
}
use kil.Json.{is_closed, Json, Items, Fields, no_items, item, as_text, as_integer, as_array}
use kil.LiveAuthz.{LiveTrack, track_value, Platform, AuthorizationAdapter, check_adapter}
use kil.Scenario.{required}
use kil.Authz.Fixtures.{ServerFixture}
use kil.Authz.Decision.{AuthorizationHttpApp, check_app}
use kil.Authz.Config.Keys.{KeyLibrary, items_length, public_keys}
use kil.Authz.Config.Readers.{exact_fields, config_string, load_fixture}

abbrev pub max_config_bytes : ℕ
max_config_bytes = 1048576

abbrev pub max_fixtures : ℕ
max_fixtures = 10000

abbrev pub config_schema_version : String
config_schema_version = "kil.v3b-authz-http.v1"

abbrev pub top_fields : List String
top_fields =
    "schema_version" ∷ "track" ∷ "bind_host" ∷ "bind_port" ∷ "records_path" ∷ "public_keys"
    ∷ "revoked_state_ids" ∷ "fixtures" ∷ []

-- What the file system says of the configuration's path. `content` is the value that the text parses to,
-- with every pair of its objects; there is none where the text is no UTF-8 or no JSON.
pub record ConfigFile : Type 0 where
  pub is_regular : Bool
  pub is_writable : Bool
  pub size : ℕ
  pub content : Option Json

unfoldable pub parsed : Option Json → Result Json
parsed none = raise value_error
parsed (some v) = ok v

-- `LiveTrack(value)`
unfoldable pub track_named : String → Result LiveTrack
unfolding track_value
track_named s =
    if str_eq s (track_value LiveTrack.credential_policy_baseline)
    then ok LiveTrack.credential_policy_baseline
    else if str_eq s (track_value LiveTrack.signed_state_only)
    then ok LiveTrack.signed_state_only
    else if str_eq s (track_value LiveTrack.signed_plus_local_reduce)
    then ok LiveTrack.signed_plus_local_reduce
    else raise value_error

-- The fixtures by their identifiers, after those of `known`.
unfoldable pub load_fixtures : List String → Items → Result (List (String × ServerFixture))
load_fixtures known no_items = ok []
load_fixtures known (item raw rest) = do
  x ← load_fixture raw
  require (not (contains_text x.request_id known))
  others ← load_fixtures (x.request_id ∷ known) rest
  ok ((x.request_id, x) ∷ others)

-- `_fixtures`
unfoldable pub config_fixtures : Json → Result (List (String × ServerFixture))
unfolding items_length load_fixtures
config_fixtures value = do
  items ← as_array value
  require (ltb 0 (items_length items) && leb (items_length items) max_fixtures)
  load_fixtures [] items

-- The texts of a list, none of them empty.
unfoldable pub revoked_texts : Items → Result (List String)
revoked_texts no_items = ok []
revoked_texts (item v rest) = do
  s ← as_text v
  require (not (is_empty (codes s)))
  others ← revoked_texts rest
  ok (s ∷ others)

-- The fixed values of the configuration.
unfoldable pub check_fixed : (String → Bool) → Fields → Result (Unit {0})
check_fixed can_record top = do
  version ← config_string top "schema_version"
  require (str_eq version config_schema_version)
  bind_host ← config_string top "bind_host"
  require (str_eq bind_host "0.0.0.0")
  port_value ← required top "bind_port"
  bind_port ← as_integer port_value
  require (eqb_ℤ bind_port (pos 8080))
  records_path ← config_string top "records_path"
  require (can_record records_path)

-- The checks of the file, and the value of its text.
unfoldable pub read_config : ConfigFile → Result Json
unfolding parsed
read_config file = do
  require file.is_regular
  require (not file.is_writable)
  require (ltb 0 file.size && leb file.size max_config_bytes)
  raw ← parsed file.content
  -- `_closed_object`, which the parser calls at every object.
  require (is_closed raw)
  ok raw

module _ (p : Platform) where
  pub record AuthorizationServiceRuntime : Type 0 where
    pub app : AuthorizationHttpApp p
    pub bind_host : String
    pub bind_port : ℤ

  -- The adapter and the app, whose constructors check them.
  unfoldable pub build_app :
      LiveTrack
      → List (String × p.tokens.Key)
      → List String
      → Json
      → Result (AuthorizationHttpApp p)
  unfolding config_fixtures
  build_app track keys revoked fixtures_value = do
    let adapter : AuthorizationAdapter p = record {
      track = track;
      keys = keys;
      revoked_state_ids = revoked;
    }
    check_adapter p adapter
    fixtures ← config_fixtures fixtures_value
    let app : AuthorizationHttpApp p = record {
      adapter = adapter;
      fixtures = fixtures;
      has_recorder = true;
    }
    check_app p app
    ok app

module _ (p : Platform) (library : KeyLibrary p) where
  -- The app that the fields of a configuration describe.
  unfoldable pub configured_app : (String → Bool) → Fields → Result (AuthorizationHttpApp p)
  unfolding check_fixed public_keys build_app revoked_texts track_named
  configured_app can_record top = do
    check_fixed can_record top
    track_text ← config_string top "track"
    track ← track_named track_text
    keys_value ← required top "public_keys"
    keys ← public_keys p library keys_value
    revoked_value ← required top "revoked_state_ids"
    revoked_items ← as_array revoked_value
    revoked ← revoked_texts revoked_items
    require (is_distinct revoked)
    fixtures_value ← required top "fixtures"
    build_app p track keys revoked fixtures_value

  -- `load_service_config`. `can_record` says of a path what the recorder checks of it.
  unfoldable pub load_service_config :
      (String → Bool) → ConfigFile → Result (AuthorizationServiceRuntime p)
  unfolding read_config configured_app
  load_service_config can_record file = do
    raw ← read_config file
    top ← exact_fields raw top_fields
    app ← configured_app can_record top
    ok (record { app = app; bind_host = "0.0.0.0"; bind_port = pos 8080 })
