-- ===== src/Authz/Config/Safety.antt =====
-- What `load_service_config` of src/kil/ext_authz_http.py guarantees of the service that it builds.
use kil.Prelude.{
  is_distinct, Bool, pos, ◌≡◌, refl, ◌&&◌, true, All, List, [], String, ok, ok-inj, require,
  guard-eq-ok, checked-eq-ok, >>=-eq-ok, leb, ltb,
}
use mathlib.Core.Path.{subst}
use kil.Json.{Json, Fields, as_array}
use kil.LiveAuthz.{LiveTrack, Platform, AuthorizationAdapter, check_adapter}
use kil.Scenario.{required}
use kil.Authz.Fixtures.{ServerFixture}
use kil.Authz.Decision.{AuthorizationHttpApp, check_app}
use kil.Authz.Config.Readers.{exact_fields, config_string}
use kil.Authz.Config.Keys.{KeyLibrary, public_keys, items_length, max_public_keys}
use kil.Authz.Config.Load.{
  ConfigFile, AuthorizationServiceRuntime, config_fixtures, build_app, configured_app,
  load_service_config, read_config, check_fixed, track_named, revoked_texts, max_fixtures,
  top_fields,
}
use kil.Authz.Config.Entries.{
  names_of, IsSound, Loaded, load_fixtures-Loaded, IsKeyed, LoadedKeys, load_keys-Loaded,
}

module _ (p : Platform) (library : KeyLibrary p) where
  -- The keys have their own identifiers, the fixtures too, and all pass the checks of their constructors.
  pub record IsSafe (app : AuthorizationHttpApp p) : Type 0 where
    pub keyed : All (IsKeyed p library) app.adapter.keys
    pub distinct_keys : is_distinct (names_of app.adapter.keys) ≡ true
    pub distinct_revoked : is_distinct app.adapter.revoked_state_ids ≡ true
    pub sound : All IsSound app.fixtures
    pub distinct_fixtures : is_distinct (names_of app.fixtures) ≡ true
    pub checked_adapter : check_adapter p app.adapter ≡ ok tt
    pub checked_app : check_app p app ≡ ok tt
    pub recorded : app.has_recorder ≡ true

  config_fixtures-Loaded :
      (value : Json) (xs : List (String × ServerFixture))
      → config_fixtures value ≡ ok xs
      → Loaded [] xs
  unfolding config_fixtures
  config_fixtures-Loaded value xs h =
      let (items, _, h₁) = >>=-eq-ok (as_array value) _ h in
      let (_, _, h₂) =
        >>=-eq-ok (require (ltb 0 (items_length items) && leb (items_length items) max_fixtures)) _
          h₁ in
      load_fixtures-Loaded [] items xs h₂

  public_keys-Loaded :
      (value : Json) (keys : List (String × p.tokens.Key))
      → public_keys p library value ≡ ok keys
      → LoadedKeys p library [] keys
  unfolding public_keys
  public_keys-Loaded value keys h =
      let (items, _, h₁) = >>=-eq-ok (as_array value) _ h in
      let (_, _, h₂) = >>=-eq-ok (require (leb (items_length items) max_public_keys)) _ h₁ in
      load_keys-Loaded p library [] items keys h₂

  build_app-IsSafe :
      (track : LiveTrack) (keys : List (String × p.tokens.Key)) (revoked : List String)
      (value : Json) (app : AuthorizationHttpApp p)
      → build_app p track keys revoked value ≡ ok app
      → LoadedKeys p library [] keys
      → is_distinct revoked ≡ true
      → IsSafe app
  unfolding build_app
  build_app-IsSafe track keys revoked value app h loaded distinct =
      let adapter : AuthorizationAdapter p = record {
        track = track;
        keys = keys;
        revoked_state_ids = revoked;
      } in
      let (_, checked, h₁) = >>=-eq-ok (check_adapter p adapter) _ h in
      let (fixtures, read, h₂) = >>=-eq-ok (config_fixtures value) _ h₁ in
      let built : AuthorizationHttpApp p = record {
        adapter = adapter;
        fixtures = fixtures;
        has_recorder = true;
      } in
      let (checked_built, same) = checked-eq-ok (check_app p built) built h₂ in
      let (sound, apart) = config_fixtures-Loaded value fixtures read in
      subst IsSafe same (record {
        keyed = loaded.0;
        distinct_keys = loaded.1.1;
        distinct_revoked = distinct;
        sound = sound;
        distinct_fixtures = apart.1;
        checked_adapter = checked;
        checked_app = checked_built;
        recorded = refl;
      })

  configured_app-IsSafe :
      (can_record : String → Bool) (top : Fields) (app : AuthorizationHttpApp p)
      → configured_app p library can_record top ≡ ok app
      → IsSafe app
  unfolding configured_app
  configured_app-IsSafe can_record top app h =
      let (_, _, h₁) = >>=-eq-ok (check_fixed can_record top) _ h in
      let (text, _, h₂) = >>=-eq-ok (config_string top "track") _ h₁ in
      let (track, _, h₃) = >>=-eq-ok (track_named text) _ h₂ in
      let (keys_value, _, h₄) = >>=-eq-ok (required top "public_keys") _ h₃ in
      let (keys, loaded, h₅) = >>=-eq-ok (public_keys p library keys_value) _ h₄ in
      let (revoked_value, _, h₆) = >>=-eq-ok (required top "revoked_state_ids") _ h₅ in
      let (items, _, h₇) = >>=-eq-ok (as_array revoked_value) _ h₆ in
      let (revoked, _, h₈) = >>=-eq-ok (revoked_texts items) _ h₇ in
      let (_, distinct, h₉) = >>=-eq-ok (require (is_distinct revoked)) _ h₈ in
      let (fixtures_value, _, k) = >>=-eq-ok (required top "fixtures") _ h₉ in
      build_app-IsSafe track keys revoked fixtures_value app k
        (public_keys-Loaded keys_value keys loaded) (guard-eq-ok _ _ distinct)

  -- A service that is loaded binds the fixed address, has a recorder, and its parts passed their checks: no
  -- two keys, revoked states or fixtures have one identifier; each key has the identifier that its bytes
  -- give; and each fixture is valid and stands under its own identifier.
  pub load_service_config-IsSafe :
      (can_record : String → Bool) (file : ConfigFile) (runtime : AuthorizationServiceRuntime p)
      → load_service_config p library can_record file ≡ ok runtime
      → IsSafe runtime.app × ((runtime.bind_host ≡ "0.0.0.0") × (runtime.bind_port ≡ pos 8080))
  unfolding load_service_config
  load_service_config-IsSafe can_record file runtime h =
      let (raw, _, h₁) = >>=-eq-ok (read_config file) _ h in
      let (top, _, h₂) = >>=-eq-ok (exact_fields raw top_fields) _ h₁ in
      let (app, configured, h₃) = >>=-eq-ok (configured_app p library can_record top) _ h₂ in
      subst
        (λ (r : AuthorizationServiceRuntime p).
          IsSafe r.app × ((r.bind_host ≡ "0.0.0.0") × (r.bind_port ≡ pos 8080)))
        (ok-inj h₃) (configured_app-IsSafe can_record top app configured, (refl, refl))
