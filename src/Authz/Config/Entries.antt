-- ===== src/Authz/Config/Entries.antt =====
-- The keys and fixtures that src/kil/ext_authz_http.py loads are sound, and their names are distinct.
use kil.Prelude.{
  contains_text, is_distinct, ◌≡◌, refl, true, not, All, List, ◌∷◌, map, String, str_eq, str_eq_iff,
  ok, ok-inj, require, guard-eq-ok, false, checked-eq-ok, refuted, >>=-eq-ok,
}
use mathlib.Core.Path.{subst}
use kil.Json.{Json, Items, no_items, item}
use kil.LiveAuthz.{Platform}
use kil.QState.Distinct.{Apart, is_distinct-cons}
use kil.Authz.Fixtures.{ServerFixture, check_server_fixture}
use kil.Authz.Config.Readers.{exact_fields, config_string, load_fixture, read_fixture}
use kil.Authz.Config.Keys.{
  KeyLibrary, key_id, load_key, load_keys, is_base64url, present_key, key_fields,
}
use kil.Authz.Config.Load.{load_fixtures}

-- The keys of a list of pairs.
abbrev pub names_of {ℓ} : {A : Type ℓ} → List (String × A) → List String
names_of {A = A} entries = map (λ (e : String × A). e.0) entries

abbrev pub IsSound : String × ServerFixture → Type 0
IsSound entry = (entry.0 ≡ entry.1.request_id) × (check_server_fixture entry.1 ≡ ok tt)

load_fixture-checked :
    (raw : Json) (x : ServerFixture) → load_fixture raw ≡ ok x → check_server_fixture x ≡ ok tt
unfolding load_fixture
load_fixture-checked raw x h =
    let (y, _, h₁) = >>=-eq-ok (read_fixture raw) _ h in
    let (checked, same) = checked-eq-ok (check_server_fixture y) y h₁ in
    subst (λ z. check_server_fixture z ≡ ok tt) same checked

-- What a list of fixtures is, after the identifiers that are known.
abbrev pub Loaded : List String → List (String × ServerFixture) → Type 0
Loaded known xs =
    (All IsSound xs) × (Apart known (names_of xs) × (is_distinct (names_of xs) ≡ true))

pub load_fixtures-Loaded :
    (known : List String) (items : Items) (xs : List (String × ServerFixture))
    → load_fixtures known items ≡ ok xs
    → Loaded known xs
unfolding load_fixtures is_distinct
load_fixtures-Loaded known no_items xs h = subst (Loaded known) (ok-inj h) (tt, (tt, refl))
load_fixtures-Loaded known (item raw rest) xs h =
    let (x, read, h₁) = >>=-eq-ok (load_fixture raw) _ h in
    let (_, fresh, h₂) = >>=-eq-ok (require (not (contains_text x.request_id known))) _ h₁ in
    let (others, loaded, h₃) = >>=-eq-ok (load_fixtures (x.request_id ∷ known) rest) _ h₂ in
    let (sound, apart) = load_fixtures-Loaded (x.request_id ∷ known) rest others loaded in
    subst (Loaded known) (ok-inj h₃) (
      ((refl, load_fixture-checked raw x read), sound),
      is_distinct-cons x.request_id known (names_of others) (refuted _ (guard-eq-ok _ _ fresh))
          apart,
    )

module _ (p : Platform) (library : KeyLibrary p) where
  open p use {tokens}

  abbrev pub IsKeyed : String × tokens.Key → Type 0
  IsKeyed entry = key_id p library entry.1 ≡ entry.0

  abbrev pub LoadedKeys : List String → List (String × tokens.Key) → Type 0
  LoadedKeys known xs =
      (All IsKeyed xs) × (Apart known (names_of xs) × (is_distinct (names_of xs) ≡ true))

  load_key-IsKeyed :
      (known : List String) (raw : Json) (entry : String × tokens.Key)
      → load_key p library known raw ≡ ok entry
      → IsKeyed entry × (contains_text entry.0 known ≡ false)
  unfolding load_key
  load_key-IsKeyed known raw entry h =
      let (fs, _, h₁) = >>=-eq-ok (exact_fields raw key_fields) _ h in
      let (identifier, _, h₂) = >>=-eq-ok (config_string fs "key_id") _ h₁ in
      let (encoded, _, h₃) = >>=-eq-ok (config_string fs "raw_base64url") _ h₂ in
      let (_, _, h₄) = >>=-eq-ok (require (is_base64url encoded)) _ h₃ in
      let (key, _, h₅) = >>=-eq-ok (present_key p library (library.key_of_base64 encoded)) _ h₄ in
      let (_, same_id, h₆) = >>=-eq-ok (require (str_eq (key_id p library key) identifier)) _ h₅ in
      let (_, fresh, h₇) = >>=-eq-ok (require (not (contains_text identifier known))) _ h₆ in
      subst (λ (e : String × tokens.Key). IsKeyed e × (contains_text e.0 known ≡ false)) (ok-inj h₇)
        (
          (str_eq_iff (key_id p library key) identifier).0 (guard-eq-ok _ _ same_id),
          refuted _ (guard-eq-ok _ _ fresh),
        )

  pub load_keys-Loaded :
      (known : List String) (items : Items) (xs : List (String × tokens.Key))
      → load_keys p library known items ≡ ok xs
      → LoadedKeys known xs
  unfolding load_keys is_distinct
  load_keys-Loaded known no_items xs h = subst (LoadedKeys known) (ok-inj h) (tt, (tt, refl))
  load_keys-Loaded known (item raw rest) xs h =
      let (entry, read, h₁) = >>=-eq-ok (load_key p library known raw) _ h in
      let (others, loaded, h₂) = >>=-eq-ok (load_keys p library (entry.0 ∷ known) rest) _ h₁ in
      let (keyed, fresh) = load_key-IsKeyed known raw entry read in
      let (rest_keyed, apart) = load_keys-Loaded (entry.0 ∷ known) rest others loaded in
      subst (LoadedKeys known) (ok-inj h₂)
        ((keyed, rest_keyed), is_distinct-cons entry.0 known (names_of others) fresh apart)
