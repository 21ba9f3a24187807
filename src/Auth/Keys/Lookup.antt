-- ===== src/Auth/Keys/Lookup.antt =====
-- internal/auth/jwks.go: which keys verify tokens, across rotation, cleanup and publication.
use session_service.Common.{
  String, ◌≡◌, ◌≢◌, ◌↔◌, refl, Bool, true, not, some, List, [], ◌∷◌, ok, err, failure, ◌<◌, ◌≤◌,
  ◌⊎◌, arith, eq_iff, ◌==◌, eq_refl, if◌then◌else◌,
}
use session_service.Common.Dict.{Dict, lookup, IsUnique, lookup-keep, lookup-insert}
use session_service.Common.Time.{Time, Duration, add, before}
use session_service.Auth.Keys.{
  KeyPair, KeyManager, Jwk, expired, fresh_key, retire_current, install, cleanup_expired_keys,
  get_private_key, get_public_key_by_id, get_jwk_set, jwk_entries,
}
use session_service.Auth.Keys.Rotation.{IsEntry, IsValid, lookup-install}
use Prim.Native.String

-- The key set has an entry for that id and key.
abbrev pub IsListed : {PublicKey : Type 0} → String → PublicKey → List (Jwk PublicKey) → Type 0
IsListed id p [] = ⊥
IsListed id p (j ∷ js) = ((j.kid ≡ id) × (j.key ≡ p)) ⊎ IsListed id p js

module _ {PrivateKey PublicKey : Type 0} where
  -- Through a rotation the key that signed until then verifies up to the end of the grace period
  -- and not after it, and every other key with an id other than the new one verifies as before.
  pub get_public_key_by_id-install :
      (k : PrivateKey) (p : PublicKey) (id : String) (now : Time) (grace : Duration)
      (km : KeyManager PrivateKey PublicKey) (v : IsValid km) (j : String) (t : Time)
      → id ≢ j
      → 0 < add now grace
      → get_public_key_by_id (install k p id now grace km) j t ≡ (
          if km.current_key_id == j
          then (if before (add now grace) t
              then err (failure (String.◌++◌ "key expired: " j))
              else ok v.current.public_key)
          else get_public_key_by_id km j t)
  unfolding get_public_key_by_id
  get_public_key_by_id-install k p id now grace km v j t ne later = ground (
    arith,
    lookup-install k p id now grace km v j,
    v.entries km.current_key_id v.current,
    v.found,
  )

  -- Right after a rotation the new key signs, and it verifies under its id at any time.
  install_signs :
      (k : PrivateKey) (p : PublicKey) (id : String) (now : Time) (grace : Duration)
      (km : KeyManager PrivateKey PublicKey) (t : Time)
      → (get_private_key (install k p id now grace km) ≡ some k)
        × (get_public_key_by_id (install k p id now grace km) id t ≡ ok p)
  unfolding get_public_key_by_id get_private_key
  install_signs k p id now grace km t =
      ground (
        arith,
        lookup-insert id id (fresh_key k p id now) (retire_current now grace km),
        eq_refl id,
      )

  -- Cleanup changes no verification: from the moment of the cleanup on, a key verifies after it
  -- exactly when it did before it.
  pub get_public_key_by_id-cleanup_expired_keys :
      (km : KeyManager PrivateKey PublicKey) (now : Time) (id : String) (t : Time) (p : PublicKey)
      → IsValid km
      → now ≤ t
      → (get_public_key_by_id (cleanup_expired_keys km now) id t ≡ ok p)
        ↔ (get_public_key_by_id km id t ≡ ok p)
  unfolding get_public_key_by_id cleanup_expired_keys
  get_public_key_by_id-cleanup_expired_keys km now id t p v h =
      ground (arith, lookup-keep (λ kp. not (expired now kp)) id km.keys v.unique)

  abbrev at_keys : Dict (KeyPair PrivateKey PublicKey) → KeyManager PrivateKey PublicKey
  at_keys d = record { keys = d; current_key_id = "" }

  tail_entries :
      (j : String) (w : KeyPair PrivateKey PublicKey) (d : Dict (KeyPair PrivateKey PublicKey))
      → IsUnique ((j, w) ∷ d)
      → ((i : String) (kp : KeyPair PrivateKey PublicKey)
          → lookup i ((j, w) ∷ d) ≡ some kp
          → IsEntry i kp)
      → (i : String) (kp : KeyPair PrivateKey PublicKey) → lookup i d ≡ some kp
      → IsEntry i kp
  tail_entries j w d u h i kp e = h i kp (ground (arith, eq_iff j i))

  jwk_entries_iff :
      (is_importable : PublicKey → Bool) (now : Time) (id : String) (p : PublicKey)
      (d : Dict (KeyPair PrivateKey PublicKey))
      → IsUnique d
      → ((j : String) (kp : KeyPair PrivateKey PublicKey) → lookup j d ≡ some kp → IsEntry j kp)
      → IsListed id p (jwk_entries is_importable now d)
        ↔ ((get_public_key_by_id (at_keys d) id now ≡ ok p) × (is_importable p ≡ true))
  unfolding get_public_key_by_id jwk_entries
  jwk_entries_iff is_importable now id p [] u h = ground arith
  jwk_entries_iff is_importable now id p ((j, w) ∷ d) u h =
      let ih = jwk_entries_iff is_importable now id p d u.1 (tail_entries j w d u h) in
      let entry : IsEntry j w = h j w (rw eq_refl refl) in
      ground (arith, ih, entry, eq_iff j id, u.0)

  -- The published key set holds exactly the keys that verify tokens at that moment and that the
  -- JWK library takes, each under its id.
  pub get_jwk_set_iff :
      (is_importable : PublicKey → Bool) (km : KeyManager PrivateKey PublicKey) (now : Time)
      (id : String) (p : PublicKey)
      → IsValid km
      → IsListed id p (get_jwk_set is_importable km now)
        ↔ ((get_public_key_by_id km id now ≡ ok p) × (is_importable p ≡ true))
  unfolding get_jwk_set get_public_key_by_id
  get_jwk_set_iff is_importable km now id p v =
      jwk_entries_iff is_importable now id p km.keys v.unique v.entries
