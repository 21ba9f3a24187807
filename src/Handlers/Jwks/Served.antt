-- ===== src/Handlers/Jwks/Served.antt =====
-- internal/handlers/jwks.go: the key set that is served is that of the keys that verify tokens.
use session_service.Common.{String, Bool, true, List, Result, ok, ◌≡◌, ◌≢◌, ◌↔◌, arith, eq_iff}
use session_service.Http.{Request, var}
use session_service.Auth.Keys.{KeyManager, Jwk, get_jwk_set, get_public_key_by_id}
use session_service.Auth.Keys.Rotation.{IsValid}
use session_service.Auth.Keys.Lookup.{IsListed, get_jwk_set_iff}
use session_service.Handlers.Action.{World, Backend}
use session_service.Handlers.Jwks.{handle_jwks, cacheable}

-- The current key verifies at any time.
get_public_key_by_id-current :
    {PrivateKey PublicKey : Type 0} (km : KeyManager PrivateKey PublicKey) (now : _)
    (v : IsValid km)
    → get_public_key_by_id km km.current_key_id now ≡ ok (v.current.public_key)
unfolding get_public_key_by_id
get_public_key_by_id-current km now v =
    let entry = v.entries km.current_key_id v.current v.found in
    let lasting = v.lasting in let found = v.found in ground arith

module _ {Server Database State PrivateKey PublicKey : Type 0}
    (b : Backend Server Database State PrivateKey PublicKey) (is_importable : PublicKey → Bool)
    (marshal : List (Jwk PublicKey) → Result String) where
  -- The document of a tenant that exists, for well-formed keys that the JWK library takes and that can
  -- be encoded: it lists a key under an id exactly if the key verifies tokens under that id at that
  -- moment, and the key that signs is among them.
  pub handle_jwks-get_public_key_by_id :
      (r : Request) (w : World Server Database State PrivateKey PublicKey) (text : String)
      (id : String) (p : PublicKey) (v : IsValid w.keys)
      → r.method ≡ "GET"
      → var r "tenant_id" ≢ ""
      → b.repo.ensure_tenant_exists (var r "tenant_id") w.db ≡ ok tt
      → marshal (get_jwk_set is_importable w.keys (b.system.now w.sys).0) ≡ ok text
      → ((k : PublicKey) → is_importable k ≡ true)
      → (keys : List (Jwk PublicKey)) × ((handle_jwks b is_importable marshal r w).0
          ≡ cacheable keys)
        × (IsListed id p keys ↔ (get_public_key_by_id w.keys id (b.system.now w.sys).0 ≡ ok p))
        × IsListed w.keys.current_key_id (v.current.public_key) keys
  unfolding handle_jwks
  handle_jwks-get_public_key_by_id r w text id p v get path exists marshals importable =
      let now = (b.system.now w.sys).0 in
      let keys = get_jwk_set is_importable w.keys now in
      let listed = get_jwk_set_iff is_importable w.keys now id p v in
      (
        keys,
        ground (arith, eq_iff r.method "GET", eq_iff (var r "tenant_id") ""),
        (λ l. (listed.0 l).0, λ e. listed.1 (e, importable p)),
        (get_jwk_set_iff is_importable w.keys now w.keys.current_key_id (v.current.public_key) v).1
            (get_public_key_by_id-current w.keys now v, importable (v.current.public_key)),
      )
