-- ===== src/Handlers/Jwks.antt =====
-- internal/handlers/jwks.go: the key set of a tenant.
pub mod Served
use session_service.Common.{String, Bool, not, List, [], ◌∷◌, Result, ok, err, ◌==◌, if◌then◌else◌}
use session_service.Errors.{wrap, err_invalid_request}
use session_service.Http.{Request, Response, json, var, http_error}
use session_service.Auth.Keys.{Jwk, get_jwk_set}
use session_service.Handlers.Action.{World, Backend, send_error}

-- The headers and the status of a document that may be cached for an hour.
abbrev pub cacheable : {A : Type 0} → A → Response A
cacheable a = record {
  status = 200;
  headers = ("Content-Type", "application/json") ∷ ("Cache-Control", "public, max-age=3600") ∷ [];
  body = json a;
}

-- `json.Marshal` of the document has failed or not.
abbrev pub send_document : {A : Type 0} → A → Result String → Response A
send_document a (err _) = http_error "Internal server error" 500
send_document a (ok _) = cacheable a

module _ {Server Database State PrivateKey PublicKey : Type 0}
    (b : Backend Server Database State PrivateKey PublicKey) (is_importable : PublicKey → Bool)
    (marshal : List (Jwk PublicKey) → Result String) where
  abbrev W : Type 0
  W = World Server Database State PrivateKey PublicKey

  -- The keys at the time that `GetJWKSet` reads.
  abbrev pub send_keys : W → Response (List (Jwk PublicKey)) × W
  send_keys w =
      let (now, s) = b.system.now w.sys in
      let keys = get_jwk_set is_importable w.keys now in
      (send_document keys (marshal keys), record w { sys = s })

  -- `HandleJWKS`
  unfoldable pub handle_jwks : Request → W → Response (List (Jwk PublicKey)) × W
  handle_jwks r w =
      if not (r.method == "GET")
      then (http_error "Method not allowed" 405, w)
      else if var r "tenant_id" == ""
      then (send_error err_invalid_request, w)
      else elim (b.repo.ensure_tenant_exists (var r "tenant_id") w.db) [
        | err e ↦ (send_error (wrap e err_invalid_request), w)
        | ok _ ↦ send_keys w
      ]
