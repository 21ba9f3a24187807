-- ===== src/Handlers/Verify/Issued.antt =====
-- internal/handlers/verify.go: the verification endpoint on what the token endpoint has issued.
use session_service.Common.{
  String, ◌≡◌, ◌≢◌, true, false, some, ok, arith, eq_iff, ◌==◌, if◌then◌else◌, ◌∙◌, ap,
}
use session_service.Common.Int.{ltb_ℤ}
use session_service.Common.Time.{unix, add}
use session_service.Models.{TokenResponse, VerifyResponse}
use session_service.Services.Laws.{JwtLaws}
use session_service.Http.{Request, Response, var}
use session_service.Auth.Keys.{KeyManager, get_private_key, get_public_key_by_id}
use session_service.Auth.Generator.{access_claims, generate_access_token}
use session_service.Auth.Validator.Lifetime.{validator_of, IsUnrevoked}
use session_service.Handlers.Action.{World, Backend, send_json}
use session_service.Handlers.Token.{TokenHandler}
use session_service.Handlers.Token.Minted.{Minted}
use session_service.Handlers.Verify.{handle_verify, check_token, refusal}
use session_service.Handlers.Verify.Tenant.{time_of, tick, check_token-generate_access_token}

module _ {Server Database State PrivateKey PublicKey : Type 0}
    (b : Backend Server Database State PrivateKey PublicKey) (h : TokenHandler)
    (public_of : PrivateKey → PublicKey) (laws : JwtLaws public_of b.jwt) where
  abbrev W : Type 0
  W = World Server Database State PrivateKey PublicKey

  -- A well-formed request gets as far as the check of its token.
  handle_verify-check_token :
      (r : Request) (w : W) (token : String)
      → r.method ≡ "POST"
      → var r "tenant_id" ≢ ""
      → r.json_body ≡ ok (record { token = token })
      → token ≢ ""
      → handle_verify b (validator_of h.token_gen) r w
        ≡ check_token b (validator_of h.token_gen) (var r "tenant_id") token w
  unfolding handle_verify
  handle_verify-check_token r w token post path body given =
      ground (arith, eq_iff r.method "POST", eq_iff (var r "tenant_id") "", eq_iff token "")

  -- The answer with the claims of a minted token, in the tenant that it belongs to and in no other.
  abbrev pub verified :
      {tenant : String} {km : KeyManager PrivateKey PublicKey} {response : TokenResponse}
      → Minted b h tenant km response
      → String
      → String
      → Response VerifyResponse
  verified m of_tenant in_tenant =
      if of_tenant == in_tenant
      then send_json 200 (record {
        valid = true;
        claims = some (access_claims h.token_gen m.subject (time_of b m.at) m.jti);
        message = "";
      })
      else refusal "tenant_id in path does not match token tenant_id"

  -- The whole way from the token endpoint to the verification endpoint: the access token of an answer
  -- in a tenant, posted to the verification endpoint of any tenant, is valid with the claims of its
  -- subject in the tenant that it was issued in and refused in every other, as long as the key that
  -- signed it is held, it has not expired, and its id is not revoked.
  pub handle_verify-Minted :
      (tenant : String) (km : KeyManager PrivateKey PublicKey) (response : TokenResponse)
      (m : Minted b h tenant km response) (k : PrivateKey) (r : Request) (w : W)
      → r.method ≡ "POST"
      → var r "tenant_id" ≢ ""
      → r.json_body ≡ ok (record { token = response.access_token })
      → response.access_token ≢ ""
      → get_private_key km ≡ some k
      → km.current_key_id ≢ ""
      → get_public_key_by_id w.keys km.current_key_id (time_of b (tick b w.sys)) ≡ ok (public_of k)
      → ltb_ℤ (unix (time_of b w.sys)) (unix (add (time_of b m.at) h.token_gen.access_token_expiry))
        ≡ true
      → ltb_ℤ
          (unix (add (time_of b m.at) h.token_gen.access_token_expiry))
          (unix (time_of b (tick b (tick b w.sys))))
        ≡ false
      → IsUnrevoked b.cache w.server m.jti
      → (handle_verify b (validator_of h.token_gen) r w).0 ≡ verified m tenant (var r "tenant_id")
  handle_verify-Minted tenant km response m k r w post path body given private named known live
        unexpired unrevoked =
      let reaches = handle_verify-check_token r w response.access_token post path body given in
      let checked =
        check_token-generate_access_token b public_of laws h.token_gen m.subject km k m.at
          (generate_access_token b.system b.jwt h.token_gen m.subject km m.at).1
          response.access_token m.jti (var r "tenant_id") w
          (λ i.
            (m.minted i, (generate_access_token b.system b.jwt h.token_gen m.subject km m.at).1))
          private named known live unexpired unrevoked in
      ap (λ (a : Response VerifyResponse × W). a.0) reaches
      ∙ checked
      ∙ ap (λ t. verified m t (var r "tenant_id")) m.same_tenant
