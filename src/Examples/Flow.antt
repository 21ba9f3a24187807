-- ===== src/Examples/Flow.antt =====
-- From the token endpoint to the verification endpoint, at concrete inputs.
use session_service.Common.{true, err, failure, List, ◌↔◌, ℕ}
use session_service.Handlers.Jwks.{handle_jwks, cacheable}
use session_service.Handlers.Jwks.Served.{handle_jwks-get_public_key_by_id}
use session_service.Auth.Keys.{Jwk, get_public_key_by_id}
use session_service.Auth.Keys.Lookup.{IsListed}
use session_service.Examples.Services.{t₀}
use session_service.Examples.Keys.{keys_valid}
use session_service.Common.{◌≡◌, refl, [], ◌∷◌, ok, eq_iff, arith}
use session_service.Http.{Request}
use session_service.Examples.Services.{
  subject, handler, keys, backend, empty_store, world_at, generator,
}
use session_service.Examples.Signing.{public_of, jwt_laws}
use session_service.Examples.Keys.{signs, verifies}
use session_service.Examples.Tokens.{tokens, minted, token_request}
use session_service.Auth.Generator.{generate_access_token, generate_refresh_token, access_claims}
use session_service.Auth.Generator.Base64.{url_encode}
use session_service.Common.Time.{whole_seconds}
use session_service.Auth.Validator.Lifetime.{validator_of}
use session_service.Handlers.Action.{send_json}
use session_service.Handlers.Token.{
  handle_token, dispatch_grant, handle_client_credentials, authenticate, load_client, limit_rate,
  issue_tokens, touch_client,
}
use session_service.Handlers.Token.Minted.{Minted, handle_token-Minted}
use session_service.Handlers.Verify.{handle_verify, refusal}
use session_service.Handlers.Verify.Issued.{handle_verify-Minted}
use session_service.Handlers.Verify.Statuses.{Answered, handle_verify-status}

answers :
    (handle_token backend handler token_request (world_at empty_store)).0 ≡ send_json 200 tokens
unfolding handle_token send_json dispatch_grant handle_client_credentials authenticate load_client
    limit_rate issue_tokens touch_client generate_access_token generate_refresh_token access_claims
    whole_seconds url_encode
answers = refl

handle_token-Minted_example : Minted backend handler "t1" keys tokens
handle_token-Minted_example =
    handle_token-Minted backend handler token_request (world_at empty_store) tokens answers

abbrev token_minted : Minted backend handler "t1" keys tokens
token_minted = record {
  subject = subject;
  same_tenant = refl;
  at = tt;
  jti = "id-2";
  minted = minted;
}

-- The access token of the other tenant's path.
abbrev verify_request : Request
verify_request = record {
  method = "POST";
  path = "/t2/oauth2/v2.0/verify";
  vars = ("tenant_id", "t2") ∷ [];
  form = ok [];
  json_body = ok (record { token = "signed" });
}

handle_verify-Minted_example :
    (handle_verify backend (validator_of generator) verify_request (world_at empty_store)).0
    ≡ refusal "tenant_id in path does not match token tenant_id"
handle_verify-Minted_example =
    handle_verify-Minted backend handler public_of jwt_laws "t1" keys tokens token_minted 7
      verify_request (world_at empty_store) refl (ground (arith, eq_iff "t2" "")) refl
      (ground (arith, eq_iff "signed" "")) signs (ground (arith, eq_iff "k1" "")) verifies refl refl
      (λ ne. refl)

abbrev keys_request : Request
keys_request = record {
  method = "GET";
  path = "/t1/discovery/v1.0/keys";
  vars = ("tenant_id", "t1") ∷ [];
  form = ok [];
  json_body = err (failure "EOF");
}

handle_jwks-get_public_key_by_id_example :
    (ks : List (Jwk ℕ)) × ((handle_jwks backend
        (λ k. true)
        (λ ks. ok "keys")
        keys_request
        (world_at empty_store)).0
      ≡ cacheable ks)
    × (IsListed "k1" 7 ks ↔ (get_public_key_by_id keys "k1" t₀ ≡ ok 7))
    × IsListed "k1" 7 ks
handle_jwks-get_public_key_by_id_example =
    handle_jwks-get_public_key_by_id backend (λ k. true) (λ ks. ok "keys") keys_request
      (world_at empty_store) "keys" "k1" 7 keys_valid refl (ground (arith, eq_iff "t1" "")) refl
      refl (λ k. refl)

handle_verify-status_example :
    Answered backend
      (validator_of generator)
      verify_request
      (world_at empty_store)
      (handle_verify backend (validator_of generator) verify_request (world_at empty_store))
handle_verify-status_example =
    handle_verify-status backend (validator_of generator) verify_request (world_at empty_store)
