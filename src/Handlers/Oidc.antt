-- ===== src/Handlers/Oidc.antt =====
-- internal/handlers/oidc.go: the discovery document.
use session_service.Common.{String, Bool, false, not, List, [], ◌∷◌, Result, ◌==◌, if◌then◌else◌}
use session_service.Http.{Request, Response, http_error}
use session_service.Handlers.Jwks.{send_document}
use Prim.Native.String

pub record OidcConfiguration : Type 0 where
  pub token_endpoint : String
  pub token_endpoint_auth_methods_supported : List String
  pub jwks_uri : String
  pub response_modes_supported : List String
  pub subject_types_supported : List String
  pub id_token_signing_alg_values_supported : List String
  pub response_types_supported : List String
  pub scopes_supported : List String
  pub issuer : String
  pub request_uri_parameter_supported : Bool
  pub claims_supported : List String

-- The paths that the document puts behind the base URL.
abbrev pub token_path : String
token_path = "/oauth2/v1.0/token"

abbrev pub jwks_path : String
jwks_path = "/discovery/v1.0/keys"

unfoldable pub discovery : String → String → OidcConfiguration
discovery base_url issuer = record {
  token_endpoint = String.◌++◌ base_url token_path;
  token_endpoint_auth_methods_supported = "client_secret_post" ∷ "client_secret_basic" ∷ [];
  jwks_uri = String.◌++◌ base_url jwks_path;
  response_modes_supported = "query" ∷ "fragment" ∷ "form_post" ∷ [];
  subject_types_supported = "public" ∷ [];
  id_token_signing_alg_values_supported = "RS256" ∷ [];
  response_types_supported = "code" ∷ "token" ∷ [];
  scopes_supported = "openid" ∷ [];
  issuer = issuer;
  request_uri_parameter_supported = false;
  claims_supported = "sub" ∷ "iss" ∷ "aud" ∷ "exp" ∷ "iat" ∷ "jti" ∷ [];
}

-- `OIDCConfigurationHandler`, but for its logger
pub record OidcConfigurationHandler : Type 0 where
  pub base_url : String
  pub issuer : String

-- `NewOIDCConfigurationHandler`
abbrev pub new_oidc_configuration_handler : String → String → OidcConfigurationHandler
new_oidc_configuration_handler base_url issuer = record { base_url = base_url; issuer = issuer }

-- `HandleOIDCConfiguration`; `marshal` is `json.MarshalIndent`
unfoldable pub handle_oidc_configuration :
    (OidcConfiguration → Result String)
    → OidcConfigurationHandler
    → Request
    → Response OidcConfiguration
unfolding discovery
handle_oidc_configuration marshal h r =
    if not (r.method == "GET")
    then http_error "Method not allowed" 405
    else send_document (discovery h.base_url h.issuer) (marshal (discovery h.base_url h.issuer))
