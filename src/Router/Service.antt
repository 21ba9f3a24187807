-- ===== src/Router/Service.antt =====
-- cmd/server/router.go: the server that SetupRouter puts together, from the matched route through the
-- middleware to the handler.
pub mod Guarded
pub mod Answered
use session_service.Common.{String, Bool, Option, none, some, List, Result}
use session_service.Common.Dict.{Dict}
use session_service.Common.Time.{Time}
use session_service.Models.{TokenResponse, VerifyResponse}
use session_service.Http.{Request, Response, Body, plain, error_body, json}
use session_service.Auth.Keys.{Jwk}
use session_service.Middleware.{Handler}
use session_service.Middleware.Logging.Handled.{Logged, logged}
use session_service.Handlers.Action.{World, Backend}
use session_service.Handlers.Token.{TokenHandler, handle_token}
use session_service.Handlers.Verify.{VerifyHandler, handle_verify}
use session_service.Handlers.Jwks.{handle_jwks}
use session_service.Handlers.Oidc.{
  OidcConfiguration, OidcConfigurationHandler, handle_oidc_configuration,
}
use session_service.Router.{
  Endpoint, openid_configuration, token, keys, verify, health, swagger, Route, routes, cors,
  health_check,
}

-- The values that the endpoints answer with as JSON.
pub data Payload (PublicKey : Type 0) : Type 0 where
  tokens : TokenResponse → Payload PublicKey
  key_set : List (Jwk PublicKey) → Payload PublicKey
  verification : VerifyResponse → Payload PublicKey
  configuration : OidcConfiguration → Payload PublicKey

module _ {A B : Type 0} (f : A → B) where
  abbrev relabel_body : Body A → Body B
  relabel_body (plain text) = plain text
  relabel_body (error_body code message) = error_body code message
  relabel_body (json a) = json (f a)

  -- The same response, with its value under another name.
  abbrev pub relabel : Response A → Response B
  relabel response = record {
    status = response.status;
    headers = response.headers;
    body = relabel_body response.body;
  }

-- What is not in the repository: matching of a request with the routes, the answer when no route
-- matches, the pages of http-swagger, and the encoders of the two documents.
pub record Libraries (W PublicKey : Type 0) : Type 0 where
  -- the route that is chosen, with the variables of its path; `none` for no path or no method
  pub mux : List Route → Request → Option (Endpoint × Dict String)
  pub unrouted : Request → Response (Payload PublicKey)
  pub swagger_pages : Handler W (Payload PublicKey)
  pub is_importable : PublicKey → Bool
  pub marshal_keys : List (Jwk PublicKey) → Result String
  pub marshal_configuration : OidcConfiguration → Result String

module _ {Server Database State PrivateKey PublicKey : Type 0}
    (b : Backend Server Database State PrivateKey PublicKey)
    (lib : Libraries (World Server Database State PrivateKey PublicKey) PublicKey)
    (token_handler : TokenHandler) (verify_handler : VerifyHandler)
    (oidc_handler : OidcConfigurationHandler) where
  abbrev W : Type 0
  W = World Server Database State PrivateKey PublicKey

  -- The handler that `SetupRouter` registers for a route.
  unfoldable pub handler_of : Endpoint → Handler W (Payload PublicKey)
  handler_of openid_configuration r w = (
    relabel configuration (handle_oidc_configuration lib.marshal_configuration oidc_handler r),
    w,
  )
  handler_of token r w =
      let (response, w') = handle_token b token_handler r w in (relabel tokens response, w')
  handler_of keys r w =
      let (response, w') = handle_jwks b lib.is_importable lib.marshal_keys r w in
      (relabel key_set response, w')
  handler_of verify r w =
      let (response, w') = handle_verify b verify_handler.validator r w in
      (relabel verification response, w')
  handler_of health r w = health_check r w
  handler_of swagger r w = lib.swagger_pages r w

  -- `time.Now()` on the whole state
  abbrev pub clock : W → Time × W
  clock w = let (t, s) = b.system.now w.sys in (t, record w { sys = s })

  -- The router that `SetupRouter` returns: the middleware runs around the matched handler, and not
  -- around the answer to a request that no route takes.
  unfoldable pub serve : String → Handler (Logged W) (Payload PublicKey)
  serve remote_addr r w = elim (lib.mux routes r) [
    | none ↦ (lib.unrouted r, w)
    | some (endpoint, vars) ↦
        cors (logged clock remote_addr (handler_of endpoint)) (record r { vars = vars }) w
  ]
