-- ===== src/Router.antt =====
-- cmd/server/router.go: the routes, and the CORS headers around them. Which paths a template matches
-- (github.com/gorilla/mux) is a parameter.
pub mod Served
pub mod Cors
pub mod Service
use session_service.Common.{
  ℕ, ◌+◌, String, Bool, Option, none, some, List, [], ◌∷◌, ◌++◌, nat_eq, ◌==◌, if◌then◌else◌,
}
use session_service.Common.Dict.{Dict}
use session_service.Http.{Request, Response, plain}
use session_service.Middleware.{Handler}
use Prim.Native.Char.{code}
use Prim.Native.String

pub data Endpoint : Type 0 where
  openid_configuration : Endpoint
  token : Endpoint
  keys : Endpoint
  verify : Endpoint
  health : Endpoint
  swagger : Endpoint

-- A path with variables, or the prefix of a path.
pub data Template : Type 0 where
  path : String → Template
  prefix : String → Template

-- A route for these methods, or for all if there are none.
pub record Route : Type 0 where
  pub template : Template
  pub methods : List String
  pub endpoint : Endpoint

-- The routes of `SetupRouter`, in the order in which they are tried.
unfoldable pub routes : List Route
routes =
    (record {
      template = path "/.well-known/openid-configuration";
      methods = "GET" ∷ "OPTIONS" ∷ [];
      endpoint = openid_configuration;
    })
    ∷ (record {
      template = path "/{tenant_id}/oauth2/v2.0/token";
      methods = "POST" ∷ "OPTIONS" ∷ [];
      endpoint = token;
    })
    ∷ (record {
      template = path "/{tenant_id}/discovery/v1.0/keys";
      methods = "GET" ∷ "OPTIONS" ∷ [];
      endpoint = keys;
    })
    ∷ (record {
      template = path "/{tenant_id}/oauth2/v1.0/verify";
      methods = "POST" ∷ "OPTIONS" ∷ [];
      endpoint = verify;
    })
    ∷ (record { template = path "/{tenant_id}/health"; methods = "GET" ∷ []; endpoint = health })
    ∷ (record { template = prefix "/swagger/"; methods = []; endpoint = swagger })
    ∷ []

-- The first route whose template matches the path, whatever the method.
unfoldable pub find_route : (Template → String → Bool) → String → List Route → Option Endpoint
find_route matches p [] = none
find_route matches p (route ∷ rest) =
    let later = find_route matches p rest in
    if matches route.template p then some route.endpoint else later

abbrev pub cors_headers : Dict String
cors_headers =
    ("Access-Control-Allow-Origin", "*")
    ∷ ("Access-Control-Allow-Methods", "GET, POST, OPTIONS")
    ∷ ("Access-Control-Allow-Headers", "Content-Type, Authorization")
    ∷ []

-- The CORS middleware: a preflight request goes no further.
unfoldable pub cors : {W A : Type 0} → Handler W A → Handler W A
cors next r w =
    let (response, w') = next r w in
    if r.method == "OPTIONS"
    then (record { status = 200; headers = cors_headers; body = plain "" }, w)
    else (record response { headers = cors_headers ++ response.headers }, w')

-- The health check
unfoldable pub health_check : {W A : Type 0} → Handler W A
health_check r w = (record { status = 200; headers = []; body = plain "OK" }, w)
