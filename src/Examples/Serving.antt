-- ===== src/Examples/Serving.antt =====
-- A request through the whole server, at a router that knows one path.
use session_service.Common.{
  ℕ, String, ◌≡◌, ◌≢◌, refl, Bool, true, false, Option, none, some, List, [], ◌∷◌, ok, ◌==◌, eq_iff,
  arith, if◌then◌else◌, ◌&&◌, inl, inr, Bool-cases, Option-cases, ◌||◌,
}
use session_service.Common.Dict.{Dict, lookup}
use session_service.Http.{Request, plain}
use session_service.Handlers.Action.{World}
use session_service.Handlers.Oidc.{OidcConfigurationHandler}
use session_service.Handlers.Verify.{VerifyHandler}
use session_service.Auth.Validator.Lifetime.{validator_of}
use session_service.Middleware.Logging.Handled.{Logged}
use session_service.Router.{Endpoint, verify, Template, path, prefix, Route, routes}
use session_service.Router.Service.{Libraries}
use session_service.Router.Service.Guarded.{Among, IsAllowed, Takes, MuxLaws, IsPathOf}
use session_service.Router.Service.Answered.{server, finished, unguarded, ticked, serve-unguarded}
use session_service.Examples.Services.{backend, handler, generator, Store, empty_store, world_at}
use Prim.Native.String.{◌++◌}
use text.Mathlib.TextLemmas.{append_inj}

abbrev knows : String → String → Bool
knows t p = t == "/{tenant_id}/oauth2/v1.0/verify" && p == "/t1/oauth2/v1.0/verify"

abbrev matches : Template → String → Option (Dict String)
matches (prefix t) p = none
matches (path t) p = if knows t p then some (("tenant_id", "t1") ∷ []) else none

tenant_found :
    (rest p : String) (vars : Dict String)
    → matches (path ("/{tenant_id}" ++ rest)) p ≡ some vars
    → (t : String) × (lookup "tenant_id" vars ≡ some t) × (t ≢ "") × (p ≡ "/" ++ (t ++ rest))
tenant_found rest p vars e =
    let same : "/{tenant_id}" ++ rest ≡ "/{tenant_id}" ++ "/oauth2/v1.0/verify" =
      ground (arith, eq_iff ("/{tenant_id}" ++ rest) "/{tenant_id}/oauth2/v1.0/verify") in
    let here : p ≡ "/t1/oauth2/v1.0/verify" = ground (arith, eq_iff p "/t1/oauth2/v1.0/verify") in
    let rest_is : rest ≡ "/oauth2/v1.0/verify" = (append_inj {s₂ = "/{tenant_id}"} same refl).1 in
    ("t1", ground arith, λ e. ground (arith, eq_iff "t1" ""), rw rest_is here)

abbrev among : String → List String → Bool
among m [] = false
among m (x ∷ xs) = m == x || among m xs

abbrev is_allowed : String → List String → Bool
is_allowed m [] = true
is_allowed m (x ∷ xs) = among m (x ∷ xs)

among-Among : (m : String) (xs : List String) → among m xs ≡ true → Among m xs
among-Among m [] e = cc
among-Among m (x ∷ xs) e = elim (Bool-cases (m == x)) [
  | inl same ↦ inl ((eq_iff m x).0 same)
  | inr other ↦ inr (among-Among m xs (ground arith))
]

is_allowed-IsAllowed : (m : String) (xs : List String) → is_allowed m xs ≡ true → IsAllowed m xs
is_allowed-IsAllowed m [] e = tt
is_allowed-IsAllowed m (x ∷ xs) e = among-Among m (x ∷ xs) e

abbrev allowed_at : Endpoint → Bool → Option (Dict String) → Option (Endpoint × Dict String)
allowed_at e true (some vars) = some (e, vars)
allowed_at e true none = none
allowed_at e false _ = none

abbrev or_else :
    Option (Endpoint × Dict String)
    → Option (Endpoint × Dict String)
    → Option (Endpoint × Dict String)
or_else none later = later
or_else (some found) later = some found

abbrev mux : List Route → Request → Option (Endpoint × Dict String)
mux [] r = none
mux (route ∷ rest) r =
    or_else
      (allowed_at route.endpoint (is_allowed r.method route.methods)
        (matches route.template r.path))
      (mux rest r)

chosen :
    (table : List Route) (r : Request) (e : Endpoint) (vars : Dict String)
    → mux table r ≡ some (e, vars)
    → Takes matches table r e vars
chosen [] r e vars h = cc
chosen (route ∷ rest) r e vars h = elim (Bool-cases (is_allowed r.method route.methods)) [
  | inr refused ↦ inr (chosen rest r e vars (ground arith))
  | inl allowed ↦ elim (Option-cases (matches route.template r.path)) [
    | inl missed ↦ inr (chosen rest r e vars (ground arith))
    | inr (found, matched) ↦
        inl (ground arith, is_allowed-IsAllowed r.method route.methods allowed, ground arith)
  ]
]

abbrev mux_laws : MuxLaws mux
mux_laws = record { matches = matches; chosen = chosen; tenant = tenant_found }

abbrev libraries : Libraries (World Store (Unit {0}) (Unit {0}) ℕ ℕ) ℕ
libraries = record {
  mux = mux;
  unrouted = λ r. record { status = 404; headers = []; body = plain "404 page not found" };
  swagger_pages = λ r w. (record { status = 200; headers = []; body = plain "" }, w);
  is_importable = λ key. true;
  marshal_keys = λ key_set. ok "{}";
  marshal_configuration = λ c. ok "{}";
}

abbrev oidc_handler : OidcConfigurationHandler
oidc_handler = record { base_url = "https://session.example"; issuer = "session-service" }

abbrev verify_handler : VerifyHandler
verify_handler = record { validator = validator_of generator }

abbrev request : Request
request = record {
  method = "POST";
  path = "/t1/oauth2/v1.0/verify";
  vars = [];
  form = ok [];
  json_body = ok (record { token = "signed" });
}

abbrev idle : Logged (World Store (Unit {0}) (Unit {0}) ℕ ℕ)
idle = record { world = world_at empty_store; log = [] }

routed : mux routes request ≡ some (verify, ("tenant_id", "t1") ∷ [])
unfolding routes
routed = refl

serve-unguarded_example :
    (t : String) × IsPathOf verify t "/t1/oauth2/v1.0/verify"
    × (server backend libraries handler verify_handler oidc_handler "10.0.0.1" request idle
        ≡ finished backend libraries handler verify_handler oidc_handler "10.0.0.1" request idle (
            unguarded backend libraries handler verify_handler oidc_handler verify t
              (record request { vars = ("tenant_id", "t1") ∷ [] })
              (ticked backend libraries handler verify_handler oidc_handler idle.world)))
serve-unguarded_example =
    serve-unguarded backend libraries handler verify_handler oidc_handler mux_laws "10.0.0.1"
      request idle verify (("tenant_id", "t1") ∷ []) routed
      (λ e. ground (arith, eq_iff "POST" "OPTIONS"))
