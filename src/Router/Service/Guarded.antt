-- ===== src/Router/Service/Guarded.antt =====
-- cmd/server/router.go with internal/handlers: what the guards of the routes leave for the handlers to do.
use session_service.Common.{String, ◌≡◌, ◌≢◌, ◌⊎◌, Option, some, List, [], ◌∷◌, inl, inr}
use session_service.Common.Dict.{Dict, lookup}
use session_service.Http.{Request}
use session_service.Router.{
  Endpoint, openid_configuration, token, keys, verify, health, swagger, Template, path, Route,
  routes,
}
use Prim.Native.String.{◌++◌}

abbrev pub Among : String → List String → Type 0
Among m [] = ⊥
Among m (x ∷ xs) = (m ≡ x) ⊎ Among m xs

-- A route with no methods takes them all.
abbrev pub IsAllowed : String → List String → Type 0
IsAllowed m [] = Unit {0}
IsAllowed m (x ∷ xs) = Among m (x ∷ xs)

module _ (matches : Template → String → Option (Dict String)) where
  -- A route of the table takes the request to that endpoint, with these variables.
  abbrev pub Takes : List Route → Request → Endpoint → Dict String → Type 0
  Takes [] r e vars = ⊥
  Takes (route ∷ rest) r e vars =
      ((route.endpoint ≡ e)
        × IsAllowed r.method route.methods
        × (matches route.template r.path ≡ some vars))
      ⊎ Takes rest r e vars

-- What the router's documentation promises: a request goes to a route whose methods and template it
-- matches, and a variable stands for a segment of the path, which is not empty.
pub record MuxLaws (mux : List Route → Request → Option (Endpoint × Dict String)) : Type 0 where
  pub matches : Template → String → Option (Dict String)
  pub chosen :
      (table : List Route) (r : Request) (e : Endpoint) (vars : Dict String)
      → mux table r ≡ some (e, vars)
      → Takes matches table r e vars
  pub tenant :
      (rest p : String) (vars : Dict String)
      → matches (path ("/{tenant_id}" ++ rest)) p ≡ some vars
      → (t : String) × (lookup "tenant_id" vars ≡ some t) × (t ≢ "") × (p ≡ "/" ++ (t ++ rest))

-- What follows the tenant in the path of an endpoint.
abbrev pub IsPathOf : Endpoint → String → String → Type 0
IsPathOf token t p = (t ≢ "") × (p ≡ "/" ++ (t ++ "/oauth2/v2.0/token"))
IsPathOf keys t p = (t ≢ "") × (p ≡ "/" ++ (t ++ "/discovery/v1.0/keys"))
IsPathOf verify t p = (t ≢ "") × (p ≡ "/" ++ (t ++ "/oauth2/v1.0/verify"))
IsPathOf openid_configuration t p = Unit {0}
IsPathOf health t p = Unit {0}
IsPathOf swagger t p = Unit {0}

-- The method that the handler of an endpoint asks for, and the variable that it reads.
abbrev pub Fits : Endpoint → String → Dict String → String → Type 0
Fits token m vars p =
    (m ≡ "POST") × ((t : String) × (lookup "tenant_id" vars ≡ some t) × IsPathOf token t p)
Fits keys m vars p =
    (m ≡ "GET") × ((t : String) × (lookup "tenant_id" vars ≡ some t) × IsPathOf keys t p)
Fits verify m vars p =
    (m ≡ "POST") × ((t : String) × (lookup "tenant_id" vars ≡ some t) × IsPathOf verify t p)
Fits openid_configuration m vars p = m ≡ "GET"
Fits health m vars p = Unit {0}
Fits swagger m vars p = Unit {0}

one_or_options : (m a : String) → Among m (a ∷ "OPTIONS" ∷ []) → m ≢ "OPTIONS" → m ≡ a
one_or_options m a (inl e) other = e
one_or_options m a (inr (inl e)) other = absurd (other e)
one_or_options m a (inr (inr none_left)) other = elim none_left [ ]

module _ (mux : List Route → Request → Option (Endpoint × Dict String)) (laws : MuxLaws mux) where
  tenant_of :
      (rest p : String) (vars : Dict String)
      → laws.matches (path ("/{tenant_id}" ++ rest)) p ≡ some vars
      → (t : String) × (lookup "tenant_id" vars ≡ some t) × ((t ≢ "") × (p ≡ "/" ++ (t ++ rest)))
  tenant_of rest p vars e =
      let (t, found, named, same) = laws.tenant rest p vars e in (t, found, (named, same))

  -- A request that the routes let through, and that is no preflight, fits the handler.
  pub routes-Fits :
      (r : Request) (e : Endpoint) (vars : Dict String)
      → Takes laws.matches routes r e vars
      → r.method ≢ "OPTIONS"
      → Fits e r.method vars r.path
  unfolding routes
  routes-Fits r e vars (inl (same, allowed, matched)) other =
      rw (← same) (one_or_options r.method "GET" allowed other)
  routes-Fits r e vars (inr (inl (same, allowed, matched))) other = rw (← same) (
    one_or_options r.method "POST" allowed other,
    tenant_of "/oauth2/v2.0/token" r.path vars matched,
  )
  routes-Fits r e vars (inr (inr (inl (same, allowed, matched)))) other = rw (← same) (
    one_or_options r.method "GET" allowed other,
    tenant_of "/discovery/v1.0/keys" r.path vars matched,
  )
  routes-Fits r e vars (inr (inr (inr (inl (same, allowed, matched))))) other = rw (← same) (
    one_or_options r.method "POST" allowed other,
    tenant_of "/oauth2/v1.0/verify" r.path vars matched,
  )
  routes-Fits r e vars (inr (inr (inr (inr (inl (same, allowed, matched)))))) other = rw (← same) tt
  routes-Fits r e vars (inr (inr (inr (inr (inr (inl (same, allowed, matched))))))) other =
      rw (← same) tt
  routes-Fits r e vars (inr (inr (inr (inr (inr (inr none_left)))))) other = elim none_left [ ]
