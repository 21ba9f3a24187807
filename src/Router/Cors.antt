-- ===== src/Router/Cors.antt =====
-- cmd/server/router.go: what the CORS middleware does to requests and responses.
use session_service.Common.{◌≡◌, ◌≢◌, some, arith, eq_iff}
use session_service.Common.Dict.{lookup}
use session_service.Http.{Request}
use session_service.Middleware.{Handler}
use session_service.Router.{cors}

-- A preflight request is answered with 200 whatever the handler, and changes nothing; for any other
-- request the status, the body and the change of state are the handler's own. Either answer allows
-- every origin.
pub cors-cases :
    {W A : Type 0} (next : Handler W A) (r : Request) (w : W)
    → (r.method ≡ "OPTIONS" → ((cors next r w).0.status ≡ 200) × ((cors next r w).1 ≡ w))
      × (r.method ≢ "OPTIONS"
          → ((cors next r w).0.status ≡ (next r w).0.status)
            × ((cors next r w).0.body ≡ (next r w).0.body)
            × ((cors next r w).1 ≡ (next r w).1))
      × (lookup "Access-Control-Allow-Origin" (cors next r w).0.headers ≡ some "*")
unfolding cors
cors-cases next r w = (
  λ e. ground (arith, eq_iff r.method "OPTIONS"),
  λ e. ground (arith, eq_iff r.method "OPTIONS"),
  ground arith,
)
