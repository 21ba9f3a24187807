-- ===== src/Middleware.antt =====
-- internal/middleware: what runs around a handler. The context of a request is read under two keys.
pub mod Limit
pub mod Logging
use session_service.Common.{ℕ, String, Option, none, some, [], ◌∷◌, ok, err, if◌then◌else◌}
use session_service.Common.Int.{ℤ, pos, negsuc}
use session_service.Common.Time.{Duration, whole_seconds}
use session_service.Config.Numbers.{show}
use session_service.Errors.{err_rate_limit_exceeded}
use session_service.Http.{Request, Response, plain, http_error}
use session_service.Cache.{Cache}
use Prim.Native.String.{◌++◌}

-- A handler over a state.
abbrev pub Handler : Type 0 → Type 0 → Type 0
Handler W A = Request → W → Response A × W

-- `strconv.Itoa`
abbrev itoa : ℤ → String
itoa (pos n) = show n
itoa (negsuc n) = "-" ++ show (ℕ.suc n)

-- The answer to a client over its limit.
unfoldable pub too_many : {A : Type 0} → Duration → Response A
unfolding whole_seconds show
too_many window = record {
  status = err_rate_limit_exceeded.status;
  headers =
      ("Content-Type", "application/json") ∷ ("Retry-After", itoa (whole_seconds window)) ∷ [];
  body = plain (
      "{\"error\":\"" ++ err_rate_limit_exceeded.code ++ "\",\"error_description\":\""
      ++ err_rate_limit_exceeded.message ++ "\"}");
}

-- The limit of the client, if the context has one.
abbrev pub limit_of : ℤ → Option ℤ → ℤ
limit_of default_limit none = default_limit
limit_of default_limit (some limit) = limit

module _ {Server A : Type 0} (cache : Cache Server) (default_limit : ℤ) (window : Duration) where
  -- `RateLimitMiddleware`, where the context holds that client and that limit
  unfoldable pub rate_limit_middleware :
      Option String → Option ℤ → Handler Server A → Handler Server A
  unfolding too_many
  rate_limit_middleware none client_limit next r s = next r s
  rate_limit_middleware (some client_id) client_limit next r s =
      let (answer, s') =
        cache.check_rate_limit client_id (limit_of default_limit client_limit) window s in
      elim answer [
        | err _ ↦ (http_error "Internal server error" 500, s')
        | ok exceeded ↦ let passed = next r s' in if exceeded then (too_many window, s') else passed
      ]
