-- ===== src/Middleware/Limit.antt =====
-- internal/middleware/rate_limit.go: which requests reach the handler.
use session_service.Common.{
  String, ◌≡◌, ◌≢◌, ◌⊎◌, refl, true, false, Option, none, some, ok, arith, Result-cases, inl, inr,
}
use session_service.Common.Int.{ℤ}
use session_service.Common.Time.{Duration}
use session_service.Http.{Request, http_error}
use session_service.Cache.{Cache}
use session_service.Middleware.{Handler, limit_of, too_many, rate_limit_middleware}

module _ {Server A : Type 0} (cache : Cache Server) (default_limit : ℤ) (window : Duration) where
  -- A request of a named client reaches the handler exactly if the cache counts it within the
  -- client's limit, or the default limit if the context has none; any other is answered with 429 or
  -- 500, and nothing but its count has changed. A request that names no client is never limited.
  pub rate_limit_middleware-cases :
      (client_limit : Option ℤ) (next : Handler Server A) (r : Request) (s : Server)
      → ((id : String)
          → ((cache.check_rate_limit id (limit_of default_limit client_limit) window s).0 ≡ ok false
              → rate_limit_middleware cache default_limit window (some id) client_limit next r s
                ≡ next r
                    (cache.check_rate_limit id (limit_of default_limit client_limit) window s).1)
            × ((cache.check_rate_limit id (limit_of default_limit client_limit) window s).0
                  ≢ ok false
                → (((rate_limit_middleware cache default_limit window
                        (some id)
                        client_limit
                        next
                        r
                        s).0.status
                      ≡ 429)
                    ⊎ ((rate_limit_middleware cache default_limit window
                          (some id)
                          client_limit
                          next
                          r
                          s).0.status
                        ≡ 500))
                  × ((rate_limit_middleware cache default_limit window
                        (some id)
                        client_limit
                        next
                        r
                        s).1
                      ≡ (cache.check_rate_limit id
                          (limit_of default_limit client_limit)
                          window
                          s).1)))
        × (rate_limit_middleware cache default_limit window none client_limit next r s ≡ next r s)
  unfolding rate_limit_middleware too_many http_error
  rate_limit_middleware-cases client_limit next r s = (
    λ id.
        elim (Result-cases
          (cache.check_rate_limit id (limit_of default_limit client_limit) window s).0) [
            | inr (_, failed) ↦ (λ within. absurd (cc), λ over. ground arith)
            | inl (true, over) ↦ (λ within. absurd (cc), λ _. ground arith)
            | inl (false, within) ↦ (λ _. ground arith, λ over. absurd (over within))
          ],
    refl,
  )
