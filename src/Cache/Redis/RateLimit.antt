-- ===== src/Cache/Redis/RateLimit.antt =====
-- internal/cache/redis.go: what `CheckRateLimit` lets through.
use session_service.Common.{
  ℕ, zero, suc, ◌+◌, ◌-◌, String, ◌≡◌, ◌<◌, Bool, false, Result, ok, arith, ltb, leb, nat_eq,
  if◌then◌else◌, if_elim, eq_refl,
}
use session_service.Common.Int.{ℤ, pos, pos_part}
use session_service.Common.Time.{Duration}
use session_service.Json.{JsonText}
use session_service.Cache.Redis.{Redis, check_rate_limit}
use session_service.Cache.Redis.Keys.{rate_limit_key}
use session_service.Cache.Redis.Laws.{RedisLaws}

-- 1 for a request that is let through.
abbrev let_through : Result Bool → ℕ
let_through (ok false) = 1
let_through _ = 0

module _ {Server : Type 0} (redis : Redis Server) (text : JsonText) where
  -- How many of n consecutive requests of a client are let through.
  pub allowed : String → ℤ → Duration → ℕ → Server → ℕ
  allowed id limit window zero s = 0
  allowed id limit window (suc n) s =
      let (answer, s') = check_rate_limit redis text id limit window s in
      let_through answer + allowed id limit window n s'

  module _ (laws : RedisLaws redis) (id : String) (limit : ℕ) (window : Duration)
      (p : 0 < pos_part window) where
    answer :
        (s : Server)
        → laws.IsUp s
        → (check_rate_limit redis text id (pos limit) window s).0
          ≡ ok (ltb limit (laws.count s (rate_limit_key id) + 1))
    unfolding check_rate_limit
    answer s up = ground (arith, laws.incr-ok (rate_limit_key id) s up)

    counted :
        (s : Server)
        → laws.IsUp s
        → laws.count (check_rate_limit redis text id (pos limit) window s).1 (rate_limit_key id)
          ≡ laws.count s (rate_limit_key id) + 1
    unfolding check_rate_limit
    counted s up =
        let k = rate_limit_key id in
        ground (
          arith,
          laws.incr-ok k s up,
          laws.count-incr k s k up,
          eq_refl k,
          laws.count-expire k window (redis.incr k s).1 k (laws.incr-IsUp k s up) p,
        )

    still_up :
        (s : Server)
        → laws.IsUp s
        → laws.IsUp (check_rate_limit redis text id (pos limit) window s).1
    unfolding check_rate_limit
    still_up s up =
        let k = rate_limit_key id in
        let up' = laws.incr-IsUp k s up in
        rw (laws.incr-ok k s up, check_rate_limit)
          (if_elim laws.IsUp (nat_eq (laws.count s k + 1) 1) (laws.expire-IsUp k window _ up') up')

    -- Of n requests of a client within a window of positive length, at a server that is up and from a
    -- counter at c, exactly the next `limit - c` are let through, or all n if that is fewer.
    pub allowed_exact :
        (n : ℕ) (s : Server)
        → laws.IsUp s
        → allowed id (pos limit) window n s ≡ (
            if leb n (limit - laws.count s (rate_limit_key id))
            then n
            else limit - laws.count s (rate_limit_key id))
    unfolding allowed
    allowed_exact zero s up = ground arith
    allowed_exact (suc n) s up = ground (
      arith,
      answer s up,
      counted s up,
      allowed_exact n (check_rate_limit redis text id (pos limit) window s).1 (still_up s up),
    )
