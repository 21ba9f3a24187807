-- ===== src/Cache/Redis/Connect.antt =====
-- internal/cache/redis.go: `NewCache` and `Close`.
use session_service.Common.{String, Result, ok, err}

-- What the package asks of go-redis to connect: a client opens its connections when it is used.
pub record RedisDriver (Options Client Net : Type 0) : Type 0 where
  -- `redis.ParseURL`
  pub parse_url : String → Result Options
  pub new_client : Options → Net → Client × Net
  pub ping : Client → Net → Result (Unit {0}) × Net
  pub close : Client → Net → Result (Unit {0}) × Net

module _ {Options Client Net : Type 0} (driver : RedisDriver Options Client Net) where
  -- `NewCache`: a client that answers a ping; one that does not is left to the caller's exit.
  unfoldable pub new_cache : String → Net → Result Client × Net
  new_cache redis_url s = elim (driver.parse_url redis_url) [
    | err e ↦ (err e, s)
    | ok opt ↦
        let (client, s₁) = driver.new_client opt s in
        let (pinged, s₂) = driver.ping client s₁ in
        elim pinged [ err e ↦ (err e, s₂) | ok _ ↦ (ok client, s₂) ]
  ]

  -- `Close` of a `RedisCache`
  unfoldable pub close_cache : Client → Net → Result (Unit {0}) × Net
  close_cache client s = driver.close client s
