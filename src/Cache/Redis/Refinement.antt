-- ===== src/Cache/Redis/Refinement.antt =====
-- internal/cache/redis.go: `RedisCache` keeps the laws of the interface `Cache`.
use session_service.Common.{String, ◌≡◌, ok}
use session_service.Models.{RefreshTokenData}
use session_service.Json.{JsonText, JsonTextLaws}
use session_service.Json.Records.{marshal_refresh_token_data}
use session_service.Cache.Redis.{Redis}
use session_service.Cache.Redis.Laws.{RedisLaws}

module _ {Server : Type 0} (redis : Redis Server) (text : JsonText) (laws : RedisLaws redis)
    (json : JsonTextLaws text) where
  -- The data has a JSON text.
  abbrev IsStorable : RefreshTokenData → Type 0
  IsStorable d = (v : String) × (marshal_refresh_token_data text d ≡ ok v)
