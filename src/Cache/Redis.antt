-- ===== src/Cache/Redis.antt =====
-- internal/cache/redis.go: `RedisCache`, over the commands of a Redis server (github.com/redis/go-redis).
pub mod Connect
pub mod Keys
pub mod Laws
pub mod Memory
pub mod RateLimit
pub mod Keeps
pub mod Refinement
pub mod Expiry
use session_service.Common.{
  ℕ, String, Bool, true, false, Option, none, some, Result, ok, err, no_rows, redis_nil, failure,
  ◌>>=◌, ◌==◌, nat_eq, ltb, if◌then◌else◌,
}
use session_service.Common.Int.{ℤ, pos, negsuc, ltb_ℤ}
use session_service.Common.Time.{Duration}
use session_service.Models.{Client, RefreshTokenData}
use session_service.Json.{JsonText}
use session_service.Json.Records.{
  marshal_client, unmarshal_client, marshal_refresh_token_data, unmarshal_refresh_token_data,
}
use session_service.Cache.{Cache}
use Keys.{client_key, rate_limit_key, refresh_token_key, revoked_jti_key, revoked_refresh_key}

-- The commands that the cache sends. A command that only reads leaves the server as it is; `get` of
-- a missing key is the error `redis.Nil`.
pub record Redis (Server : Type 0) : Type 0 where
  pub get : String → Server → Result String
  pub set : String → String → Duration → Server → Result (Unit {0}) × Server
  pub incr : String → Server → Result ℤ × Server
  pub expire : String → Duration → Server → Result (Unit {0}) × Server
  pub del : String → Server → Result (Unit {0}) × Server
  pub exists : String → Server → Result ℕ

-- `redis.Nil` is no error to the callers of these two reads: they return nil.
abbrev pub or_missing : {A : Type 0} → (String → Result A) → Result String → Result (Option A)
or_missing decode (ok text) = decode text >>= λ a. ok (some a)
or_missing decode (err redis_nil) = ok none
or_missing decode (err no_rows) = err no_rows
or_missing decode (err (failure text)) = err (failure text)

abbrev is_one : ℤ → Bool
is_one (pos n) = nat_eq n 1
is_one (negsuc _) = false

module _ {Server : Type 0} (redis : Redis Server) (text : JsonText) where
  unfoldable pub get_client : String → Server → Result (Option Client)
  get_client client_id s = or_missing (unmarshal_client text) (redis.get (client_key client_id) s)

  unfoldable pub set_client : Client → Duration → Server → Result (Unit {0}) × Server
  set_client client ttl s = elim (marshal_client text client) [
    | err e ↦ (err e, s)
    | ok encoded ↦ redis.set (client_key client.client_id) encoded ttl s
  ]

  -- The counter of the window is incremented first; its expiry is set by the first request, and a
  -- failure to set it is only logged.
  unfoldable pub check_rate_limit : String → ℤ → Duration → Server → Result Bool × Server
  check_rate_limit client_id limit window s =
      let (counted, s₁) = redis.incr (rate_limit_key client_id) s in
      elim counted [
        | err e ↦ (err e, s₁)
        | ok count ↦ (
          ok (ltb_ℤ limit count),
          (if is_one count then (redis.expire (rate_limit_key client_id) window s₁).1 else s₁),
        )
      ]

  unfoldable pub store_refresh_token :
      String → RefreshTokenData → Duration → Server → Result (Unit {0}) × Server
  store_refresh_token token_id payload ttl s = elim (marshal_refresh_token_data text payload) [
    | err e ↦ (err e, s)
    | ok encoded ↦ redis.set (refresh_token_key token_id) encoded ttl s
  ]

  unfoldable pub get_refresh_token : String → Server → Result (Option RefreshTokenData)
  get_refresh_token token_id s =
      or_missing (unmarshal_refresh_token_data text) (redis.get (refresh_token_key token_id) s)

  unfoldable pub delete_refresh_token : String → Server → Result (Unit {0}) × Server
  delete_refresh_token token_id s = redis.del (refresh_token_key token_id) s

  unfoldable pub revoke_token : String → Duration → Server → Result (Unit {0}) × Server
  revoke_token jti ttl s = redis.set (revoked_jti_key jti) "1" ttl s

  unfoldable pub revoke_refresh_token : String → Duration → Server → Result (Unit {0}) × Server
  revoke_refresh_token token_id ttl s = redis.set (revoked_refresh_key token_id) "1" ttl s

  unfoldable pub is_token_revoked : String → Server → Result Bool
  is_token_revoked jti s = redis.exists (revoked_jti_key jti) s >>= λ n. ok (ltb 0 n)

  unfoldable pub is_refresh_token_revoked : String → Server → Result Bool
  is_refresh_token_revoked token_id s =
      redis.exists (revoked_refresh_key token_id) s >>= λ n. ok (ltb 0 n)

  -- `RedisCache` as a `Cache`
  abbrev pub redis_cache : Cache Server
  redis_cache = record {
    get_client = get_client;
    set_client = set_client;
    check_rate_limit = check_rate_limit;
    store_refresh_token = store_refresh_token;
    get_refresh_token = get_refresh_token;
    delete_refresh_token = delete_refresh_token;
    revoke_token = revoke_token;
    revoke_refresh_token = revoke_refresh_token;
    is_token_revoked = is_token_revoked;
    is_refresh_token_revoked = is_refresh_token_revoked;
  }
