-- ===== src/Cache/Redis/Expiry.antt =====
-- internal/cache/redis.go: refresh tokens and their revocations when keys expire.
pub mod Evolution
pub mod Outlives
use session_service.Common.{
  if_elim, ◌∙◌, sym, ap, ℕ, ◌+◌, ◌≤◌, ◌<◌, String, ◌≡◌, ◌≢◌, ◌⊎◌, inl, inr, refl, none, Result, ok,
  err, redis_nil, ◌==◌, if◌then◌else◌, arith, eq_iff, eq_refl, Result-cases, true, nat_eq, ltb,
  Bool-cases,
}
use session_service.Common.Int.{ℤ, pos_part}
use session_service.Common.Time.{Duration}
use session_service.Models.{Client, RefreshTokenData}
use session_service.Json.{JsonText}
use session_service.Json.Records.{marshal_client, marshal_refresh_token_data}
use session_service.Cache.Redis.{
  Redis, is_one, set_client, check_rate_limit, store_refresh_token, get_refresh_token,
  delete_refresh_token, revoke_token, revoke_refresh_token, is_refresh_token_revoked,
}
use session_service.Cache.Redis.Keys.{
  client_key, rate_limit_key, refresh_token_key, revoked_jti_key, revoked_refresh_key,
  client-ne-refresh_token, client-ne-revoked_refresh, rate_limit-ne-refresh_token,
  rate_limit-ne-revoked_refresh, refresh_token-ne-revoked_jti, revoked_jti-ne-revoked_refresh,
  refresh_token-ne-revoked_refresh, refresh_token_key_injective, refresh_token_key_eq,
  revoked_refresh_key_eq, eq_of_ne,
}

-- The documented behaviour of expiry: SET gives a key its lifetime, after which it is gone. Deadlines of
-- keys that are not there are 0.
pub record ExpiryLaws {Server : Type 0} (redis : Redis Server) : Type 1 where
  pub IsUp : Server → Type 0
  pub now : Server → ℕ
  pub deadline : Server → String → ℕ
  -- a duration as the client rounds it for the server
  pub lifetime : Duration → ℕ
  -- time passes
  pub later : ℕ → Server → Server
  pub later-IsUp : (d : ℕ) (s : Server) → IsUp s → IsUp (later d s)
  pub now-later : (d : ℕ) (s : Server) → now (later d s) ≡ now s + d
  pub deadline-later : (d : ℕ) (s : Server) (j : String) → deadline (later d s) j ≡ deadline s j
  pub get_gone :
      (k : String) (s : Server) → IsUp s → deadline s k ≤ now s → redis.get k s ≡ err redis_nil
  pub exists_live :
      (k : String) (s : Server) → IsUp s → now s < deadline s k → redis.exists k s ≡ ok 1
  pub set-IsUp :
      (k v : String) (ttl : Duration) (s : Server) → IsUp s → IsUp (redis.set k v ttl s).1
  pub now-set : (k v : String) (ttl : Duration) (s : Server) → now (redis.set k v ttl s).1 ≡ now s
  pub deadline-set :
      (k v : String) (ttl : Duration) (s : Server) (j : String)
      → IsUp s
      → 0 < pos_part ttl
      → deadline (redis.set k v ttl s).1 j ≡ (if k == j then now s + lifetime ttl else deadline s j)
  pub del-IsUp : (k : String) (s : Server) → IsUp s → IsUp (redis.del k s).1
  pub now-del : (k : String) (s : Server) → now (redis.del k s).1 ≡ now s
  pub deadline-del :
      (k : String) (s : Server) (j : String)
      → IsUp s
      → deadline (redis.del k s).1 j ≡ (if k == j then 0 else deadline s j)
  pub incr-IsUp : (k : String) (s : Server) → IsUp s → IsUp (redis.incr k s).1
  pub now-incr : (k : String) (s : Server) → now (redis.incr k s).1 ≡ now s
  pub deadline-incr :
      (k : String) (s : Server) (j : String)
      → IsUp s
      → k ≢ j
      → deadline (redis.incr k s).1 j ≡ deadline s j
  pub expire-IsUp :
      (k : String) (ttl : Duration) (s : Server) → IsUp s → IsUp (redis.expire k ttl s).1
  pub now-expire : (k : String) (ttl : Duration) (s : Server) → now (redis.expire k ttl s).1 ≡ now s
  pub deadline-expire :
      (k : String) (ttl : Duration) (s : Server) (j : String)
      → IsUp s
      → k ≢ j
      → deadline (redis.expire k ttl s).1 j ≡ deadline s j

module _ {Server : Type 0} (redis : Redis Server) (text : JsonText) (laws : ExpiryLaws redis)
    (expiry : Duration) (token : String) where
  -- What others do to the cache after the token was stored, and the passing of time. Tokens are stored
  -- and revoked for the same time, and no other token is the same.
  pub data Step (s : Server) : Server → Type 0 where
    client_cached :
        (c : Client) (ttl : Duration) → 0 < pos_part ttl → Step s (set_client redis text c ttl s).1
    request_counted :
        (id : String) (limit : ℤ) (window : Duration)
        → Step s (check_rate_limit redis text id limit window s).1
    token_stored :
        (id : String) (d : RefreshTokenData)
        → id ≢ token
        → Step s (store_refresh_token redis text id d expiry s).1
    token_deleted : (id : String) → Step s (delete_refresh_token redis text id s).1
    jti_revoked :
        (jti : String) (ttl : Duration)
        → 0 < pos_part ttl
        → Step s (revoke_token redis text jti ttl s).1
    token_revoked : (id : String) → Step s (revoke_refresh_token redis text id expiry s).1
    time_passes : (d : ℕ) → Step s (laws.later d s)

  pub data Steps (s : Server) : Server → Type 0 where
    here : Steps s s
    next : {t u : Server} → Steps s t → Step t u → Steps s u

  -- The token is stored no longer than before, and stays as long on the revocation list, or is on it
  -- for the lifetime of tokens from now on.
  pub record Evolves (s s' : Server) : Type 0 where
    pub up : laws.IsUp s'
    pub clock : laws.now s ≤ laws.now s'
    pub stored :
        laws.deadline s' (refresh_token_key token) ≤ laws.deadline s (refresh_token_key token)
    pub listed :
        (laws.deadline s' (revoked_refresh_key token) ≡ laws.deadline s (revoked_refresh_key token))
        ⊎ (laws.deadline s' (revoked_refresh_key token) ≡ laws.now s + laws.lifetime expiry)
