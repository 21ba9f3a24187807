-- ===== src/Cache/Redis/Laws.antt =====
-- The documented behaviour of the Redis commands, as hypotheses, at a server that is up and between
-- whose commands no key expires.
use session_service.Common.{
  ℕ, ◌+◌, String, ◌≡◌, ◌≢◌, ◌<◌, Option, none, some, is_some, Result, ok, err, redis_nil, ◌==◌,
  if◌then◌else◌,
}
use session_service.Common.Int.{pos, pos_part}
use session_service.Common.Time.{Duration}
use session_service.Cache.Redis.{Redis}

-- The reply to GET.
abbrev pub reply : Option String → Result String
reply none = err redis_nil
reply (some v) = ok v

pub record RedisLaws {Server : Type 0} (redis : Redis Server) : Type 1 where
  pub IsUp : Server → Type 0
  -- the text that a key holds, and the number that INCR would add to
  pub value : Server → String → Option String
  pub count : Server → String → ℕ
  pub get_lem : (k : String) (s : Server) → IsUp s → redis.get k s ≡ reply (value s k)
  pub exists_lem :
      (k : String) (s : Server)
      → IsUp s
      → redis.exists k s ≡ ok (if is_some (value s k) then 1 else 0)
  pub set-IsUp :
      (k v : String) (ttl : Duration) (s : Server) → IsUp s → IsUp (redis.set k v ttl s).1
  pub set-ok :
      (k v : String) (ttl : Duration) (s : Server)
      → IsUp s
      → 0 < pos_part ttl
      → (redis.set k v ttl s).0 ≡ ok tt
  pub value-set :
      (k v : String) (ttl : Duration) (s : Server) (j : String)
      → IsUp s
      → 0 < pos_part ttl
      → value (redis.set k v ttl s).1 j ≡ (if k == j then some v else value s j)
  pub del-IsUp : (k : String) (s : Server) → IsUp s → IsUp (redis.del k s).1
  pub value-del :
      (k : String) (s : Server) (j : String)
      → IsUp s
      → value (redis.del k s).1 j ≡ (if k == j then none else value s j)
  pub incr-IsUp : (k : String) (s : Server) → IsUp s → IsUp (redis.incr k s).1
  pub incr-ok : (k : String) (s : Server) → IsUp s → (redis.incr k s).0 ≡ ok (pos (count s k + 1))
  pub count-incr :
      (k : String) (s : Server) (j : String)
      → IsUp s
      → count (redis.incr k s).1 j ≡ (if k == j then count s j + 1 else count s j)
  pub value-incr :
      (k : String) (s : Server) (j : String)
      → IsUp s
      → k ≢ j
      → value (redis.incr k s).1 j ≡ value s j
  pub expire-IsUp :
      (k : String) (ttl : Duration) (s : Server) → IsUp s → IsUp (redis.expire k ttl s).1
  pub count-expire :
      (k : String) (ttl : Duration) (s : Server) (j : String)
      → IsUp s
      → 0 < pos_part ttl
      → count (redis.expire k ttl s).1 j ≡ count s j
  pub value-expire :
      (k : String) (ttl : Duration) (s : Server) (j : String)
      → IsUp s
      → 0 < pos_part ttl
      → value (redis.expire k ttl s).1 j ≡ value s j
