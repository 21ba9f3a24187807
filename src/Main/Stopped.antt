-- ===== src/Main/Stopped.antt =====
-- cmd/server/main.go: a service that has stopped holds nothing open.
use session_service.Common.{
  ℕ, ◌+◌, ◌-◌, ◌*◌, refl, ◌∙◌, none, some, GoError, String, ◌≡◌, Option, Result, arith,
  Result-cases, inl, inr,
}
use session_service.Common.Int.{pos}
use session_service.Common.Time.{Duration, second}
use session_service.Services.{Crypto, System}
use session_service.Repository.Postgres.Connect.{Driver, attempt, pause, retry, new_repository}
use session_service.Repository.Postgres.Connect.Retries.{retry-ok, retry-err}
use session_service.Repository.Postgres.Connect.Counts.{
  Counters, DriverLaws, new_repository_bounded,
}
use session_service.Cache.Redis.Connect.{RedisDriver, close_cache}
use session_service.Main.{App, running, Outside, start, stop}
use session_service.Main.Started.{CacheAnswered, start-Started}

-- The clients of the cache that are open now; the handles of the database are counted by `Counters`.
module _ {Handle Net : Type 0} (driver : Driver Handle Net) (clients : Net → ℕ) where
  -- Calls of the database open and close no client of the cache.
  pub record KeepsClients : Type 0 where
    pub open_db : (url : String) (s : Net) → clients (driver.open_db url s).1 ≡ clients s
    pub ping : (db : Handle) (s : Net) → clients (driver.ping db s).1 ≡ clients s
    pub close : (db : Handle) (s : Net) → clients (driver.close db s).1 ≡ clients s
    pub sleep : (d : Duration) (s : Net) → clients (driver.sleep d s) ≡ clients s

  module _ (keeps : KeepsClients) (url : String) where
    attempt-clients : (s : Net) → clients (attempt driver url s).1 ≡ clients s
    unfolding attempt
    attempt-clients s =
        let r = driver.open_db url s in
        let opened = keeps.open_db url s in
        elim (Result-cases r.0) [
          | inr (_, failed) ↦ ground arith
          | inl (db, found) ↦
              let q = driver.ping db r.1 in
              let pinged = keeps.ping db r.1 in
              let closed = keeps.close db q.1 in
              elim (Result-cases q.0) [
                | inl (_, answered) ↦ ground arith
                | inr (_, silent) ↦ ground arith
              ]
        ]

    pause-clients : (i : ℕ) (s : Net) → clients (pause driver url i s) ≡ clients s
    unfolding pause
    pause-clients i s = let law = keeps.sleep (pos ((i + 1) * second)) s in ground arith

    retry-clients :
        (left i : ℕ) (last : Option GoError) (s : Net)
        → clients (retry driver url left i last s).1 ≡ clients s
    unfolding retry
    retry-clients ℕ.zero i last s = refl
    retry-clients (ℕ.suc left) i last s =
        let r = attempt driver url s in
        let tried = attempt-clients s in
        elim (Result-cases r.0) [
          | inl (db, answered) ↦
              rw (retry-ok driver url left i last db s (λ j. (answered j, r.1))) tried
          | inr (e, failed) ↦ rw (retry-err driver url left i last e s (λ j. (failed j, r.1))) (
              retry-clients left (i + 1) (some e) (pause driver url i r.1)
              ∙ pause-clients i r.1
              ∙ tried)
        ]

    new_repository-clients : (s : Net) → clients (new_repository driver url s).1 ≡ clients s
    unfolding new_repository
    new_repository-clients s = retry-clients 5 0 none s

module _ {Options Client Net : Type 0} (redis : RedisDriver Options Client Net)
    (count : Counters Net) (clients : Net → ℕ) where
  -- The documented behaviour of go-redis: a client is open from `NewClient` to its `Close`, and its calls
  -- open and close no handle of the database.
  pub record RedisDriverLaws : Type 0 where
    pub new_client-clients :
        (o : Options) (s : Net) → clients (redis.new_client o s).1 ≡ clients s + 1
    pub ping-clients : (c : Client) (s : Net) → clients (redis.ping c s).1 ≡ clients s
    pub close-clients : (c : Client) (s : Net) → clients (redis.close c s).1 ≡ clients s - 1
    pub new_client-held :
        (o : Options) (s : Net) → count.held (redis.new_client o s).1 ≡ count.held s
    pub ping-held : (c : Client) (s : Net) → count.held (redis.ping c s).1 ≡ count.held s
    pub close-held : (c : Client) (s : Net) → count.held (redis.close c s).1 ≡ count.held s

  CacheAnswered-counts :
      (laws : RedisDriverLaws) (url : String) (s : Net) (c : Client) (s' : Net)
      → CacheAnswered redis url s c s'
      → (clients s' ≡ clients s + 1) × (count.held s' ≡ count.held s)
  CacheAnswered-counts laws url s c s' a =
      let made = a.made in
      let pinged = a.pinged in
      let opened_clients = laws.new_client-clients a.options s in
      let opened_held = laws.new_client-held a.options s in
      let pinged_clients = laws.ping-clients c a.made_at in
      let pinged_held = laws.ping-held c a.made_at in (ground arith, ground arith)

module _ {Handle Options Client Net State PrivateKey PublicKey : Type 0} (env : String → String)
    (parse_duration : String → Option Duration) (driver : Driver Handle Net)
    (redis : RedisDriver Options Client Net) (crypto : Crypto PrivateKey PublicKey)
    (system : System PrivateKey State) (shutdown : Net → Result (Unit {0}) × Net)
    (count : Counters Net) (clients : Net → ℕ) where
  -- A service that has run and is stopped has closed the database handle and the cache client that it
  -- opened, the handles of the failed rounds included: as many handles are open as before it started, and
  -- as many clients, which are counted apart.
  pub stop-start :
      (laws : DriverLaws driver count) (keeps : KeepsClients driver clients)
      (redis_laws : RedisDriverLaws redis count clients) (o : Outside Net State)
      (app : App Handle Client PrivateKey PublicKey) (o' : Outside Net State)
      → ((n : Net) → count.held (shutdown n).1 ≡ count.held n)
      → ((n : Net) → clients (shutdown n).1 ≡ clients n)
      → start env parse_duration driver redis crypto system o ≡ (running app, o')
      → (count.held (stop driver redis shutdown app o'.net) ≡ count.held o.net)
        × (clients (stop driver redis shutdown app o'.net) ≡ clients o.net)
  unfolding stop close_cache
  stop-start laws keeps redis_laws o app o' quiet quiet_clients e =
      let s = start-Started env parse_duration driver redis crypto system o app o' e in
      let cfg = s.cfg in
      let repo = new_repository driver cfg.database_url o.net in
      let (_, _, balance) = new_repository_bounded driver count laws cfg.database_url o.net in
      let kept = new_repository-clients driver clients keeps cfg.database_url o.net in
      let (cached, cached_held) =
        CacheAnswered-counts redis count clients redis_laws cfg.redis_url repo.1 app.cache_client
          o'.net s.cached in
      let shut = quiet o'.net in
      let shut_clients = quiet_clients o'.net in
      let n₁ = (shutdown o'.net).1 in
      let n₂ = (redis.close app.cache_client n₁).1 in
      let client_closed = redis_laws.close-clients app.cache_client n₁ in
      let client_held = redis_laws.close-held app.cache_client n₁ in
      let db_closed = laws.close-held s.connected.db n₂ in
      let db_clients = keeps.close s.connected.db n₂ in
      let opened = s.connected.is_ok in
      let held : count.held repo.1 ≡ count.held o.net + 1 = rw opened at balance in
      rw (s.has_db) (ground arith, ground arith)
