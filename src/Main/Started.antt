-- ===== src/Main/Started.antt =====
-- cmd/server/main.go: what stands behind a service that runs.
use session_service.Common.{
  ℕ, ◌*◌, none, String, ◌≡◌, refl, Option, some, ok, arith, Result-cases, inl, inr, ◌⊎◌, sym, ◌∙◌,
}
use Prim.Native.String
use session_service.Common.Int.{ℤ, pos, negsuc}
use session_service.Common.Time.{Duration, second}
use session_service.Handlers.Token.{TokenHandler}
use session_service.Auth.Keys.Schedule.{rotation_interval, grace_period}
use session_service.Config.{Config, ConfigError, Loading, loaded, failed, load}
use session_service.Config.Settings.{IsGiven}
use session_service.Config.Loaded.{IsUsable, load-IsUsable}
use session_service.Services.{Crypto, System}
use session_service.Auth.Keys.{KeyManager, new_key_manager}
use session_service.Auth.Keys.Rotation.{IsValid}
use session_service.Auth.Keys.Initial.{Initial, new_key_manager-Initial, Initial-IsValid}
use session_service.Repository.Postgres.Connect.{Driver, new_repository}
use session_service.Repository.Postgres.Connect.Retries.{Connected, new_repository-Connected}
use session_service.Cache.Redis.Connect.{RedisDriver, new_cache}
use session_service.Main.{
  App, running, Outside, wire, start_with, start, new_token_handler, new_token_generator,
}

loading-cases :
    (l : Loading) → ((cfg : Config) × (l ≡ loaded cfg)) ⊎ ((e : ConfigError) × (l ≡ failed e))
loading-cases (loaded cfg) = inl (cfg, refl)
loading-cases (failed e) = inr (e, refl)

ok-inj : {A : Type 0} {a b : A} → ok a ≡ ok b → a ≡ b
ok-inj e = cc

-- A client that was made from the URL and has answered a ping.
module _ {Options Client Net : Type 0} (redis : RedisDriver Options Client Net) where
  pub record CacheAnswered (url : String) (s : Net) (client : Client) (t : Net) : Type 0 where
    pub options : Options
    pub parsed : redis.parse_url url ≡ ok options
    pub made_at : Net
    pub made : redis.new_client options s ≡ (client, made_at)
    pub pinged : redis.ping client made_at ≡ (ok tt, t)

  new_cache-CacheAnswered :
      (url : String) (s : Net) {client : Client} {t : Net}
      → new_cache redis url s ≡ (ok client, t)
      → CacheAnswered url s client t
  unfolding new_cache
  new_cache-CacheAnswered url s {client} {t} e = elim (Result-cases (redis.parse_url url)) [
    | inr (_, unparsed) ↦ absurd (ground arith)
    | inl (opt, parsed) ↦
        let r = redis.new_client opt s in
        elim (Result-cases (redis.ping r.0 r.1).0) [
          | inr (_, silent) ↦ absurd (ground arith)
          | inl (_, answered) ↦ record {
            options = opt;
            parsed = parsed;
            made_at = r.1;
            made = ground arith;
            pinged = ground arith;
          }
        ]
  ]

-- What each part of the service has of the configuration.
pub record Wired {Handle Client PrivateKey PublicKey : Type 0} (cfg : Config)
    (app : App Handle Client PrivateKey PublicKey) : Type 0 where
  pub validator :
      app.token_validator ≡ record { issuer = cfg.jwt_issuer; audience = cfg.jwt_audience }
  pub verifies : app.verify_handler.validator ≡ app.token_validator
  pub token_handler :
      ((n : ℕ) × (cfg.refresh_token_length ≡ pos n)
        × (app.token_handler
            ≡ some (record {
              token_gen = record {
                issuer = cfg.jwt_issuer;
                audience = cfg.jwt_audience;
                access_token_expiry = cfg.jwt_expiry;
                refresh_token_length = n;
              };
              jwt_expiry = cfg.jwt_expiry;
              refresh_token_expiry = cfg.refresh_token_expiry;
            })))
      ⊎ ((n : ℕ) × (cfg.refresh_token_length ≡ negsuc n) × (app.token_handler ≡ none))
  pub discovery : app.oidc_handler ≡ record { base_url = cfg.base_url; issuer = cfg.jwt_issuer }
  pub interval : app.rotation_interval ≡ rotation_interval cfg.key_rotation_days
  pub grace : app.grace_period ≡ grace_period cfg.key_grace_days
  pub server : app.server ≡ record {
    addr = String.◌++◌ ":" cfg.server_port;
    read_timeout = pos (15 * second);
    write_timeout = pos (15 * second);
    idle_timeout = pos (60 * second);
  }

-- What `NewTokenHandler` makes of the configuration, for a length of either sign.
module _ (cfg : Config) where
  abbrev made_handler : ℤ → Option TokenHandler
  made_handler length =
      new_token_handler (new_token_generator cfg.jwt_issuer cfg.jwt_audience cfg.jwt_expiry length)
        cfg

  made_handler-cases :
      (length : ℤ)
      → ((n : ℕ) × (length ≡ pos n)
          × (made_handler length
              ≡ some (record {
                token_gen = record {
                  issuer = cfg.jwt_issuer;
                  audience = cfg.jwt_audience;
                  access_token_expiry = cfg.jwt_expiry;
                  refresh_token_length = n;
                };
                jwt_expiry = cfg.jwt_expiry;
                refresh_token_expiry = cfg.refresh_token_expiry;
              })))
        ⊎ ((n : ℕ) × (length ≡ negsuc n) × (made_handler length ≡ none))
  made_handler-cases (pos n) = inl (n, refl, refl)
  made_handler-cases (negsuc n) = inr (n, refl, refl)

wire-Wired :
    {Handle Client PrivateKey PublicKey : Type 0} (cfg : Config) (db : Option Handle)
    (client : Client) (km : KeyManager PrivateKey PublicKey)
    → Wired cfg (wire cfg db client km)
unfolding wire
wire-Wired cfg db client km = record {
  validator = refl;
  verifies = refl;
  token_handler = made_handler-cases cfg cfg.refresh_token_length;
  discovery = refl;
  interval = refl;
  grace = refl;
  server = refl;
}

module _ {Handle Options Client Net State PrivateKey PublicKey : Type 0} (env : String → String)
    (parse_duration : String → Option Duration) (driver : Driver Handle Net)
    (redis : RedisDriver Options Client Net) (crypto : Crypto PrivateKey PublicKey)
    (system : System PrivateKey State) where
  -- The configuration loaded, from the environment, with usable keys; a database handle and a cache
  -- client have answered a ping; the keys are those of the configuration, well formed; every part has
  -- its values of the configuration.
  pub record Started (o : Outside Net State) (app : App Handle Client PrivateKey PublicKey)
      (o' : Outside Net State) : Type 0 where
    pub cfg : Config
    pub loads : load env parse_duration ≡ loaded cfg
    pub given : IsGiven env parse_duration cfg
    pub usable : IsUsable cfg
    pub connected :
        Connected driver cfg.database_url o.net
          (new_repository driver cfg.database_url o.net).0
          (new_repository driver cfg.database_url o.net).1
    pub has_db : app.db ≡ some connected.db
    pub cached :
        CacheAnswered redis cfg.redis_url
          (new_repository driver cfg.database_url o.net).1
          app.cache_client
          o'.net
    pub initial : Initial crypto system cfg.jwt_private_key cfg.jwt_public_key o.sys app.key_manager
    pub valid : IsValid app.key_manager
    pub built : app ≡ wire cfg app.db app.cache_client app.key_manager
    pub wired : Wired cfg app

  start_with-Started :
      (cfg : Config) (o : Outside Net State) (app : App Handle Client PrivateKey PublicKey)
      (o' : Outside Net State)
      → load env parse_duration ≡ loaded cfg
      → start_with env parse_duration driver redis crypto system cfg o ≡ (running app, o')
      → Started o app o'
  unfolding start_with wire
  start_with-Started cfg o app o' loads e =
      let repo = new_repository driver cfg.database_url o.net in
      elim (Result-cases repo.0) [
        | inr (_, unreachable) ↦ absurd (ground arith)
        | inl (db, opened) ↦
            let cache = new_cache redis cfg.redis_url repo.1 in
            elim (Result-cases cache.0) [
              | inr (_, silent) ↦ absurd (ground arith)
              | inl (client, answered) ↦
                  elim (Result-cases
                    (new_key_manager crypto system cfg.jwt_private_key cfg.jwt_public_key
                      o.sys).0) [
                        | inr (_, unparsed) ↦ absurd (ground arith)
                        | inl (km, made) ↦
                            let connected =
                              new_repository-Connected driver cfg.database_url o.net db opened in
                            let initial =
                              new_key_manager-Initial crypto system cfg.jwt_private_key
                                cfg.jwt_public_key o.sys km made in
                            let same_app : app ≡ wire cfg db client km = ground arith in
                            let same_net : o'.net ≡ cache.1 = ground arith in
                            let same_db : db ≡ some connected.db =
                              ok-inj (sym opened ∙ connected.is_ok) in
                            rw same_app (record {
                              cfg = cfg;
                              loads = loads;
                              given = (load-IsUsable env parse_duration cfg loads).1;
                              usable = (load-IsUsable env parse_duration cfg loads).2;
                              connected = connected;
                              has_db = same_db;
                              cached = rw same_net (
                                  new_cache-CacheAnswered redis cfg.redis_url repo.1
                                    (λ i. (answered i, cache.1)));
                              initial = initial;
                              valid =
                                  Initial-IsValid crypto system cfg.jwt_private_key
                                    cfg.jwt_public_key o.sys km initial;
                              built = refl;
                              wired = wire-Wired cfg db client km;
                            })
                      ]
            ]
      ]

  -- A service that runs has loaded a checked configuration, every setting from its own variable or its
  -- default, and its parts have their values of it, among them issuer and audience of validator and
  -- generator; its database handle was opened and has answered a ping, so has the cache client made from
  -- the URL, and its keys are the configured pair, well formed.
  pub start-Started :
      (o : Outside Net State) (app : App Handle Client PrivateKey PublicKey)
      (o' : Outside Net State)
      → start env parse_duration driver redis crypto system o ≡ (running app, o')
      → Started o app o'
  unfolding start
  start-Started o app o' e = elim (loading-cases (load env parse_duration)) [
    | inr (_, refused) ↦ absurd (ground arith)
    | inl (cfg, loads) ↦ start_with-Started cfg o app o' loads (ground arith)
  ]
