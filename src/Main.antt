-- ===== src/Main.antt =====
-- cmd/server/main.go: how the service starts, what it is wired to, and how it stops.
pub mod Started
pub mod Serving
pub mod Rotating
pub mod Stopped
use session_service.Common.{ℕ, ◌*◌, ◌++◌, String, Option, none, some, Result, ok, err, GoError}
use session_service.Common.Int.{ℤ, pos, negsuc}
use session_service.Common.Time.{Duration, second}
use session_service.Config.{Config, ConfigError, Loading, loaded, failed, load}
use session_service.Services.{Crypto, System}
use session_service.Auth.Keys.{KeyManager, new_key_manager}
use session_service.Auth.Keys.Schedule.{rotation_interval, grace_period}
use session_service.Auth.Generator.{TokenGenerator}
use session_service.Auth.Validator.{TokenValidator}
use session_service.Repository.Postgres.Connect.{Driver, new_repository, close_repository}
use session_service.Cache.Redis.Connect.{RedisDriver, new_cache, close_cache}
use session_service.Handlers.Token.{TokenHandler}
use session_service.Handlers.Verify.{VerifyHandler, new_verify_handler}
use session_service.Handlers.Oidc.{OidcConfigurationHandler, new_oidc_configuration_handler}
use Prim.Native.String

-- `http.Server`, but for its handler
pub record Server : Type 0 where
  pub addr : String
  pub read_timeout : Duration
  pub write_timeout : Duration
  pub idle_timeout : Duration

-- What `main` has built when it starts to serve.
pub record App (Handle Client PrivateKey PublicKey : Type 0) : Type 0 where
  pub db : Option Handle
  pub cache_client : Client
  pub key_manager : KeyManager PrivateKey PublicKey
  -- `none` if the length of a refresh token is negative: making one panics then
  pub token_handler : Option TokenHandler
  pub token_validator : TokenValidator
  pub verify_handler : VerifyHandler
  pub oidc_handler : OidcConfigurationHandler
  pub rotation_interval : Duration
  pub grace_period : Duration
  pub server : Server

-- `logger.Fatal` with its message and error, or a service that runs.
pub data Startup (Handle Client PrivateKey PublicKey : Type 0) : Type 0 where
  fatal_config : ConfigError → Startup Handle Client PrivateKey PublicKey
  fatal : String → GoError → Startup Handle Client PrivateKey PublicKey
  running : App Handle Client PrivateKey PublicKey → Startup Handle Client PrivateKey PublicKey

-- `NewTokenGenerator`
abbrev pub new_token_generator : String → String → Duration → ℤ → Option TokenGenerator
new_token_generator issuer audience access_token_expiry (pos n) = some (record {
  issuer = issuer;
  audience = audience;
  access_token_expiry = access_token_expiry;
  refresh_token_length = n;
})
new_token_generator issuer audience access_token_expiry (negsuc n) = none

-- `NewTokenValidator`
abbrev pub new_token_validator : String → String → TokenValidator
new_token_validator issuer audience = record { issuer = issuer; audience = audience }

-- `NewTokenHandler`, whose handler reads these fields of the configuration
abbrev pub new_token_handler : Option TokenGenerator → Config → Option TokenHandler
new_token_handler none cfg = none
new_token_handler (some token_gen) cfg = some (record {
  token_gen = token_gen;
  jwt_expiry = cfg.jwt_expiry;
  refresh_token_expiry = cfg.refresh_token_expiry;
})

-- The state outside: the net, and the clock and random source.
pub record Outside (Net State : Type 0) : Type 0 where
  pub net : Net
  pub sys : State

-- The service that `main` puts together from the configuration and what it has opened.
unfoldable pub wire :
    {Handle Client PrivateKey PublicKey : Type 0}
    → Config
    → Option Handle
    → Client
    → KeyManager PrivateKey PublicKey
    → App Handle Client PrivateKey PublicKey
wire cfg db client key_manager = record {
  db = db;
  cache_client = client;
  key_manager = key_manager;
  token_handler =
      new_token_handler
        (new_token_generator cfg.jwt_issuer cfg.jwt_audience cfg.jwt_expiry
          cfg.refresh_token_length)
        cfg;
  token_validator = new_token_validator cfg.jwt_issuer cfg.jwt_audience;
  verify_handler = new_verify_handler (new_token_validator cfg.jwt_issuer cfg.jwt_audience);
  oidc_handler = new_oidc_configuration_handler cfg.base_url cfg.jwt_issuer;
  rotation_interval = rotation_interval cfg.key_rotation_days;
  grace_period = grace_period cfg.key_grace_days;
  server = record {
    addr = String.◌++◌ ":" cfg.server_port;
    read_timeout = pos (15 * second);
    write_timeout = pos (15 * second);
    idle_timeout = pos (60 * second);
  };
}

module _ {Handle Options Client Net State PrivateKey PublicKey : Type 0} (env : String → String)
    (parse_duration : String → Option Duration) (driver : Driver Handle Net)
    (redis : RedisDriver Options Client Net) (crypto : Crypto PrivateKey PublicKey)
    (system : System PrivateKey State) where
  -- The steps of `main` behind the configuration: the first that fails ends the process.
  unfoldable pub start_with :
      Config → Outside Net State → Startup Handle Client PrivateKey PublicKey × Outside Net State
  start_with cfg o =
      let (repo, n₁) = new_repository driver cfg.database_url o.net in
      elim repo [
        | err e ↦ (fatal "Failed to initialize database" e, record o { net = n₁ })
        | ok db ↦
            let (cache, n₂) = new_cache redis cfg.redis_url n₁ in
            elim cache [
              | err e ↦ (fatal "Failed to initialize cache" e, record o { net = n₂ })
              | ok client ↦
                  let (keys, s) =
                    new_key_manager crypto system cfg.jwt_private_key cfg.jwt_public_key o.sys in
                  elim keys [
                    | err e ↦
                        (fatal "Failed to initialize key manager" e, record { net = n₂; sys = s })
                    | ok key_manager ↦
                        (running (wire cfg db client key_manager), record { net = n₂; sys = s })
                  ]
            ]
      ]

  -- `main`, up to the start of the server
  unfoldable pub start :
      Outside Net State → Startup Handle Client PrivateKey PublicKey × Outside Net State
  start o = elim (load env parse_duration) [
    | failed e ↦ (fatal_config e, o)
    | loaded cfg ↦ start_with cfg o
  ]

module _ {Handle Options Client Net PrivateKey PublicKey : Type 0} (driver : Driver Handle Net)
    (redis : RedisDriver Options Client Net) where
  -- `srv.Shutdown` with its deadline of 30 seconds, and then the deferred calls, the last first. Their
  -- errors stop nothing. A nil handle would panic; `new_repository` never gives one.
  unfoldable pub stop :
      (Net → Result (Unit {0}) × Net) → App Handle Client PrivateKey PublicKey → Net → Net
  stop shutdown app n =
      let n₁ = (close_cache redis app.cache_client (shutdown n).1).1 in
      elim app.db [ none ↦ n₁ | some db ↦ (close_repository driver db n₁).1 ]
