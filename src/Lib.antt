-- ===== src/Lib.antt =====
-- Verification of the session service, a Go program that issues OAuth2 access tokens (RS256 JWTs)
-- and refresh tokens for the users of tenants, verifies them, publishes the verifying keys and
-- rotates them.
--
-- The parts, how they interact, and the files that model them (paths from the repository's root):
-- - internal/handlers/token.go, the token endpoint: Handlers/Token. HandleToken is `handle_token`;
--   handleClientCredentials, handleUserProvisioning and handleRefreshToken are the functions of the
--   same names in this spelling, composed of `authenticate`, `issue_tokens` and `touch_client`, which
--   are the parts that the Go functions repeat. Handlers/Action gives the state that a handler runs
--   over (cache server, database, clock and random source, keys) and its early returns. Requests that
--   run at the same time are Handlers/Process, whose steps are single calls of a service, and changes
--   from elsewhere; the grants as such processes are Handlers/Token/Steps (refresh) and
--   Handlers/Token/Steps/Grants (the other two, and the switch). The reasons for refusing a request,
--   each with its status, are Handlers/Token/Refused.
-- - cmd/server/main.go: Main starts the service (`start` is `main` up to the server, `wire` what it puts
--   together), and stops it; cmd/server/router.go: Router, with what SetupRouter returns in
--   Router/Service.
-- - internal/handlers/verify.go, jwks.go and oidc.go, the other endpoints: Handlers/Verify,
--   Handlers/Jwks, Handlers/Oidc.
-- - internal/auth/jwks.go, the key manager: Auth/Keys, with the rotation schedule of
--   cmd/server/main.go in Auth/Keys/Schedule, and what rotations and cleanups make of the keys while
--   requests run in Auth/Keys/Evolution; internal/auth/token.go: Auth/Generator;
--   internal/auth/validator.go: Auth/Validator.
-- - internal/cache/redis.go: the interface in Cache, its laws in Cache/Laws, RedisCache in
--   Cache/Redis over the commands of a server, whose laws are Cache/Redis/Laws, and with the expiry of
--   keys Cache/Redis/Expiry; NewCache and Close in Cache/Redis/Connect. The handlers' theorems take
--   only the interface and its laws.
-- - internal/database/postgres.go: the interface in Repository, PostgresRepository in
--   Repository/Postgres over the calls of database/sql, NewRepository and Close in
--   Repository/Postgres/Connect; what its statements make of the tables in Repository/Postgres/Tables.
--   The laws of the interface are Repository/Laws.
-- - internal/models/models.go: Models; the JSON of the records in Redis: Json.
-- - internal/config/config.go: Config. pkg/errors/errors.go: Errors.
--   internal/middleware/rate_limit.go and logging.go: Middleware.
-- - Examples: concrete services that satisfy the laws, and the properties at concrete inputs.
--
-- Conventions. An operation takes the state and returns its result with the new state; a read of a
-- server leaves it as it is. A Go error is the `err` of a `Result`. Instants are nanoseconds since
-- year 1, durations signed nanoseconds; sums of instants do not wrap. Products of durations and the
-- numbers of the environment wrap around at 64 bits or are refused as in Go. Recursion is structural
-- throughout, the retry loop of NewRepository on the rounds that are left; the decimal text of a
-- number has a fuel of 20 digits, more than a 64-bit number has. A handler finds the same keys at each of
-- its reads; `generate_between` is the signing of a token where it does not.
--
-- Parameters (code outside the repository): the Redis server, database/sql, the clock, the random
-- source, RSA and PEM, the JWT library, bcrypt, the texts of encoding/json, the matching of mux. What is
-- assumed of them are the records `CacheLaws`, `RedisLaws`, `TransactionLaws`,
-- `JwtLaws`, `JsonTextLaws`, `MatchLaws`, `ExpiryLaws`, `DriverLaws`, `KeepsClients`, `RedisDriverLaws`,
-- `WriterLaws`, `MuxLaws`, `SignatureLaws`, `RandomLaws`,
-- `TableLaws`, `ClientLaws` (the statements) and `ReadLaws` (the lookups). `RedisLaws` is about a
-- time in which no key expires, `ExpiryLaws` about the expiry.
--
-- Not modelled: the lines that only log, the listener and the signals of the server, and the generated
-- API documentation. A negative length of refresh tokens, with which making one panics, leaves no token
-- handler in the model of the wiring.
pub mod Common
pub mod Errors
pub mod Models
pub mod Services
pub mod Json
pub mod Cache
pub mod Repository
pub mod Auth
pub mod Http
pub mod Middleware
pub mod Handlers
pub mod Router
pub mod Main
pub mod Config
pub mod Examples
