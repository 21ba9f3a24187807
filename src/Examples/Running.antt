-- ===== src/Examples/Running.antt =====
-- The start and the stop of the service, at concrete inputs.
use session_service.Common.{
  ℕ, ◌+◌, ◌-◌, ◌*◌, ◌≡◌, refl, true, none, some, [], ◌∷◌, ok, err, failure, nat_eq, if◌then◌else◌,
  arith, eq_iff,
}
use session_service.Common.Int.{pos, ◌≤ℤ◌}
use session_service.Common.Time.{second}
use session_service.Config.{load, check, read, get_env, get_int_env, get_duration_env}
use session_service.Http.{Request}
use session_service.Models.{TokenResponse}
use session_service.Services.{Crypto, System, rsa}
use session_service.Auth.Keys.{
  fresh_key, KeyManager, install, parse_rsa_private_key, parse_rsa_public_key, new_key_manager,
}
use session_service.Auth.Generator.{generate_access_token, access_claims}
use session_service.Examples.Services.{t₀, subject, Store, cache, repo, empty_store, generator}
use session_service.Examples.Signing.{jwt, public_of, jwt_laws}
use session_service.Examples.Storage.{env}
use session_service.Repository.Postgres.Connect.{attempt, pause, retry, new_repository}
use session_service.Cache.Redis.Connect.{RedisDriver, new_cache}
use session_service.Handlers.Action.{World, Backend}
use session_service.Handlers.Token.{TokenHandler}
use session_service.Handlers.Token.Minted.{Minted}
use session_service.Handlers.Verify.{handle_verify}
use session_service.Handlers.Verify.Issued.{verified}
use session_service.Main.{App, running, Outside, wire, start_with, start, stop}
use session_service.Main.Started.{Started, start-Started}
use session_service.Main.Stopped.{RedisDriverLaws, stop-start}
use session_service.Main.Rotating.{start-handle_verify-Evolution}
use session_service.Auth.Keys.Evolution.{Evolution, unchanged, changed, rotated}
use session_service.Auth.Keys.Schedule.{grace_period}
use session_service.Examples.Startup.{Net, driver, count, driver_laws, keeps_clients, slow}

abbrev redis : RedisDriver (Unit {0}) (Unit {0}) Net
redis = record {
  parse_url = λ url. ok tt;
  new_client = λ o s. (tt, record s { clients = s.clients + 1 });
  ping = λ c s. (ok tt, s);
  close = λ c s. (ok tt, record s { clients = s.clients - 1 });
}

abbrev redis_laws : RedisDriverLaws redis count (λ s. s.clients)
redis_laws = record {
  new_client-clients = λ o s. refl;
  ping-clients = λ c s. refl;
  close-clients = λ c s. refl;
  new_client-held = λ o s. refl;
  ping-held = λ c s. refl;
  close-held = λ c s. refl;
}

abbrev crypto : Crypto ℕ ℕ
crypto = record {
  public_of = public_of;
  pem_decode = some;
  parse_pkcs1_private_key = λ bytes. ok 7;
  parse_pkcs8_private_key = λ bytes. err (failure "not PKCS 8");
  parse_pkix_public_key = λ bytes. ok (rsa 7);
  parse_pkcs1_public_key = λ bytes. err (failure "not PKCS 1");
  is_importable = λ key. true;
  bcrypt_matches = λ hash secret. true;
}

-- The first id drawn is that of the key.
abbrev system : System ℕ ℕ
system = record {
  now = λ s. (t₀, s);
  new_uuid = λ s. (if nat_eq s 0 then "k1" else "id-2", s + 1);
  generate_key = λ bits s. (ok 9, s);
  random_bytes = λ n s. (ok (1 ∷ 2 ∷ 3 ∷ []), s);
}

abbrev backend : Backend Store (Unit {0}) ℕ ℕ ℕ
backend = record {
  cache = cache;
  repo = repo;
  system = system;
  jwt = jwt;
  bcrypt_matches = λ hash secret. true;
}

abbrev outside : Outside Net ℕ
outside = record { net = slow; sys = 0 }

abbrev key_manager : KeyManager ℕ ℕ
key_manager = record { keys = ("k1", fresh_key 7 7 "k1" t₀) ∷ []; current_key_id = "k1" }

abbrev app : App (Unit {0}) (Unit {0}) ℕ ℕ
app = wire (read env (λ s. none)) (some tt) tt key_manager

abbrev started_outside : Outside Net ℕ
started_outside = record {
  net = record { refusing = 0; opens = 3; slept = 3 * second; held = 1; clients = 1 };
  sys = 1;
}

starts : start env (λ s. none) driver redis crypto system outside ≡ (running app, started_outside)
unfolding start start_with load check read get_env new_repository retry attempt pause new_cache
    new_key_manager parse_rsa_private_key parse_rsa_public_key
starts = refl

start-Started_example :
    Started env (λ s. none) driver redis crypto system outside app started_outside
start-Started_example =
    start-Started env (λ s. none) driver redis crypto system outside app started_outside starts

stop-start_example :
    ((stop driver redis (λ n. (ok tt, n)) app started_outside.net).held ≡ 0)
    × ((stop driver redis (λ n. (ok tt, n)) app started_outside.net).clients ≡ 0)
stop-start_example =
    stop-start env (λ s. none) driver redis crypto system (λ n. (ok tt, n)) count (λ s. s.clients)
      driver_laws keeps_clients redis_laws outside app started_outside (λ n. refl) (λ n. refl)
      starts

abbrev token_handler : TokenHandler
token_handler = record {
  token_gen = record generator { refresh_token_length = 32 };
  jwt_expiry = pos 3600000000000;
  refresh_token_expiry = pos 604800000000000;
}

handles : app.token_handler ≡ some token_handler
unfolding wire read get_env get_int_env get_duration_env
handles = refl

abbrev response : TokenResponse
response = record {
  access_token = "signed";
  token_type = "Bearer";
  expires_in = pos 3600;
  refresh_token = "AQID";
}

minted :
    (generate_access_token system jwt token_handler.token_gen subject key_manager 1).0
    ≡ ok ("signed", "id-2")
unfolding generate_access_token access_claims
minted = refl

abbrev response-Minted : Minted backend token_handler "t1" key_manager response
response-Minted = record {
  subject = subject;
  same_tenant = refl;
  at = 1;
  jti = "id-2";
  minted = minted;
}

abbrev request : Request
request = record {
  method = "POST";
  path = "/t1/oauth2/v1.0/verify";
  vars = ("tenant_id", "t1") ∷ [];
  form = ok [];
  json_body = ok (record { token = "signed" });
}

abbrev world : World Store (Unit {0}) ℕ ℕ ℕ
world = record { server = empty_store; db = tt; sys = 2; keys = key_manager }

paired :
    (k p : ℕ)
    → parse_rsa_private_key crypto (read env (λ s. none)).jwt_private_key ≡ ok k
    → parse_rsa_public_key crypto (read env (λ s. none)).jwt_public_key ≡ ok p
    → p ≡ public_of k
unfolding parse_rsa_private_key parse_rsa_public_key
paired k p made made' = ground arith

-- The keys after a rotation.
abbrev rotated_keys : KeyManager ℕ ℕ
rotated_keys = install 9 9 "k2" t₀ app.grace_period key_manager

abbrev rotated_world : World Store (Unit {0}) ℕ ℕ ℕ
rotated_world = record world { keys = rotated_keys }

rotated_since : Evolution public_of app.grace_period t₀ t₀ key_manager rotated_keys
rotated_since =
    changed t₀ unchanged (omega arith) (omega arith)
      (rotated 9 "k2" key_manager (λ e. ground (arith, eq_iff "k2" "")) refl)

outlived : token_handler.token_gen.access_token_expiry ≤ℤ app.grace_period
unfolding wire read get_env get_int_env grace_period
outlived = omega arith

start-handle_verify-Evolution_example :
    (handle_verify backend app.token_validator request rotated_world).0
    ≡ verified backend token_handler public_of jwt_laws response-Minted "t1" "t1"
unfolding wire
start-handle_verify-Evolution_example =
    start-handle_verify-Evolution env (λ s. none) driver redis crypto backend public_of jwt_laws
      outside started_outside app token_handler "t1" key_manager response response-Minted request
      rotated_world t₀ t₀ starts (λ k p made made'. paired k p made made')
      (ground (arith, eq_iff "k1" "")) handles unchanged rotated_since outlived refl
      (ground (arith, eq_iff "t1" "")) refl (ground (arith, eq_iff "signed" "")) (omega arith) refl
      refl refl (λ ne. refl)
