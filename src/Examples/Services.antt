-- ===== src/Examples/Services.antt =====
-- Concrete services: a cache and a database in memory and a clock that stands still. They satisfy the
-- laws that the properties take as hypotheses.
use session_service.Common.{
  ℕ, ◌+◌, String, ◌≡◌, refl, Bool, true, false, ◌&&◌, Option, none, some, [], ◌∷◌, ok, err, failure,
  ◌==◌, if◌then◌else◌,
}
use session_service.Common.Int.{pos, ltb_ℤ}
use session_service.Common.Time.{Time}
use session_service.Models.{Client, User, TokenSubject, RefreshTokenData}
use session_service.Services.{System}
use session_service.Cache.{Cache}
use session_service.Cache.Laws.{CacheLaws}
use session_service.Repository.{Repository}
use session_service.Auth.Keys.{KeyManager, fresh_key}
use session_service.Auth.Generator.{TokenGenerator}
use session_service.Handlers.Action.{World, Backend}
use session_service.Handlers.Token.{TokenHandler}
use session_service.Examples.Signing.{jwt}

-- The instant at which the clock stands: 1764403200 seconds after 1970.
abbrev pub t₀ : Time
t₀ = 63900000000000000000

abbrev pub subject : TokenSubject
subject = record { user_id = "u1"; tenant_id = "t1"; roles = some ("admin" ∷ []); scopes = none }

abbrev pub generator : TokenGenerator
generator = record {
  issuer = "session-service";
  audience = "api";
  access_token_expiry = pos 3600000000000;
  refresh_token_length = 3;
}

abbrev pub handler : TokenHandler
handler = record {
  token_gen = generator;
  jwt_expiry = pos 3600000000000;
  refresh_token_expiry = pos 604800000000000;
}

-- Redis as the handlers see it, in memory.
pub record Store : Type 0 where
  pub clients : String → Option Client
  pub counts : String → ℕ
  pub tokens : String → Option RefreshTokenData
  pub revoked : String → Bool
  pub revoked_jtis : String → Bool

abbrev pub cache : Cache Store
cache = record {
  get_client = λ id s. ok (s.clients id);
  set_client = λ c ttl s.
      (ok tt, record s { clients = λ i. if c.client_id == i then some c else s.clients i });
  check_rate_limit = λ id limit window s. (
    ok (ltb_ℤ limit (pos (s.counts id + 1))),
    record s { counts = λ i. if id == i then s.counts i + 1 else s.counts i },
  );
  store_refresh_token =
      λ id d ttl s. (ok tt, record s { tokens = λ i. if id == i then some d else s.tokens i });
  get_refresh_token = λ id s. ok (s.tokens id);
  delete_refresh_token =
      λ id s. (ok tt, record s { tokens = λ i. if id == i then none else s.tokens i });
  revoke_token = λ id ttl s.
      (ok tt, record s { revoked_jtis = λ i. if id == i then true else s.revoked_jtis i });
  revoke_refresh_token =
      λ id ttl s. (ok tt, record s { revoked = λ i. if id == i then true else s.revoked i });
  is_token_revoked = λ id s. ok (s.revoked_jtis id);
  is_refresh_token_revoked = λ id s. ok (s.revoked id);
}

pub if_ok :
    {A : Type 0} (test : Bool) (a b : A)
    → ok (if test then a else b) ≡ (if test then ok a else ok b)
if_ok true a b = refl
if_ok false a b = refl

abbrev pub cache_laws : CacheLaws cache
cache_laws = record {
  IsUp = λ s. Unit;
  IsStorable = λ d. Unit;
  set_client-IsUp = λ c ttl s up. tt;
  set_client-KeepsTokens = λ c ttl s up p. record {
    refresh_tokens = λ id. refl;
    revoked = λ id. refl;
    revoked_jti = λ id. refl;
  };
  check_rate_limit-IsUp = λ id limit window s up. tt;
  check_rate_limit-KeepsTokens = λ id limit window s up p. record {
    refresh_tokens = λ i. refl;
    revoked = λ i. refl;
    revoked_jti = λ i. refl;
  };
  store-IsUp = λ id d ttl s up. tt;
  store-ok = λ id d ttl s up storable p. refl;
  get-store = λ id d ttl s j up storable p. if_ok (id == j) (some d) (s.tokens j);
  revoked-store = λ id d ttl s j up p. refl;
  delete-IsUp = λ id s up. tt;
  get-delete = λ id s j up. if_ok (id == j) none (s.tokens j);
  revoked-delete = λ id s j up. refl;
  revoke-IsUp = λ id ttl s up. tt;
  revoke-ok = λ id ttl s up p. refl;
  get-revoke = λ id ttl s j up p. refl;
  revoked-revoke = λ id ttl s j up p. if_ok (id == j) true (s.revoked j);
}

-- A database with one tenant, one user and one client, that accepts every write.
abbrev pub user : User
user = record {
  id = "u1";
  tenant_id = "t1";
  email = "";
  full_name = "Ada";
  phone_number = "1";
  created_at = 0;
  updated_at = 0;
}

abbrev pub client : Client
client = record {
  id = pos 1;
  client_id = "c1";
  client_secret_hash = "h1";
  rate_limit = pos 100;
  tenant_id = "t1";
  user_id = "u1";
  created_at = 0;
  updated_at = 0;
}

abbrev pub repo : Repository (Unit {0})
repo = record {
  get_client_by_id = λ id db. ok (if id == "c1" then some client else none);
  update_client_updated_at = λ now id db. (ok tt, db);
  get_user_by_id = λ id db. ok (if id == "u1" then some user else none);
  get_user_roles = λ id db. ok (some ("admin" ∷ []));
  ensure_tenant_exists = λ id db. if id == "t1" then ok tt else err (failure "tenant not found");
  upsert_user_and_roles = λ u roles db. (ok tt, db);
}

abbrev pub system : System ℕ (Unit {0})
system = record {
  now = λ s. (t₀, s);
  new_uuid = λ s. ("id-2", s);
  generate_key = λ bits s. (ok 9, s);
  random_bytes = λ n s. (ok (1 ∷ 2 ∷ 3 ∷ []), s);
}

abbrev pub keys : KeyManager ℕ ℕ
keys = record { keys = ("k1", fresh_key 7 7 "k1" 5) ∷ []; current_key_id = "k1" }

abbrev pub backend : Backend Store (Unit {0}) (Unit {0}) ℕ ℕ
backend = record {
  cache = cache;
  repo = repo;
  system = system;
  jwt = jwt;
  bcrypt_matches = λ hash secret. hash == "h1" && secret == "s1";
}

abbrev pub empty_store : Store
empty_store = record {
  clients = λ id. none;
  counts = λ id. 0;
  tokens = λ id. none;
  revoked = λ id. false;
  revoked_jtis = λ id. false;
}

abbrev pub world_at : Store → World Store (Unit {0}) (Unit {0}) ℕ ℕ
world_at s = record { server = s; db = tt; sys = tt; keys = keys }
