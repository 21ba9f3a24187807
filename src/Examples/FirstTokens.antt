-- ===== src/Examples/FirstTokens.antt =====
-- A user who is provisioned and then gets tokens, over tables in memory.
use session_service.Common.{
  ◌∷◌, [], some, false, inl, inr, arith, eq_iff, ◌≡◌, refl, ok, none, ℕ, true, String,
}
use session_service.Common.Time.{whole_seconds}
use session_service.Repository.Postgres.{
  postgres_repository, get_client_by_id, get_user_by_id, get_user_roles, ensure_tenant_exists,
  upsert_user_and_roles, upsert_statements, update_client_updated_at,
}
use session_service.Repository.Postgres.Tables.Implements.{postgres_repository-RepositoryLaws}
use session_service.Repository.Laws.{RepositoryLaws}
use session_service.Repository.Tables.{roles_after}
use session_service.Auth.Generator.{generate_access_token, generate_refresh_token, access_claims}
use session_service.Auth.Generator.Base64.{url_encode}
use session_service.Handlers.Action.{World, Backend, accept}
use session_service.Handlers.Token.{
  handle_client_credentials, handle_user_provisioning, authenticate, load_client, limit_rate,
  issue_tokens, touch_client, roles_or_stored,
}
use session_service.Handlers.Token.Roles.{parse_roles}
use session_service.Common.Int.{pos}
use session_service.Common.Time.{minute}
use session_service.Models.{Client, TokenResponse}
use session_service.Repository.Tables.{Upserted}
use session_service.Handlers.Token.Authenticate.{AfterLoad}
use session_service.Handlers.Token.Succeeds.{CanIssue, CanAuthenticate}
use session_service.Handlers.Token.Provisioning.{user_of, roles_of}
use session_service.Handlers.Token.TakesOver.{handle_user_provisioning-takes_over}
use session_service.Handlers.Token.FirstTokens.{TokenWith, handle_client_credentials-provisioned}
use session_service.Examples.Services.{Store, cache, system, keys, handler, empty_store, cache_laws}
use session_service.Examples.Signing.{jwt}
use session_service.Examples.Tokens.{user_form, tokens}
use session_service.Examples.Tables.{
  Memory, tables_sql, transactions, table_laws, read_laws, client_laws, empty,
}

abbrev stored_backend : Backend Store Memory (Unit {0}) ℕ ℕ
stored_backend = record {
  cache = cache;
  repo = postgres_repository tables_sql;
  system = system;
  jwt = record jwt { signed_string = λ kid claims k. ok "signed" };
  bcrypt_matches = λ hash secret. true;
}

abbrev repository_laws : RepositoryLaws (postgres_repository tables_sql)
repository_laws =
    postgres_repository-RepositoryLaws tables_sql transactions table_laws read_laws client_laws

abbrev before : World Store Memory (Unit {0}) ℕ ℕ
before = record { server = empty_store; db = empty; sys = tt; keys = keys }

abbrev between : World Store Memory (Unit {0}) ℕ ℕ
between = (handle_user_provisioning stored_backend handler user_form "t1" before).1

provisions :
    handle_user_provisioning stored_backend handler user_form "t1" before ≡ (accept tokens, between)
unfolding handle_user_provisioning authenticate load_client limit_rate issue_tokens touch_client
    roles_or_stored parse_roles generate_access_token generate_refresh_token access_claims
    whole_seconds url_encode get_client_by_id get_user_roles ensure_tenant_exists
    upsert_user_and_roles upsert_statements update_client_updated_at
provisions = refl

grants :
    handle_client_credentials stored_backend handler user_form "t1" between
    ≡ (accept tokens, (handle_client_credentials stored_backend handler user_form "t1" between).1)
unfolding handle_client_credentials handle_user_provisioning authenticate load_client limit_rate
    issue_tokens touch_client roles_or_stored parse_roles generate_access_token
    generate_refresh_token access_claims whole_seconds url_encode get_client_by_id get_user_by_id
    get_user_roles ensure_tenant_exists upsert_user_and_roles upsert_statements
    update_client_updated_at
grants = refl

handle_client_credentials-provisioned_example :
    (◌≡◌ {A = String} "t1" "t1")
    × TokenWith stored_backend handler "u1" "t1"
        (roles_after none ((repository_laws.tables empty).has_role "u1"))
        between
        tokens
unfolding parse_roles
handle_client_credentials-provisioned_example =
    handle_client_credentials-provisioned stored_backend handler repository_laws user_form user_form
      "t1" "t1" before between between
      (handle_client_credentials stored_backend handler user_form "t1" between).1 tokens tokens
      provisions refl refl grants

-- The id of the user is that of a user of another tenant.
abbrev occupied : World Store Memory (Unit {0}) ℕ ℕ
occupied = record before {
  db = record empty {
    users = λ id.
        some (record { tenant_id = "t2"; email = none; full_name = "Bob"; phone_number = "2" });
  };
}

abbrev stored_client : Client
stored_client = record {
  id = pos 1;
  client_id = "c1";
  client_secret_hash = "h1";
  rate_limit = pos 100;
  tenant_id = "t1";
  user_id = "u1";
  created_at = 0;
  updated_at = 0;
}

within :
    (s : Store)
    → AfterLoad stored_backend handler stored_client empty_store s
    → (cache.check_rate_limit "c1" (pos 100) (pos minute) s).0 ≡ ok false
within s (inl same) = rw same refl
within s (inr same) = rw same refl

can_authenticate :
    CanAuthenticate stored_backend handler cache_laws "c1" "s1" stored_client occupied
unfolding get_client_by_id
can_authenticate = record {
  named = ground (arith, eq_iff "c1" "");
  given = ground (arith, eq_iff "s1" "");
  known = inr (refl, refl);
  proven = refl;
  within = within;
}

can_issue : CanIssue stored_backend handler cache_laws keys
can_issue = record {
  signs = λ claims. ("signed", refl);
  reads = λ s. (1 ∷ 2 ∷ 3 ∷ [], refl);
  storable = λ d. tt;
  positive = omega arith;
}

handle_user_provisioning-takes_over_example :
    (response : TokenResponse) × (w' : World Store Memory (Unit {0}) ℕ ℕ)
    × (handle_user_provisioning stored_backend handler user_form "t1" occupied
        ≡ (accept response, w'))
    × Upserted
        (user_of user_form "t1")
        (roles_of user_form)
        (repository_laws.tables occupied.db)
        (repository_laws.tables w'.db)
unfolding upsert_user_and_roles upsert_statements get_user_roles ensure_tenant_exists parse_roles
handle_user_provisioning-takes_over_example =
    handle_user_provisioning-takes_over stored_backend handler cache_laws repository_laws user_form
      "t1" stored_client (some ("old" ∷ [])) occupied tt can_authenticate
      (ground (arith, eq_iff "u1" "")) (ground (arith, eq_iff "Ada" ""))
      (ground (arith, eq_iff "1" "")) refl refl (inr (refl, refl)) can_issue
