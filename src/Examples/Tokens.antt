-- ===== src/Examples/Tokens.antt =====
-- The properties of the token endpoint, at concrete inputs.
use session_service.Common.{
  ◌≡◌, ◌≢◌, refl, none, some, [], ◌∷◌, ok, eq_iff, arith, String, ℕ, ◌+◌, ◌==◌, if◌then◌else◌,
}
use session_service.Common.Dict.{Dict}
use session_service.Common.Int.{pos}
use session_service.Common.Time.{whole_seconds}
use session_service.Models.{TokenResponse}
use session_service.Http.{Request}
use session_service.Examples.Services.{
  t₀, subject, generator, handler, Store, cache_laws, client, system, keys, backend, empty_store,
  world_at,
}
use session_service.Examples.Signing.{jwt}
use session_service.Handlers.Action.{World, accept}
use session_service.Handlers.Token.{
  handle_refresh_token, handle_client_credentials, handle_user_provisioning, limit_rate,
  subject_for, issue_tokens, authenticate, load_client, touch_client, roles_or_stored,
}
use session_service.Handlers.Token.Roles.{parse_roles}
use session_service.Handlers.Token.Issue.{Issued}
use session_service.Handlers.Token.Credentials.{Granted, handle_client_credentials-Granted}
use session_service.Handlers.Token.Provisioning.{Provisioned, handle_user_provisioning-Provisioned}
use session_service.Handlers.Token.Refresh.{
  Refreshed, handle_refresh_token-Refreshed, handle_refresh_token-other_tenant,
}
use session_service.Handlers.Token.Replay.{handle_refresh_token_once}
use session_service.Handlers.Token.Redeem.{ready, handle_refresh_token-issue_tokens}
use session_service.Handlers.Token.Statuses.{Answers, handle_token-status}
use session_service.Auth.Generator.Base64.{url_encode}
use session_service.Auth.Generator.{generate_access_token, generate_refresh_token, access_claims}

abbrev pub W : Type 0
W = World Store (Unit {0}) (Unit {0}) ℕ ℕ

-- A cache that holds one refresh token of the subject.
abbrev pub stored : Store
stored = record empty_store {
  tokens = λ id.
      if id == "r1"
      then some (record { client_id = "c1"; subject = some subject; expires_at = t₀ + 1 })
      else none;
}

abbrev pub refresh_form : Dict String
refresh_form = ("grant_type", "refresh_token") ∷ ("refresh_token", "r1") ∷ []

abbrev pub user_form : Dict String
user_form =
    ("grant_type", "client_credentials")
    ∷ ("client_id", "c1")
    ∷ ("client_secret", "s1")
    ∷ ("user_id", "u1")
    ∷ ("user_full_name", "Ada")
    ∷ ("user_phone", "1")
    ∷ []

abbrev pub tokens : TokenResponse
tokens = record {
  access_token = "signed";
  token_type = "Bearer";
  expires_in = pos 3600;
  refresh_token = "AQID";
}

abbrev after_refresh : W
after_refresh = (handle_refresh_token backend handler refresh_form "t1" (world_at stored)).1

pub refreshes :
    handle_refresh_token backend handler refresh_form "t1" (world_at stored)
    ≡ (accept tokens, after_refresh)
unfolding handle_refresh_token limit_rate subject_for issue_tokens generate_access_token
    generate_refresh_token access_claims whole_seconds url_encode
refreshes = refl

handle_refresh_token_once_example :
    (handle_refresh_token backend handler refresh_form "t2" after_refresh).0 ≢ accept tokens
handle_refresh_token_once_example =
    handle_refresh_token_once backend handler cache_laws refresh_form refresh_form "t1" "t2"
      (world_at stored) after_refresh after_refresh tokens tokens tt (ground arith) refreshes refl
      refl

handle_refresh_token-Refreshed_example :
    Refreshed backend handler refresh_form "t1" (world_at stored) tokens after_refresh
handle_refresh_token-Refreshed_example =
    handle_refresh_token-Refreshed backend handler refresh_form "t1" (world_at stored) refreshes

handle_refresh_token-other_tenant_example :
    ((response : TokenResponse)
      → (handle_refresh_token backend handler refresh_form "t2" (world_at stored)).0
        ≢ accept response)
    × ((handle_refresh_token backend handler refresh_form "t2" (world_at stored)).1.server ≡ stored)
    × ((handle_refresh_token backend handler refresh_form "t2" (world_at stored)).1.db ≡ tt)
handle_refresh_token-other_tenant_example =
    handle_refresh_token-other_tenant backend handler refresh_form "t2" (world_at stored)
      (record { client_id = "c1"; subject = some subject; expires_at = t₀ + 1 }) refl
      (λ s e. ground (arith, eq_iff "t1" "t2"))

pub minted : (generate_access_token system jwt generator subject keys tt).0 ≡ ok ("signed", "id-2")
unfolding generate_access_token access_claims
minted = refl

-- The server after issuing, written out.
abbrev issued_store : Store
issued_store = record empty_store {
  tokens = λ id.
      if "AQID" == id
      then some
          (record { client_id = "c1"; subject = some subject; expires_at = t₀ + 604800000000000 })
      else none;
}

lasts : tokens.expires_in ≡ whole_seconds handler.jwt_expiry
unfolding whole_seconds
lasts = refl

abbrev issued :
    Issued backend handler "c1" subject (world_at empty_store) tokens (world_at issued_store)
issued = record {
  jti = "id-2";
  minted = minted;
  now = t₀;
  stored = refl;
  same_db = refl;
  same_keys = refl;
  bearer = refl;
  lifetime = lasts;
}

abbrev redeem_form : Dict String
redeem_form = ("refresh_token", "AQID") ∷ []

abbrev counted : Store
counted = record issued_store { counts = λ id. if "c1" == id then 1 else 0 }

handle_refresh_token-issue_tokens_example :
    handle_refresh_token backend handler redeem_form "t1" (world_at issued_store)
    ≡ issue_tokens backend handler "c1" subject
        (ready backend handler "AQID" counted (world_at issued_store))
handle_refresh_token-issue_tokens_example =
    handle_refresh_token-issue_tokens backend handler cache_laws redeem_form "c1" subject
      (world_at empty_store) (world_at issued_store) (world_at issued_store) tokens issued client
      counted tt (ground arith) tt (ground (arith, eq_iff "AQID" "")) refl refl refl refl refl refl

grants : handle_client_credentials backend handler user_form "t1" (world_at empty_store) ≡ (
  accept tokens,
  (handle_client_credentials backend handler user_form "t1" (world_at empty_store)).1,
)
unfolding handle_client_credentials authenticate load_client limit_rate issue_tokens touch_client
    generate_access_token generate_refresh_token access_claims whole_seconds url_encode
grants = refl

handle_client_credentials-Granted_example :
    Granted backend handler user_form "t1" (world_at empty_store) tokens
handle_client_credentials-Granted_example =
    handle_client_credentials-Granted backend handler user_form "t1" (world_at empty_store) grants

provisions : handle_user_provisioning backend handler user_form "t1" (world_at empty_store) ≡ (
  accept tokens,
  (handle_user_provisioning backend handler user_form "t1" (world_at empty_store)).1,
)
unfolding handle_user_provisioning authenticate load_client limit_rate issue_tokens touch_client
    roles_or_stored parse_roles generate_access_token generate_refresh_token access_claims
    whole_seconds url_encode
provisions = refl

handle_user_provisioning-Provisioned_example :
    Provisioned backend handler user_form "t1"
      (world_at empty_store)
      tokens
      (handle_user_provisioning backend handler user_form "t1" (world_at empty_store)).1
handle_user_provisioning-Provisioned_example =
    handle_user_provisioning-Provisioned backend handler user_form "t1" (world_at empty_store)
      provisions

abbrev pub token_request : Request
token_request = record {
  method = "POST";
  path = "/t1/oauth2/v2.0/token";
  vars = ("tenant_id", "t1") ∷ [];
  form = ok user_form;
  json_body = ok (record { token = "" });
}

handle_token-status_example : Answers backend handler token_request (world_at empty_store)
handle_token-status_example =
    handle_token-status backend handler token_request (world_at empty_store)
