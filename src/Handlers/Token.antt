-- ===== src/Handlers/Token.antt =====
-- internal/handlers/token.go: the token endpoint and its three grants.
pub mod Roles
pub mod Issue
pub mod Authenticate
pub mod Credentials
pub mod Refresh
pub mod Replay
pub mod Redeem
pub mod Provisioning
pub mod FirstTokens
pub mod TakesOver
pub mod Refused
pub mod Statuses
pub mod Minted
pub mod Steps
pub mod Race
pub mod Succeeds
use session_service.Common.{
  String, Bool, true, false, not, ◌||◌, ◌*◌, Option, none, some, List, [], ◌∷◌, Slice, Result, ok,
  err, ◌==◌, if◌then◌else◌,
}
use session_service.Common.Dict.{Dict}
use session_service.Common.Int.{ℤ, pos}
use session_service.Common.Time.{Time, Duration, minute, add, after, whole_seconds, zero_time}
use session_service.Errors.{
  err_invalid_credentials, err_rate_limit_exceeded, err_invalid_grant, err_invalid_request,
  err_invalid_refresh_token, err_internal_server,
}
use session_service.Models.{Client, User, TokenSubject, RefreshTokenData, TokenResponse}
use session_service.Http.{Request, Response, var, form_value, http_error}
use session_service.Auth.Generator.{TokenGenerator, generate_access_token, generate_refresh_token}
use session_service.Handlers.Action.{
  World, Backend, Act, ◌>>=◌, ◌>>◌, pure, reject, accept, reject_if, require, attempt, ignore,
  read_cache, write_cache, read_db, write_db, on_sys, read_clock, send_error, respond,
}
use Roles.{parse_roles}

-- The fields of `TokenHandler` that are data, with those of its `Config` that it reads.
pub record TokenHandler : Type 0 where
  pub token_gen : TokenGenerator
  pub jwt_expiry : Duration
  pub refresh_token_expiry : Duration

module _ {Server Database State PrivateKey PublicKey : Type 0}
    (b : Backend Server Database State PrivateKey PublicKey) (h : TokenHandler) where
  abbrev W : Type 0
  W = World Server Database State PrivateKey PublicKey

  -- The cached client; an error of the cache is only logged and leaves nil.
  abbrev cached_client : String → W → Option Client
  cached_client client_id w = elim (b.cache.get_client client_id w.server) [
    | ok found ↦ found
    | err _ ↦ none
  ]

  -- `if client == nil`: from the database, and then into the cache
  unfoldable pub load_client : String → Option Client → Act W Client
  load_client client_id (some client) = pure client
  load_client client_id none = do
    found ← attempt err_internal_server (read_db (b.repo.get_client_by_id client_id))
    client ← require found err_invalid_credentials
    ignore (write_cache (b.cache.set_client client (pos (15 * minute))))
    pure client

  -- The limit of a client, which every request that names it counts against.
  unfoldable pub limit_rate : String → Client → Act W (Unit {0})
  limit_rate client_id client = do
    exceeded ←
        attempt err_internal_server
          (write_cache (b.cache.check_rate_limit client_id client.rate_limit (pos minute)))
    reject_if exceeded err_rate_limit_exceeded

  -- What `client_credentials` and `provision_user` begin with: the client, its secret, its limit.
  unfoldable pub authenticate : String → String → Act W Client
  authenticate client_id client_secret = do
    reject_if (client_id == "" || client_secret == "") err_invalid_credentials
    client ← λ w. load_client client_id (cached_client client_id w) w
    reject_if (not (b.bcrypt_matches client.client_secret_hash client_secret))
        err_invalid_credentials
    limit_rate client_id client
    pure client

  -- What every grant ends with: both tokens, and the refresh token into the cache.
  unfoldable pub issue_tokens : String → TokenSubject → Act W TokenResponse
  issue_tokens client_id subject = do
    (access_token, _) ←
        attempt err_internal_server
          (λ w. on_sys (generate_access_token b.system b.jwt h.token_gen subject w.keys) w)
    refresh_token ←
        attempt err_internal_server (on_sys (generate_refresh_token b.system h.token_gen))
    now ← read_clock b.system
    attempt err_internal_server (
        write_cache (
          b.cache.store_refresh_token refresh_token
            (record {
              client_id = client_id;
              subject = some subject;
              expires_at = add now h.refresh_token_expiry;
            })
            h.refresh_token_expiry))
    pure (record {
      access_token = access_token;
      token_type = "Bearer";
      expires_in = whole_seconds h.jwt_expiry;
      refresh_token = refresh_token;
    })

  -- `UpdateClientUpdatedAt`, whose error is only logged
  unfoldable pub touch_client : String → Act W (Unit {0})
  touch_client client_id = do
    now ← read_clock b.system
    ignore (write_db (b.repo.update_client_updated_at now client_id))

  unfoldable pub handle_client_credentials : Dict String → String → Act W TokenResponse
  handle_client_credentials form tenant_id = do
    authenticate (form_value form "client_id") (form_value form "client_secret")
    let user_id = form_value form "user_id"
    reject_if (user_id == "") err_invalid_request
    attempt err_invalid_request (read_db (b.repo.ensure_tenant_exists tenant_id))
    found ← attempt err_internal_server (read_db (b.repo.get_user_by_id user_id))
    existing_user ← require found err_invalid_request
    reject_if (not (existing_user.tenant_id == tenant_id)) err_invalid_request
    roles ← attempt err_internal_server (read_db (b.repo.get_user_roles user_id))
    response ←
        issue_tokens (form_value form "client_id")
          (record { user_id = user_id; tenant_id = tenant_id; roles = roles; scopes = none })
    touch_client (form_value form "client_id")
    pure response

  -- The roles of the token: those of the request, or those of the database if it gave none.
  unfoldable pub roles_or_stored : String → Slice String → Act W (Slice String)
  roles_or_stored user_id (some roles) = pure (some roles)
  roles_or_stored user_id none =
      attempt err_internal_server (read_db (b.repo.get_user_roles user_id))

  unfoldable pub handle_user_provisioning : Dict String → String → Act W TokenResponse
  handle_user_provisioning form tenant_id = do
    authenticate (form_value form "client_id") (form_value form "client_secret")
    let user_id = form_value form "user_id"
    reject_if (user_id == "") err_invalid_request
    reject_if (form_value form "user_full_name" == "" || form_value form "user_phone" == "")
        err_invalid_request
    attempt err_invalid_request (read_db (b.repo.ensure_tenant_exists tenant_id))
    let roles = parse_roles (form_value form "user_roles")
    attempt err_internal_server (
        write_db (
          b.repo.upsert_user_and_roles
            (record {
              id = user_id;
              tenant_id = tenant_id;
              email = form_value form "user_email";
              full_name = form_value form "user_full_name";
              phone_number = form_value form "user_phone";
              created_at = zero_time;
              updated_at = zero_time;
            })
            roles))
    token_roles ← roles_or_stored user_id roles
    response ←
        issue_tokens (form_value form "client_id")
          (record { user_id = user_id; tenant_id = tenant_id; roles = token_roles; scopes = none })
    touch_client (form_value form "client_id")
    pure response

  -- The subject of the stored token: not nil, and of the tenant of the path.
  unfoldable pub subject_for : String → Option TokenSubject → Act W TokenSubject
  subject_for tenant_id none w = (reject err_invalid_refresh_token, w)
  subject_for tenant_id (some subject) w = (
    if subject.tenant_id == tenant_id then accept subject else reject err_invalid_refresh_token,
    w,
  )

  unfoldable pub handle_refresh_token : Dict String → String → Act W TokenResponse
  handle_refresh_token form tenant_id = do
    let refresh_token = form_value form "refresh_token"
    reject_if (refresh_token == "") err_invalid_refresh_token
    found ← attempt err_internal_server (read_cache (b.cache.get_refresh_token refresh_token))
    token_data ← require found err_invalid_refresh_token
    revoked ←
        attempt err_internal_server (read_cache (b.cache.is_refresh_token_revoked refresh_token))
    reject_if revoked err_invalid_refresh_token
    now ← read_clock b.system
    reject_if (after now token_data.expires_at) err_invalid_refresh_token
    subject ← subject_for tenant_id token_data.subject
    known ← attempt err_internal_server (read_db (b.repo.get_client_by_id token_data.client_id))
    client ← require known err_invalid_refresh_token
    limit_rate token_data.client_id client
    ignore (write_cache (b.cache.revoke_refresh_token refresh_token h.refresh_token_expiry))
    ignore (write_cache (b.cache.delete_refresh_token refresh_token))
    issue_tokens token_data.client_id subject

  -- The switch on the grant type.
  unfoldable pub dispatch_grant : Dict String → String → Act W TokenResponse
  dispatch_grant form tenant_id =
      if form_value form "grant_type" == "client_credentials"
      then handle_client_credentials form tenant_id
      else if form_value form "grant_type" == "provision_user"
      then handle_user_provisioning form tenant_id
      else if form_value form "grant_type" == "refresh_token"
      then handle_refresh_token form tenant_id
      else (λ w. (reject err_invalid_grant, w))

  -- The form of the request and its grant.
  abbrev pub handle_form : Result (Dict String) → String → Act W TokenResponse
  handle_form (err e) tenant_id = attempt err_internal_server (λ w. (err e, w))
  handle_form (ok form) tenant_id = dispatch_grant form tenant_id

  -- `HandleToken`
  unfoldable pub handle_token : Request → W → Response TokenResponse × W
  unfolding dispatch_grant
  handle_token r w =
      if not (r.method == "POST")
      then (http_error "Method not allowed" 405, w)
      else if var r "tenant_id" == ""
      then (send_error err_invalid_request, w)
      else respond (handle_form r.form (var r "tenant_id")) w
