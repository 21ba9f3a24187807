-- ===== src/Handlers/Token/Steps/Grants.antt =====
-- internal/handlers/token.go: the other two grants, and the token endpoint, one call of a service after
-- another.
use session_service.Common.{String, ◌==◌, ◌||◌, not, Option, none, some, Slice, if◌then◌else◌}
use session_service.Common.Dict.{Dict}
use session_service.Common.Int.{pos}
use session_service.Common.Time.{minute, zero_time}
use session_service.Common.{◌*◌}
use session_service.Errors.{
  err_invalid_credentials, err_invalid_grant, err_invalid_request, err_internal_server,
}
use session_service.Models.{Client, TokenSubject, TokenResponse}
use session_service.Http.{form_value}
use session_service.Handlers.Action.{
  World, Backend, accept, reject, reject_if, require, attempt, ignore, read_db, write_db,
  write_cache, read_clock,
}
use session_service.Handlers.Process.{Process, ◌>>=◌, ◌>>◌, done}
use session_service.Handlers.Token.{TokenHandler, cached_client, limit_rate}
use session_service.Handlers.Token.Roles.{parse_roles}
use session_service.Handlers.Token.Steps.{issue_process, refresh_process}

module _ {Server Database State PrivateKey PublicKey : Type 0}
    (b : Backend Server Database State PrivateKey PublicKey) (h : TokenHandler) where
  abbrev W : Type 0
  W = World Server Database State PrivateKey PublicKey

  -- `load_client`, call by call, and what comes behind it
  abbrev pub load_process :
      String → Option Client → (Client → Process W TokenResponse) → Process W TokenResponse
  load_process client_id (some client) k = k client
  load_process client_id none k = do
    found ← (attempt err_internal_server (read_db (b.repo.get_client_by_id client_id)))
    client ← (require found err_invalid_credentials)
    (ignore (write_cache (b.cache.set_client client (pos (15 * minute)))))
    k client

  -- `authenticate`, call by call, and what comes behind it
  abbrev pub authenticate_process :
      String → String → (Client → Process W TokenResponse) → Process W TokenResponse
  authenticate_process client_id client_secret k = do
    (reject_if (client_id == "" || client_secret == "") err_invalid_credentials)
    cached ← (λ w. (accept (cached_client b h client_id w), w))
    load_process client_id cached (λ client. do
      (reject_if (not (b.bcrypt_matches client.client_secret_hash client_secret))
          err_invalid_credentials)
      (limit_rate b h client_id client)
      k client)

  -- The end of both grants: tokens, and the time of the client.
  abbrev pub touch_process : String → TokenResponse → Process W TokenResponse
  touch_process client_id response = do
    now ← (read_clock b.system)
    (ignore (write_db (b.repo.update_client_updated_at now client_id)))
    done (accept response)

  abbrev pub issue_and_touch : String → TokenSubject → Process W TokenResponse
  issue_and_touch client_id subject = issue_process b h client_id subject (touch_process client_id)

  -- `handle_client_credentials`, call by call, once the client is authenticated
  abbrev pub known_user_process : Dict String → String → Process W TokenResponse
  known_user_process form tenant_id = do
    (reject_if (form_value form "user_id" == "") err_invalid_request)
    (attempt err_invalid_request (read_db (b.repo.ensure_tenant_exists tenant_id)))
    found ←
        (attempt err_internal_server (read_db (b.repo.get_user_by_id (form_value form "user_id"))))
    existing_user ← (require found err_invalid_request)
    (reject_if (not (existing_user.tenant_id == tenant_id)) err_invalid_request)
    roles ←
        (attempt err_internal_server (read_db (b.repo.get_user_roles (form_value form "user_id"))))
    issue_and_touch (form_value form "client_id") (record {
      user_id = form_value form "user_id";
      tenant_id = tenant_id;
      roles = roles;
      scopes = none;
    })

  abbrev pub credentials_process : Dict String → String → Process W TokenResponse
  credentials_process form tenant_id =
      authenticate_process (form_value form "client_id") (form_value form "client_secret")
        (λ _. known_user_process form tenant_id)

  -- `roles_or_stored`, call by call, and what comes behind it
  abbrev pub roles_process :
      String → Slice String → (Slice String → Process W TokenResponse) → Process W TokenResponse
  roles_process user_id (some roles) k = k (some roles)
  roles_process user_id none k = do
    stored ← (attempt err_internal_server (read_db (b.repo.get_user_roles user_id)))
    k stored

  -- `handle_user_provisioning`, call by call, once the client is authenticated
  abbrev pub new_user_process : Dict String → String → Process W TokenResponse
  new_user_process form tenant_id = do
    (reject_if (form_value form "user_id" == "") err_invalid_request)
    (reject_if (form_value form "user_full_name" == "" || form_value form "user_phone" == "")
        err_invalid_request)
    (attempt err_invalid_request (read_db (b.repo.ensure_tenant_exists tenant_id)))
    (attempt err_internal_server (
        write_db (
          b.repo.upsert_user_and_roles
            (record {
              id = form_value form "user_id";
              tenant_id = tenant_id;
              email = form_value form "user_email";
              full_name = form_value form "user_full_name";
              phone_number = form_value form "user_phone";
              created_at = zero_time;
              updated_at = zero_time;
            })
            (parse_roles (form_value form "user_roles")))))
    roles_process (form_value form "user_id") (parse_roles (form_value form "user_roles"))
        (λ token_roles. issue_and_touch (form_value form "client_id") (record {
          user_id = form_value form "user_id";
          tenant_id = tenant_id;
          roles = token_roles;
          scopes = none;
        }))

  abbrev pub provisioning_process : Dict String → String → Process W TokenResponse
  provisioning_process form tenant_id =
      authenticate_process (form_value form "client_id") (form_value form "client_secret")
        (λ _. new_user_process form tenant_id)

  -- `dispatch_grant`, call by call
  abbrev pub grant_process : Dict String → String → Process W TokenResponse
  grant_process form tenant_id =
      if form_value form "grant_type" == "client_credentials"
      then credentials_process form tenant_id
      else if form_value form "grant_type" == "provision_user"
      then provisioning_process form tenant_id
      else if form_value form "grant_type" == "refresh_token"
      then refresh_process b h form tenant_id
      else done (reject err_invalid_grant)
