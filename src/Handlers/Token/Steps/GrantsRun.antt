-- ===== src/Handlers/Token/Steps/GrantsRun.antt =====
-- internal/handlers/token.go: the grants, call by call and alone, do what the handlers do.
use session_service.Common.{
  String, ◌≡◌, refl, ◌==◌, ◌||◌, not, Option, none, some, Slice, Bool-cases, inl, inr, arith, ap,
  ◌∙◌,
}
use session_service.Common.Dict.{Dict}
use session_service.Models.{Client, TokenSubject, TokenResponse}
use session_service.Common.Time.{zero_time}
use session_service.Handlers.Token.Roles.{parse_roles}
use session_service.Http.{form_value}
use mathlib.Core.Path.{fun_ext}
use session_service.Errors.{err_invalid_request, err_internal_server}
use session_service.Handlers.Action.{
  World, Backend, Act, ◌>>=◌, ◌>>◌, pure, reject_if, require, attempt, read_db, write_db,
}
use session_service.Handlers.Process.{Process, run}
use session_service.Handlers.Token.{
  TokenHandler, load_client, authenticate, issue_tokens, touch_client, roles_or_stored,
  handle_client_credentials, handle_user_provisioning, dispatch_grant, limit_rate,
}
use session_service.Handlers.Token.Steps.{run-refresh_process}
use session_service.Handlers.Token.Steps.Grants.{
  load_process, authenticate_process, issue_and_touch, credentials_process, roles_process,
  provisioning_process, grant_process, known_user_process, new_user_process,
}

module _ {Server Database State PrivateKey PublicKey : Type 0}
    (b : Backend Server Database State PrivateKey PublicKey) (h : TokenHandler) where
  abbrev W : Type 0
  W = World Server Database State PrivateKey PublicKey

  load_process-run :
      (id : String) (found : Option Client) (k : Client → Process W TokenResponse) (w : W)
      → run (load_process b h id found k) w ≡ (load_client b h id found >>= λ c. run (k c)) w
  unfolding load_client
  load_process-run id (some c) k w = refl
  load_process-run id none k w = ground arith

  authenticate_process-run :
      (id secret : String) (k : Client → Process W TokenResponse) (w : W)
      → run (authenticate_process b h id secret k) w
        ≡ (authenticate b h id secret >>= λ c. run (k c)) w
  unfolding authenticate load_client limit_rate
  authenticate_process-run id secret k w = ground arith

  issue_and_touch-run :
      (id : String) (subject : TokenSubject) (w : W)
      → run (issue_and_touch b h id subject) w
        ≡ (issue_tokens b h id subject >>= λ response. (touch_client b h id >> pure response)) w
  unfolding issue_tokens touch_client
  issue_and_touch-run id subject w = ground arith

  roles_process-run :
      (id : String) (given : Slice String) (k : Slice String → Process W TokenResponse) (w : W)
      → run (roles_process b h id given k) w ≡ (roles_or_stored b h id given >>= λ r. run (k r)) w
  unfolding roles_or_stored
  roles_process-run id (some roles) k w = refl
  roles_process-run id none k w = refl

  -- What the two grants do with the client authenticated.
  abbrev known_user : Dict String → String → Act W TokenResponse
  known_user form tenant_id = do
    reject_if (form_value form "user_id" == "") err_invalid_request
    attempt err_invalid_request (read_db (b.repo.ensure_tenant_exists tenant_id))
    found ←
        attempt err_internal_server (read_db (b.repo.get_user_by_id (form_value form "user_id")))
    existing_user ← require found err_invalid_request
    reject_if (not (existing_user.tenant_id == tenant_id)) err_invalid_request
    roles ←
        attempt err_internal_server (read_db (b.repo.get_user_roles (form_value form "user_id")))
    response ← issue_tokens b h (form_value form "client_id") (record {
      user_id = form_value form "user_id";
      tenant_id = tenant_id;
      roles = roles;
      scopes = none;
    })
    touch_client b h (form_value form "client_id")
    pure response

  known_user_process-run :
      (form : Dict String) (tenant : String) (w : W)
      → run (known_user_process b h form tenant) w ≡ known_user form tenant w
  unfolding issue_tokens touch_client
  known_user_process-run form tenant w = ground arith

  pub credentials_process-run :
      (form : Dict String) (tenant : String) (w : W)
      → run (credentials_process b h form tenant) w ≡ handle_client_credentials b h form tenant w
  unfolding handle_client_credentials
  credentials_process-run form tenant w =
      let id = form_value form "client_id" in
      let secret = form_value form "client_secret" in
      authenticate_process-run id secret (λ _. known_user_process b h form tenant) w
      ∙ ap (λ (rest : Act W TokenResponse). (authenticate b h id secret >>= λ _. rest) w)
          (fun_ext (known_user_process-run form tenant))

  abbrev issue_for : Dict String → String → Slice String → Act W TokenResponse
  issue_for form tenant_id roles = do
    response ← issue_tokens b h (form_value form "client_id") (record {
      user_id = form_value form "user_id";
      tenant_id = tenant_id;
      roles = roles;
      scopes = none;
    })
    touch_client b h (form_value form "client_id")
    pure response

  abbrev new_user : Dict String → String → Act W TokenResponse
  new_user form tenant_id = do
    reject_if (form_value form "user_id" == "") err_invalid_request
    reject_if (form_value form "user_full_name" == "" || form_value form "user_phone" == "")
        err_invalid_request
    attempt err_invalid_request (read_db (b.repo.ensure_tenant_exists tenant_id))
    attempt err_internal_server (
        write_db (
          b.repo.upsert_user_and_roles
            (record {
              id = form_value form "user_id";
              tenant_id = tenant_id;
              email = form_value form "user_email";
              full_name = form_value form "user_full_name";
              phone_number = form_value form "user_phone";
              created_at = zero_time;
              updated_at = zero_time;
            })
            (parse_roles (form_value form "user_roles"))))
    token_roles ←
        roles_or_stored b h (form_value form "user_id") (parse_roles (form_value form "user_roles"))
    issue_for form tenant_id token_roles

  new_user_process-run :
      (form : Dict String) (tenant : String) (w : W)
      → run (new_user_process b h form tenant) w ≡ new_user form tenant w
  unfolding issue_tokens touch_client roles_or_stored
  new_user_process-run form tenant w = ground arith

  pub provisioning_process-run :
      (form : Dict String) (tenant : String) (w : W)
      → run (provisioning_process b h form tenant) w ≡ handle_user_provisioning b h form tenant w
  unfolding handle_user_provisioning
  provisioning_process-run form tenant w =
      let id = form_value form "client_id" in
      let secret = form_value form "client_secret" in
      authenticate_process-run id secret (λ _. new_user_process b h form tenant) w
      ∙ ap (λ (rest : Act W TokenResponse). (authenticate b h id secret >>= λ _. rest) w)
          (fun_ext (new_user_process-run form tenant))

  -- A request that runs alone, call by call, does what the handler of its grant does.
  pub run-grant_process :
      (form : Dict String) (tenant : String) (w : W)
      → run (grant_process b h form tenant) w ≡ dispatch_grant b h form tenant w
  unfolding dispatch_grant
  run-grant_process form tenant w =
      elim (Bool-cases (form_value form "grant_type" == "client_credentials")) [
        | inl credentials ↦ rw credentials (credentials_process-run form tenant w)
        | inr other ↦ elim (Bool-cases (form_value form "grant_type" == "provision_user")) [
          | inl provisioning ↦ rw (other, provisioning) (provisioning_process-run form tenant w)
          | inr neither ↦ elim (Bool-cases (form_value form "grant_type" == "refresh_token")) [
            | inl refresh ↦ rw (other, neither, refresh) (run-refresh_process b h form tenant w)
            | inr unknown ↦ rw (other, neither, unknown) refl
          ]
        ]
      ]
