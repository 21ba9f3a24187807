-- ===== src/Handlers/Token/Steps.antt =====
-- internal/handlers/token.go: the `refresh_token` grant, one call of a service after another.
pub mod Keeps
pub mod Grants
pub mod GrantsRun
pub mod GrantsKeep
use session_service.Common.{String, ◌≡◌, refl, ◌==◌, some}
use session_service.Common.Dict.{Dict}
use session_service.Common.Time.{add, after, whole_seconds}
use session_service.Errors.{err_invalid_refresh_token, err_internal_server}
use session_service.Models.{Client, TokenSubject, TokenResponse}
use session_service.Http.{form_value}
use session_service.Auth.Generator.{generate_access_token, generate_refresh_token}
use session_service.Handlers.Action.{
  World, Backend, accept, reject_if, require, attempt, ignore, read_cache, write_cache, read_db,
  on_sys, read_clock,
}
use session_service.Handlers.Process.{Process, ◌>>=◌, ◌>>◌, run, done}
use session_service.Handlers.Token.{
  TokenHandler, limit_rate, subject_for, issue_tokens, handle_refresh_token,
}

module _ {Server Database State PrivateKey PublicKey : Type 0}
    (b : Backend Server Database State PrivateKey PublicKey) (h : TokenHandler) where
  abbrev W : Type 0
  W = World Server Database State PrivateKey PublicKey

  -- `issue_tokens`, call by call, and what comes behind it
  abbrev pub issue_process :
      String → TokenSubject → (TokenResponse → Process W TokenResponse) → Process W TokenResponse
  issue_process client_id subject k = do
    (access_token, _) ←
        (attempt err_internal_server
          (λ w. on_sys (generate_access_token b.system b.jwt h.token_gen subject w.keys) w))
    refresh_token ←
        (attempt err_internal_server (on_sys (generate_refresh_token b.system h.token_gen)))
    now ← (read_clock b.system)
    (attempt err_internal_server (
        write_cache (
          b.cache.store_refresh_token refresh_token
            (record {
              client_id = client_id;
              subject = some subject;
              expires_at = add now h.refresh_token_expiry;
            })
            h.refresh_token_expiry)))
    k (record {
      access_token = access_token;
      token_type = "Bearer";
      expires_in = whole_seconds h.jwt_expiry;
      refresh_token = refresh_token;
    })

  -- The end of `handle_refresh_token`, call by call: the old token is retired, new ones are issued.
  abbrev pub exchange_process : String → String → Client → TokenSubject → Process W TokenResponse
  exchange_process refresh_token client_id client subject = do
    (limit_rate b h client_id client)
    (ignore (write_cache (b.cache.revoke_refresh_token refresh_token h.refresh_token_expiry)))
    (ignore (write_cache (b.cache.delete_refresh_token refresh_token)))
    issue_process client_id subject (λ response. done (accept response))

  -- `handle_refresh_token`, call by call
  abbrev pub refresh_process : Dict String → String → Process W TokenResponse
  refresh_process form tenant_id = do
    let refresh_token = form_value form "refresh_token"
    (reject_if (refresh_token == "") err_invalid_refresh_token)
    found ← (attempt err_internal_server (read_cache (b.cache.get_refresh_token refresh_token)))
    token_data ← (require found err_invalid_refresh_token)
    revoked ←
        (attempt err_internal_server (read_cache (b.cache.is_refresh_token_revoked refresh_token)))
    (reject_if revoked err_invalid_refresh_token)
    now ← (read_clock b.system)
    (reject_if (after now token_data.expires_at) err_invalid_refresh_token)
    subject ← (subject_for b h tenant_id token_data.subject)
    known ← (attempt err_internal_server (read_db (b.repo.get_client_by_id token_data.client_id)))
    client ← (require known err_invalid_refresh_token)
    exchange_process refresh_token token_data.client_id client subject

  -- A refresh that runs alone, call by call, does what the handler does.
  pub run-refresh_process :
      (form : Dict String) (tenant : String) (w : W)
      → run (refresh_process form tenant) w ≡ handle_refresh_token b h form tenant w
  unfolding handle_refresh_token issue_tokens
  run-refresh_process form tenant w = refl
