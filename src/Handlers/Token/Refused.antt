-- ===== src/Handlers/Token/Refused.antt =====
-- internal/handlers/token.go: why a token request gets no tokens, and the status for each reason.
pub mod Parts
pub mod Credentials
pub mod Provisioning
pub mod Refresh
use session_service.Common.{
  ◌*◌, ℕ, String, ◌≡◌, ◌≢◌, ◌⊎◌, true, false, none, some, ok, err, GoError, ◌==◌,
}
use session_service.Common.Dict.{Dict}
use session_service.Common.Int.{pos}
use session_service.Common.Time.{minute, Duration, after}
use session_service.Models.{Client, User, TokenSubject, RefreshTokenData}
use session_service.Http.{Request, var, form_value}
use session_service.Auth.Generator.{generate_access_token, generate_refresh_token}
use session_service.Handlers.Action.{World, Backend}
use session_service.Handlers.Token.{TokenHandler}
use session_service.Handlers.Token.Authenticate.{AfterLoad}
use session_service.Handlers.Token.Provisioning.{user_of, roles_of}
use session_service.Handlers.Token.Refresh.{token_of}

module _ {Server Database State PrivateKey PublicKey : Type 0}
    (b : Backend Server Database State PrivateKey PublicKey) (h : TokenHandler) where
  abbrev W : Type 0
  W = World Server Database State PrivateKey PublicKey

  -- The cache gives no client: it has none, or it fails.
  abbrev pub IsMissed : String → W → Type 0
  IsMissed id w =
      (b.cache.get_client id w.server ≡ ok none)
      ⊎ ((e : GoError) × (b.cache.get_client id w.server ≡ err e))

  -- The client that the cache has under the id, or, if the cache gives none, the database.
  abbrev pub IsKnown : String → Client → W → Type 0
  IsKnown id client w =
      (b.cache.get_client id w.server ≡ ok (some client))
      ⊎ (IsMissed id w × (b.repo.get_client_by_id id w.db ≡ ok (some client)))

  -- The limit of a client: 500 if it cannot be counted, 429 if it is exceeded.
  pub data Limited (id : String) (client : Client) (s : Server) : ℕ → Type 0 where
    uncounted :
        (e : GoError)
        → (b.cache.check_rate_limit id client.rate_limit (pos minute) s).0 ≡ err e
        → Limited id client s 500
    exceeded :
        (b.cache.check_rate_limit id client.rate_limit (pos minute) s).0 ≡ ok true
        → Limited id client s 429

  -- A client that is not let in: 401, but for a lookup that fails, and its limit.
  pub data Unauthenticated (id secret : String) (w : W) : ℕ → Type 0 where
    no_id : id ≡ "" → Unauthenticated id secret w 401
    no_secret : secret ≡ "" → Unauthenticated id secret w 401
    no_answer :
        (e : GoError)
        → IsMissed id w
        → b.repo.get_client_by_id id w.db ≡ err e
        → Unauthenticated id secret w 500
    unknown :
        IsMissed id w → b.repo.get_client_by_id id w.db ≡ ok none → Unauthenticated id secret w 401
    unproven :
        (client : Client)
        → IsKnown id client w
        → b.bcrypt_matches client.client_secret_hash secret ≡ false
        → Unauthenticated id secret w 401
    limited :
        {n : ℕ} (client : Client) (s : Server)
        → IsKnown id client w
        → AfterLoad b h client w.server s
        → Limited id client s n
        → Unauthenticated id secret w n

  -- Tokens that cannot be made or stored: 500.
  pub data Unissued (w : W) : ℕ → Type 0 where
    unsigned :
        (subject : TokenSubject) (e : GoError)
        → (generate_access_token b.system b.jwt h.token_gen subject w.keys w.sys).0 ≡ err e
        → Unissued w 500
    unread :
        (s : State) (e : GoError)
        → (generate_refresh_token b.system h.token_gen s).0 ≡ err e
        → Unissued w 500
    unstored :
        (token : String) (data_of : RefreshTokenData) (e : GoError)
        → (b.cache.store_refresh_token token data_of h.refresh_token_expiry w.server).0 ≡ err e
        → Unissued w 500

  -- No tokens for `client_credentials`.
  pub data Ungranted (form : Dict String) (tenant : String) (w : W) : ℕ → Type 0 where
    unauthenticated :
        {n : ℕ}
        → Unauthenticated (form_value form "client_id") (form_value form "client_secret") w n
        → Ungranted form tenant w n
    no_user_id : form_value form "user_id" ≡ "" → Ungranted form tenant w 400
    no_tenant :
        (e : GoError)
        → b.repo.ensure_tenant_exists tenant w.db ≡ err e
        → Ungranted form tenant w 400
    no_lookup :
        (e : GoError)
        → b.repo.get_user_by_id (form_value form "user_id") w.db ≡ err e
        → Ungranted form tenant w 500
    no_user :
        b.repo.get_user_by_id (form_value form "user_id") w.db ≡ ok none
        → Ungranted form tenant w 400
    other_tenant :
        (user : User)
        → b.repo.get_user_by_id (form_value form "user_id") w.db ≡ ok (some user)
        → user.tenant_id ≢ tenant
        → Ungranted form tenant w 400
    no_roles :
        (e : GoError)
        → b.repo.get_user_roles (form_value form "user_id") w.db ≡ err e
        → Ungranted form tenant w 500
    unissued : {n : ℕ} (w' : W) → w'.keys ≡ w.keys → Unissued w' n → Ungranted form tenant w n

  -- No tokens for `provision_user`.
  pub data Unprovisioned (form : Dict String) (tenant : String) (w : W) : ℕ → Type 0 where
    unauthenticated :
        {n : ℕ}
        → Unauthenticated (form_value form "client_id") (form_value form "client_secret") w n
        → Unprovisioned form tenant w n
    no_user_id : form_value form "user_id" ≡ "" → Unprovisioned form tenant w 400
    no_full_name : form_value form "user_full_name" ≡ "" → Unprovisioned form tenant w 400
    no_phone : form_value form "user_phone" ≡ "" → Unprovisioned form tenant w 400
    no_tenant :
        (e : GoError)
        → b.repo.ensure_tenant_exists tenant w.db ≡ err e
        → Unprovisioned form tenant w 400
    unwritten :
        (e : GoError)
        → (b.repo.upsert_user_and_roles (user_of form tenant) (roles_of form) w.db).0 ≡ err e
        → Unprovisioned form tenant w 500
    no_roles :
        (e : GoError)
        → roles_of form ≡ none
        → b.repo.get_user_roles
            (form_value form "user_id")
            (b.repo.upsert_user_and_roles (user_of form tenant) (roles_of form) w.db).1
          ≡ err e
        → Unprovisioned form tenant w 500
    unissued : {n : ℕ} (w' : W) → w'.keys ≡ w.keys → Unissued w' n → Unprovisioned form tenant w n

  -- No tokens for a refresh token: 401, but for a service that fails, and the limit of its client.
  pub data Unrefreshed (form : Dict String) (tenant : String) (w : W) : ℕ → Type 0 where
    no_token : token_of form ≡ "" → Unrefreshed form tenant w 401
    no_read :
        (e : GoError)
        → b.cache.get_refresh_token (token_of form) w.server ≡ err e
        → Unrefreshed form tenant w 500
    not_stored :
        b.cache.get_refresh_token (token_of form) w.server ≡ ok none → Unrefreshed form tenant w 401
    no_check :
        (e : GoError)
        → b.cache.is_refresh_token_revoked (token_of form) w.server ≡ err e
        → Unrefreshed form tenant w 500
    revoked :
        b.cache.is_refresh_token_revoked (token_of form) w.server ≡ ok true
        → Unrefreshed form tenant w 401
    expired :
        (found : RefreshTokenData)
        → b.cache.get_refresh_token (token_of form) w.server ≡ ok (some found)
        → after (b.system.now w.sys).0 found.expires_at ≡ true
        → Unrefreshed form tenant w 401
    no_subject :
        (found : RefreshTokenData)
        → b.cache.get_refresh_token (token_of form) w.server ≡ ok (some found)
        → found.subject ≡ none
        → Unrefreshed form tenant w 401
    other_tenant :
        (found : RefreshTokenData) (subject : TokenSubject)
        → b.cache.get_refresh_token (token_of form) w.server ≡ ok (some found)
        → found.subject ≡ some subject
        → subject.tenant_id ≢ tenant
        → Unrefreshed form tenant w 401
    no_lookup :
        (found : RefreshTokenData) (e : GoError)
        → b.cache.get_refresh_token (token_of form) w.server ≡ ok (some found)
        → b.repo.get_client_by_id found.client_id w.db ≡ err e
        → Unrefreshed form tenant w 500
    no_client :
        (found : RefreshTokenData)
        → b.cache.get_refresh_token (token_of form) w.server ≡ ok (some found)
        → b.repo.get_client_by_id found.client_id w.db ≡ ok none
        → Unrefreshed form tenant w 401
    limited :
        {n : ℕ} (found : RefreshTokenData) (client : Client)
        → b.cache.get_refresh_token (token_of form) w.server ≡ ok (some found)
        → b.repo.get_client_by_id found.client_id w.db ≡ ok (some client)
        → Limited found.client_id client w.server n
        → Unrefreshed form tenant w n
    unissued : {n : ℕ} (w' : W) → w'.keys ≡ w.keys → Unissued w' n → Unrefreshed form tenant w n

  -- No tokens for a request.
  pub data Refused (r : Request) (w : W) : ℕ → Type 0 where
    no_post : r.method ≢ "POST" → Refused r w 405
    no_tenant : var r "tenant_id" ≡ "" → Refused r w 400
    unparsed : (e : GoError) → r.form ≡ err e → Refused r w 500
    ungranted :
        {n : ℕ} (form : Dict String)
        → r.form ≡ ok form
        → form_value form "grant_type" ≡ "client_credentials"
        → Ungranted form (var r "tenant_id") w n
        → Refused r w n
    unprovisioned :
        {n : ℕ} (form : Dict String)
        → r.form ≡ ok form
        → form_value form "grant_type" ≡ "provision_user"
        → Unprovisioned form (var r "tenant_id") w n
        → Refused r w n
    unrefreshed :
        {n : ℕ} (form : Dict String)
        → r.form ≡ ok form
        → form_value form "grant_type" ≡ "refresh_token"
        → Unrefreshed form (var r "tenant_id") w n
        → Refused r w n
    no_grant :
        (form : Dict String)
        → r.form ≡ ok form
        → form_value form "grant_type" ≢ "client_credentials"
        → form_value form "grant_type" ≢ "provision_user"
        → form_value form "grant_type" ≢ "refresh_token"
        → Refused r w 400
