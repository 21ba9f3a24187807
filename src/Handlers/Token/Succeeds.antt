-- ===== src/Handlers/Token/Succeeds.antt =====
-- internal/handlers/token.go: the `client_credentials` grant answers with tokens when it should.
use session_service.Common.{
  ℕ, ◌<◌, ◌*◌, List, String, ◌≡◌, ◌≢◌, ◌⊎◌, refl, true, false, none, some, Slice, ok, arith, inl,
  inr, eq_iff,
}
use session_service.Common.Dict.{Dict}
use session_service.Common.Int.{pos, pos_part}
use session_service.Common.Time.{minute, add, whole_seconds}
use session_service.Models.{Client, User, TokenSubject, TokenResponse, RefreshTokenData}
use session_service.Services.{Claims}
use session_service.Http.{form_value}
use session_service.Cache.Laws.{CacheLaws}
use session_service.Auth.Keys.{KeyManager, get_private_key}
use session_service.Auth.Generator.Base64.{url_encode}
use session_service.Auth.Generator.{
  kid_header, access_claims, generate_access_token, generate_between, generate_refresh_token,
}
use session_service.Handlers.Action.{World, Backend, accept}
use session_service.Handlers.Token.{
  TokenHandler, cached_client, load_client, limit_rate, authenticate, issue_tokens, touch_client,
  handle_client_credentials,
}
use session_service.Handlers.Token.Authenticate.{AfterLoad}

module _ {Server Database State PrivateKey PublicKey : Type 0}
    (b : Backend Server Database State PrivateKey PublicKey) (h : TokenHandler)
    (laws : CacheLaws b.cache) where
  abbrev W : Type 0
  W = World Server Database State PrivateKey PublicKey

  -- Signing with the current key and reading random bytes do not fail, and refresh tokens can be stored
  -- for a while.
  pub record CanIssue (km : KeyManager PrivateKey PublicKey) : Type 0 where
    pub signs :
        (claims : Claims)
        → (token : String) × (b.jwt.signed_string (kid_header km) claims (get_private_key km)
            ≡ ok token)
    pub reads :
        (s : State)
        → (bytes : List ℕ) × ((b.system.random_bytes h.token_gen.refresh_token_length s).0
            ≡ ok bytes)
    pub storable : (d : RefreshTokenData) → laws.IsStorable d
    pub positive : 0 < pos_part h.refresh_token_expiry

  generate_access_token-succeeds :
      (w : W) (subject : TokenSubject) (s : State)
      → CanIssue w.keys
      → (t : String × String) × ((generate_access_token b.system b.jwt h.token_gen subject w.keys
            s).0
          ≡ ok t)
  unfolding generate_access_token
  generate_access_token-succeeds w subject s can =
      let jti = (b.system.new_uuid (b.system.now s).1).0 in
      let (token, signed) = can.signs (access_claims h.token_gen subject (b.system.now s).0 jti) in
      ((token, jti), rw (signed, generate_access_token, generate_between) refl)

  generate_refresh_token-succeeds :
      (w : W) (s : State)
      → CanIssue w.keys
      → (t : String) × ((generate_refresh_token b.system h.token_gen s).0 ≡ ok t)
  unfolding generate_refresh_token
  generate_refresh_token-succeeds w s can =
      let (bytes, read) = can.reads s in (url_encode bytes, rw (read, generate_refresh_token) refl)

  -- With all that, issuing ends with tokens, at a cache server that is up.
  pub issue_tokens-succeeds :
      (client_id : String) (subject : TokenSubject) (w : W)
      → laws.IsUp w.server
      → CanIssue w.keys
      → (response : TokenResponse) × ((issue_tokens b h client_id subject w).0 ≡ accept response)
  unfolding issue_tokens
  issue_tokens-succeeds client_id subject w up can =
      let s₁ = (generate_access_token b.system b.jwt h.token_gen subject w.keys w.sys).1 in
      let s₂ = (generate_refresh_token b.system h.token_gen s₁).1 in
      let ((access, jti), signed) = generate_access_token-succeeds w subject w.sys can in
      let (refresh, read) = generate_refresh_token-succeeds w s₁ can in
      let stored_data : RefreshTokenData = record {
        client_id = client_id;
        subject = some subject;
        expires_at = add (b.system.now s₂).0 h.refresh_token_expiry;
      } in
      let stores =
        laws.store-ok refresh stored_data h.refresh_token_expiry w.server up
          (can.storable stored_data) can.positive in
      (
        record {
          access_token = access;
          token_type = "Bearer";
          expires_in = whole_seconds h.jwt_expiry;
          refresh_token = refresh;
        },
        ground arith,
      )

  -- A client whose secret matches, that the cache holds or that the database holds and the cache does
  -- not, and that is within its limit.
  pub record CanAuthenticate (client_id secret : String) (client : Client) (w : W) : Type 0 where
    pub named : client_id ≢ ""
    pub given : secret ≢ ""
    pub known :
        (b.cache.get_client client_id w.server ≡ ok (some client))
        ⊎ ((b.cache.get_client client_id w.server ≡ ok none)
            × (b.repo.get_client_by_id client_id w.db ≡ ok (some client)))
    pub proven : b.bcrypt_matches client.client_secret_hash secret ≡ true
    pub within :
        (s : Server)
        → AfterLoad b h client w.server s
        → (b.cache.check_rate_limit client_id client.rate_limit (pos minute) s).0 ≡ ok false

  load_client-succeeds :
      (client_id secret : String) (client : Client) (w : W)
      → laws.IsUp w.server
      → CanAuthenticate client_id secret client w
      → (s : Server) × laws.IsUp s
        × AfterLoad b h client w.server s
        × (load_client b h client_id (cached_client b h client_id w) w
            ≡ (accept client, record w { server = s }))
  unfolding load_client
  load_client-succeeds client_id secret client w up can = elim (can.known) [
    | inl hit ↦ (w.server, up, inl refl, ground arith)
    | inr (miss, found) ↦ (
      (b.cache.set_client client (pos (15 * minute)) w.server).1,
      laws.set_client-IsUp client (pos (15 * minute)) w.server up,
      inr refl,
      ground arith,
    )
  ]

  pub authenticate-succeeds :
      (client_id secret : String) (client : Client) (w : W)
      → laws.IsUp w.server
      → CanAuthenticate client_id secret client w
      → (s : Server) × laws.IsUp s
        × (authenticate b h client_id secret w ≡ (accept client, record w { server = s }))
  unfolding authenticate limit_rate
  authenticate-succeeds client_id secret client w up can =
      let (s, up', after, loads) = load_client-succeeds client_id secret client w up can in
      let limited = b.cache.check_rate_limit client_id client.rate_limit (pos minute) s in
      let within = can.within s after in
      let named = can.named in
      let given = can.given in
      let proven = can.proven in
      (
        limited.1,
        laws.check_rate_limit-IsUp client_id client.rate_limit (pos minute) s up',
        ground (arith, eq_iff client_id "", eq_iff secret ""),
      )

  -- If the client can authenticate, the tenant exists and the user belongs to it, and no service fails,
  -- the `client_credentials` grant answers with tokens.
  pub handle_client_credentials-succeeds :
      (form : Dict String) (tenant : String) (client : Client) (user : User) (roles : Slice String)
      (w : W)
      → laws.IsUp w.server
      → CanAuthenticate (form_value form "client_id") (form_value form "client_secret") client w
      → form_value form "user_id" ≢ ""
      → b.repo.ensure_tenant_exists tenant w.db ≡ ok tt
      → b.repo.get_user_by_id (form_value form "user_id") w.db ≡ ok (some user)
      → user.tenant_id ≡ tenant
      → b.repo.get_user_roles (form_value form "user_id") w.db ≡ ok roles
      → CanIssue w.keys
      → (response : TokenResponse) × ((handle_client_credentials b h form tenant w).0
          ≡ accept response)
  unfolding handle_client_credentials touch_client
  handle_client_credentials-succeeds form tenant client user roles w up can named exists found same
        held issue =
      let (s, up', authenticated) =
        authenticate-succeeds (form_value form "client_id") (form_value form "client_secret") client
          w up can in
      let subject : TokenSubject = record {
        user_id = form_value form "user_id";
        tenant_id = tenant;
        roles = roles;
        scopes = none;
      } in
      let w' : W = record w { server = s } in
      let (response, issued) =
        issue_tokens-succeeds (form_value form "client_id") subject w' up' issue in
      (
        response,
        ground (arith, eq_iff (form_value form "user_id") "", eq_iff user.tenant_id tenant),
      )
