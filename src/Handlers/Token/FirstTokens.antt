-- ===== src/Handlers/Token/FirstTokens.antt =====
-- internal/handlers/token.go: the first tokens of a user who was provisioned.
use session_service.Common.{
  String, ◌≡◌, refl, sym, ap, ◌∙◌, Bool, none, some, ok, Slice, elements, eq_refl,
}
use session_service.Common.Dict.{Dict}
use session_service.Models.{TokenResponse}
use session_service.Http.{form_value}
use session_service.Auth.Generator.{generate_access_token}
use session_service.Repository.Laws.{RepositoryLaws}
use session_service.Repository.Tables.{Upserted, row_of, is_member, roles_after}
use session_service.Handlers.Action.{World, Backend, accept}
use session_service.Handlers.Token.{
  TokenHandler, handle_client_credentials, handle_user_provisioning,
}
use session_service.Handlers.Token.Credentials.{handle_client_credentials-Granted}
use session_service.Handlers.Token.Provisioning.{
  user_of, roles_of, Provisioned, handle_user_provisioning-Provisioned,
}

module _ {Server Database State PrivateKey PublicKey : Type 0}
    (b : Backend Server Database State PrivateKey PublicKey) (h : TokenHandler) where
  abbrev W : Type 0
  W = World Server Database State PrivateKey PublicKey

  -- The response carries a token for the user and the tenant, with these roles in some order.
  pub record TokenWith (user_id tenant : String) (has_role : String → Bool) (w : W)
      (response : TokenResponse) : Type 0 where
    pub roles : Slice String
    pub jti : String
    pub at : State
    pub minted :
        (generate_access_token b.system b.jwt h.token_gen
          (record { user_id = user_id; tenant_id = tenant; roles = roles; scopes = none })
          w.keys
          at).0
        ≡ ok (response.access_token, jti)
    pub same_roles : (role : String) → is_member role (elements roles) ≡ has_role role

  module _ (laws : RepositoryLaws b.repo) where
    -- What the tables are once a user is provisioned.
    pub Provisioned-Upserted :
        (form : Dict String) (tenant : String) (w w' : W) (response : TokenResponse)
        → Provisioned b h form tenant w response w'
        → Upserted (user_of form tenant) (roles_of form) (laws.tables w.db) (laws.tables w'.db)
    Provisioned-Upserted form tenant w w' response p =
        let made =
          laws.upserts (user_of form tenant) (roles_of form) w.db (ap (λ r. r.0) p.upserted) in
        let after : laws.tables w'.db
            ≡ laws.tables
                (b.repo.upsert_user_and_roles (user_of form tenant) (roles_of form) w.db).1 =
          ap laws.tables p.touched
          ∙ laws.touches p.now (form_value form "client_id") p.written
          ∙ ap (λ r. laws.tables r.1) (sym p.upserted) in
        rw after made

    -- If the repository obeys its laws: once a user is provisioned, and while the tables stay as they
    -- were left, the `client_credentials` grant gives that user tokens in no other tenant, and in the
    -- user's own with the roles of the provisioning, or those from before it if it gave none.
    pub handle_client_credentials-provisioned :
        (form form' : Dict String) (tenant tenant' : String) (w w' w₂ w₃ : W)
        (response response' : TokenResponse)
        → handle_user_provisioning b h form tenant w ≡ (accept response, w')
        → laws.tables w₂.db ≡ laws.tables w'.db
        → form_value form' "user_id" ≡ form_value form "user_id"
        → handle_client_credentials b h form' tenant' w₂ ≡ (accept response', w₃)
        → (tenant' ≡ tenant)
          × TokenWith
              (form_value form "user_id")
              tenant
              (roles_after
                (roles_of form)
                ((laws.tables w.db).has_role (form_value form "user_id")))
              w₂
              response'
    handle_client_credentials-provisioned form form' tenant tenant' w w' w₂ w₃ response response'
          provisions same_tables same_user grants =
        let id = form_value form "user_id" in
        let p = handle_user_provisioning-Provisioned b h form tenant w provisions in
        let g = handle_client_credentials-Granted b h form' tenant' w₂ grants in
        let made = Provisioned-Upserted form tenant w w' response p in
        let row : (laws.tables w₂.db).user_row id ≡ some (row_of (user_of form tenant)) =
          rw (same_tables, made.user_rows id, eq_refl) refl in
        let (created, updated, found) =
          laws.finds_user id w₂.db (row_of (user_of form tenant)) g.user row
            (rw (← same_user) g.user_exists) in
        let same_tenant : tenant' ≡ tenant = sym g.same_tenant ∙ ap (λ u. u.tenant_id) found in
        (
          same_tenant,
          record {
            roles = g.roles;
            jti = g.issued.jti;
            at = g.authenticated.sys;
            minted = rw (← same_user, ← same_tenant, ← g.proof.same_keys) g.issued.minted;
            same_roles = λ role.
                laws.finds_roles id w₂.db g.roles (rw (← same_user) g.roles_held) role
                ∙ rw (same_tables, made.assignments id role, eq_refl) refl;
          },
        )
