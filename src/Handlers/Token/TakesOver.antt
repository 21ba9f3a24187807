-- ===== src/Handlers/Token/TakesOver.antt =====
-- internal/handlers/token.go: the `provision_user` grant answers with tokens when it should, whoever has
-- the id of the user by then.
use session_service.Common.{String, ◌≡◌, ◌≢◌, ◌⊎◌, none, some, Slice, ok, arith, inl, inr, eq_iff}
use session_service.Common.Dict.{Dict}
use session_service.Models.{Client, TokenResponse}
use session_service.Http.{form_value}
use session_service.Cache.Laws.{CacheLaws}
use session_service.Repository.Laws.{RepositoryLaws}
use session_service.Repository.Tables.{Upserted}
use session_service.Handlers.Action.{World, Backend, accept}
use session_service.Handlers.Token.{
  TokenHandler, roles_or_stored, touch_client, handle_user_provisioning,
}
use session_service.Handlers.Token.Provisioning.{
  user_of, roles_of, subject_with, handle_user_provisioning-Provisioned,
}
use session_service.Handlers.Token.FirstTokens.{Provisioned-Upserted}
use session_service.Handlers.Token.Succeeds.{
  CanIssue, CanAuthenticate, authenticate-succeeds, issue_tokens-succeeds,
}

module _ {Server Database State PrivateKey PublicKey : Type 0}
    (b : Backend Server Database State PrivateKey PublicKey) (h : TokenHandler)
    (laws : CacheLaws b.cache) (repo_laws : RepositoryLaws b.repo) where
  abbrev W : Type 0
  W = World Server Database State PrivateKey PublicKey

  -- The form gives these roles, or gives none and the lookup finds these in the database.
  abbrev pub Chosen : String → Slice String → Slice String → Database → Type 0
  Chosen user_id given roles db =
      ((given ≡ roles) × (roles ≢ none))
      ⊎ ((given ≡ none) × (b.repo.get_user_roles user_id db ≡ ok roles))

  roles_or_stored-Chosen :
      (user_id : String) (given roles : Slice String) (w : W)
      → Chosen user_id given roles w.db
      → roles_or_stored b h user_id given w ≡ (accept roles, w)
  unfolding roles_or_stored
  roles_or_stored-Chosen user_id none roles w chosen = elim chosen [
    | inl (same, given) ↦ absurd (ground arith)
    | inr (_, found) ↦ ground arith
  ]
  roles_or_stored-Chosen user_id (some rs) roles w chosen = elim chosen [
    | inl (same, given) ↦ ground arith
    | inr (missing, _) ↦ absurd (cc)
  ]

  -- If the client can authenticate, the required fields are given, the tenant exists, and no service
  -- fails, the `provision_user` grant answers with tokens, whatever user of whatever tenant the tables
  -- have under the id; and the tables then have that id in the tenant of the path, with the details of
  -- the form.
  pub handle_user_provisioning-takes_over :
      (form : Dict String) (tenant : String) (client : Client) (roles : Slice String) (w : W)
      → laws.IsUp w.server
      → CanAuthenticate b h laws
          (form_value form "client_id")
          (form_value form "client_secret")
          client
          w
      → form_value form "user_id" ≢ ""
      → form_value form "user_full_name" ≢ ""
      → form_value form "user_phone" ≢ ""
      → b.repo.ensure_tenant_exists tenant w.db ≡ ok tt
      → (b.repo.upsert_user_and_roles (user_of form tenant) (roles_of form) w.db).0 ≡ ok tt
      → Chosen
          (form_value form "user_id")
          (roles_of form)
          roles
          (b.repo.upsert_user_and_roles (user_of form tenant) (roles_of form) w.db).1
      → CanIssue b h laws w.keys
      → (response : TokenResponse) × (w' : W) × (handle_user_provisioning b h form tenant w
          ≡ (accept response, w'))
        × Upserted
            (user_of form tenant)
            (roles_of form)
            (repo_laws.tables w.db)
            (repo_laws.tables w'.db)
  unfolding handle_user_provisioning touch_client
  handle_user_provisioning-takes_over form tenant client roles w up can named full_name phone exists
        upserted chosen issue =
      let id = form_value form "client_id" in
      let (s, up', authenticated) =
        authenticate-succeeds b h laws id (form_value form "client_secret") client w up can in
      let upsert = b.repo.upsert_user_and_roles (user_of form tenant) (roles_of form) w.db in
      let w₁ : W = record w { server = s; db = upsert.1 } in
      let chosen_roles =
        roles_or_stored-Chosen (form_value form "user_id") (roles_of form) roles w₁ chosen in
      let (response, issued) =
        issue_tokens-succeeds b h laws id (subject_with form tenant roles) w₁ up' issue in
      let answers : (handle_user_provisioning b h form tenant w).0 ≡ accept response = ground (
        arith,
        eq_iff (form_value form "user_id") "",
        eq_iff (form_value form "user_full_name") "",
        eq_iff (form_value form "user_phone") "",
      ) in
      let w' = (handle_user_provisioning b h form tenant w).1 in
      let ends : handle_user_provisioning b h form tenant w ≡ (accept response, w') =
        λ i. (answers i, w') in
      (
        response,
        w',
        ends,
        Provisioned-Upserted b h repo_laws form tenant w w' response
            (handle_user_provisioning-Provisioned b h form tenant w ends),
      )
