-- ===== src/Handlers/Token/Credentials.antt =====
-- internal/handlers/token.go: when the `client_credentials` grant answers with tokens.
use session_service.Common.{
  String, ◌≡◌, ◌≢◌, none, some, Slice, ok, arith, Result-cases, inl, inr, eq_iff,
}
use session_service.Common.Dict.{Dict}
use session_service.Models.{Client, User, TokenSubject, TokenResponse}
use session_service.Http.{form_value}
use session_service.Handlers.Action.{World, Backend, accept, Outcome-cases}
use session_service.Handlers.Token.{
  TokenHandler, authenticate, issue_tokens, handle_client_credentials,
}
use session_service.Handlers.Token.Authenticate.{Authenticated, authenticate-Authenticated}
use session_service.Handlers.Token.Issue.{Issued, issue_tokens-Issued}

module _ {Server Database State PrivateKey PublicKey : Type 0}
    (b : Backend Server Database State PrivateKey PublicKey) (h : TokenHandler) where
  abbrev W : Type 0
  W = World Server Database State PrivateKey PublicKey

  -- The client has authenticated; the tenant of the path exists, the user too and belongs to it; and
  -- the tokens are issued for that user, in that tenant, with the roles that the database holds.
  pub record Granted (form : Dict String) (tenant : String) (w : W) (response : TokenResponse)
      : Type 0 where
    pub client : Client
    pub authenticated : W
    pub proof :
        Authenticated b h
          (form_value form "client_id")
          (form_value form "client_secret")
          w
          client
          authenticated
    pub named : form_value form "user_id" ≢ ""
    pub tenant_exists : b.repo.ensure_tenant_exists tenant w.db ≡ ok tt
    pub user : User
    pub user_exists : b.repo.get_user_by_id (form_value form "user_id") w.db ≡ ok (some user)
    pub same_tenant : user.tenant_id ≡ tenant
    pub roles : Slice String
    pub roles_held : b.repo.get_user_roles (form_value form "user_id") w.db ≡ ok roles
    pub after : W
    pub issued :
        Issued b h
          (form_value form "client_id")
          (record {
            user_id = form_value form "user_id";
            tenant_id = tenant;
            roles = roles;
            scopes = none;
          })
          authenticated
          response
          after

  abbrev pub subject_of : Dict String → String → Slice String → TokenSubject
  subject_of form tenant roles = record {
    user_id = form_value form "user_id";
    tenant_id = tenant;
    roles = roles;
    scopes = none;
  }

  -- Tokens of the `client_credentials` grant go only to a client with the right secret and within its
  -- limit, for a user that exists in the tenant of the path, with the roles of the database.
  pub handle_client_credentials-Granted :
      (form : Dict String) (tenant : String) (w : W) {response : TokenResponse} {w' : W}
      → handle_client_credentials b h form tenant w ≡ (accept response, w')
      → Granted form tenant w response
  unfolding handle_client_credentials
  handle_client_credentials-Granted form tenant w {response} {w'} e =
      elim (Outcome-cases
        (authenticate b h (form_value form "client_id") (form_value form "client_secret") w)) [
          | inr (_, _, refused) ↦ absurd (ground arith)
          | inl (client, w₁, passed) ↦
              let proof =
                authenticate-Authenticated b h (form_value form "client_id")
                  (form_value form "client_secret") w passed in
              elim (Result-cases (b.repo.get_user_by_id (form_value form "user_id") w₁.db)) [
                | inr (_, failed) ↦ absurd (ground arith)
                | inl (none, missing) ↦ absurd (ground arith)
                | inl (some user, found) ↦
                    elim (Result-cases (b.repo.get_user_roles (form_value form "user_id") w₁.db)) [
                      | inr (_, failed) ↦ absurd (ground arith)
                      | inl (roles, held) ↦
                          elim (Outcome-cases (
                            issue_tokens b h (form_value form "client_id")
                              (subject_of form tenant roles) w₁)) [
                                | inr (_, _, refused) ↦ absurd (ground arith)
                                | inl (issued, w₂, issuing) ↦
                                    let same : issued ≡ response = ground arith in
                                    record {
                                      client = client;
                                      authenticated = w₁;
                                      proof = proof;
                                      named = ground (arith, eq_iff (form_value form "user_id") "");
                                      tenant_exists = rw (← proof.same_db) (ground arith);
                                      user = user;
                                      user_exists = rw (← proof.same_db) found;
                                      same_tenant = ground (arith, eq_iff user.tenant_id tenant);
                                      roles = roles;
                                      roles_held = rw (← proof.same_db) held;
                                      after = w₂;
                                      issued = rw (← same) (
                                          issue_tokens-Issued b h (form_value form "client_id")
                                            (subject_of form tenant roles) w₁ issuing);
                                    }
                              ]
                    ]
              ]
        ]
