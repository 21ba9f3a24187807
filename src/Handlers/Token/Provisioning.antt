-- ===== src/Handlers/Token/Provisioning.antt =====
-- internal/handlers/token.go: when the `provision_user` grant answers with tokens.
use session_service.Common.{
  String, ◌≡◌, ◌≢◌, ◌⊎◌, none, some, Slice, ok, arith, Result-cases, inl, inr, eq_iff, ap, ◌∙◌,
}
use session_service.Common.Dict.{Dict}
use session_service.Common.Time.{Time, zero_time}
use session_service.Models.{Client, User, TokenSubject, TokenResponse}
use session_service.Http.{form_value}
use session_service.Handlers.Action.{World, Backend, accept, Outcome-cases}
use session_service.Handlers.Token.{
  TokenHandler, authenticate, issue_tokens, touch_client, roles_or_stored, handle_user_provisioning,
}
use session_service.Handlers.Token.Roles.{parse_roles}
use session_service.Handlers.Token.Authenticate.{Authenticated, authenticate-Authenticated}
use session_service.Handlers.Token.Issue.{Issued, issue_tokens-Issued}

-- The user that a form describes, in the tenant of the path.
abbrev pub user_of : Dict String → String → User
user_of form tenant = record {
  id = form_value form "user_id";
  tenant_id = tenant;
  email = form_value form "user_email";
  full_name = form_value form "user_full_name";
  phone_number = form_value form "user_phone";
  created_at = zero_time;
  updated_at = zero_time;
}

abbrev pub roles_of : Dict String → Slice String
roles_of form = parse_roles (form_value form "user_roles")

abbrev pub subject_with : Dict String → String → Slice String → TokenSubject
subject_with form tenant roles = record {
  user_id = form_value form "user_id";
  tenant_id = tenant;
  roles = roles;
  scopes = none;
}

module _ {Server Database State PrivateKey PublicKey : Type 0}
    (b : Backend Server Database State PrivateKey PublicKey) (h : TokenHandler) where
  abbrev W : Type 0
  W = World Server Database State PrivateKey PublicKey

  -- The client has authenticated; user id, name and phone are given and the tenant exists; the user
  -- has been written with the roles of the form; and the tokens carry those roles, or, if the form
  -- gave none, the roles that the database holds after the write.
  pub record Provisioned (form : Dict String) (tenant : String) (w : W) (response : TokenResponse)
      (w' : W) : Type 0 where
    pub client : Client
    pub authenticated : W
    pub proof :
        Authenticated b h
          (form_value form "client_id")
          (form_value form "client_secret")
          w
          client
          authenticated
    pub named : form_value form "user_id" ≢ ""
    pub full_name : form_value form "user_full_name" ≢ ""
    pub phone : form_value form "user_phone" ≢ ""
    pub tenant_exists : b.repo.ensure_tenant_exists tenant w.db ≡ ok tt
    pub written : Database
    pub upserted :
        b.repo.upsert_user_and_roles (user_of form tenant) (roles_of form) w.db ≡ (ok tt, written)
    pub roles : Slice String
    pub roles_held :
        ((roles ≡ roles_of form) × (roles ≢ none))
        ⊎ ((roles_of form ≡ none)
            × (b.repo.get_user_roles (form_value form "user_id") written ≡ ok roles))
    pub before_issue : W
    pub same_db : before_issue.db ≡ written
    pub same_keys : before_issue.keys ≡ w.keys
    pub after : W
    pub issued :
        Issued b h
          (form_value form "client_id")
          (subject_with form tenant roles)
          before_issue
          response
          after
    pub now : Time
    pub touched :
        w'.db ≡ (b.repo.update_client_updated_at now (form_value form "client_id") written).1

  roles_or_stored-accept :
      (user_id : String) (given : Slice String) (w : W) {roles : Slice String} {w' : W}
      → roles_or_stored b h user_id given w ≡ (accept roles, w')
      → (((roles ≡ given) × (roles ≢ none))
          ⊎ ((given ≡ none) × (b.repo.get_user_roles user_id w.db ≡ ok roles)))
        × (w' ≡ w)
  unfolding roles_or_stored
  roles_or_stored-accept user_id none w e =
      elim (Result-cases (b.repo.get_user_roles user_id w.db)) [
        | inr (_, failed) ↦ absurd (ground arith)
        | inl (found, held) ↦ (inr (ground arith), ground arith)
      ]
  roles_or_stored-accept user_id (some rs) w e = (inl (ground arith), ground arith)

  -- Tokens of the `provision_user` grant go only to a client with the right secret and within its
  -- limit, for a user whose record with the given details was written first, in an existing tenant.
  pub handle_user_provisioning-Provisioned :
      (form : Dict String) (tenant : String) (w : W) {response : TokenResponse} {w' : W}
      → handle_user_provisioning b h form tenant w ≡ (accept response, w')
      → Provisioned form tenant w response w'
  unfolding handle_user_provisioning touch_client
  handle_user_provisioning-Provisioned form tenant w {response} {w'} e =
      elim (Outcome-cases
        (authenticate b h (form_value form "client_id") (form_value form "client_secret") w)) [
          | inr (_, _, refused) ↦ absurd (ground arith)
          | inl (client, w₁, passed) ↦
              let proof =
                authenticate-Authenticated b h (form_value form "client_id")
                  (form_value form "client_secret") w passed in
              let upsert = b.repo.upsert_user_and_roles (user_of form tenant) (roles_of form) in
              let w₂ : W = record w₁ { db = (upsert w₁.db).1 } in
              elim (Outcome-cases
                (roles_or_stored b h (form_value form "user_id") (roles_of form) w₂)) [
                  | inr (_, _, refused) ↦ absurd (ground arith)
                  | inl (roles, w₃, chosen) ↦
                      let (held, same_w) =
                        roles_or_stored-accept (form_value form "user_id") (roles_of form) w₂
                          chosen in
                      elim (Outcome-cases (
                        issue_tokens b h (form_value form "client_id")
                          (subject_with form tenant roles) w₃)) [
                            | inr (_, _, refused) ↦ absurd (ground arith)
                            | inl (issued, w₄, issuing) ↦
                                let same : issued ≡ response = ground arith in
                                let tokens =
                                  issue_tokens-Issued b h (form_value form "client_id")
                                    (subject_with form tenant roles) w₃ issuing in
                                let now = (b.system.now w₄.sys).0 in
                                let touched : w'.db
                                    ≡ (b.repo.update_client_updated_at now
                                        (form_value form "client_id") w₄.db).1 =
                                  ground arith in
                                let same_db = ap (λ (w : W). w.db) same_w in
                                record {
                                  client = client;
                                  authenticated = w₁;
                                  proof = proof;
                                  named = ground (arith, eq_iff (form_value form "user_id") "");
                                  full_name =
                                      ground (arith, eq_iff (form_value form "user_full_name") "");
                                  phone = ground (arith, eq_iff (form_value form "user_phone") "");
                                  tenant_exists = rw (← proof.same_db) (ground arith);
                                  written = (upsert w₁.db).1;
                                  upserted = rw (← proof.same_db) (ground arith);
                                  roles = roles;
                                  roles_held = held;
                                  before_issue = w₃;
                                  same_db = same_db;
                                  same_keys = ap (λ (w : W). w.keys) same_w ∙ proof.same_keys;
                                  after = w₄;
                                  issued = rw (← same) tokens;
                                  now = now;
                                  touched = rw (← tokens.same_db ∙ same_db) touched;
                                }
                          ]
                ]
        ]
