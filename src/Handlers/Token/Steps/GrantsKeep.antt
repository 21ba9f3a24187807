-- ===== src/Handlers/Token/Steps/GrantsKeep.antt =====
-- internal/handlers/token.go: what every call of the token endpoint keeps.
use session_service.Common.{String, ◌==◌, Option, none, some, Slice, if_elim}
use session_service.Common.Dict.{Dict}
use session_service.Http.{form_value}
use session_service.Models.{Client, TokenSubject, TokenResponse}
use session_service.Handlers.Action.{World, Backend}
use session_service.Handlers.Process.{Process, Keeps}
use session_service.Handlers.Token.{TokenHandler}
use session_service.Handlers.Token.Roles.{parse_roles}
use session_service.Handlers.Token.Steps.Keeps.{
  KeptByCalls, require-server, limit_rate-server, issue_process-Keeps, refresh_process-Keeps,
}
use session_service.Handlers.Token.Steps.Grants.{
  load_process, authenticate_process, issue_and_touch, touch_process, roles_process, grant_process,
  known_user_process, new_user_process,
}

module _ {Server Database State PrivateKey PublicKey : Type 0}
    (b : Backend Server Database State PrivateKey PublicKey) (h : TokenHandler)
    {P : Server → Type 0} (kept : KeptByCalls b h P) where
  abbrev W : Type 0
  W = World Server Database State PrivateKey PublicKey

  abbrev Kept : Process W TokenResponse → Type 0
  Kept = Keeps (λ w. P w.server)

  -- A call that leaves the cache server as it is.
  unchanged : (w : W) → P w.server → P w.server
  unchanged w p = p

  load_process-Keeps :
      (id : String) (found : Option Client) (k : Client → Process W TokenResponse)
      → ((c : Client) → Kept (k c))
      → Kept (load_process b h id found k)
  load_process-Keeps id (some c) k rest = rest c
  load_process-Keeps id none k rest = (
    unchanged,
    λ found. (
      λ w p. rw (require-server b h found _ w) p,
      λ c. (λ w p. kept.remember c w.server p, λ _. rest c),
    ),
  )

  authenticate_process-Keeps :
      (id secret : String) (k : Client → Process W TokenResponse)
      → ((c : Client) → Kept (k c))
      → Kept (authenticate_process b h id secret k)
  authenticate_process-Keeps id secret k rest = (
    unchanged,
    λ _. (
      unchanged,
      λ cached. load_process-Keeps id cached _ λ c. (
        unchanged,
        λ _. (λ w p. rw (limit_rate-server b h id c w) (kept.limit id c w.server p), λ _. rest c),
      ),
    ),
  )

  issue_and_touch-Keeps :
      (id : String) (subject : TokenSubject) → Kept (issue_and_touch b h id subject)
  issue_and_touch-Keeps id subject =
      issue_process-Keeps b h kept id subject (touch_process b h id)
        λ _. (unchanged, λ _. (unchanged, λ _. tt))

  known_user_process-Keeps :
      (form : Dict String) (tenant : String) → Kept (known_user_process b h form tenant)
  known_user_process-Keeps form tenant = (
    unchanged,
    λ _. (
      unchanged,
      λ _. (
        unchanged,
        λ found. (
          λ w p. rw (require-server b h found _ w) p,
          λ _. (
            unchanged,
            λ _. (unchanged, λ _. issue_and_touch-Keeps (form_value form "client_id") _),
          ),
        ),
      ),
    ),
  )

  roles_process-Keeps :
      (id : String) (given : Slice String) (k : Slice String → Process W TokenResponse)
      → ((roles : Slice String) → Kept (k roles))
      → Kept (roles_process b h id given k)
  roles_process-Keeps id (some roles) k rest = rest (some roles)
  roles_process-Keeps id none k rest = (unchanged, rest)

  new_user_process-Keeps :
      (form : Dict String) (tenant : String) → Kept (new_user_process b h form tenant)
  new_user_process-Keeps form tenant = (
    unchanged,
    λ _. (
      unchanged,
      λ _. (
        unchanged,
        λ _. (
          unchanged,
          λ _.
              roles_process-Keeps (form_value form "user_id")
                (parse_roles (form_value form "user_roles")) _
                (λ _. issue_and_touch-Keeps (form_value form "client_id") _),
        ),
      ),
    ),
  )

  -- No call of a grant breaks the property.
  pub grant_process-Keeps :
      (form : Dict String) (tenant : String) → Kept (grant_process b h form tenant)
  grant_process-Keeps form tenant =
      let grant_is = λ (name : String). form_value form "grant_type" == name in
      let id = form_value form "client_id" in
      let secret = form_value form "client_secret" in
      if_elim Kept (grant_is "client_credentials")
        (authenticate_process-Keeps id secret _ λ _. known_user_process-Keeps form tenant)
        (if_elim Kept (grant_is "provision_user")
          (authenticate_process-Keeps id secret _ λ _. new_user_process-Keeps form tenant)
          (if_elim Kept (grant_is "refresh_token") (refresh_process-Keeps b h kept form tenant) tt))
