-- ===== src/Handlers/Token/Refused/Credentials.antt =====
-- internal/handlers/token.go: why `client_credentials` ends with an error.
use session_service.Common.{
  String, ◌≡◌, none, some, ◌==◌, arith, eq_iff, inl, inr, Result-cases, Bool-cases,
}
use session_service.Common.Dict.{Dict}
use session_service.Errors.{ServiceError, wrap}
use session_service.Http.{form_value}
use session_service.Handlers.Action.{World, Backend, reject, Outcome-cases}
use session_service.Handlers.Token.{
  TokenHandler, authenticate, issue_tokens, touch_client, handle_client_credentials,
}
use session_service.Handlers.Token.Authenticate.{authenticate-Authenticated}
use session_service.Handlers.Token.Credentials.{subject_of}
use session_service.Handlers.Token.Refused.{
  Ungranted, unauthenticated, no_user_id, no_tenant, no_lookup, no_user, other_tenant, no_roles,
  unissued,
}
use session_service.Handlers.Token.Refused.Parts.{
  issue_tokens-Unissued, authenticate-Unauthenticated,
}

module _ {Server Database State PrivateKey PublicKey : Type 0}
    (b : Backend Server Database State PrivateKey PublicKey) (h : TokenHandler) where
  abbrev W : Type 0
  W = World Server Database State PrivateKey PublicKey

  pub handle_client_credentials-Ungranted :
      (form : Dict String) (tenant : String) (w : W) {e : ServiceError} {w' : W}
      → handle_client_credentials b h form tenant w ≡ (reject e, w')
      → Ungranted b h form tenant w e.status
  unfolding handle_client_credentials touch_client wrap
  handle_client_credentials-Ungranted form tenant w {e} refused =
      let id = form_value form "client_id" in
      let user_id = form_value form "user_id" in
      elim (Outcome-cases (authenticate b h id (form_value form "client_secret") w)) [
        | inr (e', w₁, failed) ↦
            let same : e' ≡ e = ground arith in
            rw (← same) (
              unauthenticated
                (authenticate-Unauthenticated b h id (form_value form "client_secret") w failed))
        | inl (client, w₁, passed) ↦
            let proof =
              authenticate-Authenticated b h id (form_value form "client_secret") w passed in
            elim (Bool-cases (user_id == "")) [
              | inl blank ↦
                  let status : e.status ≡ 400 = ground arith in
                  rw status (no_user_id ((eq_iff user_id "").0 blank))
              | inr named ↦ elim (Result-cases (b.repo.ensure_tenant_exists tenant w₁.db)) [
                | inr (cause, failed) ↦
                    let status : e.status ≡ 400 = ground arith in
                    rw status (no_tenant cause (rw (← proof.same_db) failed))
                | inl (_, exists) ↦ elim (Result-cases (b.repo.get_user_by_id user_id w₁.db)) [
                  | inr (cause, failed) ↦
                      let status : e.status ≡ 500 = ground arith in
                      rw status (no_lookup cause (rw (← proof.same_db) failed))
                  | inl (none, nobody) ↦
                      let status : e.status ≡ 400 = ground arith in
                      rw status (no_user (rw (← proof.same_db) nobody))
                  | inl (some user, found) ↦ elim (Bool-cases (user.tenant_id == tenant)) [
                    | inr foreign ↦
                        let status : e.status ≡ 400 = ground arith in
                        rw status (
                          other_tenant user (rw (← proof.same_db) found)
                            (ground (arith, eq_iff user.tenant_id tenant)))
                    | inl same_tenant ↦ elim (Result-cases (b.repo.get_user_roles user_id w₁.db)) [
                      | inr (cause, failed) ↦
                          let status : e.status ≡ 500 = ground arith in
                          rw status (no_roles cause (rw (← proof.same_db) failed))
                      | inl (roles, held) ↦
                          elim (Outcome-cases
                            (issue_tokens b h id (subject_of b h form tenant roles) w₁)) [
                              | inl (_, w₂, issued) ↦ absurd (ground arith)
                              | inr (e', w₂, failed) ↦
                                  let same : e' ≡ e = ground arith in
                                  rw (← same) (
                                    unissued w₁ proof.same_keys (
                                      issue_tokens-Unissued b h id
                                        (subject_of b h form tenant roles) w₁ failed))
                            ]
                    ]
                  ]
                ]
              ]
            ]
      ]
