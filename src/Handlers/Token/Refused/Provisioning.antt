-- ===== src/Handlers/Token/Refused/Provisioning.antt =====
-- internal/handlers/token.go: why `provision_user` ends with an error.
use session_service.Common.{
  String, ◌≡◌, none, some, err, refl, GoError, ◌==◌, arith, eq_iff, inl, inr, Slice, Result-cases,
  Bool-cases, ap, ◌∙◌,
}
use session_service.Common.Dict.{Dict}
use session_service.Errors.{ServiceError, wrap}
use session_service.Http.{form_value}
use session_service.Handlers.Action.{
  World, Backend, reject, accept, Outcome-cases, ◌>>=◌, ◌>>◌, pure,
}
use session_service.Handlers.Token.{
  TokenHandler, authenticate, issue_tokens, touch_client, roles_or_stored, handle_user_provisioning,
}
use session_service.Handlers.Token.Authenticate.{authenticate-Authenticated}
use session_service.Handlers.Token.Provisioning.{user_of, roles_of, subject_with}
use session_service.Handlers.Token.Refused.{
  Unprovisioned, unauthenticated, no_user_id, no_full_name, no_phone, no_tenant, unwritten,
  no_roles, unissued,
}
use session_service.Handlers.Token.Refused.Parts.{
  issue_tokens-Unissued, authenticate-Unauthenticated,
}

module _ {Server Database State PrivateKey PublicKey : Type 0}
    (b : Backend Server Database State PrivateKey PublicKey) (h : TokenHandler) where
  abbrev W : Type 0
  W = World Server Database State PrivateKey PublicKey

  roles_or_stored-reject :
      (user_id : String) (given : Slice String) (w : W) {e : ServiceError} {w' : W}
      → roles_or_stored b h user_id given w ≡ (reject e, w')
      → (given ≡ none)
        × ((cause : GoError) × (b.repo.get_user_roles user_id w.db ≡ err cause))
        × (e.status ≡ 500)
  unfolding roles_or_stored wrap
  roles_or_stored-reject user_id none w refused =
      elim (Result-cases (b.repo.get_user_roles user_id w.db)) [
        | inr (cause, failed) ↦ (refl, (cause, failed), ground arith)
        | inl (found, held) ↦ absurd (ground arith)
      ]
  roles_or_stored-reject user_id (some rs) w refused = absurd (ground arith)

  roles_or_stored-keeps :
      (user_id : String) (given : Slice String) (w : W) {roles : Slice String} {w' : W}
      → roles_or_stored b h user_id given w ≡ (accept roles, w')
      → w' ≡ w
  unfolding roles_or_stored
  roles_or_stored-keeps user_id none w e =
      elim (Result-cases (b.repo.get_user_roles user_id w.db)) [
        | inr (_, failed) ↦ absurd (ground arith)
        | inl (found, held) ↦ ground arith
      ]
  roles_or_stored-keeps user_id (some rs) w e = ground arith

  unissued_by :
      (form : Dict String) (tenant : String) (roles : Slice String) (w w₃ : W) {e : ServiceError}
      {w' : W}
      → w₃.keys ≡ w.keys
      → (issue_tokens b h (form_value form "client_id") (subject_with form tenant roles)
            >>= λ response. touch_client b h (form_value form "client_id") >> pure response)
          w₃
        ≡ (reject e, w')
      → Unprovisioned b h form tenant w e.status
  unfolding touch_client
  unissued_by form tenant roles w w₃ {e} same_keys refused =
      elim (Outcome-cases
        (issue_tokens b h (form_value form "client_id") (subject_with form tenant roles) w₃)) [
          | inl (_, w₄, issued) ↦ absurd (ground arith)
          | inr (e', w₄, failed) ↦
              let same : e' ≡ e = ground arith in
              rw (← same) (
                unissued w₃ same_keys (
                  issue_tokens-Unissued b h (form_value form "client_id")
                    (subject_with form tenant roles) w₃ failed))
        ]

  pub handle_user_provisioning-Unprovisioned :
      (form : Dict String) (tenant : String) (w : W) {e : ServiceError} {w' : W}
      → handle_user_provisioning b h form tenant w ≡ (reject e, w')
      → Unprovisioned b h form tenant w e.status
  unfolding handle_user_provisioning touch_client wrap
  handle_user_provisioning-Unprovisioned form tenant w {e} {w'} refused =
      let id = form_value form "client_id" in
      let user_id = form_value form "user_id" in
      let full_name = form_value form "user_full_name" in
      let phone = form_value form "user_phone" in
      elim (Outcome-cases (authenticate b h id (form_value form "client_secret") w)) [
        | inr (e', w₁, failed) ↦
            let same : e' ≡ e = ground arith in
            rw (← same) (
              unauthenticated
                (authenticate-Unauthenticated b h id (form_value form "client_secret") w failed))
        | inl (client, w₁, passed) ↦
            let proof =
              authenticate-Authenticated b h id (form_value form "client_secret") w passed in
            elim (Bool-cases (user_id == "")) [
              | inl blank ↦
                  let status : e.status ≡ 400 = ground arith in
                  rw status (no_user_id ((eq_iff user_id "").0 blank))
              | inr named ↦ elim (Bool-cases (full_name == "")) [
                | inl blank ↦
                    let status : e.status ≡ 400 = ground arith in
                    rw status (no_full_name ((eq_iff full_name "").0 blank))
                | inr known ↦ elim (Bool-cases (phone == "")) [
                  | inl blank ↦
                      let status : e.status ≡ 400 = ground arith in
                      rw status (no_phone ((eq_iff phone "").0 blank))
                  | inr reachable ↦ elim (Result-cases (b.repo.ensure_tenant_exists tenant w₁.db)) [
                    | inr (cause, failed) ↦
                        let status : e.status ≡ 400 = ground arith in
                        rw status (no_tenant cause (rw (← proof.same_db) failed))
                    | inl (_, exists) ↦
                        let upsert =
                          b.repo.upsert_user_and_roles (user_of form tenant) (roles_of form) in
                        elim (Result-cases (upsert w₁.db).0) [
                          | inr (cause, failed) ↦
                              let status : e.status ≡ 500 = ground arith in
                              rw status (unwritten cause (rw (← proof.same_db) failed))
                          | inl (_, written) ↦
                              let w₂ : W = record w₁ { db = (upsert w₁.db).1 } in
                              elim (Outcome-cases
                                (roles_or_stored b h user_id (roles_of form) w₂)) [
                                  | inr (e', w₃, failed) ↦
                                      let same : e' ≡ e = ground arith in
                                      let (nil, (cause, unheld), status) =
                                        roles_or_stored-reject user_id (roles_of form) w₂ failed in
                                      rw (← same, status)
                                        (no_roles cause nil (rw (← proof.same_db) unheld))
                                  | inl (roles, w₃, chosen) ↦
                                      let same_w =
                                        roles_or_stored-keeps user_id (roles_of form) w₂ chosen in
                                      let same_keys =
                                        ap (λ (w : W). w.keys) same_w ∙ proof.same_keys in
                                      unissued_by form tenant roles w w₃ {e = e} {w' = w'} same_keys
                                        (ground arith)
                                ]
                        ]
                  ]
                ]
              ]
            ]
      ]
