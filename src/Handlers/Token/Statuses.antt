-- ===== src/Handlers/Token/Statuses.antt =====
-- internal/handlers/token.go: the answer of the token endpoint to every request.
use session_service.Common.{
  String, ◌≡◌, ◌⊎◌, Result, ok, err, arith, Bool-cases, ◌≢◌, inl, inr, ◌==◌, eq_iff, refl,
}
use session_service.Common.Dict.{Dict}
use session_service.Errors.{ServiceError, wrap}
use session_service.Models.{TokenResponse}
use session_service.Http.{Request, json, var, form_value, http_error}
use session_service.Handlers.Action.{
  World, Backend, accept, reject, Outcome-cases, send_error, send_json,
}
use session_service.Handlers.Token.{TokenHandler, dispatch_grant, handle_form, handle_token}
use session_service.Handlers.Token.Credentials.{Granted, handle_client_credentials-Granted}
use session_service.Handlers.Token.Provisioning.{Provisioned, handle_user_provisioning-Provisioned}
use session_service.Handlers.Token.Refresh.{Refreshed, handle_refresh_token-Refreshed}
use session_service.Handlers.Token.Refused.{
  Refused, no_post, no_tenant, unparsed, ungranted, unprovisioned, unrefreshed, no_grant,
}
use session_service.Handlers.Token.Refused.Credentials.{handle_client_credentials-Ungranted}
use session_service.Handlers.Token.Refused.Provisioning.{handle_user_provisioning-Unprovisioned}
use session_service.Handlers.Token.Refused.Refresh.{handle_refresh_token-Unrefreshed}

module _ {Server Database State PrivateKey PublicKey : Type 0}
    (b : Backend Server Database State PrivateKey PublicKey) (h : TokenHandler) where
  abbrev W : Type 0
  W = World Server Database State PrivateKey PublicKey

  -- The grant that the form names has been met, with those tokens.
  pub data Met (form : Dict String) (tenant : String) (w : W) (response : TokenResponse) (w' : W)
      : Type 0 where
    granted :
        form_value form "grant_type" ≡ "client_credentials"
        → Granted b h form tenant w response
        → Met form tenant w response w'
    provisioned :
        form_value form "grant_type" ≡ "provision_user"
        → Provisioned b h form tenant w response w'
        → Met form tenant w response w'
    refreshed :
        form_value form "grant_type" ≡ "refresh_token"
        → Refreshed b h form tenant w response w'
        → Met form tenant w response w'

  dispatch_grant-Met :
      (form : Dict String) (tenant : String) (w : W) {response : TokenResponse} {w' : W}
      → dispatch_grant b h form tenant w ≡ (accept response, w')
      → Met form tenant w response w'
  unfolding dispatch_grant
  dispatch_grant-Met form tenant w {response} {w'} e =
      let grant = form_value form "grant_type" in
      elim (Bool-cases (grant == "client_credentials")) [
        | inl credentials ↦ granted ((eq_iff grant _).0 credentials) (
            handle_client_credentials-Granted b h form tenant w {response = response} {w' = w'}
              (rw (credentials, dispatch_grant) at e))
        | inr other ↦ elim (Bool-cases (grant == "provision_user")) [
          | inl provision ↦ provisioned ((eq_iff grant _).0 provision) (
              handle_user_provisioning-Provisioned b h form tenant w {response = response} {w' = w'}
                (rw (other, provision, dispatch_grant) at e))
          | inr another ↦ elim (Bool-cases (grant == "refresh_token")) [
            | inl refresh ↦ refreshed ((eq_iff grant _).0 refresh) (
                handle_refresh_token-Refreshed b h form tenant w {response = response} {w' = w'}
                  (rw (other, another, refresh, dispatch_grant) at e))
            | inr unknown ↦
                (let e' = rw (other, another, unknown, dispatch_grant) at e in absurd (cc))
          ]
        ]
      ]

  dispatch_grant-Refused :
      (r : Request) (form : Dict String) (w : W) {e : ServiceError} {w' : W}
      → r.form ≡ ok form
      → dispatch_grant b h form (var r "tenant_id") w ≡ (reject e, w')
      → Refused b h r w e.status
  unfolding dispatch_grant
  dispatch_grant-Refused r form w {e} {w'} parsed refused =
      let grant = form_value form "grant_type" in
      let tenant = var r "tenant_id" in
      elim (Bool-cases (grant == "client_credentials")) [
        | inl credentials ↦ ungranted form parsed ((eq_iff grant _).0 credentials) (
            handle_client_credentials-Ungranted b h form tenant w {e = e} {w' = w'}
              (rw (credentials, dispatch_grant) at refused))
        | inr other ↦ elim (Bool-cases (grant == "provision_user")) [
          | inl provision ↦ unprovisioned form parsed ((eq_iff grant _).0 provision) (
              handle_user_provisioning-Unprovisioned b h form tenant w {e = e} {w' = w'}
                (rw (other, provision, dispatch_grant) at refused))
          | inr another ↦ elim (Bool-cases (grant == "refresh_token")) [
            | inl refresh ↦ unrefreshed form parsed ((eq_iff grant _).0 refresh) (
                handle_refresh_token-Unrefreshed b h form tenant w {e = e} {w' = w'}
                  (rw (other, another, refresh, dispatch_grant) at refused))
            | inr unknown ↦
                let refused' = rw (other, another, unknown, dispatch_grant) at refused in
                let status : e.status ≡ 400 = ground arith in
                rw status (
                  no_grant form parsed (ground (arith, eq_iff grant "client_credentials"))
                    (ground (arith, eq_iff grant "provision_user"))
                    (ground (arith, eq_iff grant "refresh_token")))
          ]
        ]
      ]

  handle_form-Met :
      (r : Request) (form : Result (Dict String)) (w : W) {response : TokenResponse} {w' : W}
      → r.form ≡ form
      → handle_form b h form (var r "tenant_id") w ≡ (accept response, w')
      → (d : Dict String) × (r.form ≡ ok d) × Met d (var r "tenant_id") w response w'
  handle_form-Met r (err e) w parsed fails = absurd (ground arith)
  handle_form-Met r (ok form) w parsed e =
      (form, parsed, dispatch_grant-Met form (var r "tenant_id") w e)

  handle_form-Refused :
      (r : Request) (form : Result (Dict String)) (w : W) {e : ServiceError} {w' : W}
      → r.form ≡ form
      → handle_form b h form (var r "tenant_id") w ≡ (reject e, w')
      → Refused b h r w e.status
  unfolding wrap
  handle_form-Refused r (err cause) w {e} parsed refused =
      let status : e.status ≡ 500 = ground arith in rw status (unparsed cause parsed)
  handle_form-Refused r (ok form) w parsed e = dispatch_grant-Refused r form w parsed e

  -- What the token endpoint has answered, and left behind: 200 with tokens to a POST request with a
  -- tenant whose grant is met, or the status of the reason for refusing it, with no tokens.
  abbrev pub Answers : Request → W → Type 0
  Answers r w =
      ((response : TokenResponse) × (form : Dict String) × ((handle_token b h r w).0
          ≡ send_json 200 response)
        × (r.method ≡ "POST")
        × (var r "tenant_id" ≢ "")
        × (r.form ≡ ok form)
        × Met form (var r "tenant_id") w response (handle_token b h r w).1)
      ⊎ (Refused b h r w (handle_token b h r w).0.status
          × ((response : TokenResponse) → (handle_token b h r w).0.body ≢ json response))

  -- The token endpoint answers 200 with tokens only to a POST request with a tenant whose grant is
  -- met; to any other it answers with no tokens, and with the status of the reason for refusing it:
  -- 405, 400, 401, 429 or 500.
  pub handle_token-status : (r : Request) (w : W) → Answers r w
  unfolding handle_token send_error send_json http_error
  handle_token-status r w =
      let tenant = var r "tenant_id" in
      elim (Bool-cases (r.method == "POST")) [
        | inr other ↦
            let status : (handle_token b h r w).0.status ≡ 405 = ground arith in
            inr (
              rw status (no_post (ground (arith, eq_iff r.method "POST"))),
              λ response. ground arith,
            )
        | inl post ↦ elim (Bool-cases (tenant == "")) [
          | inl missing ↦
              let status : (handle_token b h r w).0.status ≡ 400 = ground arith in
              inr (rw status (no_tenant ((eq_iff tenant "").0 missing)), λ response. ground arith)
          | inr given ↦ elim (Outcome-cases (handle_form b h r.form tenant w)) [
            | inr (e, w', refused) ↦
                let status : (handle_token b h r w).0.status ≡ e.status = ground arith in
                inr (
                  rw status (handle_form-Refused r r.form w refl refused),
                  λ response. ground arith,
                )
            | inl (response, w', accepted) ↦
                let (form, parsed, met) = handle_form-Met r r.form w refl accepted in
                let after : (handle_token b h r w).1 ≡ w' = ground arith in
                inl (
                  response,
                  form,
                  ground arith,
                  (eq_iff r.method "POST").0 post,
                  ground (arith, eq_iff tenant ""),
                  parsed,
                  rw after met,
                )
          ]
        ]
      ]
