-- ===== src/Handlers/Token/Minted.antt =====
-- internal/handlers/token.go: what every answer with tokens has in common, over the three grants.
use session_service.Common.{String, ◌≡◌, refl, Result, ok, err, arith, inl, inr, Bool-cases, ◌==◌}
use session_service.Common.Dict.{Dict}
use session_service.Models.{TokenSubject, TokenResponse}
use session_service.Http.{Request, form_value, http_error, var}
use session_service.Auth.Keys.{KeyManager}
use session_service.Auth.Generator.{generate_access_token}
use session_service.Handlers.Action.{World, Backend, accept, Outcome-cases, send_error, send_json}
use session_service.Handlers.Token.{TokenHandler, dispatch_grant, handle_form, handle_token}
use session_service.Handlers.Token.Issue.{Issued}
use session_service.Handlers.Token.Credentials.{Granted, handle_client_credentials-Granted}
use session_service.Handlers.Token.Provisioning.{Provisioned, handle_user_provisioning-Provisioned}
use session_service.Handlers.Token.Refresh.{Refreshed, handle_refresh_token-Refreshed}

module _ {Server Database State PrivateKey PublicKey : Type 0}
    (b : Backend Server Database State PrivateKey PublicKey) (h : TokenHandler) where
  abbrev W : Type 0
  W = World Server Database State PrivateKey PublicKey

  -- The access token is one that the generator minted, with those keys, for a subject of that tenant.
  pub record Minted (tenant : String) (keys : KeyManager PrivateKey PublicKey)
      (response : TokenResponse) : Type 0 where
    pub subject : TokenSubject
    pub same_tenant : subject.tenant_id ≡ tenant
    pub at : State
    pub jti : String
    pub minted :
        (generate_access_token b.system b.jwt h.token_gen subject keys at).0
        ≡ ok (response.access_token, jti)

  Issued-Minted :
      (client_id : String) (subject : TokenSubject) (tenant : String)
      (keys : KeyManager PrivateKey PublicKey) (w w' : W) (response : TokenResponse)
      → subject.tenant_id ≡ tenant
      → w.keys ≡ keys
      → Issued b h client_id subject w response w'
      → Minted tenant keys response
  Issued-Minted client_id subject tenant keys w w' response same_tenant same_keys i = record {
    subject = subject;
    same_tenant = same_tenant;
    at = w.sys;
    jti = i.jti;
    minted = rw same_keys at i.minted;
  }

  Granted-Minted :
      (form : Dict String) (tenant : String) (w : W) (response : TokenResponse)
      → Granted b h form tenant w response
      → Minted tenant w.keys response
  Granted-Minted form tenant w response g =
      Issued-Minted _ _ tenant w.keys g.authenticated g.after response refl g.proof.same_keys
        g.issued

  Provisioned-Minted :
      (form : Dict String) (tenant : String) (w : W) (response : TokenResponse) (w' : W)
      → Provisioned b h form tenant w response w'
      → Minted tenant w.keys response
  Provisioned-Minted form tenant w response w' p =
      Issued-Minted _ _ tenant w.keys p.before_issue p.after response refl p.same_keys p.issued

  Refreshed-Minted :
      (form : Dict String) (tenant : String) (w : W) (response : TokenResponse) (w' : W)
      → Refreshed b h form tenant w response w'
      → Minted tenant w.keys response
  Refreshed-Minted form tenant w response w' r =
      Issued-Minted _ _ tenant w.keys r.before_issue w' response r.same_tenant r.same_keys r.issued

  dispatch_grant-Minted :
      (form : Dict String) (tenant : String) (w : W) {response : TokenResponse} {w' : W}
      → dispatch_grant b h form tenant w ≡ (accept response, w')
      → Minted tenant w.keys response
  unfolding dispatch_grant
  dispatch_grant-Minted form tenant w {response} {w'} e =
      elim (Bool-cases (form_value form "grant_type" == "client_credentials")) [
        | inl credentials ↦ Granted-Minted form tenant w response (
            handle_client_credentials-Granted b h form tenant w {response = response} {w' = w'}
              (rw (credentials, dispatch_grant) at e))
        | inr other ↦ elim (Bool-cases (form_value form "grant_type" == "provision_user")) [
          | inl provision ↦ Provisioned-Minted form tenant w response w' (
              handle_user_provisioning-Provisioned b h form tenant w {response = response} {w' = w'}
                (rw (other, provision, dispatch_grant) at e))
          | inr another ↦ elim (Bool-cases (form_value form "grant_type" == "refresh_token")) [
            | inl refresh ↦ Refreshed-Minted form tenant w response w' (
                handle_refresh_token-Refreshed b h form tenant w {response = response} {w' = w'}
                  (rw (other, another, refresh, dispatch_grant) at e))
            | inr unknown ↦
                (let e' = rw (other, another, unknown, dispatch_grant) at e in absurd (cc))
          ]
        ]
      ]

  handle_form-Minted :
      (form : Result (Dict String)) (tenant : String) (w : W) {response : TokenResponse} {w' : W}
      → handle_form b h form tenant w ≡ (accept response, w')
      → Minted tenant w.keys response
  handle_form-Minted (err e) tenant w fails = absurd (ground arith)
  handle_form-Minted (ok form) tenant w e = dispatch_grant-Minted form tenant w e

  -- Whatever the grant, an answer of the token endpoint with tokens carries an access token that the
  -- generator minted, with the keys of that moment, for a subject in the tenant of the path.
  pub handle_token-Minted :
      (r : Request) (w : W) (response : TokenResponse)
      → (handle_token b h r w).0 ≡ send_json 200 response
      → Minted (var r "tenant_id") w.keys response
  unfolding handle_token send_error send_json http_error
  handle_token-Minted r w response e =
      elim (Outcome-cases (handle_form b h r.form (var r "tenant_id") w)) [
        | inr (_, _, refused) ↦ absurd (ground arith)
        | inl (found, w', accepted) ↦
            handle_form-Minted r.form (var r "tenant_id") w {response = response} {w' = w'}
              (ground arith)
      ]
