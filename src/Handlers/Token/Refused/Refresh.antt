-- ===== src/Handlers/Token/Refused/Refresh.antt =====
-- internal/handlers/token.go: why `refresh_token` ends with an error.
use session_service.Common.{
  String, ◌≡◌, none, some, ok, true, false, refl, ◌≢◌, ◌⊎◌, ◌==◌, arith, eq_iff, inl, inr, Option,
  Result-cases, Bool-cases,
}
use session_service.Common.Dict.{Dict}
use session_service.Common.Time.{after}
use session_service.Errors.{ServiceError, wrap, err_internal_server, err_invalid_refresh_token}
use session_service.Models.{TokenResponse, TokenSubject, RefreshTokenData}
use session_service.Handlers.Action.{
  World, Backend, reject, accept, Outcome, Outcome-cases, ◌>>=◌, ◌>>◌, attempt, require, ignore,
  read_db, write_cache,
}
use session_service.Handlers.Token.{
  TokenHandler, limit_rate, issue_tokens, subject_for, handle_refresh_token,
}
use session_service.Handlers.Token.Authenticate.{limit_rate-accept}
use session_service.Handlers.Token.Refresh.{token_of, retired}
use session_service.Handlers.Token.Refused.{
  Unrefreshed, no_token, no_read, not_stored, no_check, revoked, expired, no_subject, other_tenant,
  no_lookup, no_client, limited, unissued,
}
use session_service.Handlers.Token.Refused.Parts.{limit_rate-Limited, issue_tokens-Unissued}

module _ {Server Database State PrivateKey PublicKey : Type 0}
    (b : Backend Server Database State PrivateKey PublicKey) (h : TokenHandler) where
  abbrev W : Type 0
  W = World Server Database State PrivateKey PublicKey

  subject_for-reject :
      (tenant : String) (found : Option TokenSubject) (w : W) {e : ServiceError} {w' : W}
      → subject_for b h tenant found w ≡ (reject e, w')
      → (e.status ≡ 401)
        × ((found ≡ none)
            ⊎ ((subject : TokenSubject) × (found ≡ some subject) × (subject.tenant_id ≢ tenant)))
  unfolding subject_for
  subject_for-reject tenant none w refused = (ground arith, inl refl)
  subject_for-reject tenant (some s) w refused =
      (ground arith, inr (s, refl, ground (arith, eq_iff s.tenant_id tenant)))

  subject_for-keeps :
      (tenant : String) (found : Option TokenSubject) (w : W) {subject : TokenSubject} {w' : W}
      → subject_for b h tenant found w ≡ (accept subject, w')
      → w' ≡ w
  unfolding subject_for
  subject_for-keeps tenant none w e = absurd (ground arith)
  subject_for-keeps tenant (some s) w e = ground arith

  -- What follows once the stored token is known to be live.
  abbrev go_on : Dict String → String → RefreshTokenData → W → Outcome TokenResponse × W
  go_on form tenant found = do
    subject ← subject_for b h tenant found.subject
    known ← attempt err_internal_server (read_db (b.repo.get_client_by_id found.client_id))
    client ← require known err_invalid_refresh_token
    limit_rate b h found.client_id client
    ignore (write_cache (b.cache.revoke_refresh_token (token_of form) h.refresh_token_expiry))
    ignore (write_cache (b.cache.delete_refresh_token (token_of form)))
    issue_tokens b h found.client_id subject

  live-Unrefreshed :
      (form : Dict String) (tenant : String) (found : RefreshTokenData) (w : W) {e : ServiceError}
      {w' : W}
      → b.cache.get_refresh_token (token_of form) w.server ≡ ok (some found)
      → go_on form tenant found (record w { sys = (b.system.now w.sys).1 }) ≡ (reject e, w')
      → Unrefreshed b h form tenant w e.status
  unfolding wrap
  live-Unrefreshed form tenant found w {e} {w'} stored refused =
      let w₁ : W = record w { sys = (b.system.now w.sys).1 } in
      elim (Outcome-cases (subject_for b h tenant found.subject w₁)) [
        | inr (e', w₂, unfit) ↦
            let same : e' ≡ e = ground arith in
            let (status, why) = subject_for-reject tenant found.subject w₁ unfit in
            elim why [
              | inl nil ↦ rw (← same, status) (no_subject found stored nil)
              | inr (subject, has, foreign) ↦
                  rw (← same, status) (other_tenant found subject stored has foreign)
            ]
        | inl (subject, w₂, fits) ↦
            let same_w = subject_for-keeps tenant found.subject w₁ fits in
            elim (Result-cases (b.repo.get_client_by_id found.client_id w.db)) [
              | inr (cause, failed) ↦
                  let status : e.status ≡ 500 = ground arith in
                  rw status (no_lookup found cause stored failed)
              | inl (none, nobody) ↦
                  let status : e.status ≡ 401 = ground arith in
                  rw status (no_client found stored nobody)
              | inl (some client, known) ↦
                  elim (Outcome-cases (limit_rate b h found.client_id client w₁)) [
                    | inr (e', w₃, over) ↦
                        let same : e' ≡ e = ground arith in
                        rw (← same) (
                          limited found client stored known
                            (limit_rate-Limited b h found.client_id client w₁ over))
                    | inl (_, w₃, within) ↦
                        let (_, kept) = limit_rate-accept b h found.client_id client w₁ within in
                        let w₄ : W = record w₃ { server = retired b h (token_of form) w₃.server } in
                        (unissued w₄ kept.keys (
                          issue_tokens-Unissued b h found.client_id subject w₄ {e = e} {w' = w'}
                            (ground arith)))
                  ]
            ]
      ]

  pub handle_refresh_token-Unrefreshed :
      (form : Dict String) (tenant : String) (w : W) {e : ServiceError} {w' : W}
      → handle_refresh_token b h form tenant w ≡ (reject e, w')
      → Unrefreshed b h form tenant w e.status
  unfolding handle_refresh_token wrap
  handle_refresh_token-Unrefreshed form tenant w {e} {w'} refused =
      let token = token_of form in
      elim (Bool-cases (token == "")) [
        | inl blank ↦
            let status : e.status ≡ 401 = ground arith in
            rw status (no_token ((eq_iff token "").0 blank))
        | inr given ↦ elim (Result-cases (b.cache.get_refresh_token token w.server)) [
          | inr (cause, failed) ↦
              let status : e.status ≡ 500 = ground arith in rw status (no_read cause failed)
          | inl (none, missing) ↦
              let status : e.status ≡ 401 = ground arith in rw status (not_stored missing)
          | inl (some found, stored) ↦
              elim (Result-cases (b.cache.is_refresh_token_revoked token w.server)) [
                | inr (cause, failed) ↦
                    let status : e.status ≡ 500 = ground arith in rw status (no_check cause failed)
                | inl (true, spent) ↦
                    let status : e.status ≡ 401 = ground arith in rw status (revoked spent)
                | inl (false, unspent) ↦
                    elim (Bool-cases (after (b.system.now w.sys).0 found.expires_at)) [
                      | inl late ↦
                          let status : e.status ≡ 401 = ground arith in
                          rw status (expired found stored late)
                      | inr in_time ↦
                          live-Unrefreshed form tenant found w {e = e} {w' = w'} stored
                            (ground arith)
                    ]
              ]
        ]
      ]
