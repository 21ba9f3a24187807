-- ===== src/Handlers/Token/Refresh.antt =====
-- internal/handlers/token.go: when the `refresh_token` grant answers with tokens.
use session_service.Common.{
  String, ◌≡◌, ◌≢◌, refl, false, Option, none, some, ok, arith, Result-cases, Option-cases, inl,
  inr, eq_iff,
}
use session_service.Common.Dict.{Dict}
use session_service.Common.Int.{pos}
use session_service.Common.Time.{minute, after}
use session_service.Models.{Client, TokenSubject, RefreshTokenData, TokenResponse}
use session_service.Http.{form_value}
use session_service.Handlers.Action.{World, Backend, accept, Outcome-cases}
use session_service.Handlers.Token.{TokenHandler, limit_rate, subject_for, handle_refresh_token}
use session_service.Handlers.Token.Authenticate.{limit_rate-accept}
use session_service.Handlers.Token.Issue.{Issued, issue_tokens-Issued}

-- The refresh token of a form.
abbrev pub token_of : Dict String → String
token_of form = form_value form "refresh_token"

module _ {Server Database State PrivateKey PublicKey : Type 0}
    (b : Backend Server Database State PrivateKey PublicKey) (h : TokenHandler) where
  abbrev W : Type 0
  W = World Server Database State PrivateKey PublicKey

  -- The server after the old token was put on the revocation list and deleted.
  abbrev pub retired : String → Server → Server
  retired token s =
      (b.cache.delete_refresh_token token
        (b.cache.revoke_refresh_token token h.refresh_token_expiry s).1).1

  -- The token is stored, not revoked and not expired; its subject belongs to the tenant of the path;
  -- its client still exists and is within its limit; the old token is retired before new ones are
  -- issued to that client for that same subject.
  pub record Refreshed (form : Dict String) (tenant : String) (w : W) (response : TokenResponse)
      (w' : W) : Type 0 where
    pub given : token_of form ≢ ""
    pub stored_data : RefreshTokenData
    pub stored : b.cache.get_refresh_token (token_of form) w.server ≡ ok (some stored_data)
    pub unrevoked : b.cache.is_refresh_token_revoked (token_of form) w.server ≡ ok false
    pub unexpired : after (b.system.now w.sys).0 stored_data.expires_at ≡ false
    pub subject : TokenSubject
    has_subject : stored_data.subject ≡ some subject
    pub same_tenant : subject.tenant_id ≡ tenant
    pub client : Client
    pub known : b.repo.get_client_by_id stored_data.client_id w.db ≡ ok (some client)
    pub counted : Server
    pub within :
        b.cache.check_rate_limit stored_data.client_id client.rate_limit (pos minute) w.server
        ≡ (ok false, counted)
    pub before_issue : W
    pub retires : before_issue.server ≡ retired (token_of form) counted
    pub same_keys : before_issue.keys ≡ w.keys
    pub issued : Issued b h stored_data.client_id subject before_issue response w'

  subject_for-accept :
      (tenant : String) (found : Option TokenSubject) (w : W) {subject : TokenSubject} {w' : W}
      → subject_for b h tenant found w ≡ (accept subject, w')
      → (found ≡ some subject) × (subject.tenant_id ≡ tenant) × (w' ≡ w)
  unfolding subject_for
  subject_for-accept tenant none w e = cc
  subject_for-accept tenant (some s) w e =
      (ground arith, ground (arith, eq_iff s.tenant_id tenant), ground arith)

  -- Tokens of the `refresh_token` grant come only from a stored refresh token that is live, for its
  -- own subject in its own tenant, and its first use retires it.
  pub handle_refresh_token-Refreshed :
      (form : Dict String) (tenant : String) (w : W) {response : TokenResponse} {w' : W}
      → handle_refresh_token b h form tenant w ≡ (accept response, w')
      → Refreshed form tenant w response w'
  unfolding handle_refresh_token
  handle_refresh_token-Refreshed form tenant w {response} {w'} e =
      elim (Result-cases (b.cache.get_refresh_token (token_of form) w.server)) [
        | inr (_, failed) ↦ absurd (ground arith)
        | inl (none, missing) ↦ absurd (ground arith)
        | inl (some found, stored) ↦
            let w₁ : W = record w { sys = (b.system.now w.sys).1 } in
            elim (Outcome-cases (subject_for b h tenant found.subject w₁)) [
              | inr (_, _, refused) ↦ absurd (ground arith)
              | inl (subject, w₂, fits) ↦
                  let (has_subject, same_tenant, same) =
                    subject_for-accept tenant found.subject w₁ fits in
                  elim (Result-cases (b.repo.get_client_by_id found.client_id w.db)) [
                    | inr (_, failed) ↦ absurd (ground arith)
                    | inl (none, missing) ↦ absurd (ground arith)
                    | inl (some client, known) ↦
                        elim (Outcome-cases (limit_rate b h found.client_id client w₁)) [
                          | inr (_, _, limited) ↦ absurd (ground arith)
                          | inl (_, w₃, limiting) ↦
                              let (within, kept) =
                                limit_rate-accept b h found.client_id client w₁ limiting in
                              let w₄ : W = record w₃ {
                                server = retired (token_of form) w₃.server;
                              } in
                              record {
                                given = ground (arith, eq_iff (token_of form) "");
                                stored_data = found;
                                stored = stored;
                                unrevoked = ground arith;
                                unexpired = ground arith;
                                subject = subject;
                                has_subject = has_subject;
                                same_tenant = same_tenant;
                                client = client;
                                known = known;
                                counted = w₃.server;
                                within = within;
                                before_issue = w₄;
                                retires = refl;
                                same_keys = kept.keys;
                                issued =
                                    issue_tokens-Issued b h found.client_id subject w₄
                                      (ground arith);
                              }
                        ]
                  ]
            ]
      ]

  -- A refresh token of another tenant than the path's, or one with no subject, gets no tokens, and the
  -- attempt changes neither the cache nor the database.
  pub handle_refresh_token-other_tenant :
      (form : Dict String) (tenant : String) (w : W) (found : RefreshTokenData)
      → b.cache.get_refresh_token (token_of form) w.server ≡ ok (some found)
      → ((subject : TokenSubject) → found.subject ≡ some subject → subject.tenant_id ≢ tenant)
      → ((response : TokenResponse) → (handle_refresh_token b h form tenant w).0 ≢ accept response)
        × ((handle_refresh_token b h form tenant w).1.server ≡ w.server)
        × ((handle_refresh_token b h form tenant w).1.db ≡ w.db)
  unfolding handle_refresh_token subject_for
  handle_refresh_token-other_tenant form tenant w found stored foreign =
      elim (Option-cases found.subject) [
        | inl nil ↦ (λ response. ground arith, ground arith, ground arith)
        | inr (subject, has) ↦
            let differ = foreign subject has in
            (
              λ response. ground (arith, eq_iff subject.tenant_id tenant),
              ground (arith, eq_iff subject.tenant_id tenant),
              ground (arith, eq_iff subject.tenant_id tenant),
            )
      ]
