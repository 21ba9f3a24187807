-- ===== src/Handlers/Token/Replay.antt =====
-- internal/handlers/token.go: a refresh token works once.
use session_service.Common.{
  String, ◌≡◌, ◌≢◌, ◌<◌, true, none, some, ok, arith, Result-cases, inl, inr, eq_refl, ap,
}
use session_service.Common.Dict.{Dict}
use session_service.Common.Int.{pos_part, pos}
use session_service.Common.Time.{minute, add}
use session_service.Models.{TokenResponse}
use session_service.Cache.Laws.{CacheLaws}
use session_service.Handlers.Action.{World, Backend, accept}
use session_service.Handlers.Token.{TokenHandler, handle_refresh_token}
use session_service.Handlers.Token.Refresh.{token_of, Refreshed, handle_refresh_token-Refreshed}

second : {A B : Type 0} {p : A × B} {a : A} {x : B} → p ≡ (a, x) → p.1 ≡ x
second e = ap (λ (q : _ × _). q.1) e

module _ {Server Database State PrivateKey PublicKey : Type 0}
    (b : Backend Server Database State PrivateKey PublicKey) (h : TokenHandler) where
  abbrev W : Type 0
  W = World Server Database State PrivateKey PublicKey

  -- A token on the revocation list gets no tokens, whatever else is stored.
  handle_refresh_token-revoked :
      (form : Dict String) (tenant : String) (w : W) (response : TokenResponse)
      → b.cache.is_refresh_token_revoked (token_of form) w.server ≡ ok true
      → (handle_refresh_token b h form tenant w).0 ≢ accept response
  unfolding handle_refresh_token
  handle_refresh_token-revoked form tenant w response revoked e =
      elim (Result-cases (b.cache.get_refresh_token (token_of form) w.server)) [
        | inr (_, failed) ↦ absurd (ground arith)
        | inl (none, missing) ↦ absurd (ground arith)
        | inl (some found, stored) ↦ absurd (ground arith)
      ]

  module _ (laws : CacheLaws b.cache) where
    -- At a server that is up, the old token is on the revocation list after a successful refresh.
    revoked_after :
        (form : Dict String) (tenant : String) (w : W) (response : TokenResponse) (w' : W)
        → laws.IsUp w.server
        → 0 < pos_part h.refresh_token_expiry
        → Refreshed b h form tenant w response w'
        → b.cache.is_refresh_token_revoked (token_of form) w'.server ≡ ok true
    revoked_after form tenant w response w' up p r =
        let token = token_of form in
        let ttl = h.refresh_token_expiry in
        let id = r.stored_data.client_id in
        let s₁ = r.counted in
        let up₁ : laws.IsUp s₁ =
          rw (second r.within) at
            (laws.check_rate_limit-IsUp id r.client.rate_limit (pos minute) w.server up) in
        let up₂ = laws.revoke-IsUp token ttl s₁ up₁ in
        let s₂ = (b.cache.revoke_refresh_token token ttl s₁).1 in
        let up₃ : laws.IsUp r.before_issue.server = rw r.retires (laws.delete-IsUp token s₂ up₂) in
        cc (
          laws.revoked-store response.refresh_token
              (record {
                client_id = id;
                subject = some r.subject;
                expires_at = add r.issued.now ttl;
              })
              ttl r.before_issue.server token up₃ p,
          second r.issued.stored,
          r.retires,
          laws.revoked-delete token s₂ token up₂,
          rw eq_refl at (laws.revoked-revoke token ttl s₁ token up₁ p),
        )

    -- A refresh token that has been exchanged is never exchanged again: from any state whose cache
    -- server is the one that the first exchange left, for any tenant, the second attempt gets nothing.
    pub handle_refresh_token_once :
        (form form' : Dict String) (tenant tenant' : String) (w w' w'' : W)
        (response response' : TokenResponse)
        → laws.IsUp w.server
        → 0 < pos_part h.refresh_token_expiry
        → handle_refresh_token b h form tenant w ≡ (accept response, w')
        → token_of form' ≡ token_of form
        → w''.server ≡ w'.server
        → (handle_refresh_token b h form' tenant' w'').0 ≢ accept response'
    handle_refresh_token_once form form' tenant tenant' w w' w'' response response' up p first
          same_token same_server =
        let r = handle_refresh_token-Refreshed b h form tenant w first in
        handle_refresh_token-revoked form' tenant' w'' response'
          (rw (same_token, same_server) (revoked_after form tenant w response w' up p r))
