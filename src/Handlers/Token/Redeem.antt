-- ===== src/Handlers/Token/Redeem.antt =====
-- internal/handlers/token.go: an issued refresh token can be exchanged.
use session_service.Common.{
  String, ◌≡◌, ◌≢◌, ◌<◌, false, some, Result, ok, arith, eq_iff, eq_refl, ap,
}
use session_service.Common.Dict.{Dict}
use session_service.Common.Int.{pos, pos_part}
use session_service.Common.Time.{Time, minute, add, after}
use session_service.Models.{Client, TokenSubject, TokenResponse, RefreshTokenData}
use session_service.Cache.Laws.{CacheLaws}
use session_service.Handlers.Action.{World, Backend}
use session_service.Handlers.Token.{
  TokenHandler, limit_rate, subject_for, issue_tokens, handle_refresh_token,
}
use session_service.Handlers.Token.Issue.{Issued}
use session_service.Handlers.Token.Refresh.{token_of, retired}

module _ {Server Database State PrivateKey PublicKey : Type 0}
    (b : Backend Server Database State PrivateKey PublicKey) (h : TokenHandler) where
  abbrev W : Type 0
  W = World Server Database State PrivateKey PublicKey

  -- The state in which a refresh goes on to issue: the clock was read, the request was counted, and
  -- the old token is retired.
  abbrev pub ready : String → Server → W → W
  ready token counted w = record w {
    server = retired b h token counted;
    sys = (b.system.now w.sys).1;
  }

  -- If all that the handler looks up is in order, it goes on to issue tokens for the stored client
  -- and subject, and its outcome is that of issuing them.
  exchange :
      (form : Dict String) (w : W) (client_id : String) (subject : TokenSubject) (expires_at : Time)
      (client : Client) (counted : Server)
      → token_of form ≢ ""
      → b.cache.get_refresh_token (token_of form) w.server
        ≡ ok (
            some
              (record { client_id = client_id; subject = some subject; expires_at = expires_at }))
      → b.cache.is_refresh_token_revoked (token_of form) w.server ≡ ok false
      → after (b.system.now w.sys).0 expires_at ≡ false
      → b.repo.get_client_by_id client_id w.db ≡ ok (some client)
      → b.cache.check_rate_limit client_id client.rate_limit (pos minute) w.server
        ≡ (ok false, counted)
      → handle_refresh_token b h form subject.tenant_id w
        ≡ issue_tokens b h client_id subject (ready (token_of form) counted w)
  unfolding handle_refresh_token subject_for limit_rate
  exchange form w client_id subject expires_at client counted given stored unrevoked live known
        within =
      ground (arith, eq_iff (token_of form) "", eq_refl subject.tenant_id)

  module _ (laws : CacheLaws b.cache) where
    -- Round trip: a refresh token that was issued is taken back. At the cache server that issuing
    -- left, in the tenant of its subject, before it expires, and if the token was not on the
    -- revocation list before, its client exists and is within its limit, the exchange goes on to
    -- issue tokens for the very client and subject that it was issued to.
    pub handle_refresh_token-issue_tokens :
        (form : Dict String) (client_id : String) (subject : TokenSubject) (w w' w'' : W)
        (response : TokenResponse) (issued : Issued b h client_id subject w response w')
        (client : Client) (counted : Server)
        → laws.IsUp w.server
        → 0 < pos_part h.refresh_token_expiry
        → laws.IsStorable (record {
          client_id = client_id;
          subject = some subject;
          expires_at = add issued.now h.refresh_token_expiry;
        })
        → response.refresh_token ≢ ""
        → b.cache.is_refresh_token_revoked response.refresh_token w.server ≡ ok false
        → token_of form ≡ response.refresh_token
        → w''.server ≡ w'.server
        → after (b.system.now w''.sys).0 (add issued.now h.refresh_token_expiry) ≡ false
        → b.repo.get_client_by_id client_id w''.db ≡ ok (some client)
        → b.cache.check_rate_limit client_id client.rate_limit (pos minute) w''.server
          ≡ (ok false, counted)
        → handle_refresh_token b h form subject.tenant_id w''
          ≡ issue_tokens b h client_id subject (ready (token_of form) counted w'')
    handle_refresh_token-issue_tokens form client_id subject w w' w'' response issued client counted
          up p storable given fresh same same_server live known within =
        let token = response.refresh_token in
        let ttl = h.refresh_token_expiry in
        let stored_data : RefreshTokenData = record {
          client_id = client_id;
          subject = some subject;
          expires_at = add issued.now ttl;
        } in
        let server = ap (λ (r : Result (Unit {0}) × Server). r.1) issued.stored in
        exchange form w'' client_id subject (add issued.now ttl) client counted (rw same given)
          (rw (same, same_server, ← server)
            (rw eq_refl at (laws.get-store token stored_data ttl w.server token up storable p)))
          (rw
            (
              same,
              same_server,
              ← server,
              laws.revoked-store token stored_data ttl w.server token up p,
            )
            fresh)
          live known within
