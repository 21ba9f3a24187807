-- ===== src/Handlers/Token/Issue.antt =====
-- internal/handlers/token.go: what stands behind the tokens of a response.
use session_service.Common.{String, ◌≡◌, some, ok, arith, Result-cases, inl, inr}
use session_service.Common.Time.{Time, add, whole_seconds}
use session_service.Models.{TokenSubject, TokenResponse}
use session_service.Auth.Generator.{generate_access_token, generate_refresh_token}
use session_service.Handlers.Action.{World, Backend, accept}
use session_service.Handlers.Token.{TokenHandler, issue_tokens}

module _ {Server Database State PrivateKey PublicKey : Type 0}
    (b : Backend Server Database State PrivateKey PublicKey) (h : TokenHandler) where
  abbrev W : Type 0
  W = World Server Database State PrivateKey PublicKey

  -- The response is a bearer token that the generator minted for the subject with the keys of that
  -- moment, and a refresh token that the cache has stored with the client and the subject.
  pub record Issued (client_id : String) (subject : TokenSubject) (w : W) (response : TokenResponse)
      (w' : W) : Type 0 where
    pub jti : String
    pub minted :
        (generate_access_token b.system b.jwt h.token_gen subject w.keys w.sys).0
        ≡ ok (response.access_token, jti)
    pub now : Time
    pub stored :
        b.cache.store_refresh_token response.refresh_token
          (record {
            client_id = client_id;
            subject = some subject;
            expires_at = add now h.refresh_token_expiry;
          })
          h.refresh_token_expiry
          w.server
        ≡ (ok tt, w'.server)
    pub same_db : w'.db ≡ w.db
    pub same_keys : w'.keys ≡ w.keys
    pub bearer : response.token_type ≡ "Bearer"
    pub lifetime : response.expires_in ≡ whole_seconds h.jwt_expiry

  -- If issuing answers with tokens, the access token is one that the generator minted for the subject
  -- with the keys of that moment, and the cache has stored the refresh token with client and subject.
  pub issue_tokens-Issued :
      (client_id : String) (subject : TokenSubject) (w : W) {response : TokenResponse} {w' : W}
      → issue_tokens b h client_id subject w ≡ (accept response, w')
      → Issued client_id subject w response w'
  unfolding issue_tokens
  issue_tokens-Issued client_id subject w e =
      elim (Result-cases
        (generate_access_token b.system b.jwt h.token_gen subject w.keys w.sys).0) [
          | inr (_, failed) ↦ absurd (ground arith)
          | inl ((token, jti), minted) ↦
              let s₁ = (generate_access_token b.system b.jwt h.token_gen subject w.keys w.sys).1 in
              elim (Result-cases (generate_refresh_token b.system h.token_gen s₁).0) [
                | inr (_, failed) ↦ absurd (ground arith)
                | inl (refresh, read) ↦
                    let s₂ = (generate_refresh_token b.system h.token_gen s₁).1 in
                    record {
                      jti = jti;
                      minted = ground arith;
                      now = (b.system.now s₂).0;
                      stored = ground arith;
                      same_db = ground arith;
                      same_keys = ground arith;
                      bearer = ground arith;
                      lifetime = ground arith;
                    }
              ]
        ]
