-- ===== src/Handlers/Token/Refused/Parts.antt =====
-- internal/handlers/token.go: why the parts that the grants share end with an error.
use session_service.Common.{
  String, ◌≡◌, true, false, none, some, ◌==◌, arith, eq_iff, inl, inr, Result-cases, Bool-cases,
}
use session_service.Common.Int.{pos}
use session_service.Common.Time.{minute, add}
use session_service.Errors.{ServiceError, wrap}
use session_service.Models.{Client, TokenSubject, RefreshTokenData}
use session_service.Auth.Generator.{generate_access_token, generate_refresh_token}
use session_service.Handlers.Action.{World, Backend, reject, accept, Outcome-cases}
use session_service.Handlers.Token.{
  TokenHandler, cached_client, load_client, limit_rate, authenticate, issue_tokens,
}
use session_service.Handlers.Token.Authenticate.{AfterLoad}
use session_service.Handlers.Token.Refused.{
  IsMissed, IsKnown, Limited, uncounted, exceeded, Unauthenticated, no_id, no_secret, no_answer,
  unknown, unproven, limited, Unissued, unsigned, unread, unstored,
}

module _ {Server Database State PrivateKey PublicKey : Type 0}
    (b : Backend Server Database State PrivateKey PublicKey) (h : TokenHandler) where
  abbrev W : Type 0
  W = World Server Database State PrivateKey PublicKey

  pub limit_rate-Limited :
      (id : String) (client : Client) (w : W) {e : ServiceError} {w' : W}
      → limit_rate b h id client w ≡ (reject e, w')
      → Limited b h id client w.server e.status
  unfolding limit_rate wrap
  limit_rate-Limited id client w {e} refused =
      let r = (b.cache.check_rate_limit id client.rate_limit (pos minute) w.server).0 in
      elim (Result-cases r) [
        | inr (cause, failed) ↦
            let status : e.status ≡ 500 = ground arith in rw status (uncounted cause failed)
        | inl (false, within) ↦ absurd (ground arith)
        | inl (true, over) ↦ let status : e.status ≡ 429 = ground arith in rw status (exceeded over)
      ]

  pub issue_tokens-Unissued :
      (id : String) (subject : TokenSubject) (w : W) {e : ServiceError} {w' : W}
      → issue_tokens b h id subject w ≡ (reject e, w')
      → Unissued b h w e.status
  unfolding issue_tokens wrap
  issue_tokens-Unissued id subject w {e} refused =
      let a = generate_access_token b.system b.jwt h.token_gen subject w.keys w.sys in
      elim (Result-cases a.0) [
        | inr (cause, failed) ↦
            let status : e.status ≡ 500 = ground arith in rw status (unsigned subject cause failed)
        | inl ((access, jti), signed) ↦
            let g = generate_refresh_token b.system h.token_gen a.1 in
            elim (Result-cases g.0) [
              | inr (cause, failed) ↦
                  let status : e.status ≡ 500 = ground arith in rw status (unread a.1 cause failed)
              | inl (token, read) ↦
                  let d : RefreshTokenData = record {
                    client_id = id;
                    subject = some subject;
                    expires_at = add (b.system.now g.1).0 h.refresh_token_expiry;
                  } in
                  elim (Result-cases
                    (b.cache.store_refresh_token token d h.refresh_token_expiry w.server).0) [
                      | inl (_, stored) ↦ absurd (ground arith)
                      | inr (cause, failed) ↦
                          let status : e.status ≡ 500 = ground arith in
                          rw status (unstored token d cause failed)
                    ]
            ]
      ]

  load_missed :
      (id secret : String) (w : W) {e : ServiceError} {w' : W}
      → IsMissed b h id w
      → load_client b h id none w ≡ (reject e, w')
      → Unauthenticated b h id secret w e.status
  unfolding load_client wrap
  load_missed id secret w {e} missed refused =
      elim (Result-cases (b.repo.get_client_by_id id w.db)) [
        | inr (cause, failed) ↦
            let status : e.status ≡ 500 = ground arith in rw status (no_answer cause missed failed)
        | inl (none, nobody) ↦
            let status : e.status ≡ 401 = ground arith in rw status (unknown missed nobody)
        | inl (some c, found) ↦ absurd (ground arith)
      ]

  load_client-Unauthenticated :
      (id secret : String) (w : W) {e : ServiceError} {w' : W}
      → load_client b h id (cached_client b h id w) w ≡ (reject e, w')
      → Unauthenticated b h id secret w e.status
  unfolding load_client
  load_client-Unauthenticated id secret w {e} {w'} refused =
      elim (Result-cases (b.cache.get_client id w.server)) [
        | inr (cause, failed) ↦
            load_missed id secret w {e = e} {w' = w'} (inr (cause, failed))
              (rw (failed, cached_client) at refused)
        | inl (none, nothing) ↦
            load_missed id secret w {e = e} {w' = w'} (inl nothing)
              (rw (nothing, cached_client) at refused)
        | inl (some c, hit) ↦ absurd (ground arith)
      ]

  found_missed :
      (id : String) (w : W) {client : Client} {w' : W}
      → IsMissed b h id w
      → load_client b h id none w ≡ (accept client, w')
      → IsKnown b h id client w × AfterLoad b h client w.server w'.server
  unfolding load_client
  found_missed id w {client} missed loads = elim (Result-cases (b.repo.get_client_by_id id w.db)) [
    | inr (cause, failed) ↦ absurd (ground arith)
    | inl (none, nobody) ↦ absurd (ground arith)
    | inl (some c, found) ↦ (inr (missed, ground arith), inr (ground arith))
  ]

  load_client-IsKnown :
      (id : String) (w : W) {client : Client} {w' : W}
      → load_client b h id (cached_client b h id w) w ≡ (accept client, w')
      → IsKnown b h id client w × AfterLoad b h client w.server w'.server
  unfolding load_client
  load_client-IsKnown id w {client} {w'} loads =
      elim (Result-cases (b.cache.get_client id w.server)) [
        | inr (cause, failed) ↦
            found_missed id w {client = client} {w' = w'} (inr (cause, failed))
              (rw (failed, cached_client) at loads)
        | inl (none, nothing) ↦
            found_missed id w {client = client} {w' = w'} (inl nothing)
              (rw (nothing, cached_client) at loads)
        | inl (some c, hit) ↦ (inl (ground arith), inl (ground arith))
      ]

  pub authenticate-Unauthenticated :
      (id secret : String) (w : W) {e : ServiceError} {w' : W}
      → authenticate b h id secret w ≡ (reject e, w')
      → Unauthenticated b h id secret w e.status
  unfolding authenticate
  authenticate-Unauthenticated id secret w {e} {w'} refused = elim (Bool-cases (id == "")) [
    | inl blank ↦
        let status : e.status ≡ 401 = ground arith in rw status (no_id ((eq_iff id "").0 blank))
    | inr named ↦ elim (Bool-cases (secret == "")) [
      | inl blank ↦
          let status : e.status ≡ 401 = ground arith in
          rw status (no_secret ((eq_iff secret "").0 blank))
      | inr given ↦ elim (Outcome-cases (load_client b h id (cached_client b h id w) w)) [
        | inr (e', w₁, failed) ↦
            let same : e' ≡ e = ground arith in
            rw (← same) (load_client-Unauthenticated id secret w failed)
        | inl (c, w₁, loaded) ↦
            let (known, after) = load_client-IsKnown id w loaded in
            elim (Bool-cases (b.bcrypt_matches c.client_secret_hash secret)) [
              | inr wrong ↦
                  let status : e.status ≡ 401 = ground arith in rw status (unproven c known wrong)
              | inl proven ↦ elim (Outcome-cases (limit_rate b h id c w₁)) [
                | inl (_, w₂, within) ↦ absurd (ground arith)
                | inr (e', w₂, over) ↦
                    let same : e' ≡ e = ground arith in
                    rw (← same) (limited c w₁.server known after (limit_rate-Limited id c w₁ over))
              ]
            ]
      ]
    ]
  ]
