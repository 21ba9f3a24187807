-- ===== src/Cache/Redis/Expiry/Outlives.antt =====
-- internal/cache/redis.go: a revoked refresh token stays revoked for as long as it is stored.
use session_service.Common.{
  sym, ℕ, ◌+◌, ◌≤◌, ◌<◌, String, ◌≡◌, ◌⊎◌, inl, inr, none, ok, arith, eq_refl, true, ltb,
  Bool-cases,
}
use session_service.Common.Int.{pos_part}
use session_service.Common.Time.{Duration}
use session_service.Models.{RefreshTokenData}
use session_service.Json.{JsonText}
use session_service.Json.Records.{marshal_refresh_token_data}
use session_service.Cache.Redis.{
  Redis, store_refresh_token, get_refresh_token, revoke_refresh_token, is_refresh_token_revoked,
}
use session_service.Cache.Redis.Keys.{
  refresh_token_key, revoked_refresh_key, refresh_token-ne-revoked_refresh, eq_of_ne,
}
use session_service.Cache.Redis.Expiry.{ExpiryLaws, Steps, here, next}
use session_service.Cache.Redis.Expiry.Evolution.{Step-Evolves}

module _ {Server : Type 0} (redis : Redis Server) (text : JsonText) (laws : ExpiryLaws redis)
    (expiry : Duration) (token : String) (positive : 0 < pos_part expiry) where
  abbrev live_until : Server → ℕ
  live_until s = laws.deadline s (refresh_token_key token)

  abbrev revoked_until : Server → ℕ
  revoked_until s = laws.deadline s (revoked_refresh_key token)

  -- The token expires within the lifetime of tokens.
  record Bounded (s : Server) : Type 0 where
    up : laws.IsUp s
    soon : live_until s ≤ laws.now s + laws.lifetime expiry

  -- The token expires no later than its revocation.
  record Covered (s : Server) : Type 0 where
    bounded : Bounded s
    covered : live_until s ≤ revoked_until s

  Steps-Bounded : (s t : Server) → Bounded s → Steps redis text laws expiry token s t → Bounded t
  Steps-Bounded s t b here = b
  Steps-Bounded s u b (next {t} steps step) =
      let b' = Steps-Bounded s t b steps in
      let e = Step-Evolves redis text laws expiry token positive t u b'.up step in
      let soon = b'.soon in
      let clock = e.clock in let stored = e.stored in record { up = e.up; soon = omega arith }

  Steps-Covered : (s t : Server) → Covered s → Steps redis text laws expiry token s t → Covered t
  Steps-Covered s t c here = c
  Steps-Covered s u c (next {t} steps step) =
      let c' = Steps-Covered s t c steps in
      let soon = c'.bounded.soon in
      let covered = c'.covered in
      let e = Step-Evolves redis text laws expiry token positive t u c'.bounded.up step in
      let clock = e.clock in
      let stored = e.stored in
      record {
        bounded = record { up = e.up; soon = omega arith };
        covered = elim (e.listed) [ inl same ↦ ground arith | inr renewed ↦ ground arith ];
      }

  store_refresh_token-Bounded :
      (d : RefreshTokenData) (encoded : String) (s : Server)
      → marshal_refresh_token_data text d ≡ ok encoded
      → laws.IsUp s
      → Bounded (store_refresh_token redis text token d expiry s).1
  unfolding store_refresh_token
  store_refresh_token-Bounded d encoded s marshals up =
      let k = refresh_token_key token in
      let clock = laws.now-set k encoded expiry s in
      let stored = laws.deadline-set k encoded expiry s k up positive in
      rw (marshals, store_refresh_token)
        (record { up = laws.set-IsUp k encoded expiry s up; soon = ground (arith, eq_refl k) })

  revoke_refresh_token-Covered :
      (s : Server) → Bounded s → Covered (revoke_refresh_token redis text token expiry s).1
  unfolding revoke_refresh_token
  revoke_refresh_token-Covered s b =
      let k = revoked_refresh_key token in
      let soon = b.soon in
      let clock = laws.now-set k "1" expiry s in
      let stored = laws.deadline-set k "1" expiry s (refresh_token_key token) b.up positive in
      let listed = laws.deadline-set k "1" expiry s k b.up positive in
      let off =
        eq_of_ne k (refresh_token_key token)
          (λ e. refresh_token-ne-revoked_refresh token token (sym e)) in
      record {
        bounded = record { up = laws.set-IsUp k "1" expiry s b.up; soon = ground arith };
        covered = ground (arith, eq_refl k);
      }

  Covered-refused :
      (s : Server)
      → Covered s
      → (get_refresh_token redis text token s ≡ ok none)
        ⊎ (is_refresh_token_revoked redis text token s ≡ ok true)
  unfolding get_refresh_token is_refresh_token_revoked
  Covered-refused s c =
      let covered = c.covered in
      elim (Bool-cases (ltb (laws.now s) (live_until s))) [
        | inl live ↦
            let exists =
              laws.exists_live (revoked_refresh_key token) s c.bounded.up (ground arith) in
            inr (ground arith)
        | inr gone ↦
            let missing = laws.get_gone (refresh_token_key token) s c.bounded.up (ground arith) in
            inl (ground arith)
      ]

  -- However long a refresh token is used elsewhere or left alone after it was stored, and whatever else
  -- happens to the cache: once it is put on the revocation list, it is found to be revoked for as long
  -- as it is found at all, even if it is never deleted. Tokens are stored and revoked for one lifetime,
  -- and the token is not stored a second time.
  pub revocation_outlives :
      (d : RefreshTokenData) (encoded : String) (s t u : Server)
      → marshal_refresh_token_data text d ≡ ok encoded
      → laws.IsUp s
      → Steps redis text laws expiry token (store_refresh_token redis text token d expiry s).1 t
      → Steps redis text laws expiry token (revoke_refresh_token redis text token expiry t).1 u
      → (get_refresh_token redis text token u ≡ ok none)
        ⊎ (is_refresh_token_revoked redis text token u ≡ ok true)
  revocation_outlives d encoded s t u marshals up before after =
      let b = store_refresh_token-Bounded d encoded s marshals up in
      let c = revoke_refresh_token-Covered t (Steps-Bounded _ t b before) in
      Covered-refused u (Steps-Covered _ u c after)
