-- ===== src/Cache/Redis/Expiry/Evolution.antt =====
-- internal/cache/redis.go: what each operation does to the deadlines of a refresh token and its revocation.
use session_service.Common.{
  if_elim, ◌∙◌, sym, ◌<◌, String, ◌≢◌, inl, inr, refl, ◌==◌, arith, Result-cases, Bool-cases,
}
use session_service.Common.Int.{ℤ, pos_part}
use session_service.Common.Time.{Duration}
use session_service.Models.{Client, RefreshTokenData}
use session_service.Json.{JsonText}
use session_service.Json.Records.{marshal_client, marshal_refresh_token_data}
use session_service.Cache.Redis.{
  Redis, is_one, set_client, check_rate_limit, store_refresh_token, delete_refresh_token,
  revoke_token, revoke_refresh_token,
}
use session_service.Cache.Redis.Keys.{
  client_key, rate_limit_key, refresh_token_key, revoked_jti_key, revoked_refresh_key,
  client-ne-refresh_token, client-ne-revoked_refresh, rate_limit-ne-refresh_token,
  rate_limit-ne-revoked_refresh, refresh_token-ne-revoked_jti, revoked_jti-ne-revoked_refresh,
  refresh_token-ne-revoked_refresh, refresh_token_key_injective, eq_of_ne,
}
use session_service.Cache.Redis.Expiry.{
  ExpiryLaws, Step, client_cached, request_counted, token_stored, token_deleted, jti_revoked,
  token_revoked, time_passes, Evolves,
}

module _ {Server : Type 0} (redis : Redis Server) (text : JsonText) (laws : ExpiryLaws redis)
    (expiry : Duration) (token : String) where
  -- A command on a key of neither.
  set-Evolves :
      (k v : String) (ttl : Duration) (s : Server)
      → laws.IsUp s
      → 0 < pos_part ttl
      → k ≢ refresh_token_key token
      → k ≢ revoked_refresh_key token
      → Evolves redis text laws expiry token s (redis.set k v ttl s).1
  set-Evolves k v ttl s up p apart apart' =
      let clock = laws.now-set k v ttl s in
      let stored = laws.deadline-set k v ttl s (refresh_token_key token) up p in
      let listed = laws.deadline-set k v ttl s (revoked_refresh_key token) up p in
      let off = eq_of_ne k (refresh_token_key token) apart in
      let off' = eq_of_ne k (revoked_refresh_key token) apart' in
      record {
        up = laws.set-IsUp k v ttl s up;
        clock = ground arith;
        stored = ground arith;
        listed = inl (ground arith);
      }

  same-Evolves : (s : Server) → laws.IsUp s → Evolves redis text laws expiry token s s
  same-Evolves s up = record {
    up = up;
    clock = omega arith;
    stored = omega arith;
    listed = inl refl;
  }

  incr-Evolves :
      (k : String) (s : Server)
      → laws.IsUp s
      → k ≢ refresh_token_key token
      → k ≢ revoked_refresh_key token
      → Evolves redis text laws expiry token s (redis.incr k s).1
  incr-Evolves k s up apart apart' =
      let clock = laws.now-incr k s in
      let stored = laws.deadline-incr k s (refresh_token_key token) up apart in
      record {
        up = laws.incr-IsUp k s up;
        clock = ground arith;
        stored = ground arith;
        listed = inl (laws.deadline-incr k s (revoked_refresh_key token) up apart');
      }

  incr-expire-Evolves :
      (k : String) (window : Duration) (s : Server)
      → laws.IsUp s
      → k ≢ refresh_token_key token
      → k ≢ revoked_refresh_key token
      → Evolves redis text laws expiry token s (redis.expire k window (redis.incr k s).1).1
  incr-expire-Evolves k window s up apart apart' =
      let s₁ = (redis.incr k s).1 in
      let up₁ = laws.incr-IsUp k s up in
      let clock = laws.now-incr k s in
      let clock' = laws.now-expire k window s₁ in
      let stored = laws.deadline-incr k s (refresh_token_key token) up apart in
      let stored' = laws.deadline-expire k window s₁ (refresh_token_key token) up₁ apart in
      record {
        up = laws.expire-IsUp k window s₁ up₁;
        clock = ground arith;
        stored = ground arith;
        listed = inl (
            laws.deadline-expire k window s₁ (revoked_refresh_key token) up₁ apart'
            ∙ laws.deadline-incr k s (revoked_refresh_key token) up apart');
      }

  check_rate_limit-Evolves :
      (id : String) (limit : ℤ) (window : Duration) (s : Server)
      → laws.IsUp s
      → Evolves redis text laws expiry token s (check_rate_limit redis text id limit window s).1
  unfolding check_rate_limit
  check_rate_limit-Evolves id limit window s up =
      let k = rate_limit_key id in
      let apart = rate_limit-ne-refresh_token id token in
      let apart' = rate_limit-ne-revoked_refresh id token in
      elim (Result-cases (redis.incr k s).0) [
        | inr (_, failed) ↦ rw (failed, check_rate_limit) (incr-Evolves k s up apart apart')
        | inl (n, counted) ↦
            rw (counted, check_rate_limit)
              (if_elim (λ t. Evolves redis text laws expiry token s t) (is_one n)
                (incr-expire-Evolves k window s up apart apart') (incr-Evolves k s up apart apart'))
      ]

  set_client-Evolves :
      (c : Client) (ttl : Duration) (s : Server)
      → laws.IsUp s
      → 0 < pos_part ttl
      → Evolves redis text laws expiry token s (set_client redis text c ttl s).1
  unfolding set_client
  set_client-Evolves c ttl s up p =
      let apart = client-ne-refresh_token c.client_id token in
      let apart' = client-ne-revoked_refresh c.client_id token in
      elim (Result-cases (marshal_client text c)) [
        | inr (_, failed) ↦ rw (failed, set_client) (same-Evolves s up)
        | inl (encoded, marshals) ↦
            rw (marshals, set_client)
              (set-Evolves (client_key c.client_id) encoded ttl s up p apart apart')
      ]

  revoke_token-Evolves :
      (jti : String) (ttl : Duration) (s : Server)
      → laws.IsUp s
      → 0 < pos_part ttl
      → Evolves redis text laws expiry token s (revoke_token redis text jti ttl s).1
  unfolding revoke_token
  revoke_token-Evolves jti ttl s up p =
      set-Evolves (revoked_jti_key jti) "1" ttl s up p
        (λ e. refresh_token-ne-revoked_jti token jti (sym e))
        (revoked_jti-ne-revoked_refresh jti token)

  delete_refresh_token-Evolves :
      (id : String) (s : Server)
      → laws.IsUp s
      → Evolves redis text laws expiry token s (delete_refresh_token redis text id s).1
  unfolding delete_refresh_token
  delete_refresh_token-Evolves id s up =
      let k = refresh_token_key id in
      let clock = laws.now-del k s in
      let stored = laws.deadline-del k s (refresh_token_key token) up in
      let listed = laws.deadline-del k s (revoked_refresh_key token) up in
      let off =
        eq_of_ne k (revoked_refresh_key token) (refresh_token-ne-revoked_refresh id token) in
      record {
        up = laws.del-IsUp k s up;
        clock = ground arith;
        stored = ground arith;
        listed = inl (ground arith);
      }

  module _ (positive : 0 < pos_part expiry) where
    store_refresh_token-Evolves :
        (id : String) (d : RefreshTokenData) (s : Server)
        → laws.IsUp s
        → id ≢ token
        → Evolves redis text laws expiry token s (store_refresh_token redis text id d expiry s).1
    unfolding store_refresh_token
    store_refresh_token-Evolves id d s up other =
        elim (Result-cases (marshal_refresh_token_data text d)) [
          | inr (_, failed) ↦ rw (failed, store_refresh_token) (same-Evolves s up)
          | inl (encoded, marshals) ↦
              rw (marshals, store_refresh_token)
                (set-Evolves (refresh_token_key id) encoded expiry s up positive
                  (λ e. other (refresh_token_key_injective id token e))
                  (refresh_token-ne-revoked_refresh id token))
        ]

    revoke_refresh_token-Evolves :
        (id : String) (s : Server)
        → laws.IsUp s
        → Evolves redis text laws expiry token s (revoke_refresh_token redis text id expiry s).1
    unfolding revoke_refresh_token
    revoke_refresh_token-Evolves id s up =
        let k = revoked_refresh_key id in
        let clock = laws.now-set k "1" expiry s in
        let stored = laws.deadline-set k "1" expiry s (refresh_token_key token) up positive in
        let listed = laws.deadline-set k "1" expiry s (revoked_refresh_key token) up positive in
        let off =
          eq_of_ne k (refresh_token_key token)
            (λ e. refresh_token-ne-revoked_refresh token id (sym e)) in
        record {
          up = laws.set-IsUp k "1" expiry s up;
          clock = ground arith;
          stored = ground arith;
          listed = elim (Bool-cases (k == revoked_refresh_key token)) [
            | inl this ↦ inr (ground arith)
            | inr other ↦ inl (ground arith)
          ];
        }

    pub Step-Evolves :
        (s s' : Server)
        → laws.IsUp s
        → Step redis text laws expiry token s s'
        → Evolves redis text laws expiry token s s'
    Step-Evolves s s' up (client_cached c ttl p) = set_client-Evolves c ttl s up p
    Step-Evolves s s' up (request_counted id limit window) =
        check_rate_limit-Evolves id limit window s up
    Step-Evolves s s' up (token_stored id d other) = store_refresh_token-Evolves id d s up other
    Step-Evolves s s' up (token_deleted id) = delete_refresh_token-Evolves id s up
    Step-Evolves s s' up (jti_revoked jti ttl p) = revoke_token-Evolves jti ttl s up p
    Step-Evolves s s' up (token_revoked id) = revoke_refresh_token-Evolves id s up
    Step-Evolves s s' up (time_passes d) =
        let clock = laws.now-later d s in
        let stored = laws.deadline-later d s (refresh_token_key token) in
        record {
          up = laws.later-IsUp d s up;
          clock = ground arith;
          stored = ground arith;
          listed = inl (laws.deadline-later d s (revoked_refresh_key token));
        }
