-- ===== src/Cache/Redis/Keeps.antt =====
-- internal/cache/redis.go: the reads of `RedisCache` by the values of their keys, and which writes leave them alone.
use session_service.Common.{
  nat_eq, if_elim, ◌+◌, String, ◌≡◌, ◌≢◌, ◌<◌, ◌∙◌, is_some, ok, arith, eq_iff, if◌then◌else◌,
  Result-cases, inl, inr, refl,
}
use session_service.Common.Int.{ℤ, pos_part}
use session_service.Common.Time.{Duration}
use session_service.Models.{Client}
use session_service.Json.{JsonText}
use session_service.Json.Records.{marshal_client, unmarshal_refresh_token_data}
use session_service.Cache.Laws.{KeepsTokens}
use session_service.Cache.Redis.{
  Redis, or_missing, redis_cache, set_client, check_rate_limit, get_refresh_token, is_token_revoked,
  is_refresh_token_revoked,
}
use session_service.Cache.Redis.Laws.{RedisLaws, reply}
use session_service.Cache.Redis.Keys.{
  client_key, rate_limit_key, refresh_token_key, revoked_jti_key, revoked_refresh_key,
  client-ne-refresh_token, client-ne-revoked_jti, client-ne-revoked_refresh,
  rate_limit-ne-refresh_token, rate_limit-ne-revoked_jti, rate_limit-ne-revoked_refresh,
}

module _ {Server : Type 0} (redis : Redis Server) (text : JsonText) (laws : RedisLaws redis) where
  -- The reads by the value of their key.
  pub get_refresh_token-value :
      (id : String) (s : Server)
      → laws.IsUp s
      → get_refresh_token redis text id s
        ≡ or_missing
            (unmarshal_refresh_token_data text)
            (reply (laws.value s (refresh_token_key id)))
  unfolding get_refresh_token
  get_refresh_token-value id s up = rw (laws.get_lem (refresh_token_key id) s up)

  pub is_refresh_token_revoked-value :
      (id : String) (s : Server)
      → laws.IsUp s
      → is_refresh_token_revoked redis text id s
        ≡ ok (is_some (laws.value s (revoked_refresh_key id)))
  unfolding is_refresh_token_revoked
  is_refresh_token_revoked-value id s up =
      ground (arith, laws.exists_lem (revoked_refresh_key id) s up)

  is_token_revoked-value :
      (jti : String) (s : Server)
      → laws.IsUp s
      → is_token_revoked redis text jti s ≡ ok (is_some (laws.value s (revoked_jti_key jti)))
  unfolding is_token_revoked
  is_token_revoked-value jti s up = ground (arith, laws.exists_lem (revoked_jti_key jti) s up)

  -- A command on a key of another family changes none of the three.
  keeps_tokens :
      (s s' : Server)
      → laws.IsUp s
      → laws.IsUp s'
      → ((j : String) → laws.value s' (refresh_token_key j) ≡ laws.value s (refresh_token_key j))
      → ((j : String)
          → laws.value s' (revoked_refresh_key j) ≡ laws.value s (revoked_refresh_key j))
      → ((j : String) → laws.value s' (revoked_jti_key j) ≡ laws.value s (revoked_jti_key j))
      → KeepsTokens (redis_cache redis text) s s'
  keeps_tokens s s' up up' tokens revoked jtis = record {
    refresh_tokens =
        λ id. cc (get_refresh_token-value id s up, get_refresh_token-value id s' up', tokens id);
    revoked = λ id. cc (
      is_refresh_token_revoked-value id s up,
      is_refresh_token_revoked-value id s' up',
      revoked id,
    );
    revoked_jti =
        λ id. cc (is_token_revoked-value id s up, is_token_revoked-value id s' up', jtis id);
  }

  -- A write to another key.
  pub value-set_ne :
      (k v : String) (ttl : Duration) (s : Server) (j : String)
      → laws.IsUp s
      → 0 < pos_part ttl
      → k ≢ j
      → laws.value (redis.set k v ttl s).1 j ≡ laws.value s j
  value-set_ne k v ttl s j up p ne = ground (arith, laws.value-set k v ttl s j up, eq_iff k j)

  pub set_client-IsUp :
      (c : Client) (ttl : Duration) (s : Server)
      → laws.IsUp s
      → laws.IsUp (set_client redis text c ttl s).1
  unfolding set_client
  set_client-IsUp c ttl s up = elim (Result-cases (marshal_client text c)) [
    | inl (v, e) ↦ rw (e, set_client) (laws.set-IsUp (client_key c.client_id) v ttl s up)
    | inr (_, e) ↦ rw (e, set_client) up
  ]

  pub set_client-KeepsTokens :
      (c : Client) (ttl : Duration) (s : Server)
      → laws.IsUp s
      → 0 < pos_part ttl
      → KeepsTokens (redis_cache redis text) s (set_client redis text c ttl s).1
  unfolding set_client
  set_client-KeepsTokens c ttl s up p = elim (Result-cases (marshal_client text c)) [
    | inr (_, e) ↦
        rw (e, set_client)
          (record { refresh_tokens = λ _. refl; revoked = λ _. refl; revoked_jti = λ _. refl })
    | inl (v, e) ↦
        let k = client_key c.client_id in
        rw (e, set_client)
          (keeps_tokens s (redis.set k v ttl s).1 up (laws.set-IsUp k v ttl s up)
            (λ j. value-set_ne k v ttl s _ up p (client-ne-refresh_token _ j))
            (λ j. value-set_ne k v ttl s _ up p (client-ne-revoked_refresh _ j))
            (λ j. value-set_ne k v ttl s _ up p (client-ne-revoked_jti _ j)))
  ]

  -- The server after the counter was incremented, and after its expiry was set if that was due.
  module _ (id : String) (limit : ℤ) (window : Duration) (s : Server) (up : laws.IsUp s) where
    check_rate_limit-server : (check_rate_limit redis text id limit window s).1 ≡ (
        if nat_eq (laws.count s (rate_limit_key id) + 1) 1
        then (redis.expire (rate_limit_key id) window (redis.incr (rate_limit_key id) s).1).1
        else (redis.incr (rate_limit_key id) s).1)
    unfolding check_rate_limit
    check_rate_limit-server = rw (laws.incr-ok (rate_limit_key id) s up, check_rate_limit)

    pub check_rate_limit-IsUp : laws.IsUp (check_rate_limit redis text id limit window s).1
    check_rate_limit-IsUp =
        let up' = laws.incr-IsUp (rate_limit_key id) s up in
        rw check_rate_limit-server (
          if_elim laws.IsUp (nat_eq (laws.count s (rate_limit_key id) + 1) 1)
            (laws.expire-IsUp (rate_limit_key id) window _ up') up')

    check_rate_limit-value :
        (j : String)
        → 0 < pos_part window
        → rate_limit_key id ≢ j
        → laws.value (check_rate_limit redis text id limit window s).1 j ≡ laws.value s j
    check_rate_limit-value j p ne =
        let k = rate_limit_key id in
        let up' = laws.incr-IsUp k s up in
        let counted = laws.value-incr k s j up ne in
        rw check_rate_limit-server (
          if_elim (λ s'. laws.value s' j ≡ laws.value s j) (nat_eq (laws.count s k + 1) 1)
            (laws.value-expire k window (redis.incr k s).1 j up' p ∙ counted) counted)

    pub check_rate_limit-KeepsTokens :
        0 < pos_part window
        → KeepsTokens (redis_cache redis text) s (check_rate_limit redis text id limit window s).1
    check_rate_limit-KeepsTokens p =
        keeps_tokens s (check_rate_limit redis text id limit window s).1 up check_rate_limit-IsUp
          (λ j. check_rate_limit-value _ p (rate_limit-ne-refresh_token id j))
          (λ j. check_rate_limit-value _ p (rate_limit-ne-revoked_refresh id j))
          (λ j. check_rate_limit-value _ p (rate_limit-ne-revoked_jti id j))
