-- ===== src/Cache/Laws.antt =====
-- What the clients of the interface `Cache` rely on: how each write shows in the later reads of
-- refresh tokens and revocations, at a server that is up.
use session_service.Common.{String, ◌≡◌, ◌<◌, true, none, some, ok, ◌==◌, if◌then◌else◌}
use session_service.Common.Int.{ℤ, pos_part}
use session_service.Common.Time.{Duration}
use session_service.Models.{Client, RefreshTokenData}
use session_service.Cache.{Cache}

module _ {Server : Type 0} (cache : Cache Server) where
  -- The reads of refresh tokens and of both revocation lists agree at the two servers.
  pub record KeepsTokens (s s' : Server) : Type 0 where
    pub refresh_tokens :
        (id : String) → cache.get_refresh_token id s' ≡ cache.get_refresh_token id s
    pub revoked :
        (id : String) → cache.is_refresh_token_revoked id s' ≡ cache.is_refresh_token_revoked id s
    pub revoked_jti : (jti : String) → cache.is_token_revoked jti s' ≡ cache.is_token_revoked jti s

  pub record CacheLaws : Type 1 where
    -- the server answers
    pub IsUp : Server → Type 0
    -- the record can be encoded
    pub IsStorable : RefreshTokenData → Type 0
    pub set_client-IsUp :
        (c : Client) (ttl : Duration) (s : Server) → IsUp s → IsUp (cache.set_client c ttl s).1
    pub set_client-KeepsTokens :
        (c : Client) (ttl : Duration) (s : Server)
        → IsUp s
        → 0 < pos_part ttl
        → KeepsTokens s (cache.set_client c ttl s).1
    pub check_rate_limit-IsUp :
        (id : String) (limit : ℤ) (window : Duration) (s : Server)
        → IsUp s
        → IsUp (cache.check_rate_limit id limit window s).1
    pub check_rate_limit-KeepsTokens :
        (id : String) (limit : ℤ) (window : Duration) (s : Server)
        → IsUp s
        → 0 < pos_part window
        → KeepsTokens s (cache.check_rate_limit id limit window s).1
    pub store-IsUp :
        (id : String) (d : RefreshTokenData) (ttl : Duration) (s : Server)
        → IsUp s
        → IsUp (cache.store_refresh_token id d ttl s).1
    pub store-ok :
        (id : String) (d : RefreshTokenData) (ttl : Duration) (s : Server)
        → IsUp s
        → IsStorable d
        → 0 < pos_part ttl
        → (cache.store_refresh_token id d ttl s).0 ≡ ok tt
    pub get-store :
        (id : String) (d : RefreshTokenData) (ttl : Duration) (s : Server) (j : String)
        → IsUp s
        → IsStorable d
        → 0 < pos_part ttl
        → cache.get_refresh_token j (cache.store_refresh_token id d ttl s).1
          ≡ (if id == j then ok (some d) else cache.get_refresh_token j s)
    pub revoked-store :
        (id : String) (d : RefreshTokenData) (ttl : Duration) (s : Server) (j : String)
        → IsUp s
        → 0 < pos_part ttl
        → cache.is_refresh_token_revoked j (cache.store_refresh_token id d ttl s).1
          ≡ cache.is_refresh_token_revoked j s
    pub delete-IsUp : (id : String) (s : Server) → IsUp s → IsUp (cache.delete_refresh_token id s).1
    pub get-delete :
        (id : String) (s : Server) (j : String)
        → IsUp s
        → cache.get_refresh_token j (cache.delete_refresh_token id s).1
          ≡ (if id == j then ok none else cache.get_refresh_token j s)
    pub revoked-delete :
        (id : String) (s : Server) (j : String)
        → IsUp s
        → cache.is_refresh_token_revoked j (cache.delete_refresh_token id s).1
          ≡ cache.is_refresh_token_revoked j s
    pub revoke-IsUp :
        (id : String) (ttl : Duration) (s : Server)
        → IsUp s
        → IsUp (cache.revoke_refresh_token id ttl s).1
    pub revoke-ok :
        (id : String) (ttl : Duration) (s : Server)
        → IsUp s
        → 0 < pos_part ttl
        → (cache.revoke_refresh_token id ttl s).0 ≡ ok tt
    pub get-revoke :
        (id : String) (ttl : Duration) (s : Server) (j : String)
        → IsUp s
        → 0 < pos_part ttl
        → cache.get_refresh_token j (cache.revoke_refresh_token id ttl s).1
          ≡ cache.get_refresh_token j s
    pub revoked-revoke :
        (id : String) (ttl : Duration) (s : Server) (j : String)
        → IsUp s
        → 0 < pos_part ttl
        → cache.is_refresh_token_revoked j (cache.revoke_refresh_token id ttl s).1
          ≡ (if id == j then ok true else cache.is_refresh_token_revoked j s)
