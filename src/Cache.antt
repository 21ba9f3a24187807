-- ===== src/Cache.antt =====
-- The interface `Cache` of internal/cache/redis.go. Reads leave the server as it is; a write returns
-- it changed, also when it fails. What the server does between two calls is not part of a call.
pub mod Redis
pub mod Laws
use session_service.Common.{String, Bool, Option, Result}
use session_service.Common.Int.{ℤ}
use session_service.Common.Time.{Duration}
use session_service.Models.{Client, RefreshTokenData}

pub record Cache (Server : Type 0) : Type 0 where
  pub get_client : String → Server → Result (Option Client)
  pub set_client : Client → Duration → Server → Result (Unit {0}) × Server
  pub check_rate_limit : String → ℤ → Duration → Server → Result Bool × Server
  pub store_refresh_token :
      String → RefreshTokenData → Duration → Server → Result (Unit {0}) × Server
  pub get_refresh_token : String → Server → Result (Option RefreshTokenData)
  pub delete_refresh_token : String → Server → Result (Unit {0}) × Server
  pub revoke_token : String → Duration → Server → Result (Unit {0}) × Server
  pub revoke_refresh_token : String → Duration → Server → Result (Unit {0}) × Server
  pub is_token_revoked : String → Server → Result Bool
  pub is_refresh_token_revoked : String → Server → Result Bool
