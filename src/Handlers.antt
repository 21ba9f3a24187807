-- ===== src/Handlers.antt =====
-- internal/handlers: the endpoints, over the cache, the repository and the key manager.
pub mod Action
pub mod Process
pub mod Token
pub mod Verify
pub mod Jwks
pub mod Oidc
