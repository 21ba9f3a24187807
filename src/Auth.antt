-- ===== src/Auth.antt =====
-- internal/auth: the signing keys, the token generator and the token validator.
pub mod Keys
pub mod Generator
pub mod Validator
