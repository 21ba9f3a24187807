-- ===== src/Examples.antt =====
-- The properties at concrete inputs, and the services that they run on.
pub mod Signing
pub mod Services
pub mod Tokens
pub mod Keys
pub mod Storage
pub mod Tables
pub mod FirstTokens
pub mod Routing
pub mod Encoding
pub mod Races
pub mod Random
pub mod Flow
pub mod Startup
pub mod Rotation
pub mod Running
pub mod Schedule
pub mod Success
pub mod Expiry
pub mod Roles
pub mod Serving
