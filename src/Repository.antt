-- ===== src/Repository.antt =====
-- The interface `Repository` of internal/database/postgres.go. A query leaves the database as it is,
-- and its answer, an error included, depends on it. `UpdateClientUpdatedAt` reads the clock itself:
-- the time is its first argument here.
pub mod Tables
pub mod Laws
pub mod Postgres
use session_service.Common.{String, Option, Result, Slice}
use session_service.Common.Time.{Time}
use session_service.Models.{Client, User}

pub record Repository (Database : Type 0) : Type 0 where
  pub get_client_by_id : String → Database → Result (Option Client)
  pub update_client_updated_at : Time → String → Database → Result (Unit {0}) × Database
  pub get_user_by_id : String → Database → Result (Option User)
  pub get_user_roles : String → Database → Result (Slice String)
  pub ensure_tenant_exists : String → Database → Result (Unit {0})
  pub upsert_user_and_roles : User → Slice String → Database → Result (Unit {0}) × Database
