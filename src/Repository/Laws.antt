-- ===== src/Repository/Laws.antt =====
-- What the clients of the interface `Repository` rely on: what its operations make of the users and their
-- roles, and what its lookups read of them, if the database answers.
use session_service.Common.{String, ◌≡◌, some, ok, Slice, elements}
use session_service.Common.Time.{Time}
use session_service.Models.{User}
use session_service.Repository.{Repository}
use session_service.Repository.Tables.{UserRow, Tables, Upserted, user_with, is_member}

pub record RepositoryLaws {Database : Type 0} (repo : Repository Database) : Type 0 where
  pub tables : Database → Tables
  pub upserts :
      (user : User) (roles : Slice String) (db : Database)
      → (repo.upsert_user_and_roles user roles db).0 ≡ ok tt
      → Upserted user roles (tables db) (tables (repo.upsert_user_and_roles user roles db).1)
  pub touches :
      (now : Time) (client_id : String) (db : Database)
      → tables (repo.update_client_updated_at now client_id db).1 ≡ tables db
  pub finds_user :
      (id : String) (db : Database) (row : UserRow) (user : User)
      → (tables db).user_row id ≡ some row
      → repo.get_user_by_id id db ≡ ok (some user)
      → (created : Time) × (updated : Time) × (user ≡ user_with id row created updated)
  pub finds_roles :
      (id : String) (db : Database) (found : Slice String)
      → repo.get_user_roles id db ≡ ok found
      → (role : String) → is_member role (elements found) ≡ (tables db).has_role id role
