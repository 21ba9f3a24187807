-- ===== src/Repository/Postgres/Tables.antt =====
-- internal/database/postgres.go: what the statements of `UpsertUserAndRoles` make of the tables.
pub mod Refined
pub mod ReadBack
pub mod Implements
use session_service.Common.{
  String, Bool, true, false, ◌||◌, ◌&&◌, ◌≡◌, ◌∙◌, refl, sym, ap, Option, none, some, List, [], ◌∷◌,
  Result, ok, err, Slice, Result-cases, inl, inr, ◌==◌, if◌then◌else◌, arith, Bool-cases, not, ◌⊎◌,
  GoError,
}
use session_service.Models.{User}
use session_service.Repository.Tables.{UserRow, Tables, row_of}
use session_service.Repository.Postgres.{
  Sql, Value, text, upsert_user, delete_roles, insert_role, insert_roles, replace_roles,
  upsert_statements, upsert_user_and_roles,
}
use session_service.Repository.Postgres.Transaction.{
  TransactionLaws, Atomic, refused, committed, upsert_user_and_roles-Atomic,
}

-- The parameters of the upsert of a user.
abbrev pub user_args : User → List Value
user_args user =
    text user.id
    ∷ text user.tenant_id
    ∷ text user.email
    ∷ text user.full_name
    ∷ text user.phone_number
    ∷ []

-- `INSERT INTO users … ON CONFLICT (id) DO UPDATE …`
abbrev pub with_user : User → Tables → Tables
with_user user t = record {
  user_row = λ id. if user.id == id then some (row_of user) else t.user_row id;
  has_role = t.has_role;
}

-- `DELETE FROM user_roles WHERE user_id = …`
abbrev pub without_roles : String → Tables → Tables
without_roles user_id t = record {
  user_row = t.user_row;
  has_role = λ id role. not (user_id == id) && t.has_role id role;
}

-- `INSERT INTO user_roles … ON CONFLICT (user_id, role) DO NOTHING`
abbrev pub with_role : String → String → Tables → Tables
with_role user_id role t = record {
  user_row = t.user_row;
  has_role = λ id r. user_id == id && role == r || t.has_role id r;
}

module _ {Database Tx : Type 0} (sql : Sql Database Tx) (laws : TransactionLaws sql) where
  -- What each statement makes of the tables, if it does not fail.
  pub record TableLaws : Type 0 where
    pub tables : laws.View → Tables
    pub upserted :
        (user : User) (tx : Tx)
        → (sql.tx_exec upsert_user (user_args user) tx).0 ≡ ok tt
        → tables (laws.pending (sql.tx_exec upsert_user (user_args user) tx).1)
          ≡ with_user user (tables (laws.pending tx))
    pub deleted :
        (user_id : String) (tx : Tx)
        → (sql.tx_exec delete_roles (text user_id ∷ []) tx).0 ≡ ok tt
        → tables (laws.pending (sql.tx_exec delete_roles (text user_id ∷ []) tx).1)
          ≡ without_roles user_id (tables (laws.pending tx))
    pub inserted :
        (user_id role : String) (tx : Tx)
        → (sql.tx_exec insert_role (text user_id ∷ text role ∷ []) tx).0 ≡ ok tt
        → tables (laws.pending (sql.tx_exec insert_role (text user_id ∷ text role ∷ []) tx).1)
          ≡ with_role user_id role (tables (laws.pending tx))
