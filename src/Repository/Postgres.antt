-- ===== src/Repository/Postgres.antt =====
-- internal/database/postgres.go: `PostgresRepository`, over the calls of database/sql. The texts of the
-- statements are those of the source up to white space.
pub mod Connect
pub mod Columns
pub mod Transaction
pub mod Tables
use session_service.Common.{
  String, Option, none, some, List, [], ◌∷◌, ◌++◌, Result, ok, err, no_rows, redis_nil, failure,
  GoError, ◌>>=◌, Slice,
}
use session_service.Common.Int.{ℤ}
use session_service.Common.Time.{Time, zero_time}
use session_service.Models.{Client, User}
use session_service.Repository.{Repository}

-- A parameter of a statement, or a column of a row.
pub data Value : Type 0 where
  null : Value
  text : String → Value
  int : ℤ → Value
  time : Time → Value

-- The rows that `rows.Next` goes through, and the error that `rows.Err` then returns.
pub record Rows : Type 0 where
  pub rows : List (List Value)
  pub error : Option GoError

-- The calls of database/sql: queries and single statements on the database, and transactions.
pub record Sql (Database Tx : Type 0) : Type 0 where
  -- `QueryRowContext`: the columns of the first row, or `sql.ErrNoRows`
  pub query_row : String → List Value → Database → Result (List Value)
  pub query : String → List Value → Database → Result Rows
  pub exec : String → List Value → Database → Result (Unit {0}) × Database
  pub begin_tx : Database → Result Tx × Database
  pub tx_exec : String → List Value → Tx → Result (Unit {0}) × Tx
  pub commit : Tx → Database → Result (Unit {0}) × Database
  pub rollback : Tx → Database → Result (Unit {0}) × Database

-- `Scan` of a column into a variable, for the types that the schema gives the columns. A NULL goes
-- into no plain variable.
abbrev scan_error {ℓ} : {A : Type ℓ} → Result A
scan_error = err (failure "sql: Scan error: unsupported conversion")

abbrev scan_string : Value → Result String
scan_string (text s) = ok s
scan_string _ = scan_error

abbrev scan_int : Value → Result ℤ
scan_int (int n) = ok n
scan_int _ = scan_error

abbrev scan_time : Value → Result Time
scan_time (time t) = ok t
scan_time _ = scan_error

-- `sql.NullString`, then the empty string for NULL
abbrev scan_null_string : Value → Result String
scan_null_string (text s) = ok s
scan_null_string null = ok ""
scan_null_string _ = scan_error

abbrev column_count {ℓ} : {A : Type ℓ} → Result A
column_count = err (failure "sql: expected a different number of destination arguments in Scan")

unfoldable scan_client : List Value → Result Client
scan_client (id ∷ client_id ∷ hash ∷ limit ∷ tenant ∷ user ∷ created ∷ updated ∷ []) = do
  id ← scan_int id
  client_id ← scan_string client_id
  client_secret_hash ← scan_string hash
  rate_limit ← scan_int limit
  tenant_id ← scan_string tenant
  user_id ← scan_string user
  created_at ← scan_time created
  updated_at ← scan_time updated
  ok (record {
    id = id;
    client_id = client_id;
    client_secret_hash = client_secret_hash;
    rate_limit = rate_limit;
    tenant_id = tenant_id;
    user_id = user_id;
    created_at = created_at;
    updated_at = updated_at;
  })
scan_client _ = column_count

unfoldable scan_user : List Value → Result User
scan_user (id ∷ tenant ∷ email ∷ name ∷ phone ∷ created ∷ updated ∷ []) = do
  id ← scan_string id
  tenant_id ← scan_string tenant
  email ← scan_null_string email
  full_name ← scan_string name
  phone_number ← scan_string phone
  created_at ← scan_time created
  updated_at ← scan_time updated
  ok (record {
    id = id;
    tenant_id = tenant_id;
    email = email;
    full_name = full_name;
    phone_number = phone_number;
    created_at = created_at;
    updated_at = updated_at;
  })
scan_user _ = column_count

abbrev scan_role : List Value → Result String
scan_role (role ∷ []) = scan_string role
scan_role _ = column_count

-- The loop over the rows: the first role that does not scan ends it.
unfoldable scan_roles : List String → List (List Value) → Result (List String)
scan_roles roles [] = ok roles
scan_roles roles (row ∷ rest) = scan_role row >>= λ role. scan_roles (roles ++ role ∷ []) rest

-- `var roles []string` stays nil until the first append.
abbrev slice_of : List String → Slice String
slice_of [] = none
slice_of (r ∷ rs) = some (r ∷ rs)

abbrev rows_error : Option GoError → List String → Result (Slice String)
rows_error none roles = ok (slice_of roles)
rows_error (some e) roles = err e

-- `sql.ErrNoRows` is no error to the callers of the lookups: they return nil.
abbrev or_nil : {A : Type 0} → (List Value → Result A) → Result (List Value) → Result (Option A)
or_nil scan (ok row) = scan row >>= λ a. ok (some a)
or_nil scan (err no_rows) = ok none
or_nil scan (err redis_nil) = err redis_nil
or_nil scan (err (failure e)) = err (failure e)

abbrev scan_dummy : List Value → Result (Unit {0})
scan_dummy (v ∷ []) = scan_int v >>= λ _. ok tt
scan_dummy _ = column_count

abbrev pub select_client : String
select_client =
    "SELECT id, client_id, client_secret_hash, rate_limit, tenant_id, user_id, created_at, updated_at FROM clients WHERE client_id = $1"

abbrev pub update_client : String
update_client = "UPDATE clients SET updated_at = $1 WHERE client_id = $2"

abbrev pub select_user : String
select_user =
    "SELECT id, tenant_id, email, full_name, phone_number, created_at, updated_at FROM users WHERE id = $1"

abbrev pub select_roles : String
select_roles = "SELECT role FROM user_roles WHERE user_id = $1"

abbrev select_tenant : String
select_tenant = "SELECT 1 FROM tenants WHERE id = $1"

abbrev pub upsert_user : String
upsert_user =
    "INSERT INTO users (id, tenant_id, email, full_name, phone_number) VALUES ($1, $2, NULLIF($3, ''), $4, $5) ON CONFLICT (id) DO UPDATE SET tenant_id = EXCLUDED.tenant_id, email = NULLIF(EXCLUDED.email, ''), full_name = EXCLUDED.full_name, phone_number = EXCLUDED.phone_number"

abbrev pub delete_roles : String
delete_roles = "DELETE FROM user_roles WHERE user_id = $1"

abbrev pub insert_role : String
insert_role =
    "INSERT INTO user_roles (user_id, role) VALUES ($1, $2) ON CONFLICT (user_id, role) DO NOTHING"

module _ {Database Tx : Type 0} (sql : Sql Database Tx) where
  unfoldable pub get_client_by_id : String → Database → Result (Option Client)
  unfolding scan_client
  get_client_by_id client_id db =
      or_nil scan_client (sql.query_row select_client (text client_id ∷ []) db)

  unfoldable pub update_client_updated_at : Time → String → Database → Result (Unit {0}) × Database
  update_client_updated_at now client_id db =
      sql.exec update_client (time now ∷ text client_id ∷ []) db

  unfoldable pub get_user_by_id : String → Database → Result (Option User)
  unfolding scan_user
  get_user_by_id user_id db = or_nil scan_user (sql.query_row select_user (text user_id ∷ []) db)

  unfoldable pub get_user_roles : String → Database → Result (Slice String)
  unfolding scan_roles
  get_user_roles user_id db = sql.query select_roles (text user_id ∷ []) db >>= λ found.
      scan_roles [] found.rows >>= rows_error found.error

  unfoldable pub ensure_tenant_exists : String → Database → Result (Unit {0})
  ensure_tenant_exists tenant_id db =
      sql.query_row select_tenant (text tenant_id ∷ []) db >>= scan_dummy

  -- the loop that inserts the roles
  insert_roles : String → List String → Tx → Result (Unit {0}) × Tx
  insert_roles user_id [] tx = (ok tt, tx)
  insert_roles user_id (role ∷ rest) tx =
      let (inserted, tx') = sql.tx_exec insert_role (text user_id ∷ text role ∷ []) tx in
      elim inserted [ err e ↦ (err e, tx') | ok _ ↦ insert_roles user_id rest tx' ]

  -- nil roles leave the assignments alone; any others replace them
  replace_roles : String → Slice String → Tx → Result (Unit {0}) × Tx
  unfolding insert_roles
  replace_roles user_id none tx = (ok tt, tx)
  replace_roles user_id (some roles) tx =
      let (deleted, tx') = sql.tx_exec delete_roles (text user_id ∷ []) tx in
      elim deleted [ err e ↦ (err e, tx') | ok _ ↦ insert_roles user_id roles tx' ]

  -- The statements of the transaction, up to the first that fails.
  unfoldable pub upsert_statements : User → Slice String → Tx → Result (Unit {0}) × Tx
  unfolding replace_roles
  upsert_statements user roles tx =
      let (upserted, tx') =
        sql.tx_exec upsert_user
          (text user.id
            ∷ text user.tenant_id
            ∷ text user.email
            ∷ text user.full_name
            ∷ text user.phone_number
            ∷ [])
          tx in
      elim upserted [ err e ↦ (err e, tx') | ok _ ↦ replace_roles user.id roles tx' ]

  -- The deferred function rolls back after any error behind `BeginTx`, a failed commit included.
  finish_tx : Result (Unit {0}) → Tx → Database → Result (Unit {0}) × Database
  finish_tx (err e) tx db = (err e, (sql.rollback tx db).1)
  finish_tx (ok _) tx db =
      let (committed, db') = sql.commit tx db in
      elim committed [ err e ↦ (err e, (sql.rollback tx db').1) | ok _ ↦ (ok tt, db') ]

  unfoldable pub upsert_user_and_roles :
      User → Slice String → Database → Result (Unit {0}) × Database
  unfolding finish_tx
  upsert_user_and_roles user roles db =
      let (begun, db₁) = sql.begin_tx db in
      elim begun [
        | err e ↦ (err e, db₁)
        | ok tx ↦ let (done, tx') = upsert_statements user roles tx in finish_tx done tx' db₁
      ]

  -- `PostgresRepository` as a `Repository`
  abbrev pub postgres_repository : Repository Database
  postgres_repository = record {
    get_client_by_id = get_client_by_id;
    update_client_updated_at = update_client_updated_at;
    get_user_by_id = get_user_by_id;
    get_user_roles = get_user_roles;
    ensure_tenant_exists = ensure_tenant_exists;
    upsert_user_and_roles = upsert_user_and_roles;
  }
