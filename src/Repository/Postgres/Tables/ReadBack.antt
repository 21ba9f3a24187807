-- ===== src/Repository/Postgres/Tables/ReadBack.antt =====
-- internal/database/postgres.go: what the lookups read of a user that was written.
use session_service.Common.{
  String, ◌≡◌, ◌∙◌, refl, sym, ap, Option, none, some, List, [], ◌∷◌, ◌++◌, ok, err, Slice,
  Result-cases, Option-cases, inl, inr, arith, elements, no_rows, redis_nil, failure,
}
use session_service.Common.Time.{Time}
use mathlib.Core.List.{append_assoc, append-nil}
use session_service.Models.{User}
use session_service.Repository.Tables.{user_with, Tables, UserRow, is_member}
use session_service.Repository.Postgres.{
  Sql, Value, Rows, text, time, select_user, select_roles, scan_user, scan_roles, slice_of,
  get_user_by_id, get_user_roles,
}
use session_service.Repository.Postgres.Columns.{column}
use session_service.Repository.Postgres.Transaction.{TransactionLaws}
use session_service.Repository.Postgres.Tables.{TableLaws}

-- A row of `users`, as the lookup selects it.
abbrev pub columns : String → UserRow → Time → Time → List Value
columns id row created updated =
    text id
    ∷ text row.tenant_id
    ∷ column row.email
    ∷ text row.full_name
    ∷ text row.phone_number
    ∷ time created
    ∷ time updated
    ∷ []

abbrev pub role_rows : List String → List (List Value)
role_rows [] = []
role_rows (role ∷ rest) = (text role ∷ []) ∷ role_rows rest

elements-slice_of : (roles : List String) → elements (slice_of roles) ≡ roles
elements-slice_of [] = refl
elements-slice_of (role ∷ rest) = refl

module _ {Database Tx : Type 0} (sql : Sql Database Tx) (laws : TransactionLaws sql)
    (table_laws : TableLaws sql laws) where
  abbrev tables_of : Database → Tables
  tables_of db = table_laws.tables (laws.view db)

  -- What the lookups select, if the database answers them.
  pub record ReadLaws : Type 0 where
    pub reads_user :
        (id : String) (db : Database) (row : List Value)
        → sql.query_row select_user (text id ∷ []) db ≡ ok row
        → (found : UserRow) × (created : Time) × (updated : Time) × ((tables_of db).user_row id
            ≡ some found)
          × (row ≡ columns id found created updated)
    pub finds_none :
        (id : String) (db : Database)
        → sql.query_row select_user (text id ∷ []) db ≡ err no_rows
        → (tables_of db).user_row id ≡ none
    pub reads_roles :
        (id : String) (db : Database) (found : Rows)
        → sql.query select_roles (text id ∷ []) db ≡ ok found
        → (roles : List String) × (found.rows ≡ role_rows roles)
          × (found.error ≡ none
              → (role : String) → is_member role roles ≡ (tables_of db).has_role id role)

  module _ (read_laws : ReadLaws) where
    scan_user-columns :
        (id : String) (row : UserRow) (created updated : Time)
        → scan_user (columns id row created updated) ≡ ok (user_with id row created updated)
    unfolding scan_user
    scan_user-columns id row created updated =
        elim row.email
          as (λ email.
            scan_user (
              text id
              ∷ text row.tenant_id
              ∷ column email
              ∷ text row.full_name
              ∷ text row.phone_number
              ∷ time created
              ∷ time updated
              ∷ [])
            ≡ ok (user_with id (record row { email = email }) created updated)) [
              | none ↦ refl
              | some s ↦ refl
            ]

    -- If the database answers, the lookup finds the user as the table has it.
    pub get_user_by_id-row :
        (id : String) (db : Database) (row : UserRow) (o : Option User)
        → (tables_of db).user_row id ≡ some row
        → get_user_by_id sql id db ≡ ok o
        → (created : Time) × (updated : Time) × (o ≡ some (user_with id row created updated))
    unfolding get_user_by_id
    get_user_by_id-row id db row o held got =
        elim (Result-cases (sql.query_row select_user (text id ∷ []) db)) [
          | inl (cols, answered) ↦
              let (found, created, updated, has, same) = read_laws.reads_user id db cols answered in
              let same_row : found ≡ row = ground (arith) in
              let scanned : scan_user cols ≡ ok (user_with id row created updated) =
                ap scan_user (same ∙ ap (λ (r : UserRow). columns id r created updated) same_row)
                ∙ scan_user-columns id row created updated in
              (created, updated, ground arith)
          | inr (no_rows, missing) ↦
              absurd (let none_there = read_laws.finds_none id db missing in ground arith)
          | inr (redis_nil, failed) ↦ absurd (ground arith)
          | inr (failure m, failed) ↦ absurd (ground arith)
        ]

    scan_roles-role_rows :
        (before roles : List String) → scan_roles before (role_rows roles) ≡ ok (before ++ roles)
    unfolding scan_roles
    scan_roles-role_rows before [] = ap ok (sym (append-nil before))
    scan_roles-role_rows before (role ∷ rest) =
        scan_roles-role_rows (before ++ role ∷ []) rest
        ∙ ap ok (append_assoc before (role ∷ []) rest)

    pub get_user_roles-roles :
        (id : String) (db : Database) (found : Slice String)
        → get_user_roles sql id db ≡ ok found
        → (role : String) → is_member role (elements found) ≡ (tables_of db).has_role id role
    unfolding get_user_roles
    get_user_roles-roles id db found got role =
        elim (Result-cases (sql.query select_roles (text id ∷ []) db)) [
          | inr (e, failed) ↦ absurd (ground arith)
          | inl (answer, answered) ↦
              let (roles, selected, complete) = read_laws.reads_roles id db answer answered in
              let scanned : scan_roles [] answer.rows ≡ ok roles =
                rw selected (scan_roles-role_rows [] roles) in
              elim (Option-cases answer.error) [
                | inr (e, broken) ↦ absurd (ground arith)
                | inl unbroken ↦
                    let all : found ≡ slice_of roles = ground arith in
                    ap (λ (f : Slice String). is_member role (elements f)) all
                    ∙ ap (is_member role) (elements-slice_of roles)
                    ∙ complete unbroken role
              ]
        ]
