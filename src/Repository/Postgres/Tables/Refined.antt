-- ===== src/Repository/Postgres/Tables/Refined.antt =====
-- internal/database/postgres.go: `UpsertUserAndRoles` does to the tables what it promises.
use session_service.Common.{
  String, ◌||◌, ◌&&◌, ◌≡◌, ◌∙◌, refl, sym, ap, none, some, List, [], ◌∷◌, Result, ok, err, Slice,
  Result-cases, inl, inr, ◌==◌, if◌then◌else◌, arith, ◌⊎◌, GoError,
}
use session_service.Models.{User}
use session_service.Repository.Tables.{Tables, Upserted, is_member, roles_after}
use session_service.Repository.Postgres.{
  Sql, text, upsert_user, delete_roles, insert_role, insert_roles, replace_roles, upsert_statements,
  upsert_user_and_roles,
}
use session_service.Repository.Postgres.Transaction.{
  TransactionLaws, Atomic, refused, committed, upsert_user_and_roles-Atomic,
}
use session_service.Repository.Postgres.Tables.{TableLaws, user_args}

module _ {Database Tx : Type 0} (sql : Sql Database Tx) (laws : TransactionLaws sql)
    (table_laws : TableLaws sql laws) where
  abbrev tables_in : Tx → Tables
  tables_in tx = table_laws.tables (laws.pending tx)

  -- The loop adds its roles to the user's, and changes nothing else.
  insert_roles-tables :
      (user_id : String) (roles : List String) (tx : Tx)
      → (insert_roles sql user_id roles tx).0 ≡ ok tt
      → ((id : String)
          → (tables_in (insert_roles sql user_id roles tx).1).user_row id
            ≡ (tables_in tx).user_row id)
        × ((id role : String)
            → (tables_in (insert_roles sql user_id roles tx).1).has_role id role
              ≡ (user_id == id && is_member role roles || (tables_in tx).has_role id role))
  unfolding insert_roles
  insert_roles-tables user_id [] tx e = (λ id. refl, λ id role. ground arith)
  insert_roles-tables user_id (r ∷ rest) tx e =
      elim (Result-cases (sql.tx_exec insert_role (text user_id ∷ text r ∷ []) tx).0) [
        | inr (_, failed) ↦ absurd (ground arith)
        | inl (_, done) ↦
            let tx' = (sql.tx_exec insert_role (text user_id ∷ text r ∷ []) tx).1 in
            let added = table_laws.inserted user_id r tx done in
            let (rows, others) = insert_roles-tables user_id rest tx' (ground arith) in
            let goes : insert_roles sql user_id (r ∷ rest) tx ≡ insert_roles sql user_id rest tx' =
              rw (done, insert_roles) refl in
            rw goes (
              λ id. rows id ∙ ap (λ (t : Tables). t.user_row id) added,
              λ id role.
                  others id role
                  ∙ ap (λ (t : Tables). user_id == id && is_member role rest || t.has_role id role)
                      added
                  ∙ ground arith,
            )
      ]

  -- The assignments of the user are replaced, if there are roles to replace them.
  replace_roles-tables :
      (user_id : String) (roles : Slice String) (tx : Tx)
      → (replace_roles sql user_id roles tx).0 ≡ ok tt
      → ((id : String)
          → (tables_in (replace_roles sql user_id roles tx).1).user_row id
            ≡ (tables_in tx).user_row id)
        × ((id role : String)
            → (tables_in (replace_roles sql user_id roles tx).1).has_role id role ≡ (
                if user_id == id
                then roles_after roles ((tables_in tx).has_role id) role
                else (tables_in tx).has_role id role))
  unfolding replace_roles
  replace_roles-tables user_id none tx e = (λ id. refl, λ id role. ground arith)
  replace_roles-tables user_id (some roles) tx e =
      elim (Result-cases (sql.tx_exec delete_roles (text user_id ∷ []) tx).0) [
        | inr (_, failed) ↦ absurd (ground arith)
        | inl (_, done) ↦
            let tx' = (sql.tx_exec delete_roles (text user_id ∷ []) tx).1 in
            let cleared = table_laws.deleted user_id tx done in
            let (rows, others) = insert_roles-tables user_id roles tx' (ground arith) in
            let goes : replace_roles sql user_id (some roles) tx
                ≡ insert_roles sql user_id roles tx' =
              rw (done, replace_roles) refl in
            rw goes (
              λ id. rows id ∙ ap (λ (t : Tables). t.user_row id) cleared,
              λ id role.
                  others id role
                  ∙ ap (λ (t : Tables). user_id == id && is_member role roles || t.has_role id role)
                      cleared
                  ∙ ground arith,
            )
      ]

  upsert_statements-Upserted :
      (user : User) (roles : Slice String) (tx : Tx)
      → (upsert_statements sql user roles tx).0 ≡ ok tt
      → Upserted user roles (tables_in tx) (tables_in (upsert_statements sql user roles tx).1)
  unfolding upsert_statements
  upsert_statements-Upserted user roles tx e =
      elim (Result-cases (sql.tx_exec upsert_user (user_args user) tx).0) [
        | inr (_, failed) ↦ absurd (ground arith)
        | inl (_, done) ↦
            let tx' = (sql.tx_exec upsert_user (user_args user) tx).1 in
            let written = table_laws.upserted user tx done in
            let (rows, others) = replace_roles-tables user.id roles tx' (ground arith) in
            let goes : upsert_statements sql user roles tx ≡ replace_roles sql user.id roles tx' =
              rw (done, upsert_statements) refl in
            rw goes (record {
              user_rows = λ id. rows id ∙ ap (λ (t : Tables). t.user_row id) written;
              assignments = λ id role.
                  others id role
                  ∙ ap
                      (λ (t : Tables).
                        if user.id == id
                        then roles_after roles (t.has_role id) role
                        else t.has_role id role)
                      written;
            })
      ]

  -- How the call ended: without error and the tables as they should be, or with one and no change.
  abbrev pub Replaced : User → Slice String → Database → Result (Unit {0}) × Database → Type 0
  Replaced user roles db result =
      ((result.0 ≡ ok tt)
        × Upserted user roles (table_laws.tables (laws.view db))
            (table_laws.tables (laws.view result.1)))
      ⊎ ((e : GoError) × (result.0 ≡ err e) × (laws.view result.1 ≡ laws.view db))

  -- With transactions and statements as databases document them: after an upsert without error, others
  -- see the user with the given details, exactly the given roles if they were given and the old ones
  -- if not, and everything else as it was; after an error they see what they saw.
  pub upsert_user_and_roles-Upserted :
      (user : User) (roles : Slice String) (db : Database)
      → Replaced user roles db (upsert_user_and_roles sql user roles db)
  upsert_user_and_roles-Upserted user roles db =
      by_outcome (upsert_user_and_roles sql user roles db)
        (upsert_user_and_roles-Atomic sql laws user roles db)
    where
      by_outcome :
          (result : Result (Unit {0}) × Database)
          → Atomic sql laws user roles db result
          → Replaced user roles db result
      by_outcome _ (refused {e} same) = inr (e, refl, same)
      by_outcome _ (committed {tx} {tx'} {db'} from ran shown) =
          let made = upsert_statements-Upserted user roles tx (ap (λ r. r.0) ran) in
          inl (refl, rw (shown, sym from) (rw ran at made))
