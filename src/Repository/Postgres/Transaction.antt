-- ===== src/Repository/Postgres/Transaction.antt =====
-- internal/database/postgres.go: `UpsertUserAndRoles` is atomic.
use session_service.Common.{
  String, ◌≡◌, ◌∙◌, refl, Result, ok, err, GoError, Slice, Result-cases, inl, inr,
}
use session_service.Models.{User}
use session_service.Repository.Postgres.{Sql, upsert_statements, finish_tx, upsert_user_and_roles}

-- What others see of a database, and what a transaction would make of it. A transaction shows nothing
-- before its commit; one that is rolled back, or whose commit is refused, shows nothing at all.
pub record TransactionLaws {Database Tx : Type 0} (sql : Sql Database Tx) : Type 1 where
  pub View : Type 0
  pub view : Database → View
  pub pending : Tx → View
  pub begin-view : (db : Database) → view (sql.begin_tx db).1 ≡ view db
  pub begin-pending : (db : Database) {tx : Tx} → (sql.begin_tx db).0 ≡ ok tx → pending tx ≡ view db
  pub rollback-view : (tx : Tx) (db : Database) → view (sql.rollback tx db).1 ≡ view db
  pub commit-ok :
      (tx : Tx) (db : Database)
      → (sql.commit tx db).0 ≡ ok tt
      → view (sql.commit tx db).1 ≡ pending tx
  pub commit-err :
      (tx : Tx) (db : Database) {e : GoError}
      → (sql.commit tx db).0 ≡ err e
      → view (sql.commit tx db).1 ≡ view db

module _ {Database Tx : Type 0} (sql : Sql Database Tx) (laws : TransactionLaws sql) where
  -- How the call ended: refused, with what others see unchanged, or committed, with what others see
  -- being what every one of its statements made in the transaction.
  pub data Atomic (user : User) (roles : Slice String) (db : Database)
      : Result (Unit {0}) × Database → Type 0 where
    refused :
        {e : GoError} {db' : Database}
        → laws.view db' ≡ laws.view db
        → Atomic user roles db (err e, db')
    committed :
        {tx tx' : Tx} {db' : Database}
        → laws.pending tx ≡ laws.view db
        → upsert_statements sql user roles tx ≡ (ok tt, tx')
        → laws.view db' ≡ laws.pending tx'
        → Atomic user roles db (ok tt, db')

  finish_tx-Atomic :
      (user : User) (roles : Slice String) (db db₁ : Database) (tx tx' : Tx)
      (done : Result (Unit {0}))
      → laws.view db₁ ≡ laws.view db
      → laws.pending tx ≡ laws.view db
      → upsert_statements sql user roles tx ≡ (done, tx')
      → Atomic user roles db (finish_tx sql done tx' db₁)
  unfolding finish_tx
  finish_tx-Atomic user roles db db₁ tx tx' (err e) same from ran =
      refused (laws.rollback-view tx' db₁ ∙ same)
  finish_tx-Atomic user roles db db₁ tx tx' (ok tt) same from ran =
      elim (Result-cases (sql.commit tx' db₁).0) [
        | inl (_, e) ↦ rw (e, finish_tx) (committed from ran (laws.commit-ok tx' db₁ e))
        | inr (_, e) ↦
            rw (e, finish_tx)
              (refused
                (laws.rollback-view tx' (sql.commit tx' db₁).1 ∙ laws.commit-err tx' db₁ e ∙ same))
      ]

  -- Whatever fails, the upsert of a user with roles is all or nothing: an error leaves what others
  -- see as it was, and success shows all that the statements made of it.
  pub upsert_user_and_roles-Atomic :
      (user : User) (roles : Slice String) (db : Database)
      → Atomic user roles db (upsert_user_and_roles sql user roles db)
  unfolding upsert_user_and_roles
  upsert_user_and_roles-Atomic user roles db = elim (Result-cases (sql.begin_tx db).0) [
    | inr (_, e) ↦ rw (e, upsert_user_and_roles) (refused (laws.begin-view db))
    | inl (tx, e) ↦
        rw (e, upsert_user_and_roles)
          (finish_tx-Atomic user roles db (sql.begin_tx db).1 tx
            (upsert_statements sql user roles tx).1 (upsert_statements sql user roles tx).0
            (laws.begin-view db) (laws.begin-pending db e) refl)
  ]
