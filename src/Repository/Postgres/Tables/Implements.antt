-- ===== src/Repository/Postgres/Tables/Implements.antt =====
-- internal/database/postgres.go: `PostgresRepository` obeys the laws of its interface.
use session_service.Common.{String, ◌≡◌, some, inl, inr, [], ◌∷◌, arith}
use session_service.Common.Time.{Time}
use session_service.Repository.Laws.{RepositoryLaws}
use session_service.Repository.Postgres.{
  Sql, text, time, update_client, update_client_updated_at, postgres_repository,
}
use session_service.Repository.Postgres.Transaction.{TransactionLaws}
use session_service.Repository.Postgres.Tables.{TableLaws}
use session_service.Repository.Postgres.Tables.Refined.{upsert_user_and_roles-Upserted}
use session_service.Repository.Postgres.Tables.ReadBack.{
  ReadLaws, get_user_by_id-row, get_user_roles-roles,
}

module _ {Database Tx : Type 0} (sql : Sql Database Tx) (laws : TransactionLaws sql)
    (table_laws : TableLaws sql laws) where
  -- The update of a client's time changes neither of the two tables.
  pub record ClientLaws : Type 0 where
    pub updated_client :
        (now : Time) (client_id : String) (db : Database)
        → table_laws.tables
            (laws.view (sql.exec update_client (time now ∷ text client_id ∷ []) db).1)
          ≡ table_laws.tables (laws.view db)

  pub postgres_repository-RepositoryLaws :
      ReadLaws sql laws table_laws → ClientLaws → RepositoryLaws (postgres_repository sql)
  unfolding update_client_updated_at
  postgres_repository-RepositoryLaws read_laws client_laws = record {
    tables = λ db. table_laws.tables (laws.view db);
    upserts = λ user roles db done.
        elim (upsert_user_and_roles-Upserted sql laws table_laws user roles db) [
          | inr (e, failed, _) ↦ absurd (cc)
          | inl (_, made) ↦ made
        ];
    touches = client_laws.updated_client;
    finds_user = λ id db row user held got.
        let (created, updated, shown) =
          get_user_by_id-row sql laws table_laws read_laws id db row (some user) held got in
        (created, updated, ground arith);
    finds_roles = get_user_roles-roles sql laws table_laws read_laws;
  }
