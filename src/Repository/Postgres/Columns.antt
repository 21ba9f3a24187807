-- ===== src/Repository/Postgres/Columns.antt =====
-- internal/database/postgres.go: which rows a lookup can read.
use session_service.Common.{String, ◌≡◌, ◌↔◌, refl, none, Option, some, [], ◌∷◌, ok, arith}
use session_service.Common.Int.{ℤ}
use session_service.Common.Time.{Time}
use session_service.Models.{Client}
use session_service.Repository.Postgres.{
  Sql, Value, null, text, int, time, select_client, get_client_by_id,
}

-- Tenant and user of a client are nullable columns of the schema.
abbrev pub column : Option String → Value
column Option.none = null
column (some s) = text s

module _ {Database Tx : Type 0} (sql : Sql Database Tx) where
  -- A client is found exactly if its tenant and its user are both set: a row whose `tenant_id` or
  -- `user_id` is NULL, as the schema allows, makes the lookup fail.
  pub get_client_by_id-nullable :
      (client_id id_text hash : String) (id limit : ℤ) (tenant user : Option String)
      (created updated : Time) (db : Database)
      → sql.query_row select_client (text client_id ∷ []) db
        ≡ ok (
            int id
            ∷ text id_text
            ∷ text hash
            ∷ int limit
            ∷ column tenant
            ∷ column user
            ∷ time created
            ∷ time updated
            ∷ [])
      → ((c : Client) × (get_client_by_id sql client_id db ≡ ok (some c)))
        ↔ ((t : String) × (u : String) × (tenant ≡ some t) × (user ≡ some u))
  unfolding get_client_by_id
  get_client_by_id-nullable client_id id_text hash id limit none user created updated db row =
      (λ (c, e). absurd (ground arith), λ (t, u, e, f). cc)
  get_client_by_id-nullable client_id id_text hash id limit (some t) none created updated db row =
      (λ (c, e). absurd (ground arith), λ (t, u, e, f). cc)
  get_client_by_id-nullable client_id id_text hash id limit (some t) (some u) created updated db
        row =
      (
        λ _. (t, u, refl, refl),
        λ _. (
          record {
            id = id;
            client_id = id_text;
            client_secret_hash = hash;
            rate_limit = limit;
            tenant_id = t;
            user_id = u;
            created_at = created;
            updated_at = updated;
          },
          ground arith,
        ),
      )
