-- ===== src/Examples/Tables.antt =====
-- An upsert of a user, over two tables in memory.
use session_service.Common.{
  String, Bool, ◌≡◌, refl, Option, none, some, List, [], ◌∷◌, ok, err, no_rows, ◌==◌, if◌then◌else◌,
  Bool-cases, Option-cases, inl, inr, arith, ap,
}
use session_service.Common.Int.{pos}
use mathlib.Core.Path.{fun_ext}
use session_service.Repository.Tables.{Tables, UserRow, is_member, null_if_empty}
use session_service.Repository.Postgres.{
  Sql, Value, text, upsert_user_and_roles, select_user, select_client, int, time,
}
use session_service.Repository.Postgres.Transaction.{TransactionLaws}
use session_service.Repository.Postgres.Tables.{TableLaws}
use session_service.Repository.Postgres.Tables.Refined.{Replaced, upsert_user_and_roles-Upserted}
use session_service.Repository.Postgres.Tables.ReadBack.{ReadLaws, columns, role_rows}
use session_service.Repository.Postgres.Tables.Implements.{ClientLaws}
use session_service.Examples.Services.{user}

-- The rows of the users, and the roles of each.
pub record Memory : Type 0 where
  pub users : String → Option UserRow
  pub roles : String → List String

-- The three statements of the upsert, told apart by their parameters.
abbrev executed : List Value → Memory → Memory
executed (text id ∷ text tenant ∷ text email ∷ text name ∷ text phone ∷ []) m = record {
  users = λ other.
      if id == other
      then some (record {
        tenant_id = tenant;
        email = null_if_empty email;
        full_name = name;
        phone_number = phone;
      })
      else m.users other;
  roles = m.roles;
}
executed (text id ∷ text role ∷ []) m = record {
  users = m.users;
  roles = λ other. if id == other then role ∷ m.roles other else m.roles other;
}
executed (text id ∷ []) m = record {
  users = m.users;
  roles = λ other. if id == other then [] else m.roles other;
}
executed _ m = m

abbrev key : List Value → String
key (text id ∷ rest) = id
key _ = ""

abbrev pub tables_sql : Sql Memory Memory
tables_sql = record {
  query_row = λ statement args m.
      if statement == select_user
      then (elim (m.users (key args)) [
        | none ↦ err no_rows
        | some row ↦ ok (columns (key args) row 0 0)
      ])
      else if statement == select_client
      then ok (
          int (pos 1)
          ∷ text (key args)
          ∷ text "h1"
          ∷ int (pos 100)
          ∷ text "t1"
          ∷ text "u1"
          ∷ time 0
          ∷ time 0
          ∷ [])
      else ok (int (pos 1) ∷ []);
  query = λ statement args m. ok (record { rows = role_rows (m.roles (key args)); error = none });
  exec = λ statement args m. (ok tt, m);
  begin_tx = λ m. (ok m, m);
  tx_exec = λ statement args m. (ok tt, executed args m);
  commit = λ tx m. (ok tt, tx);
  rollback = λ tx m. (ok tt, m);
}

pub begun : {m tx : Memory} → ok m ≡ ok tx → tx ≡ m
begun e = cc

abbrev pub transactions : TransactionLaws tables_sql
transactions = record {
  View = Memory;
  view = λ m. m;
  pending = λ tx. tx;
  begin-view = λ m. refl;
  begin-pending = λ m {tx} e. begun e;
  rollback-view = λ tx m. refl;
  commit-ok = λ tx m e. refl;
  commit-err = λ tx m {e} failed. absurd (cc);
}

abbrev tables : Memory → Tables
tables m = record { user_row = m.users; has_role = λ id role. is_member role (m.roles id) }

pub same_tables :
    (rows : String → Option UserRow) {f g : String → String → Bool}
    → ((id role : String) → f id role ≡ g id role)
    → ◌≡◌ {A = Tables}
        (record { user_row = rows; has_role = f })
        (record { user_row = rows; has_role = g })
same_tables rows h =
    ap (λ (f : String → String → Bool). record { user_row = rows; has_role = f })
      (fun_ext λ id. fun_ext (h id))

abbrev pub table_laws : TableLaws tables_sql transactions
table_laws = record {
  tables = tables;
  upserted = λ user m e. refl;
  deleted = λ user_id m e. same_tables m.users λ id role. elim (Bool-cases (user_id == id)) [
    | inl same ↦ rw same refl
    | inr other ↦ rw other refl
  ];
  inserted = λ user_id role m e. same_tables m.users λ id r. elim (Bool-cases (user_id == id)) [
    | inl same ↦ rw same refl
    | inr other ↦ rw other refl
  ];
}

pub read_laws : ReadLaws tables_sql transactions table_laws
read_laws = record {
  reads_user = λ id m row answered. elim (Option-cases (m.users id)) [
    | inl missing ↦ absurd (ground arith)
    | inr (found, has) ↦ (found, 0, 0, has, ground arith)
  ];
  finds_none = λ id m missing. elim (Option-cases (m.users id)) [
    | inl none_there ↦ none_there
    | inr (found, has) ↦ absurd (ground arith)
  ];
  reads_roles = λ id m found answered. (m.roles id, ground arith, λ unbroken role. refl);
}

abbrev pub empty : Memory
empty = record { users = λ id. none; roles = λ id. "old" ∷ [] }

abbrev written : Memory
written = (upsert_user_and_roles tables_sql user (some ("admin" ∷ [])) empty).1

upsert_user_and_roles-Upserted_example :
    Replaced tables_sql transactions table_laws user
      (some ("admin" ∷ []))
      empty
      (upsert_user_and_roles tables_sql user (some ("admin" ∷ [])) empty)
upsert_user_and_roles-Upserted_example =
    upsert_user_and_roles-Upserted tables_sql transactions table_laws user (some ("admin" ∷ []))
      empty

pub client_laws : ClientLaws tables_sql transactions table_laws
client_laws = record { updated_client = λ now client_id m. refl }
