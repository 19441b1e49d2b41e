-- ===== src/Tests/Runs.antt =====
-- Instances of the theorems on statements, migrations and dropped transactions, against the server of
-- Tests/Transactions.
use sqlx_mssql_rs.Prelude.{false, [], ◌∷◌, ◌≡◌, refl, arith, Text, codes}
use sqlx_mssql_rs.Prelude.Int.{pos}
use sqlx_mssql_rs.Connection.{
  ok, MssqlConnection, drain_pending, commit_transaction, queue_rollback,
}
use sqlx_mssql_rs.Connection.Ends.{Ends}
use sqlx_mssql_rs.Connection.Nested.{at}
use sqlx_mssql_rs.Connection.Represents.{Represents}
use sqlx_mssql_rs.Connection.Statements.{exec_sql}
use sqlx_mssql_rs.Connection.Execute.{Bounded, Broken, exec_sql-Ends}
use sqlx_mssql_rs.Connection.Dropped.{Kept, queue_rollback-Ends}
use sqlx_mssql_rs.Migrate.{Migration}
use sqlx_mssql_rs.Tests.Transactions.{client, server, two_open, two, two_open-Represents}

abbrev idle : MssqlConnection Unit
idle = record { client = []; transaction_depth = 0; needs_reset = false; pending_rollback = false }

client-Bounded : Bounded client 1
client-Bounded log sql = (1, omega arith, refl)

exec_sql-Ends_example :
    Ends
      (λ _ c.
        Represents client server c (at [] ((codes "c" ∷ codes "b" ∷ []) ∷ (codes "a" ∷ []) ∷ [])))
      (λ c. Broken client server c two)
      (exec_sql client 1 (codes "c") two_open)
exec_sql-Ends_example =
    exec_sql-Ends client server 1 (codes "c") two_open [] (codes "b" ∷ []) ((codes "a" ∷ []) ∷ [])
      client-Bounded refl two_open-Represents

queue_rollback-Ends_example :
    (commit_transaction client (queue_rollback two_open) ≡ (ok tt, queue_rollback two_open))
    × Ends
        (λ _ c. Represents client server c (at [] []))
        (Kept client server [])
        (drain_pending client (queue_rollback two_open))
queue_rollback-Ends_example = queue_rollback-Ends client server two_open two two_open-Represents

abbrev migration : Migration
migration = record {
  version = pos 7;
  description = codes "first";
  migration_type = codes "ReversibleUp";
  sql = codes "CREATE TABLE t (a INT)";
  checksum = 1 ∷ 2 ∷ [];
  no_tx = false;
}

abbrev table_name : Text
table_name = codes "_sqlx_migrations"
