-- ===== src/Migrate/Run.antt =====
-- The methods of `Migrate for MssqlConnection` in sqlx-mssql-rs-core/src/migrate.rs, which run the
-- statements that Migrate writes. The elapsed time that `apply` and `revert` return is left out.
use sqlx_mssql_rs.Prelude.{ℕ, true, false, Option, none, List, Text}
use sqlx_mssql_rs.Prelude.Int.{ℤ}
use sqlx_mssql_rs.Error.{Error}
use sqlx_mssql_rs.Tds.{Tds}
use sqlx_mssql_rs.Connection.{Action, pure}
use sqlx_mssql_rs.Connection.Statements.{map_err, exec_sql, run_migration_pair}
use sqlx_mssql_rs.Connection.Queries.{list_migrations}
use sqlx_mssql_rs.Migrate.{
  Migration, insert_migration_sql, delete_migration_sql, create_schema_sql, create_table_sql,
  lock_sql, unlock_sql, list_applied_sql,
}

pub data MigrateError (E : Type 0) : Type 0 where
  execute : Error E → MigrateError E
  execute_migration : Error E → ℤ → MigrateError E

module _ {E P V M : Type 0} (t : Tds E P V M) (fuel : ℕ) where
  unfoldable pub create_schema_if_not_exists : Text → Action (MigrateError E) P (Unit {0})
  create_schema_if_not_exists schema_name c =
      map_err MigrateError.execute (exec_sql t fuel (create_schema_sql schema_name) c)

  unfoldable pub ensure_migrations_table : Text → Action (MigrateError E) P (Unit {0})
  ensure_migrations_table table_name c =
      map_err MigrateError.execute (exec_sql t fuel (create_table_sql table_name) c)

  unfoldable pub dirty_version : Text → Action (MigrateError E) P (Option ℤ)
  dirty_version _ = pure none

  unfoldable pub lock : Action (MigrateError E) P (Unit {0})
  lock c = map_err MigrateError.execute (exec_sql t fuel lock_sql c)

  unfoldable pub unlock : Action (MigrateError E) P (Unit {0})
  unlock c = map_err MigrateError.execute (exec_sql t fuel unlock_sql c)

  unfoldable pub apply : Text → Migration → Action (MigrateError E) P (Unit {0})
  apply table_name m c =
      let insert_sql = insert_migration_sql table_name m true in
      map_err (λ error. MigrateError.execute_migration error m.version)
        (run_migration_pair t fuel m.sql insert_sql m.no_tx c)

  unfoldable pub revert : Text → Migration → Action (MigrateError E) P (Unit {0})
  revert table_name m c =
      let delete_sql = delete_migration_sql table_name m.version in
      map_err (λ error. MigrateError.execute_migration error m.version)
        (run_migration_pair t fuel m.sql delete_sql m.no_tx c)

  unfoldable pub skip : Text → Migration → Action (MigrateError E) P (Unit {0})
  skip table_name m c =
      let insert_sql = insert_migration_sql table_name m false in
      map_err (λ error. MigrateError.execute_migration error m.version)
        (exec_sql t fuel insert_sql c)

module _ {E P V M W : Type 0} (t : Tds E P V M) (convert : V → M → W) (null : W)
    (as_i64 : W → Option ℤ) (as_bytes : W → Option (List ℕ)) where
  -- An `AppliedMigration` is its version and checksum.
  unfoldable pub list_applied_migrations : ℕ → Text → Action (MigrateError E) P (List (ℤ × List ℕ))
  list_applied_migrations fuel table_name c =
      map_err MigrateError.execute
        (list_migrations t convert null as_i64 as_bytes fuel (list_applied_sql table_name) c)
