-- ===== src/Tests/Migrations.antt =====
-- Runs and instances of migrate.rs's statements.
use sqlx_mssql_rs.Prelude.{true, false, some, [], ◌∷◌, ◌++◌, ◌≡◌, refl, arith, Text, codes}
use sqlx_mssql_rs.Prelude.Int.{pos}
use sqlx_mssql_rs.Prelude.Read.{read_delimited}
use sqlx_mssql_rs.Migrate.{
  escape_sql_bracket, escape_sql_string, split_table_name, quoted_table_name, Migration,
  insert_migration_sql, create_schema_sql,
}
use sqlx_mssql_rs.Migrate.ReadBack.{
  read_table, dotted, read_table-Splits, read_delimited-escape_string,
}
use sqlx_mssql_rs.Migrate.Record.{read_insert, read_insert-insert_migration_sql}
use sqlx_mssql_rs.Migrate.Schema.{
  read_exec, read_exec_broken, read_schema, read_schema-create_schema_sql,
}

abbrev table_name : Text
table_name = codes "my]schema._sqlx_migrations"

abbrev migration : Migration
migration = record {
  version = pos 20240102;
  description = codes "owner's table";
  migration_type = codes "ReversibleUp";
  sql = codes "INSERT INTO t VALUES ('x')";
  checksum = 0 ∷ 171 ∷ 255 ∷ [];
  no_tx = false;
}

quoted_name_run : quoted_table_name table_name ≡ codes "[my]]schema].[_sqlx_migrations]"
unfolding quoted_table_name split_table_name escape_sql_bracket
quoted_name_run = refl

read_delimited-escape_string_example :
    read_delimited b'\'' false (escape_sql_string (codes "it's") ++ b'\'' ∷ codes ", 1")
    ≡ some (codes "it's", codes ", 1")
read_delimited-escape_string_example =
    read_delimited-escape_string (codes "it's") (codes ", 1") refl

read_table-Splits_example :
    read_table (quoted_table_name table_name ++ codes " ORDER BY version")
    ≡ some ((codes "my]schema", codes "_sqlx_migrations"), codes " ORDER BY version")
read_table-Splits_example = read_table-Splits (codes " ORDER BY version") (dotted refl) refl

read_insert-insert_migration_sql_example :
    read_insert (insert_migration_sql table_name migration true)
    ≡ some (record {
      table = split_table_name table_name;
      version = pos 20240102;
      description = codes "owner's table";
      migration_type = codes "ReversibleUp";
      sql = codes "INSERT INTO t VALUES ('x')";
      checksum = 0 ∷ 171 ∷ 255 ∷ [];
      no_tx = false;
    })
read_insert-insert_migration_sql_example =
    read_insert-insert_migration_sql table_name migration true
      (omega arith, (omega arith, (omega arith, tt)))

read_schema-create_schema_sql_example :
    read_schema (create_schema_sql (codes "a]b"))
    ≡ some ((codes "a]b", codes "a]b"), ([], codes ")"))
read_schema-create_schema_sql_example = read_schema-create_schema_sql (codes "a]b") refl

read_exec_broken_example :
    read_exec (create_schema_sql (codes "o" ++ b'\'' ∷ codes "brien"))
    ≡ some (
      codes "CREATE SCHEMA [" ++ escape_sql_bracket (codes "o"),
      escape_sql_bracket (codes "brien") ++ codes "]')",
    )
read_exec_broken_example = read_exec_broken (codes "o") (codes "brien") refl refl
