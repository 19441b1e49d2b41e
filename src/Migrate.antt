-- ===== src/Migrate.antt =====
-- sqlx-mssql-rs-core/src/migrate.rs: the T-SQL texts that migrations send. Migrate/Run runs them.
pub mod ReadBack
pub mod Record
pub mod Schema
pub mod Run
pub mod Atomic
use sqlx_mssql_rs.Prelude.{
  ℕ, suc, ◌+◌, ◌/◌, ◌%◌, Bool, Option, none, some, List, [], ◌∷◌, ◌++◌, Text, codes, take, drop,
  find, ltb, if◌then◌else◌, ◌==◌,
}
use sqlx_mssql_rs.Prelude.Int.{ℤ, display}

-- `str::replace` of a character by a text.
abbrev pub replace_char : ℕ → Text → Text → Text
replace_char q by [] = []
replace_char q by (c ∷ cs) = if c == q then by ++ replace_char q by cs else c ∷ replace_char q by cs

unfoldable pub escape_sql_bracket : Text → Text
escape_sql_bracket value = replace_char b']' (codes "]]") value

unfoldable pub escape_sql_string : Text → Text
escape_sql_string value = replace_char b'\'' (codes "''") value

-- One digit of `{:02X}`.
abbrev pub upper_hex : ℕ → ℕ
upper_hex d = if ltb d 10 then 48 + d else 55 + d

abbrev pub hex_bytes : List ℕ → Text
hex_bytes [] = []
hex_bytes (byte ∷ bytes) = upper_hex (byte / 16) ∷ upper_hex (byte % 16) ∷ hex_bytes bytes

-- Of a slice of bytes, each below 256.
unfoldable pub format_hex : List ℕ → Text
format_hex bytes = codes "0x" ++ hex_bytes bytes

unfoldable pub split_table_name : Text → Text × Text
split_table_name table_name = elim (find (codes ".") table_name) [
  | some dot ↦ (take dot table_name, drop (dot + 1) table_name)
  | none ↦ ([], table_name)
]

abbrev pub bracketed : Text → Text
bracketed name = codes "[" ++ (name ++ codes "]")

-- The `if` of `quoted_table_name`, on the schema.
abbrev pub quoted_parts : Text → Text → Text
quoted_parts [] table = bracketed (escape_sql_bracket table)
quoted_parts schema table =
    bracketed (escape_sql_bracket schema) ++ (codes "." ++ bracketed (escape_sql_bracket table))

unfoldable pub quoted_table_name : Text → Text
quoted_table_name table_name =
    let (schema, table) = split_table_name table_name in quoted_parts schema table

-- What the texts use of sqlx's `Migration`. `migration_type` is the enum's `{:?}` form.
pub record Migration : Type 0 where
  pub version : ℤ
  pub description : Text
  pub migration_type : Text
  pub sql : Text
  pub checksum : List ℕ
  pub no_tx : Bool

-- `N'...'` around an escaped value.
unfoldable pub national : Text → Text
national value = codes "N'" ++ (escape_sql_string value ++ codes "'")

abbrev pub flag_digit : Bool → Text
flag_digit b = if b then codes "1" else codes "0"

unfoldable pub insert_migration_sql : Text → Migration → Bool → Text
insert_migration_sql table_name m record_sql =
    let sql_text = if record_sql then national m.sql else codes "N''" in
    codes "INSERT INTO "
    ++ (quoted_table_name table_name
        ++ (codes " (version, description, migration_type, sql, checksum, no_tx) VALUES ("
            ++ (display m.version
                ++ (codes ", "
                    ++ (national m.description
                        ++ (codes ", "
                            ++ (national m.migration_type
                                ++ (codes ", "
                                    ++ (sql_text
                                        ++ (codes ", "
                                            ++ (format_hex m.checksum
                                                ++ (codes ", "
                                                    ++ (flag_digit m.no_tx ++ codes ")")))))))))))))

-- `delete_sql` of `revert`.
unfoldable pub delete_migration_sql : Text → ℤ → Text
delete_migration_sql table_name version =
    codes "DELETE FROM "
    ++ (quoted_table_name table_name ++ (codes " WHERE version = " ++ display version))

-- `CREATE DATABASE` of `create_database`.
unfoldable pub create_database_sql : Text → Text
create_database_sql database = codes "CREATE DATABASE " ++ bracketed (escape_sql_bracket database)

-- `DROP DATABASE` of `drop_database`.
unfoldable pub drop_database_sql : Text → Text
drop_database_sql database =
    codes "DROP DATABASE IF EXISTS " ++ bracketed (escape_sql_bracket database)

-- The count of `database_exists`.
unfoldable pub database_count_sql : Text → Text
database_count_sql database =
    codes "SELECT COUNT(*) FROM sys.databases WHERE name = " ++ national database

-- The statement of `create_schema_if_not_exists`.
unfoldable pub create_schema_sql : Text → Text
create_schema_sql schema_name =
    codes "IF NOT EXISTS (SELECT * FROM sys.schemas WHERE name = "
    ++ (national schema_name
        ++ (codes ") EXEC('CREATE SCHEMA [" ++ (escape_sql_bracket schema_name ++ codes "]')")))

-- `schema_condition` of `ensure_migrations_table`.
abbrev pub schema_condition : Text → Text
schema_condition [] = codes "TABLE_SCHEMA = 'dbo'"
schema_condition schema = codes "TABLE_SCHEMA = " ++ national schema

-- The statement of `ensure_migrations_table`.
unfoldable pub create_table_sql : Text → Text
create_table_sql table_name =
    let (schema, table) = split_table_name table_name in
    codes "IF NOT EXISTS ( SELECT * FROM INFORMATION_SCHEMA.TABLES WHERE TABLE_NAME = "
    ++ (national table
        ++ (codes " AND "
            ++ (schema_condition schema
                ++ (codes " ) CREATE TABLE "
                    ++ (quoted_table_name table_name
                        ++ (codes " ( version        BIGINT         NOT NULL PRIMARY KEY, "
                            ++ (codes "description    NVARCHAR(MAX)  NOT NULL, "
                                ++ (codes "migration_type NVARCHAR(20)   NOT NULL, "
                                    ++ (codes "sql            NVARCHAR(MAX)  NOT NULL, "
                                        ++ (codes "checksum       VARBINARY(8000) NOT NULL, "
                                            ++ (codes
                                                  "executed_at    DATETIME2      NOT NULL DEFAULT GETUTCDATE(), "
                                                ++ codes
                                                    "no_tx          BIT            NOT NULL DEFAULT 0 )")))))))))))

-- The statement of `list_applied_migrations`.
unfoldable pub list_applied_sql : Text → Text
list_applied_sql table_name =
    codes "SELECT version, checksum FROM "
    ++ (quoted_table_name table_name ++ codes " ORDER BY version")

unfoldable pub lock_sql : Text
lock_sql =
    codes "EXEC sp_getapplock @Resource = N'sqlx_migration_lock', "
    ++ codes "@LockMode = 'Exclusive', @LockOwner = 'Session'"

unfoldable pub unlock_sql : Text
unlock_sql =
    codes "EXEC sp_releaseapplock @Resource = N'sqlx_migration_lock', @LockOwner = 'Session'"
