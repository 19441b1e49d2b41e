-- ===== src/Migrate/Record.antt =====
-- The record that `insert_migration_sql` of migrate.rs writes, read back from its statement.
use sqlx_mssql_rs.Prelude.{
  ℕ, ◌+◌, ◌*◌, ◌-◌, ◌/◌, ◌%◌, ◌<◌, ◌≡◌, refl, ap, sym, ◌∙◌, append-nil, Bool, true, false, ◌&&◌,
  ◌||◌, Option, none, some, List, [], ◌∷◌, ◌++◌, arith, Text, codes, leb, ◌==◌, if◌then◌else◌,
}
use sqlx_mssql_rs.Prelude.Int.{ℤ, display}
use sqlx_mssql_rs.Prelude.Read.{◌>>=◌, expect, first, read_int, read_int-display}
use sqlx_mssql_rs.Migrate.{
  escape_sql_string, upper_hex, hex_bytes, format_hex, split_table_name, Migration, national,
  flag_digit, insert_migration_sql, delete_migration_sql,
}
use sqlx_mssql_rs.Migrate.ReadBack.{
  read_delimited-escape_string, read_national, read_national_lem, read_table,
  read_table-quoted_table_name,
}

-- A hexadecimal digit of either case, and its value.
abbrev is_hex : ℕ → Bool
is_hex c = (leb 48 c && leb c 57) || (leb 65 c && leb c 70)

abbrev hex_value : ℕ → ℕ
hex_value c = if leb c 57 then c - 48 else c - 55

abbrev starts_hex : Text → Bool
starts_hex [] = false
starts_hex (c ∷ _) = is_hex c

abbrev read_hex : Text → List ℕ × Text
read_hex (a ∷ b ∷ s) =
    let (bytes, rest) = read_hex s in
    if is_hex a then ((hex_value a * 16 + hex_value b) ∷ bytes, rest) else ([], a ∷ b ∷ s)
read_hex s = ([], s)

abbrev pub AllBytes : List ℕ → Type 0
AllBytes [] = Unit
AllBytes (b ∷ bs) = (b < 256) × AllBytes bs

upper_hex-is_hex : (d : ℕ) → d < 16 → is_hex (upper_hex d) ≡ true
upper_hex-is_hex d h = ground arith

hex_value-upper_hex : (d : ℕ) → d < 16 → hex_value (upper_hex d) ≡ d
hex_value-upper_hex d h = ground arith

read_hex-hex_bytes :
    (bytes : List ℕ) (s : Text)
    → AllBytes bytes
    → starts_hex s ≡ false
    → read_hex (hex_bytes bytes ++ s) ≡ (bytes, s)
read_hex-hex_bytes [] [] h e = refl
read_hex-hex_bytes [] (c ∷ []) h e = refl
read_hex-hex_bytes [] (c ∷ d ∷ s) h e = rw e
read_hex-hex_bytes (b ∷ bs) s h e =
    rw
      (
        upper_hex-is_hex (b / 16) (omega arith),
        read_hex-hex_bytes bs s h.1 e,
        hex_value-upper_hex (b / 16) (omega arith),
        hex_value-upper_hex (b % 16) (omega arith),
      )
      (let same : b / 16 * 16 + b % 16 ≡ b = omega arith in λ i. (same i ∷ bs, s))

read_hex-format_hex :
    (bytes : List ℕ) (s : Text)
    → AllBytes bytes
    → starts_hex s ≡ false
    → (expect (codes "0x") (format_hex bytes ++ s) >>= λ t. some (read_hex t)) ≡ some (bytes, s)
unfolding format_hex
read_hex-format_hex bytes s h e = rw (read_hex-hex_bytes bytes s h e)

-- A row of the migrations table.
pub record Row : Type 0 where
  pub table : Text × Text
  pub version : ℤ
  pub description : Text
  pub migration_type : Text
  pub sql : Text
  pub checksum : List ℕ
  pub no_tx : Bool

abbrev read_flag : Text → Option (Bool × Text)
read_flag [] = none
read_flag (c ∷ s) =
    if c == b'1' then some (true, s) else if c == b'0' then some (false, s) else none

-- A reader of the `INSERT` that shares no code with the writer. All of the text has to be read.
abbrev pub read_insert : Text → Option Row
read_insert s = do
  s1 ← expect (codes "INSERT INTO ") s
  (table, s2) ← read_table s1
  s3 ← expect (codes " (version, description, migration_type, sql, checksum, no_tx) VALUES (") s2
  let v = read_int s3
  s4 ← expect (codes ", ") v.1
  (description, s5) ← read_national s4
  s6 ← expect (codes ", ") s5
  (migration_type, s7) ← read_national s6
  s8 ← expect (codes ", ") s7
  (sql, s9) ← read_national s8
  s10 ← expect (codes ", ") s9
  (checksum, s11) ← expect (codes "0x") s10 >>= λ t. some (read_hex t)
  s12 ← expect (codes ", ") s11
  (no_tx, s13) ← read_flag s12
  s14 ← expect (codes ")") s13
  elim s14 [
    | [] ↦ some (record {
      table = table;
      version = v.0;
      description = description;
      migration_type = migration_type;
      sql = sql;
      checksum = checksum;
      no_tx = no_tx;
    })
    | _ ↦ none
  ]

read_national-sql_text :
    (record_sql : Bool) (sql s : Text)
    → first b'\'' s ≡ false
    → read_national ((if record_sql then national sql else codes "N''") ++ s)
      ≡ some (if record_sql then sql else [], s)
read_national-sql_text true sql s h = read_national_lem sql s h
read_national-sql_text false sql s h =
    unfold escape_sql_string in read_delimited-escape_string [] s h

read_flag-flag_digit : (b : Bool) (s : Text) → read_flag (flag_digit b ++ s) ≡ some (b, s)
read_flag-flag_digit true s = refl
read_flag-flag_digit false s = refl

-- The `INSERT` that records a migration is read back, all of it, as the row that it is to record:
-- the table into which the name splits, the version, the texts and the checksum as they are in the
-- migration, whatever characters they hold, and an empty `sql` where the text is not to be recorded.
-- The checksum's elements are to be bytes.
pub read_insert-insert_migration_sql :
    (table_name : Text) (m : Migration) (record_sql : Bool)
    → AllBytes m.checksum
    → read_insert (insert_migration_sql table_name m record_sql)
      ≡ some (record {
        table = split_table_name table_name;
        version = m.version;
        description = m.description;
        migration_type = m.migration_type;
        sql = if record_sql then m.sql else [];
        checksum = m.checksum;
        no_tx = m.no_tx;
      })
unfolding insert_migration_sql
read_insert-insert_migration_sql table_name m record_sql h = rw (
  read_table-quoted_table_name table_name _ refl,
  read_int-display m.version _ refl,
  read_national_lem m.description _ refl,
  read_national_lem m.migration_type _ refl,
  read_national-sql_text record_sql m.sql _ refl,
  read_hex-format_hex m.checksum _ h refl,
  read_flag-flag_digit m.no_tx (codes ")"),
  read_int-display m.version _ refl,
)

abbrev row_if_end : Text × Text → ℤ × Text → Option ((Text × Text) × ℤ)
row_if_end table (version, []) = some (table, version)
row_if_end table (version, _) = none

-- A reader of the `DELETE` of one row, which reads all of the text.
abbrev pub read_delete : Text → Option ((Text × Text) × ℤ)
read_delete s = do
  s1 ← expect (codes "DELETE FROM ") s
  (table, s2) ← read_table s1
  s3 ← expect (codes " WHERE version = ") s2
  row_if_end table (read_int s3)

pub read_delete-delete_migration_sql :
    (table_name : Text) (version : ℤ)
    → read_delete (delete_migration_sql table_name version)
      ≡ some (split_table_name table_name, version)
unfolding delete_migration_sql
read_delete-delete_migration_sql table_name version =
    let e : read_int (display version) ≡ (version, []) =
      ap read_int (sym (append-nil (display version))) ∙ read_int-display version [] refl in
    rw (read_table-quoted_table_name table_name _ refl)
      (ap (row_if_end (split_table_name table_name)) e)
