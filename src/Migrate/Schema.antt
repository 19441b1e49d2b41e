-- ===== src/Migrate/Schema.antt =====
-- The statement of `create_schema_if_not_exists` of migrate.rs, whose `EXEC` holds a statement in a
-- string literal. The name is escaped there as an identifier, but not as a part of that literal.
use sqlx_mssql_rs.Prelude.{
  holds, ℕ, ◌≡◌, refl, sym, ap, ◌∙◌, false, Option, some, [], ◌∷◌, ◌++◌, append_assoc, arith, Text,
  codes,
}
use sqlx_mssql_rs.Prelude.Read.{◌>>=◌, expect, first, read_delimited}
use sqlx_mssql_rs.Migrate.{escape_sql_bracket, create_schema_sql}
use sqlx_mssql_rs.Migrate.ReadBack.{read_national, read_national_lem, read_delimited-escape_bracket}

-- The statement in the `EXEC`'s literal, and what stands behind the literal.
abbrev pub read_exec : Text → Option (Text × Text)
read_exec s = do
  s1 ← expect (codes "IF NOT EXISTS (SELECT * FROM sys.schemas WHERE name = ") s
  (name, s2) ← read_national s1
  s3 ← expect (codes ") EXEC('") s2
  read_delimited b'\'' false s3

read_delimited-verbatim :
    (q : ℕ) (t s : Text)
    → holds q t ≡ false
    → first q s ≡ false
    → read_delimited q false (t ++ q ∷ s) ≡ some (t, s)
unfolding read_delimited
read_delimited-verbatim q [] [] h e = ground arith
read_delimited-verbatim q [] (c ∷ s) h e = ground arith
read_delimited-verbatim q (c ∷ t) s h e = ground (arith, read_delimited-verbatim q t s)

holds-append_false :
    (q : ℕ) (t u : Text) → holds q t ≡ false → holds q u ≡ false → holds q (t ++ u) ≡ false
holds-append_false q [] u h e = e
holds-append_false q (c ∷ t) u h e = ground (arith, holds-append_false q t u)

holds-escape_sql_bracket : (t : Text) → holds b'\'' (escape_sql_bracket t) ≡ holds b'\'' t
unfolding escape_sql_bracket
holds-escape_sql_bracket [] = refl
holds-escape_sql_bracket (c ∷ t) = ground (arith, holds-escape_sql_bracket t)

escape_sql_bracket-append :
    (t u : Text) → escape_sql_bracket (t ++ u) ≡ escape_sql_bracket t ++ escape_sql_bracket u
unfolding escape_sql_bracket
escape_sql_bracket-append [] u = refl
escape_sql_bracket-append (c ∷ t) u = ground (arith, escape_sql_bracket-append t u)

escape_sql_bracket-quote :
    (u : Text) → escape_sql_bracket (b'\'' ∷ u) ≡ b'\'' ∷ escape_sql_bracket u
unfolding escape_sql_bracket
escape_sql_bracket-quote u = refl

first-escape_sql_bracket :
    (u s : Text)
    → first b'\'' u ≡ false
    → first b'\'' s ≡ false
    → first b'\'' (escape_sql_bracket u ++ s) ≡ false
unfolding escape_sql_bracket
first-escape_sql_bracket [] s h e = e
first-escape_sql_bracket (c ∷ u) s h e = ground arith

abbrev create_schema : Text
create_schema = codes "CREATE SCHEMA ["

-- What `read_exec` reads, in terms of what stands behind `EXEC('`.
read_exec-create_schema_sql :
    (name : Text)
    → read_exec (create_schema_sql name)
      ≡ read_delimited b'\'' false (create_schema ++ (escape_sql_bracket name ++ codes "]')"))
unfolding create_schema_sql
read_exec-create_schema_sql name = rw (read_national_lem name _ refl)

read_exec_plain :
    (name : Text)
    → holds b'\'' name ≡ false
    → read_exec (create_schema_sql name)
      ≡ some (codes "CREATE SCHEMA [" ++ (escape_sql_bracket name ++ codes "]"), codes ")")
read_exec_plain name h =
    read_exec-create_schema_sql name
    ∙ ap (λ t. read_delimited b'\'' false (create_schema ++ t))
        (sym (append_assoc (escape_sql_bracket name) (codes "]") (codes "')")))
    ∙ read_delimited-verbatim b'\'' (create_schema ++ (escape_sql_bracket name ++ codes "]"))
        (codes ")")
        (holds-append_false b'\'' (escape_sql_bracket name) (codes "]")
          (holds-escape_sql_bracket name ∙ h) refl)
        refl

-- A reader of the whole statement: the name that is looked up and the one that is created, what
-- stands behind the latter inside the literal of `EXEC`, and what stands behind that literal.
abbrev pub read_schema : Text → Option ((Text × Text) × (Text × Text))
read_schema s = do
  (looked_up, _) ←
      expect (codes "IF NOT EXISTS (SELECT * FROM sys.schemas WHERE name = ") s >>= read_national
  (exec, behind) ← read_exec s
  body ← expect (codes "CREATE SCHEMA [") exec
  (created, inside) ← read_delimited b']' false body
  some ((looked_up, created), (inside, behind))

looked_up-create_schema_sql :
    (name : Text)
    → (expect
          (codes "IF NOT EXISTS (SELECT * FROM sys.schemas WHERE name = ")
          (create_schema_sql name)
        >>= read_national)
      ≡ some (name, codes ") EXEC('CREATE SCHEMA [" ++ (escape_sql_bracket name ++ codes "]')"))
unfolding create_schema_sql
looked_up-create_schema_sql name = read_national_lem name _ refl

-- For a schema name without a single quote, the statement is read back as one that looks up and
-- creates the schema of exactly that name: the bracketed identifier in the literal of `EXEC` is the
-- name, nothing stands behind it in the literal, and only the closing parenthesis behind the literal.
pub read_schema-create_schema_sql :
    (name : Text)
    → holds b'\'' name ≡ false
    → read_schema (create_schema_sql name) ≡ some ((name, name), ([], codes ")"))
read_schema-create_schema_sql name h =
    rw (read_exec_plain name h)
      (rw (looked_up-create_schema_sql name) (rw (read_delimited-escape_bracket name [] refl) refl))

-- The first single quote in a schema name, where no second one stands right behind it, ends the
-- literal of `EXEC`: the rest of the name stands behind the literal, as T-SQL of its own.
pub read_exec_broken :
    (before behind : Text)
    → holds b'\'' before ≡ false
    → first b'\'' behind ≡ false
    → read_exec (create_schema_sql (before ++ b'\'' ∷ behind))
      ≡ some (
        codes "CREATE SCHEMA [" ++ escape_sql_bracket before,
        escape_sql_bracket behind ++ codes "]')",
      )
read_exec_broken before behind h e =
    read_exec-create_schema_sql (before ++ b'\'' ∷ behind)
    ∙ rw
        (
          escape_sql_bracket-append before (b'\'' ∷ behind),
          escape_sql_bracket-quote behind,
          append_assoc,
        )
        (read_delimited-verbatim b'\'' (create_schema ++ escape_sql_bracket before) _
          (holds-escape_sql_bracket before ∙ h)
          (first-escape_sql_bracket behind (codes "]')") e refl))
