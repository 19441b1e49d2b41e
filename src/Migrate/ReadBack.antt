-- ===== src/Migrate/ReadBack.antt =====
-- The texts of migrate.rs against readers of T-SQL: the names and values put into a statement are
-- read back as they were, so none of them can end its literal or identifier early.
use sqlx_mssql_rs.Prelude.{
  ℕ, suc, ◌+◌, holds, find, find_first, drop, take_prefix, length, ◌≡◌, refl, ap, ◌∙◌, Bool, true,
  false, not, ◌&&◌, Option, none, some, [], ◌∷◌, ◌++◌, append_assoc, arith, Text, codes, ◌==◌,
}
use sqlx_mssql_rs.Prelude.Read.{
  ◌>>=◌, expect, first, read_delimited, double_char, read_delimited-double,
}
use sqlx_mssql_rs.Migrate.{
  replace_char, escape_sql_bracket, escape_sql_string, split_table_name, bracketed, quoted_parts,
  quoted_table_name, national,
}

replace_char-double : (q : ℕ) (v : Text) → replace_char q (q ∷ q ∷ []) v ≡ double_char q v
unfolding double_char
replace_char-double q [] = refl
replace_char-double q (c ∷ v) = ground (arith, replace_char-double q v)

-- A T-SQL `N'...'` literal.
abbrev pub read_national : Text → Option (Text × Text)
read_national s = expect (codes "N'") s >>= read_delimited b'\'' false

-- A value escaped for a string literal, between quotes, is read back as that value.
pub read_delimited-escape_string :
    (v s : Text)
    → first b'\'' s ≡ false
    → read_delimited b'\'' false (escape_sql_string v ++ b'\'' ∷ s) ≡ some (v, s)
unfolding escape_sql_string
read_delimited-escape_string v s h = rw replace_char-double (read_delimited-double b'\'' v s h)

pub read_delimited-escape_bracket :
    (v s : Text)
    → first b']' s ≡ false
    → read_delimited b']' false (escape_sql_bracket v ++ b']' ∷ s) ≡ some (v, s)
unfolding escape_sql_bracket
read_delimited-escape_bracket v s h = rw replace_char-double (read_delimited-double b']' v s h)

-- A bracketed name, or two with a dot between them; the schema is empty if there is one name.
abbrev pub read_table : Text → Option ((Text × Text) × Text)
read_table s = do
  body ← expect (codes "[") s
  (name, behind) ← read_delimited b']' false body
  elim (expect (codes ".[") behind) [
    | none ↦ some (([], name), behind)
    | some more ↦ read_delimited b']' false more >>= λ t. some ((name, t.0), t.1)
  ]

-- A text that can stand behind a table's name.
abbrev pub ends_table : Text → Bool
ends_table [] = true
ends_table (c ∷ _) = not (c == b']') && not (c == b'.')

ends_table-first : (s : Text) → ends_table s ≡ true → first b']' s ≡ false
ends_table-first [] h = refl
ends_table-first (c ∷ s) h = ground arith

ends_table-expect : (s : Text) → ends_table s ≡ true → expect (codes ".[") s ≡ none
ends_table-expect [] h = refl
ends_table-expect (c ∷ s) h = ground arith

one-eq : (t s : Text) → bracketed t ++ s ≡ b'[' ∷ (t ++ b']' ∷ s)
one-eq t s = ap (◌∷◌ b'[') (append_assoc t (codes "]") s)

two-eq :
    (t u s : Text)
    → (bracketed t ++ (codes "." ++ bracketed u)) ++ s
      ≡ b'[' ∷ (t ++ b']' ∷ (b'.' ∷ b'[' ∷ (u ++ b']' ∷ s)))
two-eq t u s = simp append_assoc

read_table_one :
    (v s : Text)
    → ends_table s ≡ true
    → read_table (b'[' ∷ (escape_sql_bracket v ++ b']' ∷ s)) ≡ some (([], v), s)
read_table_one v s h =
    rw (read_delimited-escape_bracket v s (ends_table-first s h), ends_table-expect s h)

read_table_two :
    (v w s : Text)
    → ends_table s ≡ true
    → read_table
        (b'[' ∷ (escape_sql_bracket v ++ b']' ∷ (b'.' ∷ b'[' ∷ (escape_sql_bracket w ++ b']' ∷ s))))
      ≡ some ((v, w), s)
read_table_two v w s h =
    rw (read_delimited-escape_bracket v (b'.' ∷ b'[' ∷ (escape_sql_bracket w ++ b']' ∷ s)) refl)
      (rw (read_delimited-escape_bracket w s (ends_table-first s h)))

read_table-quoted_parts :
    (schema table s : Text)
    → ends_table s ≡ true
    → read_table (quoted_parts schema table ++ s) ≡ some ((schema, table), s)
read_table-quoted_parts [] table s h =
    ap read_table (one-eq (escape_sql_bracket table) s) ∙ read_table_one table s h
read_table-quoted_parts (c ∷ cs) table s h =
    ap read_table (two-eq (escape_sql_bracket (c ∷ cs)) (escape_sql_bracket table) s)
    ∙ read_table_two (c ∷ cs) table s h

-- The reference that `quoted_table_name` writes is read back as what `split_table_name` gives.
pub read_table-quoted_table_name :
    (table_name s : Text)
    → ends_table s ≡ true
    → read_table (quoted_table_name table_name ++ s) ≡ some (split_table_name table_name, s)
unfolding quoted_table_name
read_table-quoted_table_name table_name s h =
    let (schema, table) = split_table_name table_name in read_table-quoted_parts schema table s h

-- A table's name with the schema and the table that it names: what stands before its first dot and
-- what stands behind that, or no schema where there is no dot.
pub data Splits : Text → Text → Text → Type 0 where
  undotted : {table : Text} → holds b'.' table ≡ false → Splits table [] table
  dotted :
      {schema table : Text}
      → holds b'.' schema ≡ false
      → Splits (schema ++ b'.' ∷ table) schema table

find-absent : (q : ℕ) (t : Text) → holds q t ≡ false → find (q ∷ []) t ≡ none
find-absent q [] h = refl
find-absent q (c ∷ t) h = ground (arith, find-absent q t)

drop-behind : (t u : Text) (c : ℕ) → drop (length t + 1) (t ++ c ∷ u) ≡ u
drop-behind [] u c = refl
drop-behind (x ∷ t) u c =
    let e : suc (length t) + 1 ≡ suc (length t + 1) = omega arith in
    ap (λ n. drop n (x ∷ (t ++ c ∷ u))) e ∙ drop-behind t u c

split_table_name-Splits :
    {name schema table : Text} → Splits name schema table → split_table_name name ≡ (schema, table)
unfolding split_table_name
split_table_name-Splits (undotted {table} h) = rw (find-absent b'.' table h, split_table_name) refl
split_table_name-Splits (dotted {schema} {table} h) =
    rw (find_first b'.' schema table h, split_table_name)
      (λ i. (take_prefix schema (b'.' ∷ table) i, drop-behind schema table b'.' i))

-- The reference that `quoted_table_name` writes is read back, in front of any text that cannot
-- continue it, as a schema and a table: what stands before the first dot of the name and behind it,
-- or as the whole name with no schema where it has no dot.
pub read_table-Splits :
    {name schema table : Text} (s : Text)
    → Splits name schema table
    → ends_table s ≡ true
    → read_table (quoted_table_name name ++ s) ≡ some ((schema, table), s)
read_table-Splits {name} s split h =
    read_table-quoted_table_name name s h
    ∙ ap (λ parts. some (parts, s)) (split_table_name-Splits split)

pub read_national_lem :
    (v s : Text) → first b'\'' s ≡ false → read_national (national v ++ s) ≡ some (v, s)
unfolding national
read_national_lem v s h =
    ap (λ t. read_national (codes "N'" ++ t)) (append_assoc (escape_sql_string v) (codes "'") s)
    ∙ read_delimited-escape_string v s h
