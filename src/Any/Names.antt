-- ===== src/Any/Names.antt =====
-- The names of any.rs against the column lookup of row.rs.
use sqlx_mssql_rs.Prelude.{
  ℕ, suc, ◌+◌, ◌≡◌, refl, ap, ◌∙◌, Bool, true, false, none, some, List, [], ◌∷◌, arith, Text,
  if◌then◌else◌,
}
use sqlx_mssql_rs.Rows.{MssqlColumn, ok, by_name, position, is_named, index}
use sqlx_mssql_rs.Any.{NameMap, insert, insert_names, column_names}

-- How many columns have the name.
abbrev pub count_named : Text → List MssqlColumn → ℕ
count_named n [] = 0
count_named n (column ∷ columns) =
    if is_named n column then suc (count_named n columns) else count_named n columns

-- Where no column has the name, the map keeps what it had.
insert_names-absent :
    (i : ℕ) (columns : List MssqlColumn) (names : NameMap) (n : Text)
    → count_named n columns ≡ 0
    → insert_names i columns names n ≡ names n
unfolding insert_names
insert_names-absent i [] names n h = refl
insert_names-absent i (column ∷ columns) names n h =
    go (is_named n column) refl h
      (λ k. insert_names-absent (suc i) columns (insert names column.name i) n k)
  where
    go :
        (b : Bool)
        → is_named n column ≡ b
        → (if b then suc (count_named n columns) else count_named n columns) ≡ 0
        → (count_named n columns ≡ 0
            → insert_names (suc i) columns (insert names column.name i) n
              ≡ insert names column.name i n)
        → insert_names (suc i) columns (insert names column.name i) n ≡ names n
    go true e k rest = absurd (omega (arith, k))
    go false e k rest = rest k ∙ rw e refl

-- The map gives the position of the name, counted from where the columns stand.
abbrev IsFound : ℕ → List MssqlColumn → NameMap → Text → Type 0
IsFound i columns names n =
    (j : ℕ) × (insert_names i columns names n ≡ some (i + j))
    × (position (is_named n) columns ≡ some j)

insert_names-once :
    (i : ℕ) (columns : List MssqlColumn) (names : NameMap) (n : Text)
    → count_named n columns ≡ 1
    → IsFound i columns names n
unfolding insert_names
insert_names-once i [] names n h = absurd (omega (arith, h))
insert_names-once i (column ∷ columns) names n h =
    go (is_named n column) refl h
      (λ k. insert_names-once (suc i) columns (insert names column.name i) n k)
  where
    go :
        (b : Bool)
        → is_named n column ≡ b
        → (if b then suc (count_named n columns) else count_named n columns) ≡ 1
        → (count_named n columns ≡ 1 → IsFound (suc i) columns (insert names column.name i) n)
        → IsFound i (column ∷ columns) names n
    go true e k rest = (
      0,
      insert_names-absent (suc i) columns (insert names column.name i) n (omega (arith, k))
          ∙ rw e (ap some (omega arith)),
      rw e refl,
    )
    go false e k rest =
        let (j, p, q) = rest k in (suc j, p ∙ ap some (omega arith), rw e (rw q refl))

-- A name that exactly one column has stands for the same position in the map of names that the `Any`
-- driver makes and in the lookup of a row or a statement by that name.
pub column_names-index :
    {E : Type 0} (columns : List MssqlColumn) (n : Text)
    → count_named n columns ≡ 1
    → (i : ℕ) × (column_names columns n ≡ some i) × (index {E = E} columns (by_name n) ≡ ok i)
unfolding column_names index
column_names-index {E} columns n h =
    let (i, e, k) = insert_names-once 0 columns (λ m. none) n h in
    (i, e ∙ ap some (omega arith), rw k refl)
