-- ===== src/Rows.antt =====
-- Rows, columns and results: sqlx-mssql-rs-core/src/row.rs, column.rs and query_result.rs, and the
-- same column lookup in statement.rs. `V` is a column's value.
pub mod Lookup
use sqlx_mssql_rs.Prelude.{
  ℕ, suc, ◌+◌, ◌%◌, ◌^◌, Bool, Option, none, some, List, [], ◌∷◌, Text, length, get_elem?, text_eq,
  leb, if◌then◌else◌,
}
use sqlx_mssql_rs.Prelude.Ascii.{eq_ignore_ascii_case}
use sqlx_mssql_rs.Error.{Error}
use sqlx_mssql_rs.TypeInfo.{MssqlTypeInfo}

pub record MssqlColumn : Type 0 where
  pub ordinal : ℕ
  pub name : Text
  pub type_info : MssqlTypeInfo
  pub nullable : Option Bool

pub record MssqlRow (V : Type 0) : Type 0 where
  pub columns : List MssqlColumn
  pub values : List V

pub data Looked (E A : Type 0) : Type 0 where
  ok : A → Looked E A
  err : Error E → Looked E A

-- The types with a `ColumnIndex`: `usize` and `&str`.
pub data ColumnIndex : Type 0 where
  by_position : ℕ → ColumnIndex
  by_name : Text → ColumnIndex

-- `Iterator::position`.
abbrev pub position {ℓ} : {A : Type ℓ} → (A → Bool) → List A → Option ℕ
position p [] = none
position p (x ∷ xs) =
    if p x then some 0 else elim (position p xs) [ none ↦ none | some i ↦ some (suc i) ]

abbrev pub is_named : Text → MssqlColumn → Bool
is_named n column = text_eq column.name n

abbrev pub is_named_alike : Text → MssqlColumn → Bool
is_named_alike n column = eq_ignore_ascii_case column.name n

module _ {E : Type 0} where
  abbrev pub or_not_found : Text → Option ℕ → Looked E ℕ
  or_not_found n (some i) = ok i
  or_not_found n none = err (Error.column_not_found n)

  abbrev pub exact_or_alike : List MssqlColumn → Text → Option ℕ → Looked E ℕ
  exact_or_alike columns n (some i) = ok i
  exact_or_alike columns n none = or_not_found n (position (is_named_alike n) columns)

  -- `ColumnIndex::index`, for a row and for a statement.
  unfoldable pub index : List MssqlColumn → ColumnIndex → Looked E ℕ
  index columns (by_position i) =
      if leb (length columns) i
      then err (Error.column_index_out_of_bounds i (length columns))
      else ok i
  index columns (by_name n) = exact_or_alike columns n (position (is_named n) columns)

  abbrev pub value_at : {V : Type 0} → List V → ℕ → Option V → Looked E V
  value_at values i (some v) = ok v
  value_at values i none = err (Error.column_index_out_of_bounds i (length values))

  abbrev pub value_of : {V : Type 0} → List V → Looked E ℕ → Looked E V
  value_of values (ok i) = value_at values i (get_elem? values i)
  value_of values (err e) = err e

  unfoldable pub try_get_raw : {V : Type 0} → MssqlRow V → ColumnIndex → Looked E V
  try_get_raw row i = value_of row.values (index row.columns i)

-- `MssqlQueryResult` by its `rows_affected`, a `u64`; sums wrap around, as in a release build.
abbrev pub wrapped : ℕ → ℕ
wrapped n = n % 18446744073709551616

abbrev pub sum : List ℕ → ℕ
sum [] = 0
sum (n ∷ ns) = wrapped (n + sum ns)

-- `Extend::extend`.
abbrev pub extend : ℕ → List ℕ → ℕ
extend rows_affected others = wrapped (rows_affected + sum others)
