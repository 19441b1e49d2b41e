-- ===== src/Any.antt =====
-- sqlx-mssql-rs-core/src/any.rs: what the `Any` driver is told of types, columns, rows and results. A
-- `HashMap` is the function that looks a key up in it.
pub mod Names
use sqlx_mssql_rs.Prelude.{ℕ, suc, Option, none, some, List, [], ◌∷◌, Text, text_eq, if◌then◌else◌}
use sqlx_mssql_rs.TypeInfo.DataType.{TdsDataType, TdsCodes}
use sqlx_mssql_rs.TypeInfo.{MssqlTypeInfo, data_type}
use sqlx_mssql_rs.Rows.{MssqlColumn}

-- The kinds of `AnyTypeInfoKind` that the driver uses.
pub data AnyTypeInfoKind : Type 0 where
  bool : AnyTypeInfoKind
  small_int : AnyTypeInfoKind
  integer : AnyTypeInfoKind
  big_int : AnyTypeInfoKind
  real : AnyTypeInfoKind
  double : AnyTypeInfoKind
  text : AnyTypeInfoKind
  blob : AnyTypeInfoKind

-- The match on a type that mssql-tds knows.
unfoldable pub kind_of_type : TdsDataType → AnyTypeInfoKind
kind_of_type TdsDataType.bit = AnyTypeInfoKind.bool
kind_of_type TdsDataType.bit_n = AnyTypeInfoKind.bool
kind_of_type TdsDataType.int1 = AnyTypeInfoKind.small_int
kind_of_type TdsDataType.int2 = AnyTypeInfoKind.small_int
kind_of_type TdsDataType.int4 = AnyTypeInfoKind.integer
kind_of_type TdsDataType.int8 = AnyTypeInfoKind.big_int
kind_of_type TdsDataType.flt4 = AnyTypeInfoKind.real
kind_of_type TdsDataType.flt8 = AnyTypeInfoKind.double
kind_of_type TdsDataType.flt_n = AnyTypeInfoKind.double
kind_of_type TdsDataType.big_binary = AnyTypeInfoKind.blob
kind_of_type TdsDataType.big_var_binary = AnyTypeInfoKind.blob
kind_of_type TdsDataType.binary = AnyTypeInfoKind.blob
kind_of_type TdsDataType.var_binary = AnyTypeInfoKind.blob
kind_of_type TdsDataType.image = AnyTypeInfoKind.blob
kind_of_type TdsDataType.udt = AnyTypeInfoKind.blob
kind_of_type TdsDataType.vector = AnyTypeInfoKind.blob
kind_of_type _ = AnyTypeInfoKind.text

abbrev kind_of_known : Option TdsDataType → AnyTypeInfoKind
unfolding kind_of_type
kind_of_known none = AnyTypeInfoKind.text
kind_of_known (some d) = kind_of_type d

-- `TryFrom<&MssqlTypeInfo> for AnyTypeInfo`, which always succeeds.
unfoldable pub any_kind : TdsCodes → MssqlTypeInfo → AnyTypeInfoKind
unfolding kind_of_type
any_kind tds info = kind_of_known (data_type tds info)

record AnyColumn : Type 0 where
  ordinal : ℕ
  name : Text
  kind : AnyTypeInfoKind

-- `TryFrom<&MssqlColumn> for AnyColumn`.
any_column : TdsCodes → MssqlColumn → AnyColumn
unfolding any_kind
any_column tds column = record {
  ordinal = column.ordinal;
  name = column.name;
  kind = any_kind tds column.type_info;
}

abbrev pub NameMap : Type 0
NameMap = Text → Option ℕ

-- `HashMap::insert`, which replaces what the key had.
abbrev pub insert : NameMap → Text → ℕ → NameMap
insert names name index n = if text_eq name n then some index else names n

-- The loop over the columns; `index` is that of the first of them.
unfoldable pub insert_names : ℕ → List MssqlColumn → NameMap → NameMap
insert_names index [] names = names
insert_names index (column ∷ columns) names =
    insert_names (suc index) columns (insert names column.name index)

-- The map of names that `AnyRow::try_from` and `prepare_with` pass on.
unfoldable pub column_names : List MssqlColumn → NameMap
unfolding insert_names
column_names columns = insert_names 0 columns (λ n. none)

record AnyQueryResult : Type 0 where
  rows_affected : ℕ
  last_insert_id : Option ℕ

-- `From<MssqlQueryResult> for AnyQueryResult`; the result is its `rows_affected`.
any_query_result : ℕ → AnyQueryResult
any_query_result rows_affected = record { rows_affected = rows_affected; last_insert_id = none }
