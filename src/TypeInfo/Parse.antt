-- ===== src/TypeInfo/Parse.antt =====
-- The reading of the type names that sp_describe_first_result_set and
-- sp_describe_undeclared_parameters report: `from_system_type_name` of type_info.rs.
use sqlx_mssql_rs.Prelude.{
  ℕ, ◌+◌, ◌-◌, ◌*◌, Bool, false, Option, none, some, Text, codes, text_eq, take, drop, find,
  get_elem?, ltb, if◌then◌else◌,
}
use sqlx_mssql_rs.Prelude.Ascii.{
  to_ascii_lowercase, eq_ignore_ascii_case, trim, rfind, split, parse_u8,
}
use sqlx_mssql_rs.Prelude.Read.{◌>>=◌}
use sqlx_mssql_rs.TypeInfo.DataType.{TdsDataType, TdsCodes}
use sqlx_mssql_rs.TypeInfo.{
  MssqlTypeInfo, new, tinyint, smallint, integer, bigint, bit, real, double, uuid, date, time,
  datetime2, datetimeoffset, geometry, geography,
}

-- Slicing a `str` from behind its end panics.
pub data Checked (A : Type 0) : Type 0 where
  panicked : Checked A
  done : A → Checked A

unfoldable pub parse_argument : Text → ℕ → Option ℕ
parse_argument args index = get_elem? (split b',' args) index >>= λ t. parse_u8 (trim t)

abbrev pub is_max : Option Text → Bool
is_max none = false
is_max (some args) = eq_ignore_ascii_case args (codes "max")

-- `first_number` is 0 and `second_number` is 1.
abbrev pub number : Option Text → ℕ → Option ℕ
number args index = args >>= λ a. parse_argument a index

abbrev unwrap_or_default : Option ℕ → ℕ
unwrap_or_default none = 0
unwrap_or_default (some n) = n

-- A `u8` times 1 or 2 does not saturate a `u32`.
unfoldable pub length_of : Option Text → ℕ → ℕ
length_of args bytes_per_char =
    if is_max args then 65535 else unwrap_or_default (number args 0) * bytes_per_char

module _ (tds : TdsCodes) where
  -- The `match` on the base name.
  unfoldable pub named : Text → Option Text → Option MssqlTypeInfo
  named base args =
      if text_eq base (codes "tinyint")
      then some (tinyint tds)
      else if text_eq base (codes "smallint")
      then some (smallint tds)
      else if text_eq base (codes "int")
      then some (integer tds)
      else if text_eq base (codes "bigint")
      then some (bigint tds)
      else if text_eq base (codes "bit")
      then some (bit tds)
      else if text_eq base (codes "real")
      then some (real tds)
      else if text_eq base (codes "float")
      then some (double tds)
      else if text_eq base (codes "uniqueidentifier")
      then some (uuid tds)
      else if text_eq base (codes "date")
      then some (date tds)
      else if text_eq base (codes "time")
      then some (time tds)
      else if text_eq base (codes "datetime2")
      then some (datetime2 tds)
      else if text_eq base (codes "datetimeoffset")
      then some (datetimeoffset tds)
      else if text_eq base (codes "datetime")
      then some (new (codes "datetime") (tds.code TdsDataType.date_time) 8 none none)
      else if text_eq base (codes "smalldatetime")
      then some (new (codes "smalldatetime") (tds.code TdsDataType.date_tim4) 4 none none)
      else if text_eq base (codes "money")
      then some (new (codes "money") (tds.code TdsDataType.money) 8 none none)
      else if text_eq base (codes "smallmoney")
      then some (new (codes "smallmoney") (tds.code TdsDataType.money4) 4 none none)
      else if text_eq base (codes "decimal")
      then some (new base (tds.code TdsDataType.decimal_n) 17 (number args 0) (number args 1))
      else if text_eq base (codes "numeric")
      then some (new base (tds.code TdsDataType.decimal_n) 17 (number args 0) (number args 1))
      else if text_eq base (codes "char")
      then some (new (codes "char") (tds.code TdsDataType.big_char) (length_of args 1) none none)
      else if text_eq base (codes "varchar")
      then some
          (new (codes "varchar") (tds.code TdsDataType.big_var_char) (length_of args 1) none none)
      else if text_eq base (codes "nchar")
      then some (new (codes "nchar") (tds.code TdsDataType.nchar) (length_of args 2) none none)
      else if text_eq base (codes "nvarchar")
      then some
          (new (codes "nvarchar") (tds.code TdsDataType.nvar_char) (length_of args 2) none none)
      else if text_eq base (codes "binary")
      then some
          (new (codes "binary") (tds.code TdsDataType.big_binary) (length_of args 1) none none)
      else if text_eq base (codes "varbinary")
      then some (
          new (codes "varbinary") (tds.code TdsDataType.big_var_binary) (length_of args 1) none
            none)
      else if text_eq base (codes "text")
      then some (new (codes "text") (tds.code TdsDataType.text) 65535 none none)
      else if text_eq base (codes "ntext")
      then some (new (codes "ntext") (tds.code TdsDataType.ntext) 65535 none none)
      else if text_eq base (codes "image")
      then some (new (codes "image") (tds.code TdsDataType.image) 65535 none none)
      else if text_eq base (codes "xml")
      then some (new (codes "xml") (tds.code TdsDataType.xml) 65535 none none)
      else if text_eq base (codes "json")
      then some (new (codes "json") (tds.code TdsDataType.json) 65535 none none)
      else if text_eq base (codes "geometry")
      then some (geometry tds)
      else if text_eq base (codes "geography")
      then some (geography tds)
      else none

  -- The part behind the first parenthesis, up to the last one that closes.
  abbrev pub with_args : Text → ℕ → Option ℕ → Checked (Option MssqlTypeInfo)
  with_args trimmed open_at none = done none
  with_args trimmed open_at (some close_at) =
      if ltb close_at (open_at + 1)
      then panicked
      else done (
          named (to_ascii_lowercase (trim (take open_at trimmed)))
            (some (trim (take (close_at - (open_at + 1)) (drop (open_at + 1) trimmed)))))

  abbrev pub from_trimmed : Text → Checked (Option MssqlTypeInfo)
  from_trimmed trimmed = elim (find (codes "(") trimmed) [
    | none ↦ done (named (to_ascii_lowercase (trim trimmed)) none)
    | some open_at ↦ with_args trimmed open_at (rfind b')' trimmed)
  ]

  unfoldable pub from_system_type_name : Text → Checked (Option MssqlTypeInfo)
  from_system_type_name system_type_name = from_trimmed (trim system_type_name)
