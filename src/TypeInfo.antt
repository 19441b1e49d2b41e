-- ===== src/TypeInfo.antt =====
-- sqlx-mssql-rs-core/src/type_info.rs: the driver's description of a SQL Server type. The features
-- that the driver is built with are a record of flags.
pub mod DataType
pub mod Laws
pub mod Parse
pub mod Declared
use sqlx_mssql_rs.Prelude.{
  ℕ, Bool, true, false, not, ◌&&◌, ◌||◌, Option, none, some, Text, codes, ◌==◌, if◌then◌else◌,
}
use sqlx_mssql_rs.Prelude.Ascii.{eq_ignore_ascii_case}
use sqlx_mssql_rs.TypeInfo.DataType.{
  TdsDataType, TdsCodes, is_udt, is_character, is_binary, is_numeric, is_datetime, is_date, is_time,
  is_naive_datetime, is_datetimeoffset, is_boolean, has_precision, has_scale, is_guid, is_exact,
}

pub record Features : Type 0 where
  pub spatial : Bool
  pub chrono : Bool
  pub time : Bool
  pub jiff : Bool
  pub uuid : Bool

pub record MssqlTypeInfo : Type 0 where
  pub type_name : Text
  pub sql_data_type : ℕ
  pub length : ℕ
  pub precision : Option ℕ
  pub scale : Option ℕ

-- `MssqlTypeInfo::new`.
abbrev pub new : Text → ℕ → ℕ → Option ℕ → Option ℕ → MssqlTypeInfo
new type_name sql_data_type length precision scale = record {
  type_name = type_name;
  sql_data_type = sql_data_type;
  length = length;
  precision = precision;
  scale = scale;
}

-- `matches!(data_type, Some(...))`.
abbrev pub matches : (TdsDataType → Bool) → Option TdsDataType → Bool
matches p none = false
matches p (some d) = p d

-- `a.or(b)`.
abbrev pub or_else : Option ℕ → Option ℕ → Option ℕ
or_else none b = b
or_else (some a) b = some a

module _ (tds : TdsCodes) where
  abbrev pub unknown : MssqlTypeInfo
  unknown = new (codes "unknown") (tds.code TdsDataType.no_type) 0 none none

  abbrev pub tinyint : MssqlTypeInfo
  tinyint = new (codes "tinyint") (tds.code TdsDataType.int1) 1 none none

  abbrev pub smallint : MssqlTypeInfo
  smallint = new (codes "smallint") (tds.code TdsDataType.int2) 2 none none

  abbrev pub integer : MssqlTypeInfo
  integer = new (codes "int") (tds.code TdsDataType.int4) 4 none none

  abbrev pub bigint : MssqlTypeInfo
  bigint = new (codes "bigint") (tds.code TdsDataType.int8) 8 none none

  abbrev pub real : MssqlTypeInfo
  real = new (codes "real") (tds.code TdsDataType.flt4) 4 none none

  abbrev pub double : MssqlTypeInfo
  double = new (codes "float") (tds.code TdsDataType.flt8) 8 none none

  abbrev pub bit : MssqlTypeInfo
  bit = new (codes "bit") (tds.code TdsDataType.bit) 1 none none

  abbrev pub nvarchar_max : MssqlTypeInfo
  nvarchar_max = new (codes "nvarchar") (tds.code TdsDataType.nvar_char) 0 none none

  abbrev pub varbinary_max : MssqlTypeInfo
  varbinary_max = new (codes "varbinary") (tds.code TdsDataType.big_var_binary) 0 none none

  abbrev pub geometry : MssqlTypeInfo
  geometry = new (codes "geometry") (tds.code TdsDataType.udt) 0 none none

  abbrev pub geography : MssqlTypeInfo
  geography = new (codes "geography") (tds.code TdsDataType.udt) 0 none none

  abbrev pub uuid : MssqlTypeInfo
  uuid = new (codes "uniqueidentifier") (tds.code TdsDataType.guid) 16 none none

  abbrev pub decimal : MssqlTypeInfo
  decimal = new (codes "decimal") (tds.code TdsDataType.decimal_n) 17 none none

  abbrev pub date : MssqlTypeInfo
  date = new (codes "date") (tds.code TdsDataType.date_n) 3 none none

  abbrev pub time : MssqlTypeInfo
  time = new (codes "time") (tds.code TdsDataType.time_n) 5 none none

  abbrev pub datetime2 : MssqlTypeInfo
  datetime2 = new (codes "datetime2") (tds.code TdsDataType.date_time2_n) 8 none none

  abbrev pub datetimeoffset : MssqlTypeInfo
  datetimeoffset =
      new (codes "datetimeoffset") (tds.code TdsDataType.date_time_offset_n) 10 none none

  abbrev pub json : MssqlTypeInfo
  json = new (codes "json") (tds.code TdsDataType.json) 0 none none

  -- `PartialEq for MssqlTypeInfo`.
  unfoldable pub eq : MssqlTypeInfo → MssqlTypeInfo → Bool
  eq a b =
      a.sql_data_type == b.sql_data_type
      && (not (a.sql_data_type == tds.code TdsDataType.udt)
          || eq_ignore_ascii_case a.type_name b.type_name)

  abbrev pub data_type : MssqlTypeInfo → Option TdsDataType
  data_type info = tds.try_from info.sql_data_type

  abbrev pub reports_precision : ℕ → Bool
  reports_precision n = matches has_precision (tds.try_from n)

  abbrev pub reports_scale : ℕ → Bool
  reports_scale n = matches has_scale (tds.try_from n)

  unfoldable pub with_precision_scale : MssqlTypeInfo → Option ℕ → Option ℕ → MssqlTypeInfo
  with_precision_scale info precision scale = record info {
    precision =
        if reports_precision info.sql_data_type
        then or_else precision info.precision
        else info.precision;
    scale = if reports_scale info.sql_data_type then or_else scale info.scale else info.scale;
  }

  unfoldable pub is_geometry : MssqlTypeInfo → Bool
  is_geometry info =
      matches is_udt (data_type info) && eq_ignore_ascii_case info.type_name (codes "geometry")

  unfoldable pub is_geography : MssqlTypeInfo → Bool
  is_geography info =
      matches is_udt (data_type info) && eq_ignore_ascii_case info.type_name (codes "geography")

  abbrev pub accepts_character_data : MssqlTypeInfo → Bool
  accepts_character_data info = matches is_character (data_type info)

  abbrev pub accepts_binary_data : MssqlTypeInfo → Bool
  accepts_binary_data info = matches is_binary (data_type info)

  abbrev pub accepts_numeric_data : MssqlTypeInfo → Bool
  accepts_numeric_data info = matches is_numeric (data_type info)

  abbrev pub accepts_datetime_data : MssqlTypeInfo → Bool
  accepts_datetime_data info = matches is_datetime (data_type info)

  abbrev pub accepts_date_data : MssqlTypeInfo → Bool
  accepts_date_data info = matches is_date (data_type info)

  abbrev pub accepts_time_data : MssqlTypeInfo → Bool
  accepts_time_data info = matches is_time (data_type info)

  abbrev pub accepts_naive_datetime_data : MssqlTypeInfo → Bool
  accepts_naive_datetime_data info = matches is_naive_datetime (data_type info)

  abbrev pub accepts_datetimeoffset_data : MssqlTypeInfo → Bool
  accepts_datetimeoffset_data info = matches is_datetimeoffset (data_type info)

  abbrev pub accepts_boolean_data : MssqlTypeInfo → Bool
  accepts_boolean_data info = matches is_boolean (data_type info)

  unfoldable pub has_exact_rust_mapping : Features → MssqlTypeInfo → Bool
  has_exact_rust_mapping features info =
      if is_geometry info || is_geography info
      then features.spatial
      else if accepts_character_data info || accepts_binary_data info
      then true
      else if accepts_datetime_data info
      then features.chrono || features.time || features.jiff
      else if matches is_guid (data_type info)
      then features.uuid
      else matches is_exact (data_type info)
