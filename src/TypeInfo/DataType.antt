-- ===== src/TypeInfo/DataType.antt =====
-- TdsDataType of mssql-tds and the kinds into which type_info.rs sorts it. The enum and its numbers
-- are not part of this repository: its cases are those that the driver names, and `other` stands for
-- the rest.
use sqlx_mssql_rs.Prelude.{ℕ, ◌≡◌, Bool, true, false, Option, some}

pub data TdsDataType : Type 0 where
  no_type : TdsDataType
  int1 : TdsDataType
  int2 : TdsDataType
  int4 : TdsDataType
  int8 : TdsDataType
  int_n : TdsDataType
  flt4 : TdsDataType
  flt8 : TdsDataType
  flt_n : TdsDataType
  bit : TdsDataType
  bit_n : TdsDataType
  decimal : TdsDataType
  decimal_n : TdsDataType
  numeric : TdsDataType
  numeric_n : TdsDataType
  money : TdsDataType
  money4 : TdsDataType
  money_n : TdsDataType
  big_char : TdsDataType
  big_var_char : TdsDataType
  char : TdsDataType
  var_char : TdsDataType
  text : TdsDataType
  nchar : TdsDataType
  nvar_char : TdsDataType
  ntext : TdsDataType
  xml : TdsDataType
  json : TdsDataType
  big_binary : TdsDataType
  big_var_binary : TdsDataType
  binary : TdsDataType
  var_binary : TdsDataType
  image : TdsDataType
  vector : TdsDataType
  date_n : TdsDataType
  time_n : TdsDataType
  date_time2_n : TdsDataType
  date_time_offset_n : TdsDataType
  date_time : TdsDataType
  date_tim4 : TdsDataType
  date_time_n : TdsDataType
  guid : TdsDataType
  udt : TdsDataType
  other : ℕ → TdsDataType

-- `as u8` and `TdsDataType::try_from`, which undoes it.
pub record TdsCodes : Type 0 where
  pub code : TdsDataType → ℕ
  pub try_from : ℕ → Option TdsDataType
  pub try_from-code : (d : TdsDataType) → try_from (code d) ≡ some d

abbrev pub is_udt : TdsDataType → Bool
is_udt TdsDataType.udt = true
is_udt _ = false

abbrev pub is_character : TdsDataType → Bool
is_character TdsDataType.big_char = true
is_character TdsDataType.big_var_char = true
is_character TdsDataType.char = true
is_character TdsDataType.var_char = true
is_character TdsDataType.text = true
is_character TdsDataType.nchar = true
is_character TdsDataType.nvar_char = true
is_character TdsDataType.ntext = true
is_character TdsDataType.xml = true
is_character TdsDataType.json = true
is_character _ = false

abbrev pub is_binary : TdsDataType → Bool
is_binary TdsDataType.big_binary = true
is_binary TdsDataType.big_var_binary = true
is_binary TdsDataType.binary = true
is_binary TdsDataType.var_binary = true
is_binary TdsDataType.image = true
is_binary TdsDataType.vector = true
is_binary _ = false

abbrev pub is_numeric : TdsDataType → Bool
is_numeric TdsDataType.int1 = true
is_numeric TdsDataType.int2 = true
is_numeric TdsDataType.int4 = true
is_numeric TdsDataType.int8 = true
is_numeric TdsDataType.int_n = true
is_numeric TdsDataType.decimal = true
is_numeric TdsDataType.decimal_n = true
is_numeric TdsDataType.numeric = true
is_numeric TdsDataType.numeric_n = true
is_numeric TdsDataType.money = true
is_numeric TdsDataType.money4 = true
is_numeric TdsDataType.money_n = true
is_numeric TdsDataType.flt4 = true
is_numeric TdsDataType.flt8 = true
is_numeric TdsDataType.flt_n = true
is_numeric _ = false

abbrev pub is_datetime : TdsDataType → Bool
is_datetime TdsDataType.date_n = true
is_datetime TdsDataType.time_n = true
is_datetime TdsDataType.date_time2_n = true
is_datetime TdsDataType.date_time_offset_n = true
is_datetime TdsDataType.date_time = true
is_datetime TdsDataType.date_tim4 = true
is_datetime TdsDataType.date_time_n = true
is_datetime _ = false

abbrev pub is_date : TdsDataType → Bool
is_date TdsDataType.date_n = true
is_date _ = false

abbrev pub is_time : TdsDataType → Bool
is_time TdsDataType.time_n = true
is_time _ = false

abbrev pub is_naive_datetime : TdsDataType → Bool
is_naive_datetime TdsDataType.date_time2_n = true
is_naive_datetime TdsDataType.date_time = true
is_naive_datetime TdsDataType.date_tim4 = true
is_naive_datetime TdsDataType.date_time_n = true
is_naive_datetime _ = false

abbrev pub is_datetimeoffset : TdsDataType → Bool
is_datetimeoffset TdsDataType.date_time_offset_n = true
is_datetimeoffset _ = false

abbrev pub is_boolean : TdsDataType → Bool
is_boolean TdsDataType.bit = true
is_boolean TdsDataType.bit_n = true
is_boolean _ = false

abbrev pub has_precision : TdsDataType → Bool
has_precision TdsDataType.decimal_n = true
has_precision TdsDataType.numeric_n = true
has_precision TdsDataType.money = true
has_precision TdsDataType.money4 = true
has_precision TdsDataType.money_n = true
has_precision _ = false

abbrev pub has_scale : TdsDataType → Bool
has_scale TdsDataType.decimal_n = true
has_scale TdsDataType.numeric_n = true
has_scale TdsDataType.time_n = true
has_scale TdsDataType.date_time2_n = true
has_scale TdsDataType.date_time_offset_n = true
has_scale _ = false

abbrev pub is_guid : TdsDataType → Bool
is_guid TdsDataType.guid = true
is_guid _ = false

abbrev pub is_exact : TdsDataType → Bool
is_exact TdsDataType.int1 = true
is_exact TdsDataType.int2 = true
is_exact TdsDataType.int4 = true
is_exact TdsDataType.int8 = true
is_exact TdsDataType.flt4 = true
is_exact TdsDataType.flt8 = true
is_exact TdsDataType.bit = true
is_exact _ = false
