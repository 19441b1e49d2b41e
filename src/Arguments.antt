-- ===== src/Arguments.antt =====
-- sqlx-mssql-rs-core/src/arguments.rs: the parameters that are bound to a statement.
pub mod Nulls
pub mod Encoders
use sqlx_mssql_rs.Prelude.{
  ℕ, List, [], ◌∷◌, ◌++◌, Bool, true, false, Option, none, some, Text, codes, if◌then◌else◌, length,
}
use sqlx_mssql_rs.Prelude.Int.{ℤ, pos, negsuc, display}
use sqlx_mssql_rs.TypeInfo.{MssqlTypeInfo, data_type}
use sqlx_mssql_rs.TypeInfo.DataType.{TdsDataType, TdsCodes}

-- `SqlType` of mssql-tds, as far as the driver names it. The structures of mssql-tds are a type V,
-- and a float is its bit pattern.
pub data SqlType (V : Type 0) : Type 0 where
  tiny_int : Option ℕ → SqlType V
  small_int : Option ℤ → SqlType V
  int : Option ℤ → SqlType V
  big_int : Option ℤ → SqlType V
  real : Option ℕ → SqlType V
  float : Option ℕ → SqlType V
  bit : Option Bool → SqlType V
  decimal : Option V → SqlType V
  numeric : Option V → SqlType V
  money : Option V → SqlType V
  small_money : Option V → SqlType V
  char : Option V → ℕ → SqlType V
  nchar : Option V → ℕ → SqlType V
  text : Option V → SqlType V
  ntext : Option V → SqlType V
  varchar_max : Option V → SqlType V
  nvarchar_max : Option Text → SqlType V
  var_binary_max : Option (List ℕ) → SqlType V
  uuid : Option V → SqlType V
  date : Option V → SqlType V
  time : Option V → SqlType V
  date_time2 : Option V → SqlType V
  date_time_offset : Option V → SqlType V
  date_time : Option V → SqlType V
  small_date_time : Option V → SqlType V
  xml : Option V → SqlType V
  json : Option V → SqlType V

-- `MssqlArgumentValue::text`, `bytes`, `integer`, `bit`, `real` and `double`.
module _ {V : Type 0} where
  abbrev pub text_value : Text → SqlType V
  text_value value = SqlType.nvarchar_max (some value)

  abbrev pub bytes_value : List ℕ → SqlType V
  bytes_value value = SqlType.var_binary_max (some value)

  abbrev pub integer_value : ℤ → SqlType V
  integer_value value = SqlType.big_int (some value)

  abbrev pub bit_value : Bool → SqlType V
  bit_value value = SqlType.bit (some value)

  abbrev pub real_value : ℕ → SqlType V
  real_value value = SqlType.real (some value)

  abbrev pub double_value : ℕ → SqlType V
  double_value value = SqlType.float (some value)

  -- The match of `null_sql_type`.
  abbrev pub null_of_type : Option TdsDataType → SqlType V
  null_of_type (some TdsDataType.int1) = SqlType.tiny_int none
  null_of_type (some TdsDataType.int2) = SqlType.small_int none
  null_of_type (some TdsDataType.int4) = SqlType.int none
  null_of_type (some TdsDataType.int8) = SqlType.big_int none
  null_of_type (some TdsDataType.int_n) = SqlType.big_int none
  null_of_type (some TdsDataType.flt4) = SqlType.real none
  null_of_type (some TdsDataType.flt8) = SqlType.float none
  null_of_type (some TdsDataType.flt_n) = SqlType.float none
  null_of_type (some TdsDataType.bit) = SqlType.bit none
  null_of_type (some TdsDataType.bit_n) = SqlType.bit none
  null_of_type (some TdsDataType.decimal) = SqlType.decimal none
  null_of_type (some TdsDataType.decimal_n) = SqlType.decimal none
  null_of_type (some TdsDataType.numeric) = SqlType.numeric none
  null_of_type (some TdsDataType.numeric_n) = SqlType.numeric none
  null_of_type (some TdsDataType.money) = SqlType.money none
  null_of_type (some TdsDataType.money4) = SqlType.small_money none
  null_of_type (some TdsDataType.char) = SqlType.char none 0
  null_of_type (some TdsDataType.nchar) = SqlType.nchar none 0
  null_of_type (some TdsDataType.text) = SqlType.text none
  null_of_type (some TdsDataType.ntext) = SqlType.ntext none
  null_of_type (some TdsDataType.big_char) = SqlType.varchar_max none
  null_of_type (some TdsDataType.big_var_char) = SqlType.varchar_max none
  null_of_type (some TdsDataType.var_char) = SqlType.varchar_max none
  null_of_type (some TdsDataType.big_binary) = SqlType.var_binary_max none
  null_of_type (some TdsDataType.big_var_binary) = SqlType.var_binary_max none
  null_of_type (some TdsDataType.binary) = SqlType.var_binary_max none
  null_of_type (some TdsDataType.var_binary) = SqlType.var_binary_max none
  null_of_type (some TdsDataType.image) = SqlType.var_binary_max none
  null_of_type (some TdsDataType.udt) = SqlType.var_binary_max none
  null_of_type (some TdsDataType.guid) = SqlType.uuid none
  null_of_type (some TdsDataType.date_n) = SqlType.date none
  null_of_type (some TdsDataType.time_n) = SqlType.time none
  null_of_type (some TdsDataType.date_time2_n) = SqlType.date_time2 none
  null_of_type (some TdsDataType.date_time_offset_n) = SqlType.date_time_offset none
  null_of_type (some TdsDataType.date_time) = SqlType.date_time none
  null_of_type (some TdsDataType.date_time_n) = SqlType.date_time none
  null_of_type (some TdsDataType.date_tim4) = SqlType.small_date_time none
  null_of_type (some TdsDataType.xml) = SqlType.xml none
  null_of_type (some TdsDataType.json) = SqlType.json none
  null_of_type _ = SqlType.nvarchar_max none

  unfoldable pub null_sql_type : TdsCodes → MssqlTypeInfo → SqlType V
  null_sql_type tds info = null_of_type (data_type tds info)

  -- `MssqlArgumentValue::null_like`.
  unfoldable pub null_like : TdsCodes → MssqlTypeInfo → SqlType V
  unfolding null_sql_type
  null_like tds info = null_sql_type tds info

-- What an encoder returns: the arguments behind it and whether it wrote a NULL, or an error.
pub data Encoded (V : Type 0) : Type 0 where
  encoded : List (SqlType V) → Bool → Encoded V
  refused : Text → Encoded V

-- The encoders of a type T: `encode_by_ref`, `type_info` and `produces`.
pub record Encoder (T V : Type 0) : Type 0 where
  pub encode_by_ref : T → List (SqlType V) → Encoded V
  pub type_info : MssqlTypeInfo
  pub produces : T → Option MssqlTypeInfo

-- `Encode for Option<T>`.
unfoldable pub option_encoder : {T V : Type 0} → TdsCodes → Encoder T V → Encoder (Option T) V
unfolding null_like
option_encoder {T} {V} tds e = record {
  encode_by_ref = λ value buf. elim value [
    | some v ↦ e.encode_by_ref v buf
    | none ↦ Encoded.encoded (buf ++ null_like tds e.type_info ∷ []) true
  ];
  type_info = e.type_info;
  produces = λ value. elim value [ some v ↦ e.produces v | none ↦ some e.type_info ];
}

-- `MssqlArguments::add`, which drops what the encoder says of NULL, and keeps an error.
unfoldable pub add : {T V : Type 0} → Encoder T V → List (SqlType V) → T → Encoded V
add e values value = e.encode_by_ref value values
