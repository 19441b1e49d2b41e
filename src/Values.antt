-- ===== src/Values.antt =====
-- sqlx-mssql-rs-core/src/value.rs: the values that rows hold, and what they can be read as. The
-- structures of mssql-tds that the driver only passes on are a type V. A float is its bit pattern;
-- its operations, the texts of mssql-tds' structures and `String::from_utf8_lossy` are parameters.
pub mod Convert
pub mod Integers
pub mod Utf16
pub mod Guid
pub mod Digits
pub mod Decoders
use sqlx_mssql_rs.Prelude.{
  ℕ, List, [], ◌∷◌, ◌++◌, Bool, true, false, not, Option, none, some, ◌==◌, if◌then◌else◌, Text,
  codes,
}
use sqlx_mssql_rs.Prelude.Int.{ℤ, pos, negsuc}
use sqlx_mssql_rs.Prelude.Read.{◌>>=◌}
use sqlx_mssql_rs.Prelude.Ascii.{trim}
use sqlx_mssql_rs.TypeInfo.{MssqlTypeInfo}
use sqlx_mssql_rs.Values.Convert.{
  parse_i64, parse_bool_text, utf8, utf16le_to_string, guid_to_string, or_else,
}

-- `ColumnValues` of mssql-tds, as far as the driver names it; `other` stands for the rest.
pub data ColumnValues (V : Type 0) : Type 0 where
  null : ColumnValues V
  tiny_int : ℕ → ColumnValues V
  small_int : ℤ → ColumnValues V
  int : ℤ → ColumnValues V
  big_int : ℤ → ColumnValues V
  bit : Bool → ColumnValues V
  real : ℕ → ColumnValues V
  float : ℕ → ColumnValues V
  money : V → ColumnValues V
  small_money : V → ColumnValues V
  decimal : V → ColumnValues V
  numeric : V → ColumnValues V
  string : V → ColumnValues V
  xml : List ℕ → ColumnValues V
  json : List ℕ → ColumnValues V
  uuid : List ℕ → ColumnValues V
  bytes : List ℕ → ColumnValues V
  other : V → ColumnValues V

pub record Foreign (V : Type 0) : Type 0 where
  pub sql_string_to_utf8 : V → Text
  pub decimal_to_string : V → Text
  pub from_utf8_lossy : List ℕ → Text
  pub parse_f64 : Text → Option ℕ
  pub is_whole : ℕ → Bool
  pub float_as_i64 : ℕ → ℤ
  pub real_is_zero : ℕ → Bool
  pub float_is_zero : ℕ → Bool
  pub f64_from_real : ℕ → ℕ
  pub f64_from_int : ℤ → ℕ
  pub f64_from_money : V → Option ℕ
  pub f64_from_small_money : V → ℕ

pub record MssqlValue (V : Type 0) : Type 0 where
  pub raw : ColumnValues V
  pub text : Option Text
  pub type_info : MssqlTypeInfo

abbrev is_zero : ℤ → Bool
is_zero (pos n) = n == 0
is_zero (negsuc _) = false

module _ {V : Type 0} (foreign : Foreign V) where
  -- `textual_form`.
  unfoldable pub textual_form : ColumnValues V → Option Text
  unfolding utf16le_to_string
  textual_form (ColumnValues.string v) = some (foreign.sql_string_to_utf8 v)
  textual_form (ColumnValues.xml bs) = some (utf16le_to_string bs)
  textual_form (ColumnValues.json bs) = some (foreign.from_utf8_lossy bs)
  textual_form (ColumnValues.decimal v) = some (foreign.decimal_to_string v)
  textual_form (ColumnValues.numeric v) = some (foreign.decimal_to_string v)
  textual_form _ = none

  -- `MssqlValue::new` and `MssqlValue::null`.
  unfoldable pub new : ColumnValues V → MssqlTypeInfo → MssqlValue V
  unfolding textual_form
  new raw type_info = record { raw = raw; text = textual_form raw; type_info = type_info }

  unfoldable pub null_of : MssqlTypeInfo → MssqlValue V
  unfolding new
  null_of type_info = new ColumnValues.null type_info

  -- `is_null`.
  unfoldable pub is_null : MssqlValue V → Bool
  is_null v = elim v.raw [ ColumnValues.null ↦ true | _ ↦ false ]

  unfoldable pub parse_integer_text : Text → Option ℤ
  unfolding parse_i64 trim
  parse_integer_text text = or_else (parse_i64 (trim text)) (do
    value ← foreign.parse_f64 (trim text)
    if foreign.is_whole value then some (foreign.float_as_i64 value) else none)

  unfoldable pub as_i64_of : ColumnValues V → Option Text → Option ℤ
  unfolding parse_integer_text
  as_i64_of (ColumnValues.tiny_int n) text = some (pos n)
  as_i64_of (ColumnValues.small_int z) text = some z
  as_i64_of (ColumnValues.int z) text = some z
  as_i64_of (ColumnValues.big_int z) text = some z
  as_i64_of (ColumnValues.bit b) text = some (if b then pos 1 else pos 0)
  as_i64_of _ text = text >>= parse_integer_text

  -- `as_i64`.
  unfoldable pub as_i64 : MssqlValue V → Option ℤ
  unfolding as_i64_of
  as_i64 v = as_i64_of v.raw v.text

  unfoldable pub as_f64_of : ColumnValues V → Option Text → Option ℕ
  unfolding trim
  as_f64_of (ColumnValues.real x) text = some (foreign.f64_from_real x)
  as_f64_of (ColumnValues.float x) text = some x
  as_f64_of (ColumnValues.tiny_int n) text = some (foreign.f64_from_int (pos n))
  as_f64_of (ColumnValues.small_int z) text = some (foreign.f64_from_int z)
  as_f64_of (ColumnValues.int z) text = some (foreign.f64_from_int z)
  as_f64_of (ColumnValues.big_int z) text = some (foreign.f64_from_int z)
  as_f64_of (ColumnValues.money m) text = foreign.f64_from_money m
  as_f64_of (ColumnValues.small_money m) text = some (foreign.f64_from_small_money m)
  as_f64_of _ text = text >>= λ t. foreign.parse_f64 (trim t)

  -- `as_f64`.
  unfoldable pub as_f64 : MssqlValue V → Option ℕ
  unfolding as_f64_of
  as_f64 v = as_f64_of v.raw v.text

  unfoldable pub as_str_of : ColumnValues V → Option Text → Option Text
  unfolding guid_to_string
  as_str_of (ColumnValues.uuid bs) text = some (guid_to_string bs)
  as_str_of _ text = text

  -- `as_str` of `MssqlValue`; that of `MssqlValueRef` is the field `text`.
  unfoldable pub as_str : MssqlValue V → Option Text
  unfolding as_str_of
  as_str v = as_str_of v.raw v.text

  unfoldable pub as_bytes_of : ColumnValues V → Option Text → Option (List ℕ)
  unfolding utf8
  as_bytes_of (ColumnValues.bytes bs) text = some bs
  as_bytes_of (ColumnValues.uuid bs) text = some bs
  as_bytes_of _ text = text >>= λ t. some (utf8 t)

  -- `as_bytes`.
  unfoldable pub as_bytes : MssqlValue V → Option (List ℕ)
  unfolding as_bytes_of
  as_bytes v = as_bytes_of v.raw v.text

  unfoldable pub as_bool_of : ColumnValues V → Option Text → Option Bool
  unfolding parse_bool_text
  as_bool_of (ColumnValues.bit b) text = some b
  as_bool_of (ColumnValues.tiny_int n) text = some (not (n == 0))
  as_bool_of (ColumnValues.small_int z) text = some (not (is_zero z))
  as_bool_of (ColumnValues.int z) text = some (not (is_zero z))
  as_bool_of (ColumnValues.big_int z) text = some (not (is_zero z))
  as_bool_of (ColumnValues.real x) text = some (not (foreign.real_is_zero x))
  as_bool_of (ColumnValues.float x) text = some (not (foreign.float_is_zero x))
  as_bool_of _ text = text >>= parse_bool_text

  -- `as_bool`.
  unfoldable pub as_bool : MssqlValue V → Option Bool
  unfolding as_bool_of
  as_bool v = as_bool_of v.raw v.text

-- The text of `decode_error`.
unfoldable pub decode_error : Text → Text → Text → Text
decode_error type_name target reason =
    codes "cannot decode MSSQL "
    ++ (type_name ++ (codes " value into " ++ (target ++ (codes ": " ++ reason))))
