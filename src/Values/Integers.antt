-- ===== src/Values/Integers.antt =====
-- The integers: the encoders of arguments.rs and the decoders of value.rs, in
-- sqlx-mssql-rs-core/src.
pub mod Laws
use sqlx_mssql_rs.Prelude.{
  ℕ, ◌≤◌, ◌<◌, ◌++◌, List, [], ◌∷◌, Bool, true, false, Option, none, some, ltb, leb, if◌then◌else◌,
  Text, codes,
}
use sqlx_mssql_rs.Prelude.Int.{ℤ, pos, negsuc, display}
use sqlx_mssql_rs.TypeInfo.{MssqlTypeInfo, tinyint, smallint, integer, bigint}
use sqlx_mssql_rs.TypeInfo.DataType.{TdsCodes}
use sqlx_mssql_rs.Arguments.{SqlType, Encoded, integer_value}
use sqlx_mssql_rs.Values.{ColumnValues, Foreign, MssqlValue, as_i64, decode_error}

-- The types of `impl_encode_integer!` and `impl_decode_integer!`, and `u64`.
pub data IntegerType : Type 0 where
  i8 : IntegerType
  i16 : IntegerType
  i32 : IntegerType
  i64 : IntegerType
  u8 : IntegerType
  u16 : IntegerType
  u32 : IntegerType
  u64 : IntegerType

-- `stringify!($ty)`.
abbrev pub name : IntegerType → Text
name IntegerType.i8 = codes "i8"
name IntegerType.i16 = codes "i16"
name IntegerType.i32 = codes "i32"
name IntegerType.i64 = codes "i64"
name IntegerType.u8 = codes "u8"
name IntegerType.u16 = codes "u16"
name IntegerType.u32 = codes "u32"
name IntegerType.u64 = codes "u64"

-- The largest value, and how many negative values there are.
abbrev pub most : IntegerType → ℕ
most IntegerType.i8 = 127
most IntegerType.i16 = 32767
most IntegerType.i32 = 2147483647
most IntegerType.i64 = 9223372036854775807
most IntegerType.u8 = 255
most IntegerType.u16 = 65535
most IntegerType.u32 = 4294967295
most IntegerType.u64 = 18446744073709551615

abbrev pub negatives : IntegerType → ℕ
negatives IntegerType.i8 = 128
negatives IntegerType.i16 = 32768
negatives IntegerType.i32 = 2147483648
negatives IntegerType.i64 = 9223372036854775808
negatives IntegerType.u8 = 0
negatives IntegerType.u16 = 0
negatives IntegerType.u32 = 0
negatives IntegerType.u64 = 0

abbrev fits : IntegerType → ℤ → Bool
fits t (pos n) = leb n (most t)
fits t (negsuc n) = ltb n (negatives t)

-- `try_from`.
abbrev pub try_from : IntegerType → ℤ → Option ℤ
try_from t z = if fits t z then some z else none

-- `integer_type_info_for`.
unfoldable pub integer_type_info_for : TdsCodes → IntegerType → MssqlTypeInfo
integer_type_info_for tds IntegerType.i8 = tinyint tds
integer_type_info_for tds IntegerType.u8 = tinyint tds
integer_type_info_for tds IntegerType.i16 = smallint tds
integer_type_info_for tds IntegerType.u16 = smallint tds
integer_type_info_for tds IntegerType.i32 = integer tds
integer_type_info_for tds IntegerType.u32 = integer tds
integer_type_info_for tds IntegerType.i64 = bigint tds
integer_type_info_for tds IntegerType.u64 = bigint tds

abbrev pub u64_refusal : ℤ → Text
u64_refusal z =
    codes "u64 value "
    ++ (display z
        ++ codes
            " exceeds BIGINT range (max 9223372036854775807) and cannot be encoded for MSSQL; use NUMERIC/DECIMAL via rust_decimal for larger values")

abbrev pushed : {V : Type 0} → List (SqlType V) → ℤ → Encoded V
pushed buf z = Encoded.encoded (buf ++ integer_value z ∷ []) false

-- `encode_by_ref` of each of the types.
unfoldable pub encode_integer : {V : Type 0} → IntegerType → ℤ → List (SqlType V) → Encoded V
encode_integer IntegerType.u64 z buf = elim (try_from IntegerType.i64 z) [
  | none ↦ Encoded.refused (u64_refusal z)
  | some value ↦ pushed buf value
]
encode_integer IntegerType.i8 z buf = pushed buf z
encode_integer IntegerType.i16 z buf = pushed buf z
encode_integer IntegerType.i32 z buf = pushed buf z
encode_integer IntegerType.i64 z buf = pushed buf z
encode_integer IntegerType.u8 z buf = pushed buf z
encode_integer IntegerType.u16 z buf = pushed buf z
encode_integer IntegerType.u32 z buf = pushed buf z

pub data Decoded (A : Type 0) : Type 0 where
  decoded : A → Decoded A
  undecodable : Text → Decoded A

-- `Decode` of each of the types.
module _ {V : Type 0} (foreign : Foreign V) where
  abbrev pub not_integer : IntegerType → MssqlValue V → Text
  not_integer t v =
      decode_error v.type_info.type_name (name t) (codes "source value is not an integer")

  abbrev pub outside : IntegerType → MssqlValue V → ℤ → Text
  outside t v z =
      decode_error v.type_info.type_name (name t)
        (codes "integer value " ++ (display z ++ codes " is outside the target range"))

  unfoldable pub decode_integer : IntegerType → MssqlValue V → Decoded ℤ
  unfolding decode_error
  decode_integer t v = elim (as_i64 foreign v) [
    | none ↦ Decoded.undecodable (not_integer t v)
    | some z ↦ elim (try_from t z) [
      | none ↦ Decoded.undecodable (outside t v z)
      | some n ↦ Decoded.decoded n
    ]
  ]
