-- ===== src/Tests/Values.antt =====
-- Values and parameters: the theorems at concrete inputs.
use mathlib.Core.Path.{refl}
use sqlx_mssql_rs.Prelude.{
  ℕ, ◌≡◌, ◌↔◌, ◌⊎◌, inl, inr, List, [], ◌∷◌, ◌++◌, true, false, none, some, codes, arith,
}
use sqlx_mssql_rs.Prelude.Int.{ℤ, pos, negsuc, display}
use sqlx_mssql_rs.TypeInfo.{bigint, decimal, geometry, geography}
use sqlx_mssql_rs.TypeInfo.DataType.{TdsDataType}
use sqlx_mssql_rs.Arguments.{SqlType, Encoded, integer_value, bytes_value, option_encoder, add}
use sqlx_mssql_rs.Arguments.Encoders.{vec_encoder}
use sqlx_mssql_rs.Arguments.Nulls.{IsNullOf, add-IsNullOf}
use sqlx_mssql_rs.Values
use sqlx_mssql_rs.Values.{ColumnValues, Foreign, MssqlValue, as_i64, textual_form}
use sqlx_mssql_rs.Values.Convert.{
  or_else, utf16le_to_string, guid_to_string, parse_i64, parse_bool_text,
}
use sqlx_mssql_rs.Values.Integers.{
  IntegerType, Decoded, encode_integer, decode_integer, u64_refusal, try_from,
}
use sqlx_mssql_rs.Values.Integers.Laws.{
  InRange, IsOf, small_int, decode_integer-Holds, decode_integer-encode_integer,
}
use sqlx_mssql_rs.Values.Utf16.{little_endian, utf16, utf16le_to_string-little_endian}
use sqlx_mssql_rs.Values.Guid.{read_guid, read_guid-guid_to_string}
use sqlx_mssql_rs.Values.Digits.{by_float, as_i64-display}
use sqlx_mssql_rs.Spatial.{Fault, ok, fail}
use sqlx_mssql_rs.Spatial.Normal.{normal}
use sqlx_mssql_rs.Spatial.Columns.{
  MssqlSpatial, decode_geometry, decode_geography, geometry_encoder, geography_encoder, column,
  spatial_columns,
}
use sqlx_mssql_rs.Tests.Types.{numbers}
use sqlx_mssql_rs.Tests.Shapes.{plain, mixed, mixed-IsCountable, mixed-IsRinged}

-- Foreign structures that are integers, a `decimal` among them.
abbrev scaled : Foreign ℤ
scaled = record {
  sql_string_to_utf8 = display;
  decimal_to_string = display;
  from_utf8_lossy = λ bytes. bytes;
  parse_f64 = λ text. some 0;
  is_whole = λ x. true;
  float_as_i64 = λ x. pos 9223372036854775807;
  real_is_zero = λ x. false;
  float_is_zero = λ x. false;
  f64_from_real = λ x. x;
  f64_from_int = λ z. 0;
  f64_from_money = λ z. none;
  f64_from_small_money = λ z. 0;
}

words :
    (parse_i64 (codes "-42") ≡ some (negsuc 41)) × (parse_bool_text (codes " True ") ≡ some true)
unfolding parse_i64 parse_bool_text
words = (refl, refl)

abbrev signed_row : MssqlValue ℤ
signed_row = Values.new scaled (ColumnValues.small_int (negsuc 4)) (bigint numbers)

decode_integer-Holds_example :
    (decode_integer scaled IntegerType.i8 signed_row ≡ Decoded.decoded (negsuc 4))
    ↔ ((negsuc 4 ≡ negsuc 4) × IsOf IntegerType.i8 (negsuc 4))
decode_integer-Holds_example =
    decode_integer-Holds scaled IntegerType.i8 (ColumnValues.small_int (negsuc 4)) (negsuc 4)
      (negsuc 4) (bigint numbers) small_int

decode_integer-encode_integer_example :
    (InRange IntegerType.i64 (pos 9223372036854775808)
      × (encode_integer {V = ℤ} IntegerType.u64 (pos 9223372036854775808) []
          ≡ Encoded.encoded (integer_value (pos 9223372036854775808) ∷ []) false)
      × (decode_integer scaled IntegerType.u64
            (Values.new scaled (ColumnValues.big_int (pos 9223372036854775808)) (bigint numbers))
          ≡ Decoded.decoded (pos 9223372036854775808)))
    ⊎ ((¬ InRange IntegerType.i64 (pos 9223372036854775808))
        × (IntegerType.u64 ≡ IntegerType.u64)
        × (encode_integer {V = ℤ} IntegerType.u64 (pos 9223372036854775808) []
            ≡ Encoded.refused (u64_refusal (pos 9223372036854775808))))
decode_integer-encode_integer_example =
    decode_integer-encode_integer scaled IntegerType.u64 (pos 9223372036854775808) (bigint numbers)
      [] (omega arith)

add-IsNullOf_example :
    (p : SqlType ℤ) × (add (option_encoder numbers (vec_encoder numbers)) [] none
      ≡ Encoded.encoded (p ∷ []) true)
    × IsNullOf TdsDataType.big_var_binary p
add-IsNullOf_example =
    add-IsNullOf numbers (vec_encoder numbers) [] TdsDataType.big_var_binary
      (unfold vec_encoder in numbers.try_from-code TdsDataType.big_var_binary)

utf16le_to_string-little_endian_example :
    utf16le_to_string (little_endian (utf16 (65 ∷ 0x1f600 ∷ []))) ≡ 65 ∷ 0x1f600 ∷ []
utf16le_to_string-little_endian_example =
    utf16le_to_string-little_endian (65 ∷ 0x1f600 ∷ [])
      (inl (omega arith), (inr (omega arith, omega arith), tt))

abbrev guid_bytes : List ℕ
guid_bytes = 0 ∷ 1 ∷ 2 ∷ 3 ∷ 4 ∷ 5 ∷ 6 ∷ 7 ∷ 8 ∷ 9 ∷ 10 ∷ 11 ∷ 12 ∷ 13 ∷ 254 ∷ 255 ∷ []

guid_text : guid_to_string guid_bytes ≡ codes "00010203-0405-0607-0809-0a0b0c0dfeff"
unfolding guid_to_string
guid_text = refl

read_guid-guid_to_string_example : read_guid (guid_to_string guid_bytes) ≡ some guid_bytes
read_guid-guid_to_string_example = read_guid-guid_to_string guid_bytes (omega arith) (omega arith)

-- A `decimal` beyond `i64`, which the float of its text makes the largest `i64`.
as_i64-display_example :
    as_i64 scaled
      (Values.new scaled (ColumnValues.decimal (pos 99999999999999999999)) (decimal numbers))
    ≡ or_else
        (try_from IntegerType.i64 (pos 99999999999999999999))
        (by_float scaled (display (pos 99999999999999999999)))
as_i64-display_example =
    as_i64-display scaled (ColumnValues.decimal (pos 99999999999999999999)) (decimal numbers)
      (pos 99999999999999999999) (unfold textual_form in refl)

abbrev mixed_value : MssqlSpatial
mixed_value = record { srid = pos 4326; shape = mixed }

abbrev GeometryColumns : MssqlSpatial → List (SqlType ℤ) → Type 0
GeometryColumns value buf =
    (bytes : List ℕ) × ((geometry_encoder plain numbers scaled).encode_by_ref value buf
      ≡ Encoded.encoded (buf ++ bytes_value bytes ∷ []) false)
    × ((geography_encoder plain numbers scaled).encode_by_ref value buf
        ≡ Encoded.encoded (buf ++ bytes_value bytes ∷ []) false)
    × (decode_geometry plain numbers scaled (column plain numbers scaled (geometry numbers) bytes)
        ≡ ok (record { srid = value.srid; shape = normal plain value.shape }))
    × (decode_geography plain numbers scaled (column plain numbers scaled (geography numbers) bytes)
        ≡ ok (record { srid = value.srid; shape = normal plain value.shape }))
    × (decode_geography plain numbers scaled (column plain numbers scaled (geometry numbers) bytes)
        ≡ fail (Fault.not_a_column_of (codes "geometry") (codes "geography")))
    × (decode_geometry plain numbers scaled (column plain numbers scaled (geography numbers) bytes)
        ≡ fail (Fault.not_a_column_of (codes "geography") (codes "geometry")))

spatial_columns_example : GeometryColumns mixed_value []
spatial_columns_example =
    spatial_columns plain numbers scaled mixed_value [] (omega arith) mixed-IsCountable
      mixed-IsRinged
