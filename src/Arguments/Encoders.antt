-- ===== src/Arguments/Encoders.antt =====
-- The other encoders of arguments.rs in sqlx-mssql-rs-core/src, with the types that they name and
-- that the decoders of value.rs accept.
use sqlx_mssql_rs.Prelude.{ℕ, Bool, false, none, List, [], ◌∷◌, ◌++◌, Text}
use sqlx_mssql_rs.TypeInfo.{
  MssqlTypeInfo, bit, real, double, nvarchar_max, varbinary_max, accepts_boolean_data,
  accepts_numeric_data, accepts_character_data, accepts_binary_data,
}
use sqlx_mssql_rs.TypeInfo.DataType.{TdsCodes}
use sqlx_mssql_rs.Arguments.{
  SqlType, Encoded, Encoder, text_value, bytes_value, bit_value, real_value, double_value,
}

-- An encoder that pushes one parameter. `produces` is none, as in SQLx' default.
abbrev pushing : {T V : Type 0} → MssqlTypeInfo → (T → SqlType V) → Encoder T V
pushing info to = record {
  encode_by_ref = λ value buf. Encoded.encoded (buf ++ to value ∷ []) false;
  type_info = info;
  produces = λ value. none;
}

module _ {V : Type 0} (tds : TdsCodes) where
  unfoldable pub bool_encoder : Encoder Bool V
  bool_encoder = pushing (bit tds) bit_value

  unfoldable pub f32_encoder : Encoder ℕ V
  f32_encoder = pushing (real tds) real_value

  unfoldable pub f64_encoder : Encoder ℕ V
  f64_encoder = pushing (double tds) double_value

  unfoldable pub string_encoder : Encoder Text V
  string_encoder = pushing (nvarchar_max tds) text_value

  unfoldable pub vec_encoder : Encoder (List ℕ) V
  vec_encoder = pushing (varbinary_max tds) bytes_value

-- `compatible` of the types.
module _ (tds : TdsCodes) where
  unfoldable pub bool_compatible : MssqlTypeInfo → Bool
  bool_compatible = accepts_boolean_data tds

  unfoldable pub number_compatible : MssqlTypeInfo → Bool
  number_compatible = accepts_numeric_data tds

  unfoldable pub string_compatible : MssqlTypeInfo → Bool
  string_compatible = accepts_character_data tds

  unfoldable pub bytes_compatible : MssqlTypeInfo → Bool
  bytes_compatible = accepts_binary_data tds
