-- ===== src/Spatial/Columns.antt =====
-- `MssqlGeometry` and `MssqlGeography` of types/geo.rs, as parameters and as columns.
use mathlib.Core.Path.{refl}
use sqlx_mssql_rs.Prelude.{
  ℕ, ◌≡◌, ap, ◌∙◌, Bool, true, false, not, List, [], ◌∷◌, ◌++◌, none, some, Text, codes,
  if◌then◌else◌,
}
use sqlx_mssql_rs.Prelude.Int.{ℤ}
use sqlx_mssql_rs.Prelude.Ascii.{eq_ignore_ascii_case}
use sqlx_mssql_rs.Prelude.Bytes.{IsI32}
use sqlx_mssql_rs.TypeInfo.{MssqlTypeInfo, is_geometry, is_geography, geometry, geography}
use sqlx_mssql_rs.TypeInfo.DataType.{TdsDataType, TdsCodes}
use sqlx_mssql_rs.Values
use sqlx_mssql_rs.Values.{ColumnValues, Foreign, MssqlValue, as_bytes}
use sqlx_mssql_rs.Arguments.{SqlType, Encoder, Encoded, bytes_value}
use sqlx_mssql_rs.Spatial.{Geometry, GeoTypes, Fault, Result, ok, fail}
use sqlx_mssql_rs.Spatial.Encode.{encode}
use sqlx_mssql_rs.Spatial.Decode.{decode}
use sqlx_mssql_rs.Spatial.Normal.{IsRinged, normal}
use sqlx_mssql_rs.Spatial.RoundTrip.{IsCountable, encoded, decode-encode-normal}

spatial_kinds :
    (tds : TdsCodes)
    → (is_geometry tds (geometry tds) ≡ true)
      × (is_geography tds (geography tds) ≡ true)
      × (is_geography tds (geometry tds) ≡ false)
      × (is_geometry tds (geography tds) ≡ false)
unfolding is_geometry is_geography eq_ignore_ascii_case
spatial_kinds tds =
    let e = tds.try_from-code TdsDataType.udt in (rw e refl, rw e refl, rw e refl, rw e refl)

-- The two wrappers have the same fields.
pub record MssqlSpatial : Type 0 where
  pub srid : ℤ
  pub shape : Geometry

module _ {V : Type 0} (geo : GeoTypes) (tds : TdsCodes) (foreign : Foreign V) where
  unfoldable pub decode_spatial :
      MssqlValue V → (MssqlTypeInfo → Bool) → Text → Result (ℤ × Geometry)
  decode_spatial v is_expected expected =
      if not (is_expected v.type_info)
      then fail (Fault.not_a_column_of v.type_info.type_name expected)
      else elim (as_bytes foreign v) [
        | none ↦ fail (Fault.not_binary expected)
        | some bytes ↦ decode geo bytes
      ]

  abbrev pub wrapped : Result (ℤ × Geometry) → Result MssqlSpatial
  wrapped (fail e) = fail e
  wrapped (ok (srid, shape)) = ok (record { srid = srid; shape = shape })

  -- `Decode for MssqlGeometry` and `Decode for MssqlGeography`.
  unfoldable pub decode_geometry : MssqlValue V → Result MssqlSpatial
  unfolding decode_spatial
  decode_geometry v = wrapped (decode_spatial v (is_geometry tds) (codes "geometry"))

  unfoldable pub decode_geography : MssqlValue V → Result MssqlSpatial
  unfolding decode_spatial
  decode_geography v = wrapped (decode_spatial v (is_geography tds) (codes "geography"))

  -- `Encode` and `Type` of the two.
  abbrev pub spatial_encoder : MssqlTypeInfo → Encoder MssqlSpatial V
  spatial_encoder info = record {
    encode_by_ref = λ value buf.
        Encoded.encoded (buf ++ bytes_value (encode geo value.srid value.shape) ∷ []) false;
    type_info = info;
    produces = λ value. some info;
  }

  unfoldable pub geometry_encoder : Encoder MssqlSpatial V
  geometry_encoder = spatial_encoder (geometry tds)

  unfoldable pub geography_encoder : Encoder MssqlSpatial V
  geography_encoder = spatial_encoder (geography tds)

  -- A value as a column of the type `info`, if the server keeps the bytes of its parameter.
  abbrev pub column : MssqlTypeInfo → List ℕ → MssqlValue V
  column info bytes = Values.new foreign (ColumnValues.bytes bytes) info

  decode_spatial-column :
      (info : MssqlTypeInfo) (is_expected : MssqlTypeInfo → Bool) (expected : Text) (bytes : List ℕ)
      → is_expected info ≡ true
      → decode_spatial (column info bytes) is_expected expected ≡ decode geo bytes
  unfolding decode_spatial as_bytes Values.new
  decode_spatial-column info is_expected expected bytes h = rw h refl

  decode_spatial-refused :
      (info : MssqlTypeInfo) (is_expected : MssqlTypeInfo → Bool) (expected : Text) (bytes : List ℕ)
      → is_expected info ≡ false
      → decode_spatial (column info bytes) is_expected expected
        ≡ fail (Fault.not_a_column_of info.type_name expected)
  unfolding decode_spatial Values.new
  decode_spatial-refused info is_expected expected bytes h = rw h refl

  -- What `MssqlGeometry` sends for a value, an SRID that is an `i32` with a shape that can be
  -- counted and has its rings, a geometry column gives back in its normal form, and
  -- `MssqlGeography` refuses to read it; and the other way about.
  pub spatial_columns :
      (value : MssqlSpatial) (buf : List (SqlType V))
      → IsI32 value.srid
      → IsCountable (encoded geo value.shape)
      → IsRinged value.shape
      → (bytes : List ℕ) × (geometry_encoder.encode_by_ref value buf
          ≡ Encoded.encoded (buf ++ bytes_value bytes ∷ []) false)
        × (geography_encoder.encode_by_ref value buf
            ≡ Encoded.encoded (buf ++ bytes_value bytes ∷ []) false)
        × (decode_geometry (column (geometry tds) bytes)
            ≡ ok (record { srid = value.srid; shape = normal geo value.shape }))
        × (decode_geography (column (geography tds) bytes)
            ≡ ok (record { srid = value.srid; shape = normal geo value.shape }))
        × (decode_geography (column (geometry tds) bytes)
            ≡ fail (Fault.not_a_column_of (codes "geometry") (codes "geography")))
        × (decode_geometry (column (geography tds) bytes)
            ≡ fail (Fault.not_a_column_of (codes "geography") (codes "geometry")))
  unfolding geometry_encoder geography_encoder decode_geometry decode_geography
  spatial_columns value buf h c r =
      let bytes = encode geo value.srid value.shape in
      let kinds = spatial_kinds tds in
      let back = decode-encode-normal geo value.srid value.shape h c r in
      (
        bytes,
        refl,
        refl,
        ap wrapped (
            decode_spatial-column (geometry tds) (is_geometry tds) (codes "geometry") bytes kinds.0
            ∙ back),
        ap wrapped (
            decode_spatial-column (geography tds) (is_geography tds) (codes "geography") bytes
              kinds.1
            ∙ back),
        ap wrapped (
            decode_spatial-refused (geometry tds) (is_geography tds) (codes "geography") bytes
              kinds.2),
        ap wrapped (
            decode_spatial-refused (geography tds) (is_geometry tds) (codes "geometry") bytes
              kinds.3),
      )
