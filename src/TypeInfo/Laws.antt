-- ===== src/TypeInfo/Laws.antt =====
-- Laws of type_info.rs: equality, the kinds of types, and the overlay of precision and scale.
use sqlx_mssql_rs.Prelude.{
  ℕ, ◌+◌, ◌≤◌, ◌≡◌, refl, sym, ap, ◌∙◌, ◌==◌, ==_refl, Bool, true, false, ◌&&◌, Option, none, some,
  arith, Text, codes, if◌then◌else◌,
}
use sqlx_mssql_rs.Prelude.Ascii.{
  eq_ignore_ascii_case, eq_ignore_ascii_case_refl, eq_ignore_ascii_case_sym,
  eq_ignore_ascii_case_trans,
}
use sqlx_mssql_rs.TypeInfo.DataType.{
  TdsDataType, TdsCodes, is_character, is_binary, is_numeric, is_datetime, is_boolean, is_udt,
}
use sqlx_mssql_rs.TypeInfo.{
  MssqlTypeInfo, matches, eq, data_type, with_precision_scale, is_geometry, is_geography,
  accepts_character_data, accepts_binary_data, accepts_numeric_data, accepts_datetime_data,
  accepts_boolean_data, decimal, time, datetime2, datetimeoffset, geometry, integer, double, date,
  nvarchar_max,
}

module _ (tds : TdsCodes) where
  eq_refl : (a : MssqlTypeInfo) → eq tds a a ≡ true
  unfolding eq
  eq_refl a = ground (arith, eq_ignore_ascii_case_refl a.type_name)

  eq_sym : (a b : MssqlTypeInfo) → eq tds a b ≡ true → eq tds b a ≡ true
  unfolding eq
  eq_sym a b h = ground (arith, eq_ignore_ascii_case_sym a.type_name b.type_name)

  eq_trans : (a b c : MssqlTypeInfo) → eq tds a b ≡ true → eq tds b c ≡ true → eq tds a c ≡ true
  unfolding eq
  eq_trans a b c h k =
      ground (arith, eq_ignore_ascii_case_trans a.type_name b.type_name c.type_name)

  abbrev one_if : Bool → ℕ
  one_if b = if b then 1 else 0

  -- How many kinds of data a type is taken for.
  abbrev pub kinds : MssqlTypeInfo → ℕ
  kinds info =
      one_if (accepts_character_data tds info)
      + (one_if (accepts_binary_data tds info)
          + (one_if (accepts_numeric_data tds info)
              + (one_if (accepts_datetime_data tds info)
                  + (one_if (accepts_boolean_data tds info)
                      + one_if (matches is_udt (data_type tds info))))))

  one_kind :
      (o : Option TdsDataType)
      → one_if (matches is_character o)
          + (one_if (matches is_binary o)
              + (one_if (matches is_numeric o)
                  + (one_if (matches is_datetime o)
                      + (one_if (matches is_boolean o) + one_if (matches is_udt o)))))
        ≤ 1
  one_kind none = omega arith
  one_kind (some d) = ground arith

  apart : eq_ignore_ascii_case (codes "geometry") (codes "geography") ≡ false
  unfolding eq_ignore_ascii_case
  apart = refl

  names_apart :
      (n : Text)
      → eq_ignore_ascii_case n (codes "geometry") ≡ true
      → eq_ignore_ascii_case n (codes "geography") ≡ true
      → ⊥
  names_apart n h k =
      let both =
        eq_ignore_ascii_case_trans (codes "geometry") n (codes "geography")
          (eq_ignore_ascii_case_sym n (codes "geometry") h) k in
      cc (both, apart)

  named_once : (info : MssqlTypeInfo) → (is_geometry tds info && is_geography tds info) ≡ false
  unfolding is_geometry is_geography
  named_once info = ground (arith, names_apart info.type_name)

  -- Whatever numbers mssql-tds gives to its types, a type is taken for one kind of data at most, of
  -- characters, bytes, numbers, dates and times, Booleans and user-defined types; and it is not both
  -- `geometry` and `geography`.
  pub kinds_exclusive :
      (info : MssqlTypeInfo)
      → (kinds info ≤ 1) × ((is_geometry tds info && is_geography tds info) ≡ false)
  kinds_exclusive info = (one_kind (data_type tds info), named_once info)

  distinct_codes :
      (b : Bool) → (tds.code TdsDataType.int4 == tds.code TdsDataType.udt) ≡ b → b ≡ false
  distinct_codes true h =
      let e : tds.code TdsDataType.int4 ≡ tds.code TdsDataType.udt = ground arith in
      let same =
        sym (tds.try_from-code TdsDataType.int4)
        ∙ ap tds.try_from e
        ∙ tds.try_from-code TdsDataType.udt in
      absurd (ground (arith, same))
  distinct_codes false h = refl

  renamed_geometry :
      (n : Text)
      → eq tds (geometry tds) (record (geometry tds) { type_name = n })
        ≡ eq_ignore_ascii_case (codes "geometry") n
  unfolding eq
  renamed_geometry n = rw ==_refl refl

  renamed_integer :
      (n : Text) → eq tds (integer tds) (record (integer tds) { type_name = n }) ≡ true
  unfolding eq
  renamed_integer n = rw (==_refl, distinct_codes _ refl) refl

  -- The equality of types is reflexive, symmetric and transitive, and does not look at length,
  -- precision and scale. A `geometry` under another name is equal to it exactly if the names are equal
  -- up to the case of ASCII letters, and an `int` is equal to one under any name.
  pub eq_equivalence :
      (a b c : MssqlTypeInfo) (name : Text) (length : ℕ) (precision scale : Option ℕ)
      → (eq tds a a ≡ true)
        × (eq tds a b ≡ true → eq tds b a ≡ true)
        × (eq tds a b ≡ true → eq tds b c ≡ true → eq tds a c ≡ true)
        × (eq tds (record a { length = length; precision = precision; scale = scale }) b
            ≡ eq tds a b)
        × (eq tds (geometry tds) (record (geometry tds) { type_name = name })
            ≡ eq_ignore_ascii_case (codes "geometry") name)
        × (eq tds (integer tds) (record (integer tds) { type_name = name }) ≡ true)
  unfolding eq
  eq_equivalence a b c name length precision scale =
      (eq_refl a, eq_sym a b, eq_trans a b c, refl, renamed_geometry name, renamed_integer name)

  -- What is overlaid on the driver's own types: both on `decimal`, the scale on those of times, and
  -- neither on the others.
  abbrev pub Overlaid : ℕ → ℕ → Type 0
  Overlaid p s =
      let overlay = λ (info : MssqlTypeInfo). with_precision_scale tds info (some p) (some s) in
      (overlay (decimal tds) ≡ record (decimal tds) { precision = some p; scale = some s })
      × (overlay (time tds) ≡ record (time tds) { scale = some s })
      × (overlay (datetime2 tds) ≡ record (datetime2 tds) { scale = some s })
      × (overlay (datetimeoffset tds) ≡ record (datetimeoffset tds) { scale = some s })
      × (overlay (integer tds) ≡ integer tds)
      × (overlay (double tds) ≡ double tds)
      × (overlay (date tds) ≡ date tds)
      × (overlay (nvarchar_max tds) ≡ nvarchar_max tds)
