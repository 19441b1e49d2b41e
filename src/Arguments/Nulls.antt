-- ===== src/Arguments/Nulls.antt =====
-- The type that a NULL parameter is declared with by arguments.rs in sqlx-mssql-rs-core/src.
use sqlx_mssql_rs.Prelude.{
  ◌≡◌, ◌≢◌, refl, Bool, true, false, none, some, List, [], ◌∷◌, ◌++◌, arith,
}
use sqlx_mssql_rs.TypeInfo.{data_type}
use sqlx_mssql_rs.TypeInfo.DataType.{
  TdsDataType, TdsCodes, is_udt, is_binary, is_character, is_numeric, is_datetime, is_boolean,
  is_guid,
}
use sqlx_mssql_rs.Arguments.{SqlType, null_of_type, Encoder, Encoded, option_encoder, add}

-- The kinds of the types that a parameter is declared with.
pub data Kind : Type 0 where
  number : Kind
  truth : Kind
  text : Kind
  binary : Kind
  moment : Kind
  identifier : Kind

module _ {V : Type 0} where
  abbrev pub kind : SqlType V → Kind
  kind (SqlType.bit _) = Kind.truth
  kind (SqlType.char _ _) = Kind.text
  kind (SqlType.nchar _ _) = Kind.text
  kind (SqlType.text _) = Kind.text
  kind (SqlType.ntext _) = Kind.text
  kind (SqlType.varchar_max _) = Kind.text
  kind (SqlType.nvarchar_max _) = Kind.text
  kind (SqlType.xml _) = Kind.text
  kind (SqlType.json _) = Kind.text
  kind (SqlType.var_binary_max _) = Kind.binary
  kind (SqlType.uuid _) = Kind.identifier
  kind (SqlType.date _) = Kind.moment
  kind (SqlType.time _) = Kind.moment
  kind (SqlType.date_time2 _) = Kind.moment
  kind (SqlType.date_time_offset _) = Kind.moment
  kind (SqlType.date_time _) = Kind.moment
  kind (SqlType.small_date_time _) = Kind.moment
  kind _ = Kind.number

  abbrev pub is_null : SqlType V → Bool
  is_null (SqlType.tiny_int none) = true
  is_null (SqlType.small_int none) = true
  is_null (SqlType.int none) = true
  is_null (SqlType.big_int none) = true
  is_null (SqlType.real none) = true
  is_null (SqlType.float none) = true
  is_null (SqlType.bit none) = true
  is_null (SqlType.decimal none) = true
  is_null (SqlType.numeric none) = true
  is_null (SqlType.money none) = true
  is_null (SqlType.small_money none) = true
  is_null (SqlType.char none _) = true
  is_null (SqlType.nchar none _) = true
  is_null (SqlType.text none) = true
  is_null (SqlType.ntext none) = true
  is_null (SqlType.varchar_max none) = true
  is_null (SqlType.nvarchar_max none) = true
  is_null (SqlType.var_binary_max none) = true
  is_null (SqlType.uuid none) = true
  is_null (SqlType.date none) = true
  is_null (SqlType.time none) = true
  is_null (SqlType.date_time2 none) = true
  is_null (SqlType.date_time_offset none) = true
  is_null (SqlType.date_time none) = true
  is_null (SqlType.small_date_time none) = true
  is_null (SqlType.xml none) = true
  is_null (SqlType.json none) = true
  is_null _ = false

-- The kinds by which type_info.rs groups the types of columns, and the kind of the parameter. The
-- two groups that the match of `null_sql_type` does not name a case of are `vector` and `money_n`.
pub record IsNullOf {V : Type 0} (d : TdsDataType) (p : SqlType V) : Type 0 where
  pub null : is_null p ≡ true
  pub character : is_character d ≡ true → kind p ≡ Kind.text
  pub datetime : is_datetime d ≡ true → kind p ≡ Kind.moment
  pub boolean : is_boolean d ≡ true → kind p ≡ Kind.truth
  pub guid : is_guid d ≡ true → kind p ≡ Kind.identifier
  pub udt : is_udt d ≡ true → kind p ≡ Kind.binary
  pub bytes : is_binary d ≡ true → d ≢ TdsDataType.vector → kind p ≡ Kind.binary
  pub numeric : is_numeric d ≡ true → d ≢ TdsDataType.money_n → kind p ≡ Kind.number

null_of_type-IsNullOf : {V : Type 0} (d : TdsDataType) → IsNullOf d (null_of_type {V = V} (some d))
null_of_type-IsNullOf d = record {
  null = ground arith;
  character = ground arith;
  datetime = ground arith;
  boolean = ground arith;
  guid = ground arith;
  udt = ground arith;
  bytes = ground arith;
  numeric = ground arith;
}

-- Adding an `Option` that is `None` appends one parameter, and says that it is NULL. The parameter
-- holds no value, and its declared type is of the same kind as the type that the encoder names, if
-- that type is known: text for the character types, a date or time for the datetime types, a bit
-- for the boolean ones, a uniqueidentifier for it, `varbinary(max)` for a UDT and for the binary
-- types but `vector`, and a number for the numeric types but `money_n`.
pub add-IsNullOf :
    {T V : Type 0} (tds : TdsCodes) (e : Encoder T V) (values : List (SqlType V)) (d : TdsDataType)
    → data_type tds e.type_info ≡ some d
    → (p : SqlType V) × (add (option_encoder tds e) values none
        ≡ Encoded.encoded (values ++ p ∷ []) true)
      × IsNullOf d p
unfolding add option_encoder
add-IsNullOf tds e values d h = (null_of_type (some d), rw h refl, null_of_type-IsNullOf d)
