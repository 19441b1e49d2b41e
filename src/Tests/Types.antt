-- ===== src/Tests/Types.antt =====
-- Runs and instances of type_info.rs, with a numbering of the types.
use sqlx_mssql_rs.Prelude.{
  ℕ, zero, suc, ◌≤◌, ◌≡◌, refl, true, false, ◌&&◌, Option, none, some, List, [], ◌∷◌, ◌++◌, arith,
  codes, get_elem?,
}
use sqlx_mssql_rs.Prelude.Ascii.{eq_ignore_ascii_case}
use sqlx_mssql_rs.Prelude.Decimal.{to_string}
use sqlx_mssql_rs.TypeInfo.DataType.{TdsDataType, TdsCodes}
use sqlx_mssql_rs.TypeInfo.{
  MssqlTypeInfo, new, eq, geometry, integer, decimal, is_geometry, is_geography,
}
use sqlx_mssql_rs.Any.{AnyTypeInfoKind, any_kind}
use sqlx_mssql_rs.TypeInfo.Laws.{kinds, kinds_exclusive, eq_equivalence}
use sqlx_mssql_rs.TypeInfo.Parse.{done, from_system_type_name}
use sqlx_mssql_rs.TypeInfo.Declared.{
  declared, from_system_type_name_decimal, ReadsLength, ReadsLength-declared,
}

abbrev named_types : List TdsDataType
named_types =
    TdsDataType.no_type ∷ TdsDataType.int1 ∷ TdsDataType.int2 ∷ TdsDataType.int4 ∷ TdsDataType.int8
    ∷ TdsDataType.int_n ∷ TdsDataType.flt4 ∷ TdsDataType.flt8 ∷ TdsDataType.flt_n ∷ TdsDataType.bit
    ∷ TdsDataType.bit_n ∷ TdsDataType.decimal ∷ TdsDataType.decimal_n ∷ TdsDataType.numeric
    ∷ TdsDataType.numeric_n ∷ TdsDataType.money ∷ TdsDataType.money4 ∷ TdsDataType.money_n
    ∷ TdsDataType.big_char ∷ TdsDataType.big_var_char ∷ TdsDataType.char ∷ TdsDataType.var_char
    ∷ TdsDataType.text ∷ TdsDataType.nchar ∷ TdsDataType.nvar_char ∷ TdsDataType.ntext
    ∷ TdsDataType.xml ∷ TdsDataType.json ∷ TdsDataType.big_binary ∷ TdsDataType.big_var_binary
    ∷ TdsDataType.binary ∷ TdsDataType.var_binary ∷ TdsDataType.image ∷ TdsDataType.vector
    ∷ TdsDataType.date_n ∷ TdsDataType.time_n ∷ TdsDataType.date_time2_n
    ∷ TdsDataType.date_time_offset_n ∷ TdsDataType.date_time ∷ TdsDataType.date_tim4
    ∷ TdsDataType.date_time_n ∷ TdsDataType.guid ∷ TdsDataType.udt ∷ []

abbrev past_end {ℓ} : {A : Type ℓ} → List A → ℕ → ℕ
past_end [] n = n
past_end (x ∷ xs) n = suc (past_end xs n)

abbrev beyond {ℓ} : {A : Type ℓ} → List A → ℕ → ℕ
beyond [] i = i
beyond (x ∷ xs) zero = 0
beyond (x ∷ xs) (suc i) = beyond xs i

abbrev found : Option TdsDataType → ℕ → Option TdsDataType
found (some d) i = some d
found none i = some (TdsDataType.other i)

abbrev pub numbered : ℕ → Option TdsDataType
numbered n = found (get_elem? named_types n) (beyond named_types n)

abbrev pub number_of : TdsDataType → ℕ
number_of TdsDataType.no_type = 0
number_of TdsDataType.int1 = 1
number_of TdsDataType.int2 = 2
number_of TdsDataType.int4 = 3
number_of TdsDataType.int8 = 4
number_of TdsDataType.int_n = 5
number_of TdsDataType.flt4 = 6
number_of TdsDataType.flt8 = 7
number_of TdsDataType.flt_n = 8
number_of TdsDataType.bit = 9
number_of TdsDataType.bit_n = 10
number_of TdsDataType.decimal = 11
number_of TdsDataType.decimal_n = 12
number_of TdsDataType.numeric = 13
number_of TdsDataType.numeric_n = 14
number_of TdsDataType.money = 15
number_of TdsDataType.money4 = 16
number_of TdsDataType.money_n = 17
number_of TdsDataType.big_char = 18
number_of TdsDataType.big_var_char = 19
number_of TdsDataType.char = 20
number_of TdsDataType.var_char = 21
number_of TdsDataType.text = 22
number_of TdsDataType.nchar = 23
number_of TdsDataType.nvar_char = 24
number_of TdsDataType.ntext = 25
number_of TdsDataType.xml = 26
number_of TdsDataType.json = 27
number_of TdsDataType.big_binary = 28
number_of TdsDataType.big_var_binary = 29
number_of TdsDataType.binary = 30
number_of TdsDataType.var_binary = 31
number_of TdsDataType.image = 32
number_of TdsDataType.vector = 33
number_of TdsDataType.date_n = 34
number_of TdsDataType.time_n = 35
number_of TdsDataType.date_time2_n = 36
number_of TdsDataType.date_time_offset_n = 37
number_of TdsDataType.date_time = 38
number_of TdsDataType.date_tim4 = 39
number_of TdsDataType.date_time_n = 40
number_of TdsDataType.guid = 41
number_of TdsDataType.udt = 42
number_of (TdsDataType.other n) = past_end named_types n

pub numbered-number_of : (d : TdsDataType) → numbered (number_of d) ≡ some d
numbered-number_of TdsDataType.no_type = refl
numbered-number_of TdsDataType.int1 = refl
numbered-number_of TdsDataType.int2 = refl
numbered-number_of TdsDataType.int4 = refl
numbered-number_of TdsDataType.int8 = refl
numbered-number_of TdsDataType.int_n = refl
numbered-number_of TdsDataType.flt4 = refl
numbered-number_of TdsDataType.flt8 = refl
numbered-number_of TdsDataType.flt_n = refl
numbered-number_of TdsDataType.bit = refl
numbered-number_of TdsDataType.bit_n = refl
numbered-number_of TdsDataType.decimal = refl
numbered-number_of TdsDataType.decimal_n = refl
numbered-number_of TdsDataType.numeric = refl
numbered-number_of TdsDataType.numeric_n = refl
numbered-number_of TdsDataType.money = refl
numbered-number_of TdsDataType.money4 = refl
numbered-number_of TdsDataType.money_n = refl
numbered-number_of TdsDataType.big_char = refl
numbered-number_of TdsDataType.big_var_char = refl
numbered-number_of TdsDataType.char = refl
numbered-number_of TdsDataType.var_char = refl
numbered-number_of TdsDataType.text = refl
numbered-number_of TdsDataType.nchar = refl
numbered-number_of TdsDataType.nvar_char = refl
numbered-number_of TdsDataType.ntext = refl
numbered-number_of TdsDataType.xml = refl
numbered-number_of TdsDataType.json = refl
numbered-number_of TdsDataType.big_binary = refl
numbered-number_of TdsDataType.big_var_binary = refl
numbered-number_of TdsDataType.binary = refl
numbered-number_of TdsDataType.var_binary = refl
numbered-number_of TdsDataType.image = refl
numbered-number_of TdsDataType.vector = refl
numbered-number_of TdsDataType.date_n = refl
numbered-number_of TdsDataType.time_n = refl
numbered-number_of TdsDataType.date_time2_n = refl
numbered-number_of TdsDataType.date_time_offset_n = refl
numbered-number_of TdsDataType.date_time = refl
numbered-number_of TdsDataType.date_tim4 = refl
numbered-number_of TdsDataType.date_time_n = refl
numbered-number_of TdsDataType.guid = refl
numbered-number_of TdsDataType.udt = refl
numbered-number_of (TdsDataType.other n) = refl

abbrev pub numbers : TdsCodes
numbers = record { code = number_of; try_from = numbered; try_from-code = numbered-number_of }

abbrev shape : MssqlTypeInfo
shape = record (geometry numbers) { type_name = codes "GEOMETRY" }

kinds_exclusive_example :
    (kinds numbers shape ≤ 1) × ((is_geometry numbers shape && is_geography numbers shape) ≡ false)
kinds_exclusive_example = kinds_exclusive numbers shape

-- A nullable integer is of kind Text.
nullable_integer : any_kind numbers (new (codes "int") 5 4 none none) ≡ AnyTypeInfoKind.text
unfolding any_kind
nullable_integer = refl

eq_equivalence_example :
    (eq numbers shape shape ≡ true)
    × (eq numbers shape (geometry numbers) ≡ true → eq numbers (geometry numbers) shape ≡ true)
    × (eq numbers shape (geometry numbers) ≡ true
        → eq numbers (geometry numbers) shape ≡ true
        → eq numbers shape shape ≡ true)
    × (eq numbers (record shape { length = 8; precision = some 3; scale = none }) (geometry numbers)
        ≡ eq numbers shape (geometry numbers))
    × (eq numbers (geometry numbers) (record (geometry numbers) { type_name = codes "geography" })
        ≡ eq_ignore_ascii_case (codes "geometry") (codes "geography"))
    × (eq numbers (integer numbers) (record (integer numbers) { type_name = codes "geography" })
        ≡ true)
eq_equivalence_example =
    eq_equivalence numbers shape (geometry numbers) shape (codes "geography") 8 (some 3) none

from_system_type_name_decimal_example :
    from_system_type_name numbers (declared (codes "decimal") (to_string 18 ++ b',' ∷ to_string 2))
    ≡ done (some (new (codes "decimal") (number_of TdsDataType.decimal_n) 17 (some 18) (some 2)))
from_system_type_name_decimal_example =
    from_system_type_name_decimal numbers 18 2 (omega arith) (omega arith)

ReadsLength-declared_example :
    ReadsLength numbers (codes "char") 1 300
    × ReadsLength numbers (codes "varchar") 1 300
    × ReadsLength numbers (codes "nchar") 2 300
    × ReadsLength numbers (codes "nvarchar") 2 300
    × ReadsLength numbers (codes "binary") 1 300
    × ReadsLength numbers (codes "varbinary") 1 300
ReadsLength-declared_example = ReadsLength-declared numbers 300
