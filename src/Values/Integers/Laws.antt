-- ===== src/Values/Integers/Laws.antt =====
-- The integers through a column of type bigint, and the ranges of the decoders of value.rs.
use mathlib.Core.Path.{refl}
use sqlx_mssql_rs.Prelude.{
  ℕ, ◌-◌, ◌^◌, sym, ap, ◌∙◌, ◌≤◌, ◌<◌, ◌≡◌, ◌↔◌, ◌⊎◌, inl, inr, ◌++◌, List, [], ◌∷◌, Bool, true,
  false, Option, none, some, leb, if◌then◌else◌, arith,
}
use sqlx_mssql_rs.Prelude.Int.{ℤ, pos, negsuc}
use sqlx_mssql_rs.TypeInfo.{MssqlTypeInfo}
use sqlx_mssql_rs.Arguments.{SqlType, Encoded, integer_value}
use sqlx_mssql_rs.Values.{ColumnValues, Foreign, MssqlValue, new, as_i64}
use sqlx_mssql_rs.Values.Integers.{
  IntegerType, most, negatives, try_from, encode_integer, u64_refusal, Decoded, decode_integer,
  not_integer, outside,
}

-- The integer is a value of the type.
abbrev pub InRange : IntegerType → ℤ → Type 0
InRange t (pos n) = n ≤ most t
InRange t (negsuc n) = n < negatives t

try_from_iff : (t : IntegerType) (z n : ℤ) → (try_from t z ≡ some n) ↔ ((z ≡ n) × InRange t n)
try_from_iff t (pos k) n = ground arith
try_from_iff t (negsuc k) n = ground arith

narrow :
    (t : IntegerType) (z : ℤ)
    → InRange t z
    → (most t ≤ most IntegerType.i64) × (negatives t ≤ negatives IntegerType.i64)
    → InRange IntegerType.i64 z
narrow t (pos n) h (k, l) = omega (arith, h, k)
narrow t (negsuc n) h (k, l) = omega (arith, h, l)

-- The integers of `w` bits, signed in two's complement or unsigned.
abbrev pub IsSigned : ℕ → ℤ → Type 0
IsSigned w (pos n) = n < 2 ^ (w - 1)
IsSigned w (negsuc n) = n < 2 ^ (w - 1)

abbrev pub IsUnsigned : ℕ → ℤ → Type 0
IsUnsigned w (pos n) = n < 2 ^ w
IsUnsigned w (negsuc n) = ⊥

abbrev pub IsOf : IntegerType → ℤ → Type 0
IsOf IntegerType.i8 = IsSigned 8
IsOf IntegerType.i16 = IsSigned 16
IsOf IntegerType.i32 = IsSigned 32
IsOf IntegerType.i64 = IsSigned 64
IsOf IntegerType.u8 = IsUnsigned 8
IsOf IntegerType.u16 = IsUnsigned 16
IsOf IntegerType.u32 = IsUnsigned 32
IsOf IntegerType.u64 = IsUnsigned 64

InRange-IsOf : (t : IntegerType) (z : ℤ) → InRange t z ↔ IsOf t z
InRange-IsOf IntegerType.i8 (pos n) = ((λ h. omega (arith, h)), (λ h. omega (arith, h)))
InRange-IsOf IntegerType.i8 (negsuc n) = ((λ h. omega (arith, h)), (λ h. omega (arith, h)))
InRange-IsOf IntegerType.i16 (pos n) = ((λ h. omega (arith, h)), (λ h. omega (arith, h)))
InRange-IsOf IntegerType.i16 (negsuc n) = ((λ h. omega (arith, h)), (λ h. omega (arith, h)))
InRange-IsOf IntegerType.i32 (pos n) = ((λ h. omega (arith, h)), (λ h. omega (arith, h)))
InRange-IsOf IntegerType.i32 (negsuc n) = ((λ h. omega (arith, h)), (λ h. omega (arith, h)))
InRange-IsOf IntegerType.i64 (pos n) = ((λ h. omega (arith, h)), (λ h. omega (arith, h)))
InRange-IsOf IntegerType.i64 (negsuc n) = ((λ h. omega (arith, h)), (λ h. omega (arith, h)))
InRange-IsOf IntegerType.u8 (pos n) = ((λ h. omega (arith, h)), (λ h. omega (arith, h)))
InRange-IsOf IntegerType.u8 (negsuc n) = ((λ h. absurd (omega (arith, h))), (λ h. absurd h))
InRange-IsOf IntegerType.u16 (pos n) = ((λ h. omega (arith, h)), (λ h. omega (arith, h)))
InRange-IsOf IntegerType.u16 (negsuc n) = ((λ h. absurd (omega (arith, h))), (λ h. absurd h))
InRange-IsOf IntegerType.u32 (pos n) = ((λ h. omega (arith, h)), (λ h. omega (arith, h)))
InRange-IsOf IntegerType.u32 (negsuc n) = ((λ h. absurd (omega (arith, h))), (λ h. absurd h))
InRange-IsOf IntegerType.u64 (pos n) = ((λ h. omega (arith, h)), (λ h. omega (arith, h)))
InRange-IsOf IntegerType.u64 (negsuc n) = ((λ h. absurd (omega (arith, h))), (λ h. absurd h))

-- The integer that a column of an integer type or of type bit holds.
pub data Holds {V : Type 0} : ColumnValues V → ℤ → Type 0 where
  tiny_int : {n : ℕ} → Holds (ColumnValues.tiny_int n) (pos n)
  small_int : {z : ℤ} → Holds (ColumnValues.small_int z) z
  int : {z : ℤ} → Holds (ColumnValues.int z) z
  big_int : {z : ℤ} → Holds (ColumnValues.big_int z) z
  bit_set : Holds (ColumnValues.bit true) (pos 1)
  bit_clear : Holds (ColumnValues.bit false) (pos 0)

-- Where an integer of the type is no `i64`, the type is `u64`.
encoded_or_refused :
    {V : Type 0} (t : IntegerType) (z : ℤ) (buf : List (SqlType V))
    → InRange t z
    → (InRange IntegerType.i64 z
        × (encode_integer t z buf ≡ Encoded.encoded (buf ++ integer_value z ∷ []) false))
      ⊎ ((¬ InRange IntegerType.i64 z)
          × (t ≡ IntegerType.u64)
          × (encode_integer t z buf ≡ Encoded.refused (u64_refusal z)))
unfolding encode_integer
encoded_or_refused IntegerType.i8 z buf h = inl (narrow IntegerType.i8 z h (omega arith), refl)
encoded_or_refused IntegerType.i16 z buf h = inl (narrow IntegerType.i16 z h (omega arith), refl)
encoded_or_refused IntegerType.i32 z buf h = inl (narrow IntegerType.i32 z h (omega arith), refl)
encoded_or_refused IntegerType.i64 z buf h = inl (narrow IntegerType.i64 z h (omega arith), refl)
encoded_or_refused IntegerType.u8 z buf h = inl (narrow IntegerType.u8 z h (omega arith), refl)
encoded_or_refused IntegerType.u16 z buf h = inl (narrow IntegerType.u16 z h (omega arith), refl)
encoded_or_refused IntegerType.u32 z buf h = inl (narrow IntegerType.u32 z h (omega arith), refl)
encoded_or_refused IntegerType.u64 (negsuc n) buf h = elim h [ ]
encoded_or_refused IntegerType.u64 (pos n) buf h = go (leb n 9223372036854775807) refl
  where
    go :
        (c : Bool)
        → leb n 9223372036854775807 ≡ c
        → (InRange IntegerType.i64 (pos n)
            × ((elim (if c then some (pos n) else none) [
              | none ↦ Encoded.refused (u64_refusal (pos n))
              | some value ↦ Encoded.encoded (buf ++ integer_value value ∷ []) false
            ])
                ≡ Encoded.encoded (buf ++ integer_value (pos n) ∷ []) false))
          ⊎ ((¬ InRange IntegerType.i64 (pos n))
              × (IntegerType.u64 ≡ IntegerType.u64)
              × ((elim (if c then some (pos n) else none) [
                | none ↦ Encoded.refused (u64_refusal (pos n))
                | some value ↦ Encoded.encoded (buf ++ integer_value value ∷ []) false
              ])
                  ≡ Encoded.refused (u64_refusal (pos n))))
    go true e = inl (ground arith, refl)
    go false e = inr (λ k. absurd (ground arith), refl, refl)

module _ {V : Type 0} (foreign : Foreign V) (t : IntegerType) where
  decode_integer_iff :
      (v : MssqlValue V) (n : ℤ)
      → (decode_integer foreign t v ≡ Decoded.decoded n)
        ↔ ((as_i64 foreign v ≡ some n) × InRange t n)
  unfolding decode_integer
  decode_integer_iff v n = go (as_i64 foreign v)
    where
      inner :
          (z : ℤ) (o : Option ℤ)
          → ((o ≡ some n) ↔ ((z ≡ n) × InRange t n))
          → ((elim o [
            | none ↦ Decoded.undecodable (outside foreign t v z)
            | some n ↦ Decoded.decoded n
          ])
              ≡ Decoded.decoded n)
            ↔ ((◌≡◌ {A = Option ℤ} (some z) (some n)) × InRange t n)
      inner z none i = ground (arith, i)
      inner z (some m) i = ground (arith, i)

      go :
          (o : Option ℤ)
          → ((elim o [
            | none ↦ Decoded.undecodable (not_integer foreign t v)
            | some z ↦ elim (try_from t z) [
              | none ↦ Decoded.undecodable (outside foreign t v z)
              | some n ↦ Decoded.decoded n
            ]
          ])
              ≡ Decoded.decoded n)
            ↔ ((o ≡ some n) × InRange t n)
      go none = ground arith
      go (some z) = inner z (try_from t z) (try_from_iff t z n)

  as_i64-Holds :
      (column : ColumnValues V) (z : ℤ) (info : MssqlTypeInfo)
      → Holds column z
      → as_i64 foreign (new foreign column info) ≡ some z
  unfolding as_i64 new
  as_i64-Holds _ _ info tiny_int = refl
  as_i64-Holds _ _ info small_int = refl
  as_i64-Holds _ _ info int = refl
  as_i64-Holds _ _ info big_int = refl
  as_i64-Holds _ _ info bit_set = refl
  as_i64-Holds _ _ info bit_clear = refl

  -- From a column of an integer type or of type bit, whatever the column is called, an integer is
  -- decoded exactly if it is the one that the column holds, a bit being 0 or 1, and lies in the range
  -- of the type: from -2^(w-1) to 2^(w-1) - 1 for a signed type of w bits, and from 0 to 2^w - 1 for an
  -- unsigned one.
  pub decode_integer-Holds :
      (column : ColumnValues V) (z n : ℤ) (info : MssqlTypeInfo)
      → Holds column z
      → (decode_integer foreign t (new foreign column info) ≡ Decoded.decoded n)
        ↔ ((n ≡ z) × IsOf t n)
  decode_integer-Holds column z n info h =
      let e = as_i64-Holds column z info h in
      let read = decode_integer_iff (new foreign column info) n in
      let range = InRange-IsOf t n in
      (
        λ d. let (k, r) = read.0 d in (some_injective (sym k ∙ e), range.0 r),
        λ (same, r). read.1 (e ∙ ap some (sym same), range.1 r),
      )
    where
      some_injective : {x y : ℤ} → ◌≡◌ {A = Option ℤ} (some x) (some y) → x ≡ y
      some_injective k = ground (arith, k)

  -- An integer of the type that a `bigint` holds is encoded as one `bigint` parameter, and a
  -- `bigint` column with its value is decoded to it, whatever the column is called. Any other is
  -- refused, by its text; only `u64` has such integers.
  pub decode_integer-encode_integer :
      (z : ℤ) (info : MssqlTypeInfo) (buf : List (SqlType V))
      → InRange t z
      → (InRange IntegerType.i64 z
          × (encode_integer t z buf ≡ Encoded.encoded (buf ++ integer_value z ∷ []) false)
          × (decode_integer foreign t (new foreign (ColumnValues.big_int z) info)
              ≡ Decoded.decoded z))
        ⊎ ((¬ InRange IntegerType.i64 z)
            × (t ≡ IntegerType.u64)
            × (encode_integer t z buf ≡ Encoded.refused (u64_refusal z)))
  decode_integer-encode_integer z info buf h =
      let back =
        (decode_integer_iff (new foreign (ColumnValues.big_int z) info) z).1
          (unfold as_i64 new in refl, h) in
      elim (encoded_or_refused t z buf h) [ inl (r, e) ↦ inl (r, e, back) | inr over ↦ inr over ]
