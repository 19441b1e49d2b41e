-- ===== src/Spatial/Reader.antt =====
-- The bounds-checked reader of types/geo.rs, on a target whose `usize` has 64 bits.
use Prim.Native.Nat.{bit_and, bit_or}
use sqlx_mssql_rs.Prelude.{
  ℕ, zero, suc, ◌+◌, ◌-◌, List, [], ◌∷◌, ltb, Bool, not, ◌==◌, if◌then◌else◌, length, take, drop,
}
use sqlx_mssql_rs.Prelude.Int.{ℤ, pos, negsuc}
use sqlx_mssql_rs.Prelude.Bytes.{from_le_bytes, i32_of_bits}
use sqlx_mssql_rs.Spatial.{
  Result, ok, fail, Fault, Coord, Figure, Shape, Tables, prop_z, prop_m, prop_single_point,
  prop_single_line, figure_stroke, shape_point, shape_linestring,
}

pub record Reader : Type 0 where
  pub bytes : List ℕ
  pub position : ℕ

-- `Reader::new`.
abbrev pub new : List ℕ → Reader
new bytes = record { bytes = bytes; position = 0 }

abbrev pub M {ℓ} : Type ℓ → Type ℓ
M A = Reader → Result (A × Reader)

infixl 5 ◌>>=◌
abbrev pub ◌>>=◌ {ℓ κ} : {A : Type ℓ} {B : Type κ} → M A → (A → M B) → M B
◌>>=◌ m f r = elim (m r) [ fail e ↦ fail e | ok (a, r') ↦ f a r' ]

abbrev pub pure {ℓ} : {A : Type ℓ} → A → M A
pure a r = ok (a, r)

abbrev pub raise {ℓ} : {A : Type ℓ} → Fault → M A
raise e r = fail e

-- `bytes.get(start..end)`.
abbrev pub slice {ℓ} : {A : Type ℓ} → ℕ → ℕ → List A → Fault → Result (List A)
slice start end xs e =
    if ltb end start
    then fail e
    else if ltb (length xs) end
    then fail e
    else ok (take (end - start) (drop start xs))

-- `Reader::take`.
unfoldable pub take_bytes : ℕ → M (List ℕ)
take_bytes count r =
    let end = r.position + count in
    if ltb 18446744073709551615 end
    then fail Fault.length_overflow
    else elim (slice r.position end r.bytes Fault.truncated) [
      | fail e ↦ fail e
      | ok bytes ↦ ok (bytes, record r { position = end })
    ]

abbrev pub first_byte : List ℕ → M ℕ
first_byte [] = raise Fault.panicked
first_byte (b ∷ bs) = pure b

unfoldable pub read_u8 : M ℕ
unfolding take_bytes
read_u8 = do bytes ← take_bytes 1; first_byte bytes

unfoldable pub read_i32 : M ℤ
unfolding take_bytes
read_i32 = do bytes ← take_bytes 4; pure (i32_of_bits (from_le_bytes bytes))

unfoldable pub read_u32 : M ℕ
unfolding take_bytes
read_u32 = do bytes ← take_bytes 4; pure (from_le_bytes bytes)

unfoldable pub read_f64 : M ℕ
unfolding take_bytes
read_f64 = do bytes ← take_bytes 8; pure (from_le_bytes bytes)

-- `for _ in 0..count` with a `push` of what the body reads.
unfoldable pub repeat {ℓ} : {A : Type ℓ} → ℕ → M A → M (List A)
repeat zero body = pure []
repeat (suc count) body = do x ← body; xs ← repeat count body; pure (x ∷ xs)

-- The bodies of the three loops.
unfoldable pub read_point : M Coord
unfolding read_f64
read_point = do x ← read_f64; y ← read_f64; pure (record { x = x; y = y })

unfoldable pub read_figure : M Figure
unfolding read_u8 read_u32
read_figure = do
  attribute ← read_u8
  point_offset ← read_u32
  pure (record { attribute = attribute; point_offset = point_offset })

unfoldable pub read_shape : M Shape
unfolding read_i32 read_u8
read_shape = do
  parent ← read_i32
  figure_offset ← read_i32
  shape_type ← read_u8
  pure (record { parent = parent; figure_offset = figure_offset; shape_type = shape_type })

-- `properties & flags != 0`.
abbrev pub has : ℕ → ℕ → Bool
has properties flags = not (bit_and properties flags == 0)

-- The tables of a value whose counts are omitted.
abbrev pub one_shape : List Coord → ℕ → Tables
one_shape points shape_type = record {
  points = points;
  figures = record { attribute = figure_stroke; point_offset = 0 } ∷ [];
  shapes = record { parent = negsuc 0; figure_offset = pos 0; shape_type = shape_type } ∷ [];
}

unfoldable pub read_point_count : ℕ → M ℕ
unfolding read_u32
read_point_count properties =
    if has properties prop_single_point
    then pure 1
    else if has properties prop_single_line
    then pure 2
    else read_u32

unfoldable pub read_figures_and_shapes : ℕ → List Coord → M Tables
unfolding read_u32 repeat read_figure read_shape
read_figures_and_shapes properties points =
    if has properties (bit_or prop_single_point prop_single_line)
    then pure (
        one_shape points
          (if has properties prop_single_point then shape_point else shape_linestring))
    else (do
      figure_count ← read_u32
      figures ← repeat figure_count read_figure
      shape_count ← read_u32
      shapes ← repeat shape_count read_shape
      pure (record { points = points; figures = figures; shapes = shapes }))

-- The tables behind the properties byte.
unfoldable pub read_body : ℕ → M Tables
unfolding read_point_count repeat read_point read_figures_and_shapes
read_body properties =
    if has properties (bit_or prop_z prop_m) then raise Fault.three_dimensional else (do
      point_count ← read_point_count properties
      points ← repeat point_count read_point
      read_figures_and_shapes properties points)

-- What `decode` reads: the SRID and the tables.
unfoldable pub read_tables : M (ℤ × Tables)
unfolding read_i32 read_u8 read_body
read_tables = do
  srid ← read_i32
  version ← read_u8
  t ←
      (if version == 1
        then (do properties ← read_u8; read_body properties)
        else raise (Fault.unsupported_version version))
  pure (srid, t)
