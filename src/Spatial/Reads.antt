-- ===== src/Spatial/Reads.antt =====
-- What the reader of types/geo.rs gives of bytes: an answer, with no more shapes than a `u32` counts.
use Prim.Native.Nat.{bit_or}
use mathlib.Core.Path.{refl, ap}
use sqlx_mssql_rs.Prelude.{
  ℕ, zero, suc, ◌<◌, ◌≡◌, List, [], ◌∷◌, arith, ◌==◌, length, if◌then◌else◌,
}
use sqlx_mssql_rs.Prelude.Int.{ℤ}
use sqlx_mssql_rs.Prelude.Bytes.{from_le_bytes}
use sqlx_mssql_rs.Spatial.{
  Coord, Tables, Fault, prop_z, prop_m, prop_single_point, prop_single_line,
}
use sqlx_mssql_rs.Spatial.Reader
use sqlx_mssql_rs.Spatial.Reader.{
  Reader, M, slice, take_bytes, first_byte, read_u8, read_i32, read_u32, read_f64, repeat,
  read_point, read_figure, read_shape, read_point_count, read_figures_and_shapes, read_body,
  read_tables,
}
use sqlx_mssql_rs.Spatial.Answers.{
  Gives, Any, AreBytes, Gives-pure, Gives-raise, Gives-if, Gives-bind, Gives-Any, take_bytes-Gives,
}

read_u8-Gives : Gives read_u8 Any
unfolding read_u8
read_u8-Gives = Gives-bind first_byte (take_bytes-Gives 1) (λ bs h. first bs h.0)
  where
    first : (bs : List ℕ) → length bs ≡ 1 → Gives (first_byte bs) Any
    first [] h = absurd (omega (arith, h))
    first (b ∷ bs) h = Gives-pure b tt

read_i32-Gives : Gives read_i32 Any
unfolding read_i32
read_i32-Gives = Gives-bind _ (take_bytes-Gives 4) (λ bs h. Gives-pure _ tt)

from_le_bytes_4 : (bs : List ℕ) → length bs ≡ 4 → AreBytes bs → from_le_bytes bs < 4294967296
from_le_bytes_4 (a ∷ b ∷ c ∷ d ∷ []) n h = omega (arith, h.0, h.1.0, h.1.1.0, h.1.1.1.0)
from_le_bytes_4 (a ∷ b ∷ c ∷ d ∷ e ∷ bs) n h = absurd (omega (arith, n))
from_le_bytes_4 (a ∷ b ∷ c ∷ []) n h = absurd (omega (arith, n))
from_le_bytes_4 (a ∷ b ∷ []) n h = absurd (omega (arith, n))
from_le_bytes_4 (a ∷ []) n h = absurd (omega (arith, n))
from_le_bytes_4 [] n h = absurd (omega (arith, n))

read_u32-Gives : Gives read_u32 (λ n. n < 4294967296)
unfolding read_u32
read_u32-Gives =
    Gives-bind _ (take_bytes-Gives 4) (λ bs h. Gives-pure _ (from_le_bytes_4 bs h.0 h.1))

read_f64-Gives : Gives read_f64 Any
unfolding read_f64
read_f64-Gives = Gives-bind _ (take_bytes-Gives 8) (λ bs h. Gives-pure _ tt)

repeat-Gives :
    {A : Type 0} (n : ℕ) (body : M A) → Gives body Any → Gives (repeat n body) (λ xs. length xs ≡ n)
unfolding repeat
repeat-Gives zero body g = Gives-pure [] refl
repeat-Gives (suc n) body g =
    Gives-bind _ g
      (λ x _. Gives-bind _ (repeat-Gives n body g) (λ xs h. Gives-pure (x ∷ xs) (ap suc h)))

read_point-Gives : Gives read_point Any
unfolding read_point
read_point-Gives =
    Gives-bind _ read_f64-Gives (λ x _. Gives-bind _ read_f64-Gives (λ y _. Gives-pure _ tt))

read_figure-Gives : Gives read_figure Any
unfolding read_figure
read_figure-Gives =
    Gives-bind _ read_u8-Gives (λ a _. Gives-bind _ read_u32-Gives (λ o _. Gives-pure _ tt))

read_shape-Gives : Gives read_shape Any
unfolding read_shape
read_shape-Gives = Gives-bind _ read_i32-Gives (λ p _.
    Gives-bind _ read_i32-Gives (λ f _. Gives-bind _ read_u8-Gives (λ t _. Gives-pure _ tt)))

abbrev pub HasFewShapes : Tables → Type 0
HasFewShapes t = length t.shapes < 4294967296

tables-Gives :
    (properties : ℕ) (points : List Coord)
    → Gives (read_figures_and_shapes properties points) HasFewShapes
unfolding read_figures_and_shapes
tables-Gives properties points =
    Gives-if (Reader.has properties (bit_or prop_single_point prop_single_line))
      (Gives-pure _ (omega arith))
      (Gives-bind _ read_u32-Gives (λ n _.
        Gives-bind _ (repeat-Gives n read_figure read_figure-Gives) (λ fs _.
          Gives-bind _ read_u32-Gives (λ m h.
            Gives-bind _ (repeat-Gives m read_shape read_shape-Gives)
              (λ ss e. Gives-pure _ (omega (arith, h, e)))))))

body-Gives : (properties : ℕ) → Gives (read_body properties) HasFewShapes
unfolding read_body read_point_count
body-Gives properties =
    Gives-if (Reader.has properties (bit_or prop_z prop_m)) (Gives-raise Fault.three_dimensional tt)
      (Gives-bind _ count (λ n _.
        Gives-bind _ (repeat-Gives n read_point read_point-Gives)
          (λ ps _. tables-Gives properties ps)))
  where
    count : Gives (read_point_count properties) Any
    count = Gives-if (Reader.has properties prop_single_point) (Gives-pure 1 tt) (
        Gives-if (Reader.has properties prop_single_line) (Gives-pure 2 tt)
          (Gives-Any read_u32-Gives))

-- What is read of a payload has fewer shapes than a `u32` counts.
pub read_tables-Gives : Gives read_tables (λ (x : ℤ × Tables). HasFewShapes x.1)
unfolding read_tables
read_tables-Gives = Gives-bind _ read_i32-Gives (λ srid _.
    Gives-bind _ read_u8-Gives
      (λ version _. Gives-bind _ (versioned version) (λ t h. Gives-pure (srid, t) h)))
  where
    versioned :
        (version : ℕ)
        → Gives
            (if version == 1
              then Reader.◌>>=◌ read_u8 read_body
              else Reader.raise (Fault.unsupported_version version))
            HasFewShapes
    versioned version =
        Gives-if (version == 1) (Gives-bind _ read_u8-Gives (λ p _. body-Gives p))
          (Gives-raise (Fault.unsupported_version version) tt)
