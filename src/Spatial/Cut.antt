-- ===== src/Spatial/Cut.antt =====
-- Payloads of types/geo.rs that are cut short.
use Prim.Native.Nat.{bit_or}
use mathlib.Core.Path.{refl}
use sqlx_mssql_rs.Prelude.{
  ℕ, zero, suc, ◌≡◌, inl, inr, ap, sym, ◌∙◌, List, [], ◌∷◌, ◌++◌, arith, length, length-append,
  ◌==◌, if◌then◌else◌,
}
use sqlx_mssql_rs.Prelude.Int.{ℤ}
use sqlx_mssql_rs.Prelude.Bytes.{IsI32}
use sqlx_mssql_rs.Spatial.{
  Coord, Geometry, GeoTypes, Tables, Fault, ok, fail, prop_z, prop_m, prop_single_point,
  prop_single_line,
}
use sqlx_mssql_rs.Spatial.Reader
use sqlx_mssql_rs.Spatial.Encode.{encode, write_tables}
use sqlx_mssql_rs.Spatial.Decode.{decode}
use sqlx_mssql_rs.Spatial.Payload.{read_tables-write_tables}
use sqlx_mssql_rs.Spatial.RoundTrip.{IsCountable, encoded, encoded-Fits}
use sqlx_mssql_rs.Spatial.Reader.{
  Reader, M, new, slice, take_bytes, first_byte, read_u8, read_i32, read_u32, read_f64, repeat,
  read_point, read_figure, read_shape, read_point_count, read_figures_and_shapes, read_body,
  read_tables,
}
use sqlx_mssql_rs.Spatial.Cuts.{
  Cuts, at, Cuts-pure, Cuts-raise, Cuts-if, Cuts-bind, take_bytes-Cuts,
}

read_u8-Cuts : Cuts read_u8
unfolding read_u8
read_u8-Cuts = Cuts-bind first_byte (take_bytes-Cuts 1) first
  where
    first : (bs : List ℕ) → Cuts (first_byte bs)
    first [] = Cuts-raise Fault.panicked
    first (b ∷ bs) = Cuts-pure b

read_i32-Cuts : Cuts read_i32
unfolding read_i32
read_i32-Cuts = Cuts-bind _ (take_bytes-Cuts 4) (λ bs. Cuts-pure _)

read_u32-Cuts : Cuts read_u32
unfolding read_u32
read_u32-Cuts = Cuts-bind _ (take_bytes-Cuts 4) (λ bs. Cuts-pure _)

read_f64-Cuts : Cuts read_f64
unfolding read_f64
read_f64-Cuts = Cuts-bind _ (take_bytes-Cuts 8) (λ bs. Cuts-pure _)

repeat-Cuts : {A : Type 0} (n : ℕ) (body : M A) → Cuts body → Cuts (repeat n body)
unfolding repeat
repeat-Cuts zero body x = Cuts-pure []
repeat-Cuts (suc n) body x =
    Cuts-bind _ x (λ a. Cuts-bind _ (repeat-Cuts n body x) (λ xs. Cuts-pure (a ∷ xs)))

read_point-Cuts : Cuts read_point
unfolding read_point
read_point-Cuts = Cuts-bind _ read_f64-Cuts (λ x. Cuts-bind _ read_f64-Cuts (λ y. Cuts-pure _))

read_figure-Cuts : Cuts read_figure
unfolding read_figure
read_figure-Cuts = Cuts-bind _ read_u8-Cuts (λ a. Cuts-bind _ read_u32-Cuts (λ o. Cuts-pure _))

read_shape-Cuts : Cuts read_shape
unfolding read_shape
read_shape-Cuts =
    Cuts-bind _ read_i32-Cuts
      (λ p. Cuts-bind _ read_i32-Cuts (λ f. Cuts-bind _ read_u8-Cuts (λ t. Cuts-pure _)))

tables-Cuts :
    (properties : ℕ) (points : List Coord) → Cuts (read_figures_and_shapes properties points)
unfolding read_figures_and_shapes
tables-Cuts properties points =
    Cuts-if (Reader.has properties (bit_or prop_single_point prop_single_line)) (Cuts-pure _) (
      Cuts-bind _ read_u32-Cuts (λ n.
        Cuts-bind _ (repeat-Cuts n read_figure read_figure-Cuts) (λ fs.
          Cuts-bind _ read_u32-Cuts
            (λ m. Cuts-bind _ (repeat-Cuts m read_shape read_shape-Cuts) (λ ss. Cuts-pure _)))))

body-Cuts : (properties : ℕ) → Cuts (read_body properties)
unfolding read_body read_point_count
body-Cuts properties =
    Cuts-if (Reader.has properties (bit_or prop_z prop_m)) (Cuts-raise Fault.three_dimensional) (
      Cuts-bind _ count (λ n.
        Cuts-bind _ (repeat-Cuts n read_point read_point-Cuts) (λ ps. tables-Cuts properties ps)))
  where
    count : Cuts (read_point_count properties)
    count =
        Cuts-if (Reader.has properties prop_single_point) (Cuts-pure 1)
          (Cuts-if (Reader.has properties prop_single_line) (Cuts-pure 2) read_u32-Cuts)

read_tables-Cuts : Cuts read_tables
unfolding read_tables
read_tables-Cuts = Cuts-bind _ read_i32-Cuts (λ srid.
    Cuts-bind _ read_u8-Cuts
      (λ version. Cuts-bind _ (versioned version) (λ t. Cuts-pure (srid, t))))
  where
    versioned :
        (version : ℕ)
        → Cuts (
            if version == 1
            then Reader.◌>>=◌ read_u8 read_body
            else Reader.raise (Fault.unsupported_version version))
    versioned version =
        Cuts-if (version == 1) (Cuts-bind _ read_u8-Cuts body-Cuts)
          (Cuts-raise (Fault.unsupported_version version))

-- A proper prefix of an encoding is refused as truncated, whatever part it ends in, if the SRID is
-- an `i32` and the tables of the geometry can be counted.
pub decode_cut :
    (geo : GeoTypes) (srid : ℤ) (g : Geometry) (b : List ℕ) (x : ℕ) (c : List ℕ)
    → IsI32 srid
    → IsCountable (encoded geo g)
    → encode geo srid g ≡ b ++ x ∷ c
    → decode geo b ≡ fail Fault.truncated
unfolding decode encode
decode_cut geo srid g b x c h countable e =
    let t : Tables = encoded geo g in
    let whole = read_tables-write_tables srid t h (encoded-Fits geo srid g countable) in
    let e' : read_tables (at (b ++ x ∷ c) 0)
        ≡ ok ((srid, t), at (write_tables srid t) (length (write_tables srid t))) =
      ap (λ l. read_tables (at l 0)) (sym e) ∙ whole in
    elim (read_tables-Cuts.cut b (x ∷ c) 0 (srid, t) _ (omega arith) e') [
      | inl (inside, got) ↦ absurd (omega (arith, inside, ap length e, length-append b (x ∷ c)))
      | inr (beyond, got) ↦ rw got refl
    ]
