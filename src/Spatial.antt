-- ===== src/Spatial.antt =====
-- sqlx-mssql-rs-core/src/types/geo.rs: spatial values in SQL Server's own serialization. An `f64` is
-- its 64-bit pattern, which the code only copies. What the code calls of `geo-types`
-- (`Polygon::new`, `Rect::to_polygon`, `Triangle::to_polygon`) is a parameter.
pub mod Reader
pub mod Encode
pub mod Decode
pub mod Layout
pub mod Figures
pub mod Bounds
pub mod Rings
pub mod Split
pub mod Members
pub mod Children
pub mod Placed
pub mod Normal
pub mod Rebuild
pub mod RoundTrip
pub mod Parses
pub mod Payload
pub mod Ancestors
pub mod Answers
pub mod Reads
pub mod Ends
pub mod Columns
pub mod Cuts
pub mod Cut
use sqlx_mssql_rs.Prelude.{ℕ, List, [], ◌∷◌, ◌++◌, Text, Option, none, some, ◌≢◌}
use sqlx_mssql_rs.Prelude.Int.{ℤ}

-- `geo_types::Coord<f64>`.
pub record Coord : Type 0 where
  pub x : ℕ
  pub y : ℕ

-- `geo_types::Polygon<f64>`, by its two accessors.
pub record Polygon : Type 0 where
  pub exterior : List Coord
  pub interiors : List (List Coord)

-- `geo_types::Geometry<f64>`, with the corners of a `Rect` and of a `Triangle`.
mutual
  pub data Geometry : Type 0 where
    point : Coord → Geometry
    line : Coord → Coord → Geometry
    line_string : List Coord → Geometry
    polygon : Polygon → Geometry
    multi_point : List Coord → Geometry
    multi_line_string : List (List Coord) → Geometry
    multi_polygon : List Polygon → Geometry
    geometry_collection : Geometries → Geometry
    rect : Coord → Coord → Geometry
    triangle : Coord → Coord → Coord → Geometry

  pub data Geometries : Type 0 where
    nil : Geometries
    cons : Geometry → Geometries → Geometries

-- `Polygon::new`, and the polygons of a `Rect` and of a `Triangle`, whose exterior rings have points.
pub record GeoTypes : Type 0 where
  pub polygon_new : List Coord → List (List Coord) → Polygon
  pub rect_to_polygon : Coord → Coord → Polygon
  pub triangle_to_polygon : Coord → Coord → Coord → Polygon
  pub rect-exterior : (a b : Coord) → (rect_to_polygon a b).exterior ≢ []
  pub triangle-exterior : (a b c : Coord) → (triangle_to_polygon a b c).exterior ≢ []

-- The constants of the serialization.
abbrev pub prop_z : ℕ
prop_z = 0x01

abbrev pub prop_m : ℕ
prop_m = 0x02

abbrev pub prop_valid : ℕ
prop_valid = 0x04

abbrev pub prop_single_point : ℕ
prop_single_point = 0x08

abbrev pub prop_single_line : ℕ
prop_single_line = 0x10

abbrev pub figure_interior_ring : ℕ
figure_interior_ring = 0x00

abbrev pub figure_stroke : ℕ
figure_stroke = 0x01

abbrev pub figure_exterior_ring : ℕ
figure_exterior_ring = 0x02

abbrev pub shape_point : ℕ
shape_point = 1

abbrev pub shape_linestring : ℕ
shape_linestring = 2

abbrev pub shape_polygon : ℕ
shape_polygon = 3

abbrev pub shape_multipoint : ℕ
shape_multipoint = 4

abbrev pub shape_multilinestring : ℕ
shape_multilinestring = 5

abbrev pub shape_multipolygon : ℕ
shape_multipolygon = 6

abbrev pub shape_geometrycollection : ℕ
shape_geometrycollection = 7

abbrev pub shape_circularstring : ℕ
shape_circularstring = 8

abbrev pub shape_compoundcurve : ℕ
shape_compoundcurve = 9

abbrev pub shape_curvepolygon : ℕ
shape_curvepolygon = 10

abbrev pub shape_fullglobe : ℕ
shape_fullglobe = 11

pub record Figure : Type 0 where
  pub attribute : ℕ
  pub point_offset : ℕ

pub record Shape : Type 0 where
  pub parent : ℤ
  pub figure_offset : ℤ
  pub shape_type : ℕ

-- The three vectors that the encoder appends to and the decoder reads.
pub record Tables : Type 0 where
  pub points : List Coord
  pub figures : List Figure
  pub shapes : List Shape

-- The errors, by the text of their message. The last two are none of the source's: `panicked` is an
-- index out of bounds, and `looping` that the model's fuel ran out.
pub data Fault : Type 0 where
  not_a_column_of : Text → Text → Fault
  not_binary : Text → Fault
  length_overflow : Fault
  truncated : Fault
  unsupported_version : ℕ → Fault
  three_dimensional : Fault
  no_top_level : Fault
  empty_point : Fault
  outside_figures : Fault
  outside_points : Fault
  unsupported_shape : ℕ → Fault
  unknown_shape : ℕ → Fault
  panicked : Fault
  looping : Fault

pub data Result {ℓ} (A : Type ℓ) : Type ℓ where
  ok : A → Result A
  fail : Fault → Result A

infixl 5 ◌>>=◌
abbrev pub ◌>>=◌ {ℓ κ} : {A : Type ℓ} {B : Type κ} → Result A → (A → Result B) → Result B
ok a >>= f = f a
fail e >>= f = fail e

-- `Option::ok_or`.
abbrev pub ok_or {ℓ} : {A : Type ℓ} → Fault → Option A → Result A
ok_or e none = fail e
ok_or e (some a) = ok a
