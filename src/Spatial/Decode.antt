-- ===== src/Spatial/Decode.antt =====
-- The decoder of types/geo.rs behind its reader. `build_shape` recurs on fuel, and so the error `looping`.
use sqlx_mssql_rs.Prelude.{
  ℕ, zero, suc, List, [], ◌∷◌, ◌||◌, Option, none, some, ◌==◌, ltb, if◌then◌else◌, length, drop,
  get_elem?,
}
use sqlx_mssql_rs.Prelude.Int.{ℤ, pos, negsuc}
use sqlx_mssql_rs.Prelude.Bytes.{as_i32, int_eq}
use sqlx_mssql_rs.Spatial.{
  Coord, Polygon, Geometry, Geometries, GeoTypes, Figure, Shape, Tables, Fault, Result, ok, fail,
  ok_or, ◌>>=◌, figure_interior_ring, figure_exterior_ring, shape_point, shape_linestring,
  shape_polygon, shape_multipoint, shape_multilinestring, shape_multipolygon,
  shape_geometrycollection, shape_circularstring, shape_compoundcurve, shape_curvepolygon,
  shape_fullglobe,
}
use sqlx_mssql_rs.Spatial.Reader.{new, slice, read_tables}

-- The least offset of a figure beyond `start`, if there is one.
unfoldable pub next_offset : ℕ → List Figure → Option ℕ
next_offset start [] = none
next_offset start (f ∷ fs) = elim (next_offset start fs) [
  | none ↦ if ltb start f.point_offset then some f.point_offset else none
  | some m ↦
      if ltb start f.point_offset
      then (if ltb f.point_offset m then some f.point_offset else some m)
      else some m
]

abbrev pub or_end : ℕ → Option ℕ → ℕ
or_end n none = n
or_end n (some m) = m

-- The points of a figure, once it is found in the table.
unfoldable pub figure_points : Figure → List Figure → List Coord → Result (List Coord)
unfolding next_offset
figure_points f figures points =
    slice f.point_offset (or_end (length points) (next_offset f.point_offset figures)) points
      Fault.outside_points

unfoldable pub figure_coords : ℤ → List Figure → List Coord → Result (List Coord)
unfolding figure_points
figure_coords (negsuc _) figures points = ok []
figure_coords (pos index) figures points = do
  f ← ok_or Fault.outside_figures (get_elem? figures index)
  figure_points f figures points

-- `first().copied().ok_or_else(...)`.
abbrev pub first_of : List Coord → Result Coord
first_of [] = fail Fault.empty_point
first_of (c ∷ _) = ok c

unfoldable pub first_coord : ℤ → List Figure → List Coord → Result Coord
unfolding figure_coords
first_coord figure_offset figures points = do
  coords ← figure_coords figure_offset figures points
  first_of coords

-- The loop over the figures behind an exterior ring; `index` is that of the first of `rest`.
unfoldable pub interior_rings :
    ℕ → List Figure → List Figure → List Coord → Result (List (List Coord))
unfolding figure_coords
interior_rings index [] figures points = ok []
interior_rings index (f ∷ rest) figures points =
    let later = interior_rings (suc index) rest figures points in
    if f.attribute == figure_exterior_ring
    then ok []
    else if f.attribute == figure_interior_ring
    then (do ring ← figure_coords (as_i32 index) figures points; rings ← later; ok (ring ∷ rings))
    else later

-- The indices of the shapes, from `index` on, whose parent is the given one.
unfoldable pub children_from : ℕ → ℤ → List Shape → List ℕ
children_from index parent [] = []
children_from index parent (s ∷ rest) =
    let later = children_from (suc index) parent rest in
    if int_eq s.parent parent then index ∷ later else later

-- `shapes.iter().position(|shape| shape.parent == -1)`.
unfoldable pub top_level : List Shape → Option ℕ
top_level [] = none
top_level (s ∷ rest) =
    if int_eq s.parent (negsuc 0)
    then some 0
    else elim (top_level rest) [ none ↦ none | some i ↦ some (suc i) ]

-- A loop over children that pushes what the body gives.
unfoldable pub collect {ℓ} : {A : Type ℓ} → (ℕ → Result A) → List ℕ → Result (List A)
collect body [] = ok []
collect body (child ∷ rest) = do x ← body child; xs ← collect body rest; ok (x ∷ xs)

abbrev pub geometries : List Geometry → Geometries
geometries [] = Geometries.nil
geometries (g ∷ gs) = Geometries.cons g (geometries gs)

module _ (geo : GeoTypes) where
  unfoldable pub build_polygon : ℤ → List Figure → List Coord → Result Polygon
  unfolding figure_coords interior_rings
  build_polygon (negsuc _) figures points = ok (geo.polygon_new [] [])
  build_polygon (pos start) figures points = do
    exterior ← figure_coords (pos start) figures points
    interiors ← interior_rings (suc start) (drop (suc start) figures) figures points
    ok (geo.polygon_new exterior interiors)

  module _ (shapes : List Shape) (figures : List Figure) (points : List Coord) where
    -- `shapes[index]`.
    abbrev pub at {ℓ} : {A : Type ℓ} → ℕ → (Shape → Result A) → Result A
    at index body = elim (get_elem? shapes index) [ none ↦ fail Fault.panicked | some s ↦ body s ]

    -- The match on the type of a shape; `child` is `build_shape` itself.
    unfoldable pub build_kind : (ℕ → Result Geometry) → ℕ → Shape → Result Geometry
    unfolding first_coord figure_coords build_polygon collect children_from
    build_kind child index s =
        let children = children_from 0 (as_i32 index) shapes in
        if s.shape_type == shape_point
        then (do c ← first_coord s.figure_offset figures points; ok (Geometry.point c))
        else if s.shape_type == shape_linestring
        then (do cs ← figure_coords s.figure_offset figures points; ok (Geometry.line_string cs))
        else if s.shape_type == shape_polygon
        then (do p ← build_polygon s.figure_offset figures points; ok (Geometry.polygon p))
        else if s.shape_type == shape_multipoint
        then (do
          cs ← collect (λ i. at i (λ m. first_coord m.figure_offset figures points)) children
          ok (Geometry.multi_point cs))
        else if s.shape_type == shape_multilinestring
        then (do
          ls ← collect (λ i. at i (λ m. figure_coords m.figure_offset figures points)) children
          ok (Geometry.multi_line_string ls))
        else if s.shape_type == shape_multipolygon
        then (do
          ps ← collect (λ i. at i (λ m. build_polygon m.figure_offset figures points)) children
          ok (Geometry.multi_polygon ps))
        else if s.shape_type == shape_geometrycollection
        then (do gs ← collect child children; ok (Geometry.geometry_collection (geometries gs)))
        else if (s.shape_type == shape_circularstring)
            || (s.shape_type == shape_compoundcurve)
            || (s.shape_type == shape_curvepolygon)
            || (s.shape_type == shape_fullglobe)
        then fail (Fault.unsupported_shape s.shape_type)
        else fail (Fault.unknown_shape s.shape_type)

    unfoldable pub build_shape : ℕ → ℕ → Result Geometry
    unfolding build_kind
    build_shape zero index = fail Fault.looping
    build_shape (suc fuel) index = at index (build_kind (build_shape fuel) index)

module _ (geo : GeoTypes) where
  -- The geometry of the tables, from the first shape at the top on.
  unfoldable pub build_top : Tables → Result Geometry
  unfolding top_level build_shape
  build_top t = do
    top ← ok_or Fault.no_top_level (top_level t.shapes)
    build_shape geo t.shapes t.figures t.points (suc (length t.shapes)) top

  unfoldable pub decode : List ℕ → Result (ℤ × Geometry)
  unfolding read_tables build_top
  decode bytes = do
    ((srid, t), _) ← read_tables (new bytes)
    geometry ← build_top t
    ok (srid, geometry)
