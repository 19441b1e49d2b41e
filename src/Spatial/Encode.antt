-- ===== src/Spatial/Encode.antt =====
-- The encoder of types/geo.rs.
use sqlx_mssql_rs.Prelude.{ℕ, List, [], ◌∷◌, ◌++◌, Bool, true, false, ◌&&◌, if◌then◌else◌, length}
use sqlx_mssql_rs.Prelude.Int.{ℤ, negsuc}
use sqlx_mssql_rs.Prelude.Bytes.{to_le_bytes, i32_bits, as_u32, as_i32}
use sqlx_mssql_rs.Spatial.{
  Coord, Polygon, Geometry, Geometries, GeoTypes, Figure, Shape, Tables, prop_valid,
  figure_interior_ring, figure_stroke, figure_exterior_ring, shape_point, shape_linestring,
  shape_polygon, shape_multipoint, shape_multilinestring, shape_multipolygon,
  shape_geometrycollection,
}

abbrev pub is_empty {ℓ} : {A : Type ℓ} → List A → Bool
is_empty [] = true
is_empty (_ ∷ _) = false

-- Each function gives the tables behind it, and the index that the source returns.
unfoldable pub push_shape : ℤ → ℤ → ℕ → Tables → Tables × ℤ
push_shape parent figure_offset shape_type t =
    let index = as_i32 (length t.shapes) in
    let shape : Shape = record {
      parent = parent;
      figure_offset = figure_offset;
      shape_type = shape_type;
    } in
    (record t { shapes = t.shapes ++ shape ∷ [] }, index)

unfoldable pub push_empty_shape : ℤ → ℕ → Tables → Tables × ℤ
push_empty_shape parent shape_type t = push_shape parent (negsuc 0) shape_type t

-- The points of a figure, and the figure, as every branch pushes them.
unfoldable pub push_figure : ℕ → List Coord → Tables → Tables
push_figure attribute coords t =
    let figure : Figure = record {
      attribute = attribute;
      point_offset = as_u32 (length t.points);
    } in
    record t { points = t.points ++ coords; figures = t.figures ++ figure ∷ [] }

-- A figure with its points, and a shape that starts at it.
unfoldable pub push_stroke : List Coord → ℤ → ℕ → Tables → Tables × ℤ
unfolding push_figure push_shape
push_stroke coords parent shape_type t =
    let figure_offset = as_i32 (length t.figures) in
    push_shape parent figure_offset shape_type (push_figure figure_stroke coords t)

unfoldable pub encode_line_string : List Coord → ℤ → Tables → Tables × ℤ
unfolding push_empty_shape push_stroke
encode_line_string [] parent t = push_empty_shape parent shape_linestring t
encode_line_string (c ∷ cs) parent t = push_stroke (c ∷ cs) parent shape_linestring t

-- `rings.iter().all(|ring| ring.0.is_empty())`.
abbrev pub all_empty : List (List Coord) → Bool
all_empty [] = true
all_empty (ring ∷ rings) = is_empty ring && all_empty rings

-- The loop over the interior rings.
unfoldable pub push_interiors : List (List Coord) → Tables → Tables
unfolding push_figure
push_interiors [] t = t
push_interiors ([] ∷ rings) t = push_interiors rings t
push_interiors ((c ∷ cs) ∷ rings) t =
    push_interiors rings (push_figure figure_interior_ring (c ∷ cs) t)

unfoldable pub encode_polygon : Polygon → ℤ → Tables → Tables × ℤ
unfolding push_empty_shape push_figure push_interiors push_shape
encode_polygon p parent t =
    if is_empty p.exterior && all_empty p.interiors
    then push_empty_shape parent shape_polygon t
    else let figure_offset = as_i32 (length t.figures) in
      let exterior = push_figure figure_exterior_ring p.exterior t in
      push_shape parent figure_offset shape_polygon (push_interiors p.interiors exterior)

-- The loops over the members of a multi-geometry.
unfoldable pub push_points : List Coord → ℤ → Tables → Tables
unfolding push_stroke
push_points [] parent t = t
push_points (c ∷ cs) parent t = push_points cs parent (push_stroke (c ∷ []) parent shape_point t).0

unfoldable pub push_line_strings : List (List Coord) → ℤ → Tables → Tables
unfolding encode_line_string
push_line_strings [] parent t = t
push_line_strings (l ∷ ls) parent t = push_line_strings ls parent (encode_line_string l parent t).0

unfoldable pub push_polygons : List Polygon → ℤ → Tables → Tables
unfolding encode_polygon
push_polygons [] parent t = t
push_polygons (p ∷ ps) parent t = push_polygons ps parent (encode_polygon p parent t).0

-- The shape of a multi-geometry, which stands before its members.
unfoldable pub push_parent : ℤ → ℕ → Tables → Tables × ℤ
unfolding push_shape
push_parent parent shape_type t = push_shape parent (as_i32 (length t.figures)) shape_type t

-- A multi-geometry that has members: its shape, then what they push below it.
abbrev pub with_members : ℤ → ℕ → (ℤ → Tables → Tables) → Tables → Tables × ℤ
with_members parent shape_type members t =
    let (t', shape_index) = push_parent parent shape_type t in (members shape_index t', shape_index)

module _ (geo : GeoTypes) where
  unfoldable mutual
    unfolding push_empty_shape push_parent push_points push_line_strings push_polygons

    pub encode_geometry : Geometry → ℤ → Tables → Tables × ℤ
    encode_geometry (Geometry.point c) parent t = push_stroke (c ∷ []) parent shape_point t
    encode_geometry (Geometry.line start end) parent t =
        push_stroke (start ∷ end ∷ []) parent shape_linestring t
    encode_geometry (Geometry.line_string cs) parent t = encode_line_string cs parent t
    encode_geometry (Geometry.polygon p) parent t = encode_polygon p parent t
    encode_geometry (Geometry.multi_point []) parent t = push_empty_shape parent shape_multipoint t
    encode_geometry (Geometry.multi_point (c ∷ cs)) parent t =
        with_members parent shape_multipoint (push_points (c ∷ cs)) t
    encode_geometry (Geometry.multi_line_string []) parent t =
        push_empty_shape parent shape_multilinestring t
    encode_geometry (Geometry.multi_line_string (l ∷ ls)) parent t =
        with_members parent shape_multilinestring (push_line_strings (l ∷ ls)) t
    encode_geometry (Geometry.multi_polygon []) parent t =
        push_empty_shape parent shape_multipolygon t
    encode_geometry (Geometry.multi_polygon (p ∷ ps)) parent t =
        with_members parent shape_multipolygon (push_polygons (p ∷ ps)) t
    encode_geometry (Geometry.geometry_collection Geometries.nil) parent t =
        push_empty_shape parent shape_geometrycollection t
    encode_geometry (Geometry.geometry_collection (Geometries.cons g gs)) parent t =
        with_members parent shape_geometrycollection (push_geometries (Geometries.cons g gs)) t
    encode_geometry (Geometry.rect a b) parent t = encode_polygon (geo.rect_to_polygon a b) parent t
    encode_geometry (Geometry.triangle a b c) parent t =
        encode_polygon (geo.triangle_to_polygon a b c) parent t

    pub push_geometries : Geometries → ℤ → Tables → Tables
    push_geometries Geometries.nil parent t = t
    push_geometries (Geometries.cons g gs) parent t =
        push_geometries gs parent (encode_geometry g parent t).0

-- The three loops that write the tables.
abbrev pub write_points : List Coord → List ℕ
write_points [] = []
write_points (c ∷ cs) = to_le_bytes 8 c.x ++ (to_le_bytes 8 c.y ++ write_points cs)

abbrev pub write_figures : List Figure → List ℕ
write_figures [] = []
write_figures (f ∷ fs) = f.attribute ∷ (to_le_bytes 4 f.point_offset ++ write_figures fs)

abbrev pub write_shapes : List Shape → List ℕ
write_shapes [] = []
write_shapes (s ∷ ss) =
    to_le_bytes 4 (i32_bits s.parent)
    ++ (to_le_bytes 4 (i32_bits s.figure_offset) ++ s.shape_type ∷ write_shapes ss)

abbrev pub no_tables : Tables
no_tables = record { points = []; figures = []; shapes = [] }

-- The bytes of the tables.
unfoldable pub write_tables : ℤ → Tables → List ℕ
write_tables srid t =
    to_le_bytes 4 (i32_bits srid)
    ++ 1
      ∷ prop_valid
      ∷ (to_le_bytes 4 (as_u32 (length t.points))
          ++ (write_points t.points
              ++ (to_le_bytes 4 (as_u32 (length t.figures))
                  ++ (write_figures t.figures
                      ++ (to_le_bytes 4 (as_u32 (length t.shapes)) ++ write_shapes t.shapes)))))

unfoldable pub encode : GeoTypes → ℤ → Geometry → List ℕ
unfolding encode_geometry write_tables
encode geo srid geometry = write_tables srid (encode_geometry geo geometry (negsuc 0) no_tables).0
