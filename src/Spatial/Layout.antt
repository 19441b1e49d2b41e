-- ===== src/Spatial/Layout.antt =====
-- How the tables of types/geo.rs lay a geometry out: the figures as runs of points, and the shapes
-- as a tree in preorder.
use sqlx_mssql_rs.Prelude.{
  ℕ, suc, ◌+◌, ◌≡◌, ap, sym, ◌∙◌, List, [], ◌∷◌, ◌++◌, append_assoc, ◌&&◌, arith, if◌then◌else◌,
  length, length-append, Bool, true, false,
}
use sqlx_mssql_rs.Prelude.Int.{ℤ, negsuc}
use sqlx_mssql_rs.Prelude.Bytes.{as_u32, as_i32}
use sqlx_mssql_rs.Spatial.{
  Coord, Polygon, Geometry, Geometries, GeoTypes, Figure, Shape, Tables, figure_interior_ring,
  figure_stroke, figure_exterior_ring, shape_point, shape_linestring, shape_polygon,
  shape_multipoint, shape_multilinestring, shape_multipolygon, shape_geometrycollection,
}
use sqlx_mssql_rs.Spatial.Encode.{is_empty, all_empty}

-- A figure with the points that belong to it.
pub record Run : Type 0 where
  pub attribute : ℕ
  pub coords : List Coord

abbrev pub run : ℕ → List Coord → Run
run attribute coords = record { attribute = attribute; coords = coords }

abbrev pub flatten : List Run → List Coord
flatten [] = []
flatten (r ∷ rs) = r.coords ++ flatten rs

-- The figures of runs whose first point has the index `base`.
abbrev pub figures_of : ℕ → List Run → List Figure
figures_of base [] = []
figures_of base (r ∷ rs) =
    record { attribute = r.attribute; point_offset = as_u32 base }
    ∷ figures_of (base + length r.coords) rs

abbrev pub tables : List Run → List Shape → Tables
tables runs shapes = record { points = flatten runs; figures = figures_of 0 runs; shapes = shapes }

-- A shape with the runs of its own, and the shapes below it.
mutual
  pub data Node : Type 0 where
    node : ℕ → List Run → Nodes → Node

  pub data Nodes : Type 0 where
    none : Nodes
    more : Node → Nodes → Nodes

abbrev pub is_none : Nodes → Bool
is_none Nodes.none = true
is_none (Nodes.more _ _) = false

abbrev mutual
  pub size : Node → ℕ
  size (node k rs ch) = suc (sizes ch)

  pub sizes : Nodes → ℕ
  sizes Nodes.none = 0
  sizes (Nodes.more n ns) = size n + sizes ns

abbrev mutual
  pub runs_of : Node → List Run
  runs_of (node k rs ch) = rs ++ all_runs ch

  pub all_runs : Nodes → List Run
  all_runs Nodes.none = []
  all_runs (Nodes.more n ns) = runs_of n ++ all_runs ns

-- The shape of a node, where its first run would be the figure `figures`.
abbrev pub shape_of : Node → ℤ → ℕ → Shape
shape_of (node k rs ch) parent figures = record {
  parent = parent;
  figure_offset = if is_empty rs && is_none ch then negsuc 0 else as_i32 figures;
  shape_type = k;
}

-- The shapes of a node whose own shape has the index `index`.
abbrev mutual
  pub shapes_of : Node → ℤ → ℕ → ℕ → List Shape
  shapes_of (node k rs ch) parent figures index =
      shape_of (node k rs ch) parent figures
      ∷ all_shapes ch (as_i32 index) (figures + length rs) (suc index)

  pub all_shapes : Nodes → ℤ → ℕ → ℕ → List Shape
  all_shapes Nodes.none parent figures index = []
  all_shapes (Nodes.more n ns) parent figures index =
      shapes_of n parent figures index
      ++ all_shapes ns parent (figures + length (runs_of n)) (index + size n)

-- The tree of a geometry.
abbrev pub point_node : Coord → Node
point_node c = node shape_point (run figure_stroke (c ∷ []) ∷ []) Nodes.none

abbrev pub line_runs : List Coord → List Run
line_runs [] = []
line_runs (c ∷ cs) = run figure_stroke (c ∷ cs) ∷ []

abbrev pub line_node : List Coord → Node
line_node cs = node shape_linestring (line_runs cs) Nodes.none

abbrev pub ring_runs : List (List Coord) → List Run
ring_runs [] = []
ring_runs ([] ∷ rings) = ring_runs rings
ring_runs ((c ∷ cs) ∷ rings) = run figure_interior_ring (c ∷ cs) ∷ ring_runs rings

abbrev pub polygon_runs : Polygon → List Run
polygon_runs p =
    if is_empty p.exterior && all_empty p.interiors
    then []
    else run figure_exterior_ring p.exterior ∷ ring_runs p.interiors

abbrev pub polygon_node : Polygon → Node
polygon_node p = node shape_polygon (polygon_runs p) Nodes.none

abbrev pub point_nodes : List Coord → Nodes
point_nodes [] = Nodes.none
point_nodes (c ∷ cs) = Nodes.more (point_node c) (point_nodes cs)

abbrev pub line_nodes : List (List Coord) → Nodes
line_nodes [] = Nodes.none
line_nodes (l ∷ ls) = Nodes.more (line_node l) (line_nodes ls)

abbrev pub polygon_nodes : List Polygon → Nodes
polygon_nodes [] = Nodes.none
polygon_nodes (p ∷ ps) = Nodes.more (polygon_node p) (polygon_nodes ps)

module _ (geo : GeoTypes) where
  abbrev mutual
    pub tree : Geometry → Node
    tree (Geometry.point c) = point_node c
    tree (Geometry.line start end) = line_node (start ∷ end ∷ [])
    tree (Geometry.line_string cs) = line_node cs
    tree (Geometry.polygon p) = polygon_node p
    tree (Geometry.multi_point cs) = node shape_multipoint [] (point_nodes cs)
    tree (Geometry.multi_line_string ls) = node shape_multilinestring [] (line_nodes ls)
    tree (Geometry.multi_polygon ps) = node shape_multipolygon [] (polygon_nodes ps)
    tree (Geometry.geometry_collection gs) = node shape_geometrycollection [] (trees gs)
    tree (Geometry.rect a b) = polygon_node (geo.rect_to_polygon a b)
    tree (Geometry.triangle a b c) = polygon_node (geo.triangle_to_polygon a b c)

    pub trees : Geometries → Nodes
    trees Geometries.nil = Nodes.none
    trees (Geometries.cons g gs) = Nodes.more (tree g) (trees gs)

pub flatten-append : (a b : List Run) → flatten (a ++ b) ≡ flatten a ++ flatten b
flatten-append [] b = λ i. flatten b
flatten-append (r ∷ rs) b =
    ap (◌++◌ r.coords) (flatten-append rs b) ∙ sym (append_assoc r.coords (flatten rs) (flatten b))

pub figures_of-append :
    (base : ℕ) (a b : List Run)
    → figures_of base (a ++ b) ≡ figures_of base a ++ figures_of (base + length (flatten a)) b
figures_of-append base [] b = ap (λ (n : ℕ). figures_of n b) (omega arith)
figures_of-append base (r ∷ rs) b =
    let f : Figure = record { attribute = r.attribute; point_offset = as_u32 base } in
    let e : base + length r.coords + length (flatten rs) ≡ base + length (r.coords ++ flatten rs) =
      omega (arith, length-append r.coords (flatten rs)) in
    ap (◌∷◌ f) (
      figures_of-append (base + length r.coords) rs b
      ∙ ap (λ n. figures_of (base + length r.coords) rs ++ figures_of n b) e)

pub length-figures_of : (base : ℕ) (rs : List Run) → length (figures_of base rs) ≡ length rs
length-figures_of base [] = λ i. 0
length-figures_of base (r ∷ rs) = ap suc (length-figures_of (base + length r.coords) rs)
