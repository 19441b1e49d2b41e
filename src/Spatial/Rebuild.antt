-- ===== src/Spatial/Rebuild.antt =====
-- The decoder of types/geo.rs on the tables of a geometry's tree.
use mathlib.Core.Path.{refl, subst}
use sqlx_mssql_rs.Prelude.{
  ℕ, zero, suc, ◌≤◌, ◌<◌, ◌≡◌, ap, sym, ◌∙◌, List, [], ◌∷◌, ◌++◌, append-nil, arith, length,
  length-append, get_elem?, some, true,
}
use sqlx_mssql_rs.Prelude.Int.{ℤ, pos}
use sqlx_mssql_rs.Prelude.Bytes.{as_i32, as_i32_small}
use sqlx_mssql_rs.Spatial.{
  Coord, Polygon, Geometry, Geometries, GeoTypes, Shape, Result, ok, figure_stroke,
  figure_exterior_ring, shape_point, shape_linestring, shape_polygon, shape_multipoint,
  shape_multilinestring, shape_multipolygon, shape_geometrycollection,
}
use sqlx_mssql_rs.Spatial.Encode.{all_empty}
use sqlx_mssql_rs.Spatial.Decode.{
  figure_coords, first_coord, build_polygon, collect, geometries, at, build_kind, build_shape,
}
use sqlx_mssql_rs.Spatial.Layout.{
  Run, run, Node, Nodes, node, flatten, figures_of, size, sizes, shape_of, ring_runs, polygon_runs,
  line_runs, point_node, line_node, polygon_node, point_nodes, line_nodes, polygon_nodes, tree,
  trees,
}
use sqlx_mssql_rs.Spatial.Figures.{figure_coords_run}
use sqlx_mssql_rs.Spatial.Rings.{IsSmall, filled, build_polygon_runs}
use sqlx_mssql_rs.Spatial.Children.{roots}
use sqlx_mssql_rs.Spatial.Placed.{
  PlacedNode, PlacedNodes, placed_first, placed_rest, placed_below, placed_shape, placed_children,
}
use sqlx_mssql_rs.Spatial.Normal.{
  IsRingedPolygon, AllRinged, IsRinged, AreRinged, all_empty-filled, normal_polygon,
  normal_polygons, normal, normals, point_nodes-AreSound, line_nodes-AreSound,
  polygon_nodes-AreSound, trees-AreSound,
}

listed : Geometries → List Geometry
listed Geometries.nil = []
listed (Geometries.cons g gs) = g ∷ listed gs

geometries-listed : (gs : Geometries) → geometries (listed gs) ≡ gs
unfolding listed
geometries-listed Geometries.nil = refl
geometries-listed (Geometries.cons g gs) = ap (Geometries.cons g) (geometries-listed gs)

collect_more :
    {A : Type 0} (body : ℕ → Result A) (i : ℕ) (rest : List ℕ) (x : A) (xs : List A)
    → body i ≡ ok x
    → collect body rest ≡ ok xs
    → collect body (i ∷ rest) ≡ ok (x ∷ xs)
unfolding collect
collect_more body i rest x xs e es = rw e (rw es refl)

collect_none : {A : Type 0} (body : ℕ → Result A) → collect body [] ≡ ok []
unfolding collect
collect_none body = refl

-- The figure of a run that stands at its place.
figure_index :
    (w before rest : List Run) (f : ℕ) (r : Run)
    → IsSmall w
    → w ≡ before ++ r ∷ rest
    → length before ≡ f
    → as_i32 f ≡ pos (length before)
figure_index w before rest f r small e h =
    as_i32_small f (omega (arith, small.0, ap length e, length-append before (r ∷ rest), h))
    ∙ ap pos (sym h)

module _ (geo : GeoTypes) (w : List Run) (s : List Shape) (small : IsSmall w) where
  stroke_coords :
      (before after : List Run) (c : Coord) (cs : List Coord) (f : ℕ)
      → w ≡ before ++ run figure_stroke (c ∷ cs) ∷ after
      → length before ≡ f
      → figure_coords (as_i32 f) (figures_of 0 w) (flatten w) ≡ ok (c ∷ cs)
  stroke_coords before after c cs f e h =
      ap (λ z. figure_coords z (figures_of 0 w) (flatten w))
        (figure_index w before after f _ small e h)
      ∙ ap (λ v. figure_coords (pos (length before)) (figures_of 0 v) (flatten v)) e
      ∙ figure_coords_run before (run figure_stroke (c ∷ cs)) after (omega arith)
          (subst (λ v. length (flatten v) < 4294967296) e small.1)

  point_coord :
      (c : Coord) (p : ℤ) (f j : ℕ)
      → PlacedNode w s (point_node c) p f j
      → first_coord (as_i32 f) (figures_of 0 w) (flatten w) ≡ ok c
  unfolding first_coord
  point_coord c p f j pl = rw (stroke_coords pl.before pl.after c [] f pl.runs pl.figure) refl

  line_coords :
      (cs : List Coord) (p : ℤ) (f j : ℕ)
      → PlacedNode w s (line_node cs) p f j
      → figure_coords (shape_of (line_node cs) p f).figure_offset (figures_of 0 w) (flatten w)
        ≡ ok cs
  line_coords [] p f j pl = unfold figure_coords in refl
  line_coords (c ∷ cs) p f j pl = stroke_coords pl.before pl.after c cs f pl.runs pl.figure

  built_polygon :
      (ext : List Coord) (ints : List (List Coord)) (p : ℤ) (f j : ℕ)
      → (ext ≡ [] → all_empty ints ≡ true)
      → PlacedNode w s (polygon_node (record { exterior = ext; interiors = ints })) p f j
      → build_polygon geo
          (shape_of (polygon_node (record { exterior = ext; interiors = ints })) p f).figure_offset
          (figures_of 0 w)
          (flatten w)
        ≡ ok (geo.polygon_new ext (filled ints))
  built_polygon [] ints p f j ringed pl =
      let e = ringed refl in
      rw e (
        unfold build_polygon in ap (λ r. ok (geo.polygon_new [] r)) (sym (all_empty-filled ints e)))
  built_polygon (c ∷ cs) ints p f j ringed pl =
      let r = run figure_exterior_ring (c ∷ cs) in
      let e : w ≡ pl.before ++ r ∷ (ring_runs ints ++ pl.after) =
        pl.runs ∙ ap (λ t. pl.before ++ r ∷ (t ++ pl.after)) (append-nil (ring_runs ints)) in
      ap (λ z. build_polygon geo z (figures_of 0 w) (flatten w))
        (figure_index w pl.before (ring_runs ints ++ pl.after) f r small e pl.figure)
      ∙ build_polygon_runs geo pl.before c cs ints pl.after w e small pl.fresh

  member :
      {A : Type 0} (body : Shape → Result A) (i : ℕ) (sh : Shape) (x : A)
      → get_elem? s i ≡ some sh
      → body sh ≡ ok x
      → at geo s (figures_of 0 w) (flatten w) i body ≡ ok x
  member body i sh x e h = rw (e, at) h

  points_collected :
      (cs : List Coord) (p : ℤ) (f j : ℕ)
      → PlacedNodes w s (point_nodes cs) p f j
      → collect
          (λ i.
            at geo s
              (figures_of 0 w)
              (flatten w)
              i
              (λ m. first_coord m.figure_offset (figures_of 0 w) (flatten w)))
          (roots (point_nodes cs) j)
        ≡ ok cs
  points_collected [] p f j pl = collect_none _
  points_collected (c ∷ cs) p f j pl =
      let here =
        placed_first w s (point_node c) (point_nodes cs) p f j (point_nodes-AreSound cs) pl in
      collect_more _ j _ c cs
        (member (λ m. first_coord m.figure_offset (figures_of 0 w) (flatten w)) j _ c
          (placed_shape w s shape_point (run figure_stroke (c ∷ []) ∷ []) Nodes.none p f j here)
          (point_coord c p f j here))
        (points_collected cs p _ _ (placed_rest w s (point_node c) (point_nodes cs) p f j pl))

  lines_collected :
      (ls : List (List Coord)) (p : ℤ) (f j : ℕ)
      → PlacedNodes w s (line_nodes ls) p f j
      → collect
          (λ i.
            at geo s
              (figures_of 0 w)
              (flatten w)
              i
              (λ m. figure_coords m.figure_offset (figures_of 0 w) (flatten w)))
          (roots (line_nodes ls) j)
        ≡ ok ls
  lines_collected [] p f j pl = collect_none _
  lines_collected (l ∷ ls) p f j pl =
      let here = placed_first w s (line_node l) (line_nodes ls) p f j (line_nodes-AreSound ls) pl in
      collect_more _ j _ l ls
        (member (λ m. figure_coords m.figure_offset (figures_of 0 w) (flatten w)) j _ l
          (placed_shape w s shape_linestring (line_runs l) Nodes.none p f j here)
          (line_coords l p f j here))
        (lines_collected ls p _ _ (placed_rest w s (line_node l) (line_nodes ls) p f j pl))

  polygons_collected :
      (ps : List Polygon) (p : ℤ) (f j : ℕ)
      → AllRinged ps
      → PlacedNodes w s (polygon_nodes ps) p f j
      → collect
          (λ i.
            at geo s
              (figures_of 0 w)
              (flatten w)
              i
              (λ m. build_polygon geo m.figure_offset (figures_of 0 w) (flatten w)))
          (roots (polygon_nodes ps) j)
        ≡ ok (normal_polygons geo ps)
  polygons_collected [] p f j ringed pl = collect_none _
  polygons_collected (q ∷ ps) p f j ringed pl =
      let here =
        placed_first w s (polygon_node q) (polygon_nodes ps) p f j (polygon_nodes-AreSound ps) pl in
      collect_more _ j _ (normal_polygon geo q) (normal_polygons geo ps)
        (member (λ m. build_polygon geo m.figure_offset (figures_of 0 w) (flatten w)) j _
          (normal_polygon geo q)
          (placed_shape w s shape_polygon (polygon_runs q) Nodes.none p f j here)
          (built_polygon q.exterior q.interiors p f j ringed.0 here))
        (polygons_collected ps p _ _ ringed.1
          (placed_rest w s (polygon_node q) (polygon_nodes ps) p f j pl))

  abbrev pub Built : Node → Geometry → Type 0
  Built n g =
      (fuel : ℕ) (p : ℤ) (f j : ℕ)
      → size n ≤ fuel
      → PlacedNode w s n p f j
      → build_shape geo s (figures_of 0 w) (flatten w) fuel j ≡ ok g

  -- A shape whose kind is built with every fuel.
  Built-kind :
      (k : ℕ) (rs : List Run) (ch : Nodes) (g : Geometry)
      → ((fuel : ℕ) (p : ℤ) (f j : ℕ)
          → sizes ch ≤ fuel
          → PlacedNode w s (node k rs ch) p f j
          → build_kind geo s
              (figures_of 0 w)
              (flatten w)
              (build_shape geo s (figures_of 0 w) (flatten w) fuel)
              j
              (shape_of (node k rs ch) p f)
            ≡ ok g)
      → Built (node k rs ch) g
  unfolding build_shape
  Built-kind k rs ch g built zero p f j h pl = absurd (omega (arith, h))
  Built-kind k rs ch g built (suc fuel) p f j h pl =
      rw (placed_shape w s k rs ch p f j pl, at) (built fuel p f j (omega (arith, h)) pl)

  Built-polygon :
      (q : Polygon)
      → IsRingedPolygon q
      → Built (polygon_node q) (Geometry.polygon (normal_polygon geo q))
  unfolding build_kind
  Built-polygon q ringed =
      Built-kind shape_polygon (polygon_runs q) Nodes.none (Geometry.polygon (normal_polygon geo q))
        (λ fuel p f j h pl. rw (built_polygon q.exterior q.interiors p f j ringed pl) refl)

  Built-line : (cs : List Coord) → Built (line_node cs) (Geometry.line_string cs)
  unfolding build_kind
  Built-line cs =
      Built-kind shape_linestring (line_runs cs) Nodes.none (Geometry.line_string cs)
        (λ fuel p f j h pl. rw (line_coords cs p f j pl) refl)

  mutual
    unfolding build_kind listed

    pub tree-Built : (g : Geometry) → IsRinged g → Built (tree geo g) (normal geo g)
    tree-Built (Geometry.point c) ringed =
        Built-kind shape_point (run figure_stroke (c ∷ []) ∷ []) Nodes.none (Geometry.point c)
          (λ fuel p f j h pl. rw (point_coord c p f j pl) refl)
    tree-Built (Geometry.line a b) ringed = Built-line (a ∷ b ∷ [])
    tree-Built (Geometry.line_string cs) ringed = Built-line cs
    tree-Built (Geometry.polygon q) ringed = Built-polygon q ringed
    tree-Built (Geometry.multi_point cs) ringed =
        Built-kind shape_multipoint [] (point_nodes cs) (Geometry.multi_point cs)
          (λ fuel p f j h pl.
            rw (placed_children w s shape_multipoint [] (point_nodes cs) p f j pl) (
              rw
                (points_collected cs _ _ _
                  (placed_below w s shape_multipoint [] (point_nodes cs) p f j pl))
                refl))
    tree-Built (Geometry.multi_line_string ls) ringed =
        Built-kind shape_multilinestring [] (line_nodes ls) (Geometry.multi_line_string ls)
          (λ fuel p f j h pl.
            rw (placed_children w s shape_multilinestring [] (line_nodes ls) p f j pl) (
              rw
                (lines_collected ls _ _ _
                  (placed_below w s shape_multilinestring [] (line_nodes ls) p f j pl))
                refl))
    tree-Built (Geometry.multi_polygon ps) ringed =
        Built-kind shape_multipolygon [] (polygon_nodes ps)
          (Geometry.multi_polygon (normal_polygons geo ps))
          (λ fuel p f j h pl.
            rw (placed_children w s shape_multipolygon [] (polygon_nodes ps) p f j pl) (
              rw
                (polygons_collected ps _ _ _ ringed
                  (placed_below w s shape_multipolygon [] (polygon_nodes ps) p f j pl))
                refl))
    tree-Built (Geometry.geometry_collection gs) ringed =
        Built-kind shape_geometrycollection [] (trees geo gs)
          (Geometry.geometry_collection (normals geo gs))
          (λ fuel p f j h pl.
            rw (placed_children w s shape_geometrycollection [] (trees geo gs) p f j pl) (
              rw
                (trees-Built gs ringed fuel _ _ _ h
                  (placed_below w s shape_geometrycollection [] (trees geo gs) p f j pl))
                (ap (λ gs. ok (Geometry.geometry_collection gs))
                  (geometries-listed (normals geo gs)))))
    tree-Built (Geometry.rect a b) ringed =
        Built-polygon (geo.rect_to_polygon a b) (λ e. absurd (geo.rect-exterior a b e))
    tree-Built (Geometry.triangle a b c) ringed =
        Built-polygon (geo.triangle_to_polygon a b c) (λ e. absurd (geo.triangle-exterior a b c e))

    trees-Built :
        (gs : Geometries)
        → AreRinged gs
        → (fuel : ℕ) (p : ℤ) (f j : ℕ) → sizes (trees geo gs) ≤ fuel
        → PlacedNodes w s (trees geo gs) p f j
        → collect (build_shape geo s (figures_of 0 w) (flatten w) fuel) (roots (trees geo gs) j)
          ≡ ok (listed (normals geo gs))
    trees-Built Geometries.nil ringed fuel p f j h pl =
        collect_none (build_shape geo s (figures_of 0 w) (flatten w) fuel)
    trees-Built (Geometries.cons g gs) ringed fuel p f j h pl =
        let here = placed_first w s (tree geo g) (trees geo gs) p f j (trees-AreSound geo gs) pl in
        collect_more (build_shape geo s (figures_of 0 w) (flatten w) fuel) j _ (normal geo g)
          (listed (normals geo gs)) (tree-Built g ringed.0 fuel p f j (omega (arith, h)) here)
          (trees-Built gs ringed.1 fuel p _ _ (omega (arith, h))
            (placed_rest w s (tree geo g) (trees geo gs) p f j pl))
