-- ===== src/Spatial/Members.antt =====
-- The members of collections, encoded by types/geo.rs: the tables of a geometry are those of its tree.
use sqlx_mssql_rs.Prelude.{
  ℕ, suc, ◌≡◌, ap, sym, ◌∙◌, List, [], ◌∷◌, ◌++◌, append_assoc, append-nil, arith, length,
  length-append,
}
use sqlx_mssql_rs.Prelude.Int.{ℤ, negsuc}
use sqlx_mssql_rs.Prelude.Bytes.{as_i32}
use sqlx_mssql_rs.Spatial.{
  Coord, Polygon, Geometry, Geometries, GeoTypes, Shape, Tables, shape_point, shape_linestring,
  shape_multipoint, shape_multilinestring, shape_multipolygon, shape_geometrycollection,
}
use sqlx_mssql_rs.Spatial.Encode.{
  push_shape, push_stroke, encode_line_string, encode_polygon, push_points, push_line_strings,
  push_polygons, push_parent, with_members, encode_geometry, push_geometries,
}
use sqlx_mssql_rs.Spatial.Layout.{
  Run, Node, Nodes, node, figures_of, tables, runs_of, all_runs, shapes_of, all_shapes, point_node,
  line_node, polygon_node, point_nodes, line_nodes, polygon_nodes, tree, trees, length-figures_of,
}
use sqlx_mssql_rs.Spatial.Split.{
  with_node, with_nodes, with_nodes_more, push_stroke-tables, push_empty_shape-tables,
  encode_line_string-tables, encode_polygon-tables,
}

-- What a loop over members appends.
abbrev Appends : Nodes → (ℤ → Tables → Tables) → Type 0
Appends ns members =
    (p : ℤ) (rs : List Run) (ss : List Shape) → members p (tables rs ss) ≡ with_nodes ns p rs ss

Appends-none : Appends Nodes.none (λ p t. t)
Appends-none p rs ss i = tables (sym (append-nil rs) i) (sym (append-nil ss) i)

Appends-more :
    (n : Node) (ns : Nodes) (first : ℤ → Tables → Tables × ℤ) (rest : ℤ → Tables → Tables)
    → ((p : ℤ) (rs : List Run) (ss : List Shape)
        → first p (tables rs ss) ≡ (with_node n p rs ss, as_i32 (length ss)))
    → Appends ns rest
    → Appends (Nodes.more n ns) (λ p t. rest p (first p t).0)
Appends-more n ns first rest one all p rs ss =
    ap (λ (t : Tables × ℤ). rest p t.0) (one p rs ss) ∙ all p _ _ ∙ with_nodes_more n ns p rs ss

push_points_tables : (cs : List Coord) → Appends (point_nodes cs) (push_points cs)
unfolding push_points
push_points_tables [] = Appends-none
push_points_tables (c ∷ cs) =
    Appends-more (point_node c) (point_nodes cs) (λ p. push_stroke (c ∷ []) p shape_point)
      (push_points cs) (λ p. push_stroke-tables (c ∷ []) p shape_point) (push_points_tables cs)

push_line_strings_tables : (ls : List (List Coord)) → Appends (line_nodes ls) (push_line_strings ls)
unfolding push_line_strings
push_line_strings_tables [] = Appends-none
push_line_strings_tables (l ∷ ls) =
    Appends-more (line_node l) (line_nodes ls) (encode_line_string l) (push_line_strings ls)
      (encode_line_string-tables l) (push_line_strings_tables ls)

push_polygons_tables : (ps : List Polygon) → Appends (polygon_nodes ps) (push_polygons ps)
unfolding push_polygons
push_polygons_tables [] = Appends-none
push_polygons_tables (q ∷ ps) =
    Appends-more (polygon_node q) (polygon_nodes ps) (encode_polygon q) (push_polygons ps)
      (encode_polygon-tables q) (push_polygons_tables ps)

with_members-tables :
    (n : Node) (ns : Nodes) (p : ℤ) (k : ℕ) (members : ℤ → Tables → Tables) (rs : List Run)
    (ss : List Shape)
    → Appends (Nodes.more n ns) members
    → with_members p k members (tables rs ss)
      ≡ (with_node (node k [] (Nodes.more n ns)) p rs ss, as_i32 (length ss))
unfolding push_parent push_shape
with_members-tables n ns p k members rs ss all =
    let ns' = Nodes.more n ns in
    let shape : Shape = record { parent = p; figure_offset = as_i32 (length rs); shape_type = k } in
    let below = λ (f i : ℕ). all_shapes ns' (as_i32 (length ss)) f i in
    let here : members (as_i32 (length ss))
          (push_shape p (as_i32 (length (figures_of 0 rs))) k (tables rs ss)).0
        ≡ (with_node (node k [] ns') p rs ss) =
      (λ i.
        members (as_i32 (length ss))
          (push_shape p (as_i32 (length-figures_of 0 rs i)) k (tables rs ss)).0)
      ∙ all (as_i32 (length ss)) rs (ss ++ shape ∷ [])
      ∙ ap (tables (rs ++ all_runs ns')) (
          ap (λ i. (ss ++ shape ∷ []) ++ below (length rs) i)
            (omega (arith, length-append ss (shape ∷ [])))
          ∙ append_assoc ss (shape ∷ []) (below (length rs) (suc (length ss)))
          ∙ ap (λ f. ss ++ shape ∷ below f (suc (length ss))) (omega arith)) in
    λ i. (here i, as_i32 (length ss))

module _ (geo : GeoTypes) where
  mutual
    unfolding encode_geometry

    encode_tables :
        (g : Geometry) (p : ℤ) (rs : List Run) (ss : List Shape)
        → encode_geometry geo g p (tables rs ss)
          ≡ (with_node (tree geo g) p rs ss, as_i32 (length ss))
    encode_tables (Geometry.point c) p rs ss = push_stroke-tables (c ∷ []) p shape_point rs ss
    encode_tables (Geometry.line a b) p rs ss =
        push_stroke-tables (a ∷ b ∷ []) p shape_linestring rs ss
    encode_tables (Geometry.line_string cs) p rs ss = encode_line_string-tables cs p rs ss
    encode_tables (Geometry.polygon q) p rs ss = encode_polygon-tables q p rs ss
    encode_tables (Geometry.multi_point []) p rs ss =
        push_empty_shape-tables p shape_multipoint rs ss
    encode_tables (Geometry.multi_point (c ∷ cs)) p rs ss =
        with_members-tables (point_node c) (point_nodes cs) p shape_multipoint
          (push_points (c ∷ cs)) rs ss (push_points_tables (c ∷ cs))
    encode_tables (Geometry.multi_line_string []) p rs ss =
        push_empty_shape-tables p shape_multilinestring rs ss
    encode_tables (Geometry.multi_line_string (l ∷ ls)) p rs ss =
        with_members-tables (line_node l) (line_nodes ls) p shape_multilinestring
          (push_line_strings (l ∷ ls)) rs ss (push_line_strings_tables (l ∷ ls))
    encode_tables (Geometry.multi_polygon []) p rs ss =
        push_empty_shape-tables p shape_multipolygon rs ss
    encode_tables (Geometry.multi_polygon (q ∷ ps)) p rs ss =
        with_members-tables (polygon_node q) (polygon_nodes ps) p shape_multipolygon
          (push_polygons (q ∷ ps)) rs ss (push_polygons_tables (q ∷ ps))
    encode_tables (Geometry.geometry_collection Geometries.nil) p rs ss =
        push_empty_shape-tables p shape_geometrycollection rs ss
    encode_tables (Geometry.geometry_collection (Geometries.cons g gs)) p rs ss =
        with_members-tables (tree geo g) (trees geo gs) p shape_geometrycollection
          (push_geometries geo (Geometries.cons g gs)) rs ss (push_tables (Geometries.cons g gs))
    encode_tables (Geometry.rect a b) p rs ss =
        encode_polygon-tables (geo.rect_to_polygon a b) p rs ss
    encode_tables (Geometry.triangle a b c) p rs ss =
        encode_polygon-tables (geo.triangle_to_polygon a b c) p rs ss

    push_tables : (gs : Geometries) → Appends (trees geo gs) (push_geometries geo gs)
    push_tables Geometries.nil = Appends-none
    push_tables (Geometries.cons g gs) =
        Appends-more (tree geo g) (trees geo gs) (encode_geometry geo g) (push_geometries geo gs)
          (encode_tables g) (push_tables gs)

  pub encode_geometry-tree :
      (g : Geometry)
      → (encode_geometry geo g (negsuc 0) (tables [] [])).0
        ≡ tables (runs_of (tree geo g)) (shapes_of (tree geo g) (negsuc 0) 0 0)
  encode_geometry-tree g i = (encode_tables g (negsuc 0) [] [] i).0
