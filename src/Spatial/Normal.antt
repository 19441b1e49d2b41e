-- ===== src/Spatial/Normal.antt =====
-- What a geometry of types/geo.rs becomes by encoding and decoding, and when.
use mathlib.Core.Path.{refl}
use sqlx_mssql_rs.Prelude.{◌≡◌, List, [], ◌∷◌, inl, inr, Bool, true, false, ◌&&◌, if◌then◌else◌}
use sqlx_mssql_rs.Spatial.{Coord, Polygon, Geometry, Geometries, GeoTypes, figure_exterior_ring}
use sqlx_mssql_rs.Spatial.Encode.{is_empty, all_empty}
use sqlx_mssql_rs.Spatial.Layout.{
  run, ring_runs, line_node, polygon_node, point_nodes, line_nodes, polygon_nodes, tree, trees,
}
use sqlx_mssql_rs.Spatial.Rings.{IsFresh, filled}
use sqlx_mssql_rs.Spatial.Placed.{IsSound, AreSound}

-- A polygon without exterior points has no interior points.
abbrev pub IsRingedPolygon : Polygon → Type 0
IsRingedPolygon p = p.exterior ≡ [] → all_empty p.interiors ≡ true

abbrev pub AllRinged : List Polygon → Type 0
AllRinged [] = Unit {0}
AllRinged (p ∷ ps) = IsRingedPolygon p × AllRinged ps

abbrev mutual
  pub IsRinged : Geometry → Type 0
  IsRinged (Geometry.point c) = Unit {0}
  IsRinged (Geometry.line a b) = Unit {0}
  IsRinged (Geometry.line_string cs) = Unit {0}
  IsRinged (Geometry.polygon p) = IsRingedPolygon p
  IsRinged (Geometry.multi_point cs) = Unit {0}
  IsRinged (Geometry.multi_line_string ls) = Unit {0}
  IsRinged (Geometry.multi_polygon ps) = AllRinged ps
  IsRinged (Geometry.geometry_collection gs) = AreRinged gs
  IsRinged (Geometry.rect a b) = Unit {0}
  IsRinged (Geometry.triangle a b c) = Unit {0}

  pub AreRinged : Geometries → Type 0
  AreRinged Geometries.nil = Unit {0}
  AreRinged (Geometries.cons g gs) = IsRinged g × AreRinged gs

pub all_empty-filled : (rings : List (List Coord)) → all_empty rings ≡ true → filled rings ≡ []
all_empty-filled [] h = refl
all_empty-filled ([] ∷ rings) h = all_empty-filled rings h
all_empty-filled ((c ∷ cs) ∷ rings) h = cc

module _ (geo : GeoTypes) where
  -- What a geometry becomes: a line is a line string, a rectangle and a triangle are polygons, and
  -- a polygon is made anew from its exterior ring and its interior rings that have points.
  abbrev pub normal_polygon : Polygon → Polygon
  normal_polygon p = geo.polygon_new p.exterior (filled p.interiors)

  abbrev pub normal_polygons : List Polygon → List Polygon
  normal_polygons [] = []
  normal_polygons (p ∷ ps) = normal_polygon p ∷ normal_polygons ps

  abbrev mutual
    pub normal : Geometry → Geometry
    normal (Geometry.point c) = Geometry.point c
    normal (Geometry.line a b) = Geometry.line_string (a ∷ b ∷ [])
    normal (Geometry.line_string cs) = Geometry.line_string cs
    normal (Geometry.polygon p) = Geometry.polygon (normal_polygon p)
    normal (Geometry.multi_point cs) = Geometry.multi_point cs
    normal (Geometry.multi_line_string ls) = Geometry.multi_line_string ls
    normal (Geometry.multi_polygon ps) = Geometry.multi_polygon (normal_polygons ps)
    normal (Geometry.geometry_collection gs) = Geometry.geometry_collection (normals gs)
    normal (Geometry.rect a b) = Geometry.polygon (normal_polygon (geo.rect_to_polygon a b))
    normal (Geometry.triangle a b c) =
        Geometry.polygon (normal_polygon (geo.triangle_to_polygon a b c))

    pub normals : Geometries → Geometries
    normals Geometries.nil = Geometries.nil
    normals (Geometries.cons g gs) = Geometries.cons (normal g) (normals gs)

polygon_node-IsSound : (p : Polygon) → IsSound (polygon_node p)
polygon_node-IsSound p = (go (is_empty p.exterior && all_empty p.interiors), tt)
  where
    go :
        (b : Bool)
        → IsFresh (if b then [] else run figure_exterior_ring p.exterior ∷ ring_runs p.interiors)
    go true = tt
    go false = inl refl

pub point_nodes-AreSound : (cs : List Coord) → AreSound (point_nodes cs)
point_nodes-AreSound [] = tt
point_nodes-AreSound (c ∷ cs) = ((inr (refl, tt), tt), point_nodes-AreSound cs)

line_node-IsSound : (cs : List Coord) → IsSound (line_node cs)
line_node-IsSound [] = (tt, tt)
line_node-IsSound (c ∷ cs) = (inr (refl, tt), tt)

pub line_nodes-AreSound : (ls : List (List Coord)) → AreSound (line_nodes ls)
line_nodes-AreSound [] = tt
line_nodes-AreSound (l ∷ ls) = (line_node-IsSound l, line_nodes-AreSound ls)

pub polygon_nodes-AreSound : (ps : List Polygon) → AreSound (polygon_nodes ps)
polygon_nodes-AreSound [] = tt
polygon_nodes-AreSound (p ∷ ps) = (polygon_node-IsSound p, polygon_nodes-AreSound ps)

module _ (geo : GeoTypes) where
  mutual
    pub tree-IsSound : (g : Geometry) → IsSound (tree geo g)
    tree-IsSound (Geometry.point c) = (inr (refl, tt), tt)
    tree-IsSound (Geometry.line a b) = (inr (refl, tt), tt)
    tree-IsSound (Geometry.line_string cs) = line_node-IsSound cs
    tree-IsSound (Geometry.polygon p) = polygon_node-IsSound p
    tree-IsSound (Geometry.multi_point cs) = (tt, point_nodes-AreSound cs)
    tree-IsSound (Geometry.multi_line_string ls) = (tt, line_nodes-AreSound ls)
    tree-IsSound (Geometry.multi_polygon ps) = (tt, polygon_nodes-AreSound ps)
    tree-IsSound (Geometry.geometry_collection gs) = (tt, trees-AreSound gs)
    tree-IsSound (Geometry.rect a b) = polygon_node-IsSound (geo.rect_to_polygon a b)
    tree-IsSound (Geometry.triangle a b c) = polygon_node-IsSound (geo.triangle_to_polygon a b c)

    pub trees-AreSound : (gs : Geometries) → AreSound (trees geo gs)
    trees-AreSound Geometries.nil = tt
    trees-AreSound (Geometries.cons g gs) = (tree-IsSound g, trees-AreSound gs)
