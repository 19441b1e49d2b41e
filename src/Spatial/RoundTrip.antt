-- ===== src/Spatial/RoundTrip.antt =====
-- Geometries through types/geo.rs: what is encoded is decoded.
use mathlib.Core.Path.{refl, subst}
use sqlx_mssql_rs.Prelude.{
  ℕ, suc, ◌+◌, ◌≤◌, ◌<◌, ◌≡◌, sym, List, [], ◌∷◌, ◌++◌, append-nil, arith, length, some, Bool, true,
  false, if◌then◌else◌, ◌&&◌,
}
use sqlx_mssql_rs.Prelude.Int.{ℤ, negsuc}
use sqlx_mssql_rs.Prelude.Bytes.{IsI32, as_i32, as_i32_small, as_u32, i32_of_bits-IsI32}
use sqlx_mssql_rs.Spatial.{Geometry, GeoTypes, Tables, ok}
use sqlx_mssql_rs.Spatial.Encode.{encode_geometry, no_tables, encode, is_empty}
use sqlx_mssql_rs.Spatial.Decode.{top_level, build_top, decode}
use sqlx_mssql_rs.Spatial.Layout.{
  Run, Node, Nodes, node, figures_of, length-figures_of, tables, size, runs_of, shapes_of,
  all_shapes, tree, is_none,
}
use sqlx_mssql_rs.Spatial.Split.{length-shapes_of}
use sqlx_mssql_rs.Spatial.Members.{encode_geometry-tree}
use sqlx_mssql_rs.Spatial.Placed.{PlacedNode}
use sqlx_mssql_rs.Spatial.Rings.{IsSmall}
use sqlx_mssql_rs.Spatial.Normal.{IsRinged, normal}
use sqlx_mssql_rs.Spatial.Rebuild.{tree-Built}
use sqlx_mssql_rs.Spatial.Parses.{IsCoord, IsFigure, IsShape, All}
use sqlx_mssql_rs.Spatial.Payload.{Fits, read_tables-write_tables}

-- The coordinates are patterns of 64 bits, and the tables are no longer than an `i32` counts, or a
-- `u32` for the points.
pub record IsCountable (t : Tables) : Type 0 where
  pub coords : All IsCoord t.points
  pub point_count : length t.points < 4294967296
  pub figure_count : length t.figures < 2147483648
  pub shape_count : length t.shapes < 2147483648

figures_of-All : (base : ℕ) (rs : List Run) → All IsFigure (figures_of base rs)
figures_of-All base [] = tt
figures_of-All base (r ∷ rs) = (omega arith, figures_of-All (base + length r.coords) rs)

offset-IsI32 : (b : Bool) (f : ℕ) → IsI32 (if b then negsuc 0 else as_i32 f)
offset-IsI32 true f = omega arith
offset-IsI32 false f = i32_of_bits-IsI32 (as_u32 f) (omega arith)

append-All : {A : Type 0} (P : A → Type 0) (xs ys : List A) → All P xs → All P ys → All P (xs ++ ys)
append-All P [] ys h k = k
append-All P (x ∷ xs) ys (p, h) k = (p, append-All P xs ys h k)

mutual
  shapes_of-All : (n : Node) (p : ℤ) (f i : ℕ) → IsI32 p → All IsShape (shapes_of n p f i)
  shapes_of-All (node k rs ch) p f i h = (
    (h, offset-IsI32 (is_empty rs && is_none ch) f),
    all_shapes-All ch (as_i32 i) (f + length rs) (suc i) (offset-IsI32 false i),
  )

  all_shapes-All : (ns : Nodes) (p : ℤ) (f i : ℕ) → IsI32 p → All IsShape (all_shapes ns p f i)
  all_shapes-All Nodes.none p f i h = tt
  all_shapes-All (Nodes.more n ns) p f i h =
      append-All IsShape (shapes_of n p f i) (all_shapes ns p (f + length (runs_of n)) (i + size n))
        (shapes_of-All n p f i h) (all_shapes-All ns p (f + length (runs_of n)) (i + size n) h)

-- The node of a tree stands in the tables that are its own.
placed_top :
    (n : Node)
    → size n ≤ 2147483648
    → PlacedNode (runs_of n) (shapes_of n (negsuc 0) 0 0) n (negsuc 0) 0 0
placed_top n h = record {
  pre = [];
  post = [];
  before = [];
  after = [];
  shapes = sym (append-nil _);
  index = refl;
  runs = sym (append-nil _);
  figure = refl;
  pre_outside = tt;
  post_outside = tt;
  parent_outside = λ m l u. rw (as_i32_small m (omega (arith, h))) refl;
  fresh = tt;
  bound = omega (arith, h);
}

top_level-shapes_of : (n : Node) (f i : ℕ) → top_level (shapes_of n (negsuc 0) f i) ≡ some 0
unfolding top_level
top_level-shapes_of (node k rs ch) f i = refl

-- The tables of the encoder.
abbrev pub encoded : GeoTypes → Geometry → Tables
encoded geo g = (encode_geometry geo g (negsuc 0) no_tables).0

module _ (geo : GeoTypes) (srid : ℤ) (g : Geometry) where
  abbrev laid_out : Tables
  laid_out = tables (runs_of (tree geo g)) (shapes_of (tree geo g) (negsuc 0) 0 0)

  laid_out-Fits : IsCountable laid_out → Fits laid_out
  laid_out-Fits c = record {
    coords = c.coords;
    offsets = figures_of-All 0 (runs_of (tree geo g));
    indices = shapes_of-All (tree geo g) (negsuc 0) 0 0 (omega arith);
    point_count = c.point_count;
    figure_count = omega (arith, c.figure_count);
    shape_count = omega (arith, c.shape_count);
  }

  -- What the encoder writes is what its tables hold.
  pub encoded-Fits : IsCountable (encoded geo g) → Fits (encoded geo g)
  encoded-Fits countable =
      let e : encoded geo g ≡ laid_out = encode_geometry-tree geo g in
      subst Fits (sym e) (laid_out-Fits (subst IsCountable e countable))

  rebuilt : IsCountable laid_out → IsRinged g → build_top geo laid_out ≡ ok (normal geo g)
  unfolding build_top
  rebuilt countable ringed =
      let n = tree geo g in
      let count = length-shapes_of n (negsuc 0) 0 0 in
      let small : IsSmall (runs_of n) = (
        omega (arith, countable.figure_count, length-figures_of 0 (runs_of n)),
        countable.point_count,
      ) in
      rw (top_level-shapes_of n 0 0) (
        tree-Built geo (runs_of n) (shapes_of n (negsuc 0) 0 0) small g ringed
          (suc (length (shapes_of n (negsuc 0) 0 0))) (negsuc 0) 0 0 (omega (arith, count))
          (placed_top n (omega (arith, count, countable.shape_count))))

  -- Decoding what was encoded gives back the SRID, if it is an `i32`, and the geometry in its
  -- normal form, if its tables can be counted and no polygon has interior points without exterior
  -- ones. In the normal form a line is a line string, a rectangle and a triangle are polygons, and
  -- each polygon is made anew from its exterior ring and the interior rings that have points, as
  -- `Polygon::new` does; all else is the same, nested collections and empty members included.
  pub decode-encode-normal :
      IsI32 srid
      → IsCountable (encoded geo g)
      → IsRinged g
      → decode geo (encode geo srid g) ≡ ok (srid, normal geo g)
  unfolding decode encode
  decode-encode-normal h countable ringed =
      let e : encoded geo g ≡ laid_out = encode_geometry-tree geo g in
      let c = subst IsCountable e countable in
      rw e (
        rw (read_tables-write_tables srid laid_out h (laid_out-Fits c))
          (rw (rebuilt c ringed) refl))
