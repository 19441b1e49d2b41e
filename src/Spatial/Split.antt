-- ===== src/Spatial/Split.antt =====
-- The encoder of types/geo.rs appends the runs and the shapes of the geometry's tree.
use mathlib.Core.Path.{refl}
use sqlx_mssql_rs.Prelude.{
  ℕ, suc, ◌+◌, ◌≡◌, ap, sym, ◌∙◌, List, [], ◌∷◌, ◌++◌, append_assoc, append-nil, arith, length,
  length-append, Bool, true, false, ◌&&◌, if◌then◌else◌,
}
use sqlx_mssql_rs.Prelude.Int.{ℤ, negsuc}
use sqlx_mssql_rs.Prelude.Bytes.{as_u32, as_i32}
use sqlx_mssql_rs.Spatial.{
  Coord, Polygon, Shape, Tables, figure_interior_ring, figure_stroke, figure_exterior_ring,
  shape_linestring, shape_polygon,
}
use sqlx_mssql_rs.Spatial.Encode.{
  is_empty, all_empty, push_shape, push_empty_shape, push_figure, push_stroke, encode_line_string,
  push_interiors, encode_polygon,
}
use sqlx_mssql_rs.Spatial.Layout.{
  Run, run, Node, Nodes, node, flatten, figures_of, tables, size, sizes, runs_of, all_runs,
  shapes_of, all_shapes, ring_runs, line_node, polygon_node, flatten-append, figures_of-append,
  length-figures_of,
}

mutual
  pub length-shapes_of : (n : Node) (p : ℤ) (f i : ℕ) → length (shapes_of n p f i) ≡ size n
  length-shapes_of (node k rs ch) p f i =
      ap suc (length-all_shapes ch (as_i32 i) (f + length rs) (suc i))

  pub length-all_shapes : (ns : Nodes) (p : ℤ) (f i : ℕ) → length (all_shapes ns p f i) ≡ sizes ns
  length-all_shapes Nodes.none p f i = refl
  length-all_shapes (Nodes.more n ns) p f i = omega (
    arith,
    length-append (shapes_of n p f i) (all_shapes ns p (f + length (runs_of n)) (i + size n)),
    length-shapes_of n p f i,
    length-all_shapes ns p (f + length (runs_of n)) (i + size n),
  )

-- The tables behind a node, and behind several of one parent.
abbrev pub with_node : Node → ℤ → List Run → List Shape → Tables
with_node n p rs ss = tables (rs ++ runs_of n) (ss ++ shapes_of n p (length rs) (length ss))

abbrev pub with_nodes : Nodes → ℤ → List Run → List Shape → Tables
with_nodes ns p rs ss = tables (rs ++ all_runs ns) (ss ++ all_shapes ns p (length rs) (length ss))

pub with_nodes_more :
    (n : Node) (ns : Nodes) (p : ℤ) (rs : List Run) (ss : List Shape)
    → with_nodes ns p (rs ++ runs_of n) (ss ++ shapes_of n p (length rs) (length ss))
      ≡ with_nodes (Nodes.more n ns) p rs ss
with_nodes_more n ns p rs ss =
    let here = shapes_of n p (length rs) (length ss) in
    let e = length-append rs (runs_of n) in
    let f : length (ss ++ here) ≡ length ss + size n =
      omega (arith, length-append ss here, length-shapes_of n p (length rs) (length ss)) in
    (λ i.
      tables (append_assoc rs (runs_of n) (all_runs ns) i)
        ((ss ++ here) ++ all_shapes ns p (e i) (f i)))
    ∙ ap (tables (rs ++ all_runs (Nodes.more n ns))) (
        append_assoc ss here
          (all_shapes ns p (length rs + length (runs_of n)) (length ss + size n)))

push_figure-tables :
    (a : ℕ) (cs : List Coord) (rs : List Run) (ss : List Shape)
    → push_figure a cs (tables rs ss) ≡ tables (rs ++ run a cs ∷ []) ss
unfolding push_figure
push_figure-tables a cs rs ss =
    let r = run a cs in
    let points : flatten rs ++ cs ≡ flatten (rs ++ r ∷ []) =
      ap (◌++◌ (flatten rs)) (sym (append-nil cs)) ∙ sym (flatten-append rs (r ∷ [])) in
    let figures : figures_of 0 rs
          ++ record { attribute = a; point_offset = as_u32 (length (flatten rs)) } ∷ []
        ≡ figures_of 0 (rs ++ r ∷ []) =
      ap (λ (n : ℕ). figures_of 0 rs ++ figures_of n (r ∷ [])) (omega arith)
      ∙ sym (figures_of-append 0 rs (r ∷ [])) in
    λ i. record { points = points i; figures = figures i; shapes = ss }

pub push_stroke-tables :
    (cs : List Coord) (p : ℤ) (k : ℕ) (rs : List Run) (ss : List Shape)
    → push_stroke cs p k (tables rs ss)
      ≡ (with_node (node k (run figure_stroke cs ∷ []) Nodes.none) p rs ss, as_i32 (length ss))
unfolding push_stroke push_shape
push_stroke-tables cs p k rs ss = (λ i.
    push_shape p (as_i32 (length-figures_of 0 rs i)) k
      (push_figure-tables figure_stroke cs rs ss i))

pub push_empty_shape-tables :
    (p : ℤ) (k : ℕ) (rs : List Run) (ss : List Shape)
    → push_empty_shape p k (tables rs ss)
      ≡ (with_node (node k [] Nodes.none) p rs ss, as_i32 (length ss))
unfolding push_empty_shape push_shape
push_empty_shape-tables p k rs ss =
    let shape : Shape = record { parent = p; figure_offset = negsuc 0; shape_type = k } in
    λ i. (tables (sym (append-nil rs) i) (ss ++ shape ∷ []), as_i32 (length ss))

pub encode_line_string-tables :
    (cs : List Coord) (p : ℤ) (rs : List Run) (ss : List Shape)
    → encode_line_string cs p (tables rs ss)
      ≡ (with_node (line_node cs) p rs ss, as_i32 (length ss))
unfolding encode_line_string
encode_line_string-tables [] p rs ss = push_empty_shape-tables p shape_linestring rs ss
encode_line_string-tables (c ∷ cs) p rs ss = push_stroke-tables (c ∷ cs) p shape_linestring rs ss

push_interiors-tables :
    (rings : List (List Coord)) (rs : List Run) (ss : List Shape)
    → push_interiors rings (tables rs ss) ≡ tables (rs ++ ring_runs rings) ss
unfolding push_interiors
push_interiors-tables [] rs ss = ap (λ rs. tables rs ss) (sym (append-nil rs))
push_interiors-tables ([] ∷ rings) rs ss = push_interiors-tables rings rs ss
push_interiors-tables ((c ∷ cs) ∷ rings) rs ss =
    let r = run figure_interior_ring (c ∷ cs) in
    ap (push_interiors rings) (push_figure-tables figure_interior_ring (c ∷ cs) rs ss)
    ∙ push_interiors-tables rings (rs ++ r ∷ []) ss
    ∙ ap (λ rs. tables rs ss) (append_assoc rs (r ∷ []) (ring_runs rings))

pub encode_polygon-tables :
    (p : Polygon) (q : ℤ) (rs : List Run) (ss : List Shape)
    → encode_polygon p q (tables rs ss) ≡ (with_node (polygon_node p) q rs ss, as_i32 (length ss))
unfolding encode_polygon push_shape
encode_polygon-tables p q rs ss = go (is_empty p.exterior && all_empty p.interiors)
  where
    outer : Run
    outer = run figure_exterior_ring p.exterior

    shape : ℤ → Shape
    shape f = record { parent = q; figure_offset = f; shape_type = shape_polygon }

    full :
        push_shape q
          (as_i32 (length (figures_of 0 rs)))
          shape_polygon
          (push_interiors p.interiors (push_figure figure_exterior_ring p.exterior (tables rs ss)))
        ≡ (
          with_node (node shape_polygon (outer ∷ ring_runs p.interiors) Nodes.none) q rs ss,
          as_i32 (length ss),
        )
    full =
        (λ i.
          push_shape q (as_i32 (length-figures_of 0 rs i)) shape_polygon (
            push_interiors p.interiors
              (push_figure-tables figure_exterior_ring p.exterior rs ss i)))
        ∙ ap (push_shape q (as_i32 (length rs)) shape_polygon) (
            push_interiors-tables p.interiors (rs ++ outer ∷ []) ss
            ∙ ap (λ rs. tables rs ss)
                (append_assoc rs (outer ∷ []) (ring_runs p.interiors)
                  ∙ ap (λ t. rs ++ outer ∷ t) (sym (append-nil (ring_runs p.interiors)))))

    go :
        (b : Bool)
        → (if b
            then push_empty_shape q shape_polygon (tables rs ss)
            else push_shape q (as_i32 (length (figures_of 0 rs))) shape_polygon (
                push_interiors p.interiors
                  (push_figure figure_exterior_ring p.exterior (tables rs ss))))
          ≡ (
            with_node
                (node shape_polygon (if b then [] else outer ∷ ring_runs p.interiors) Nodes.none)
                q
                rs
                ss,
            as_i32 (length ss),
          )
    go true = push_empty_shape-tables q shape_polygon rs ss
    go false = full
