-- ===== src/Spatial/Rings.antt =====
-- Reading a polygon back from the tables of types/geo.rs.
use mathlib.Core.Path.{refl, subst}
use mathlib.Core.Logic.{◌⊎◌, inl, inr}
use sqlx_mssql_rs.Prelude.{
  ℕ, suc, ◌+◌, ◌<◌, ◌≡◌, ap, sym, ◌∙◌, List, [], ◌∷◌, ◌++◌, append_assoc, arith, length,
  length-append, drop, drop_prefix,
}
use sqlx_mssql_rs.Prelude.Int.{pos}
use sqlx_mssql_rs.Prelude.Bytes.{as_i32, as_i32_small}
use sqlx_mssql_rs.Spatial.{
  Coord, Figure, GeoTypes, ok, figure_interior_ring, figure_stroke, figure_exterior_ring,
}
use sqlx_mssql_rs.Spatial.Decode.{figure_coords, interior_rings, build_polygon}
use sqlx_mssql_rs.Spatial.Layout.{
  Run, run, flatten, figures_of, flatten-append, figures_of-append, length-figures_of, ring_runs,
}
use sqlx_mssql_rs.Spatial.Figures.{figure_coords_run}

-- No interior ring stands before the first exterior ring.
abbrev pub IsFresh : List Run → Type 0
IsFresh [] = Unit {0}
IsFresh (r ∷ rs) =
    (r.attribute ≡ figure_exterior_ring) ⊎ ((r.attribute ≡ figure_stroke) × IsFresh rs)

pub append-IsFresh : (a b : List Run) → IsFresh a → IsFresh b → IsFresh (a ++ b)
append-IsFresh [] b f g = g
append-IsFresh (r ∷ rs) b (inl e) g = inl e
append-IsFresh (r ∷ rs) b (inr (e, f)) g = inr (e, append-IsFresh rs b f g)

-- The rings that the encoder writes: those with points.
abbrev pub filled : List (List Coord) → List (List Coord)
filled [] = []
filled ([] ∷ rings) = filled rings
filled ((c ∷ cs) ∷ rings) = (c ∷ cs) ∷ filled rings

-- The number of runs and of points is within what the tables can count.
abbrev pub IsSmall : List Run → Type 0
IsSmall w = (length w < 2147483648) × (length (flatten w) < 4294967296)

module _ (figures : List Figure) (points : List Coord) where
  interior_rings_exterior :
      (i : ℕ) (f : Figure) (fs : List Figure)
      → f.attribute ≡ figure_exterior_ring
      → interior_rings i (f ∷ fs) figures points ≡ ok []
  unfolding interior_rings
  interior_rings_exterior i f fs e = rw e refl

  interior_rings_stroke :
      (i : ℕ) (f : Figure) (fs : List Figure)
      → f.attribute ≡ figure_stroke
      → interior_rings i (f ∷ fs) figures points ≡ interior_rings (suc i) fs figures points
  unfolding interior_rings
  interior_rings_stroke i f fs e = rw e refl

  interior_rings_interior :
      (i : ℕ) (f : Figure) (fs : List Figure) (ring : List Coord) (rings : List (List Coord))
      → f.attribute ≡ figure_interior_ring
      → figure_coords (as_i32 i) figures points ≡ ok ring
      → interior_rings (suc i) fs figures points ≡ ok rings
      → interior_rings i (f ∷ fs) figures points ≡ ok (ring ∷ rings)
  unfolding interior_rings
  interior_rings_interior i f fs ring rings e r rs = rw e (rw r (rw rs refl))

  -- Fresh runs have no ring for the polygon before them.
  interior_rings_fresh :
      (i base : ℕ) (rest : List Run)
      → IsFresh rest
      → interior_rings i (figures_of base rest) figures points ≡ ok []
  interior_rings_fresh i base [] f = unfold interior_rings in refl
  interior_rings_fresh i base (r ∷ rs) (inl e) = interior_rings_exterior i _ _ e
  interior_rings_fresh i base (r ∷ rs) (inr (e, f)) =
      interior_rings_stroke i _ _ e ∙ interior_rings_fresh (suc i) (base + length r.coords) rs f

interior_rings_runs :
    (w before : List Run) (rings : List (List Coord)) (after : List Run)
    → IsSmall w
    → w ≡ before ++ (ring_runs rings ++ after)
    → IsFresh after
    → interior_rings
        (length before)
        (figures_of (length (flatten before)) (ring_runs rings ++ after))
        (figures_of 0 w)
        (flatten w)
      ≡ ok (filled rings)
interior_rings_runs w before [] after small e f = interior_rings_fresh _ _ _ _ after f
interior_rings_runs w before ([] ∷ rings) after small e f =
    interior_rings_runs w before rings after small e f
interior_rings_runs w before ((c ∷ cs) ∷ rings) after small e f =
    let r = run figure_interior_ring (c ∷ cs) in
    let rest = ring_runs rings ++ after in
    let e' : w ≡ (before ++ r ∷ []) ++ rest = e ∙ sym (append_assoc before (r ∷ []) rest) in
    let ih = interior_rings_runs w (before ++ r ∷ []) rings after small e' f in
    let n : length (before ++ r ∷ []) ≡ suc (length before) =
      omega (arith, length-append before (r ∷ [])) in
    let m : length (flatten (before ++ r ∷ [])) ≡ length (flatten before) + length (c ∷ cs) =
      omega (
        arith,
        ap length (flatten-append before (r ∷ [])),
        length-append (flatten before) (flatten (r ∷ [])),
        length-append (c ∷ cs) [],
      ) in
    let inside : length before < 2147483648 =
      omega (arith, small.0, ap length e, length-append before (r ∷ rest)) in
    interior_rings_interior _ _ (length before) _ (figures_of _ rest) (c ∷ cs) (filled rings) refl
      (ap (λ z. figure_coords z (figures_of 0 w) (flatten w)) (as_i32_small _ inside)
        ∙ ap (λ v. figure_coords (pos (length before)) (figures_of 0 v) (flatten v)) e
        ∙ figure_coords_run before r rest (omega arith)
            (subst (λ v. length (flatten v) < 4294967296) e small.1))
      ((λ i. interior_rings (sym n i) (figures_of (sym m i) rest) (figures_of 0 w) (flatten w))
        ∙ ih)

-- A polygon is read back from its runs, whatever runs stand before them and fresh ones behind.
pub build_polygon_runs :
    (geo : GeoTypes) (before : List Run) (c : Coord) (cs : List Coord) (rings : List (List Coord))
    (after w : List Run)
    → w ≡ before ++ run figure_exterior_ring (c ∷ cs) ∷ (ring_runs rings ++ after)
    → IsSmall w
    → IsFresh after
    → build_polygon geo (pos (length before)) (figures_of 0 w) (flatten w)
      ≡ ok (geo.polygon_new (c ∷ cs) (filled rings))
unfolding build_polygon
build_polygon_runs geo before c cs rings after w e small f =
    let r = run figure_exterior_ring (c ∷ cs) in
    let rest = ring_runs rings ++ after in
    let outer =
      ap (λ v. figure_coords (pos (length before)) (figures_of 0 v) (flatten v)) e
      ∙ figure_coords_run before r rest (omega arith)
          (subst (λ v. length (flatten v) < 4294967296) e small.1) in
    let e' : w ≡ (before ++ r ∷ []) ++ rest = e ∙ sym (append_assoc before (r ∷ []) rest) in
    let n : length (before ++ r ∷ []) ≡ suc (length before) =
      omega (arith, length-append before (r ∷ [])) in
    let behind : drop (suc (length before)) (figures_of 0 w)
        ≡ figures_of (length (flatten (before ++ r ∷ []))) rest =
      (λ i. drop (sym n i) (figures_of 0 (e' i)))
      ∙ ap (drop (length (before ++ r ∷ []))) (figures_of-append 0 (before ++ r ∷ []) rest)
      ∙ drop_length (figures_of 0 (before ++ r ∷ [])) _ _ (length-figures_of 0 (before ++ r ∷ []))
      ∙ ap (λ n. figures_of n rest) (omega arith) in
    let inner : interior_rings (suc (length before)) (drop (suc (length before)) (figures_of 0 w))
          (figures_of 0 w) (flatten w)
        ≡ ok (filled rings) =
      (λ i. interior_rings (sym n i) (behind i) (figures_of 0 w) (flatten w))
      ∙ interior_rings_runs w (before ++ r ∷ []) rings after small e' f in
    rw outer (rw inner refl)
  where
    drop_length : (a b : List Figure) (n : ℕ) → length a ≡ n → drop n (a ++ b) ≡ b
    drop_length a b n e = ap (λ k. drop k (a ++ b)) (sym e) ∙ drop_prefix a b
