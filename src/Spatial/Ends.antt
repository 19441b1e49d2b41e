-- ===== src/Spatial/Ends.antt =====
-- The decoder of types/geo.rs has an answer for every payload: its recursion ends, and no index that
-- it uses is out of bounds.
use mathlib.Core.Path.{refl, subst}
use sqlx_mssql_rs.Prelude.{
  ℕ, zero, suc, ◌+◌, ◌≤◌, ◌<◌, ◌≡◌, ◌≢◌, ap, sym, ◌∙◌, List, [], ◌∷◌, arith, length, drop, Bool,
  true, false, if◌then◌else◌, ◌==◌, ◌||◌, Option, none, some, get_elem?,
}
use sqlx_mssql_rs.Prelude.Int.{ℤ, pos, negsuc}
use sqlx_mssql_rs.Prelude.Bytes.{as_i32, int_eq}
use sqlx_mssql_rs.Spatial.{
  Coord, Geometry, GeoTypes, Figure, Shape, Tables, Fault, Result, fail, ok_or, ◌>>=◌,
  figure_interior_ring, figure_exterior_ring, shape_point, shape_linestring, shape_polygon,
  shape_multipoint, shape_multilinestring, shape_multipolygon, shape_geometrycollection,
  shape_circularstring, shape_compoundcurve, shape_curvepolygon, shape_fullglobe,
}
use sqlx_mssql_rs.Spatial.Reader.{new}
use sqlx_mssql_rs.Spatial.Decode.{
  figure_points, figure_coords, first_of, first_coord, interior_rings, build_polygon, children_from,
  collect, at, build_kind, build_shape, top_level, build_top, decode, next_offset, or_end,
}
use sqlx_mssql_rs.Spatial.Parses.{All}
use sqlx_mssql_rs.Spatial.Answers.{
  IsError, Answers, value, error, Any, >>=-Answers, if-Answers, slice-Answers, AreBytes,
}
use sqlx_mssql_rs.Spatial.Reads.{HasFewShapes, read_tables-Gives}
use sqlx_mssql_rs.Spatial.Ancestors.{
  HasParent, Ancestors, length-Ancestors, child-Ancestors, children-All, int_eq_sound,
}

ok_or-Answers : {A : Type 0} (e : Fault) → IsError e → (o : Option A) → Answers Any (ok_or e o)
ok_or-Answers e h none = error h
ok_or-Answers e h (some a) = value tt

figure_points-Answers :
    (f : Figure) (fs : List Figure) (ps : List Coord) → Answers Any (figure_points f fs ps)
unfolding figure_points
figure_points-Answers f fs ps =
    let end = or_end (length ps) (next_offset f.point_offset fs) in
    any (slice-Answers f.point_offset end ps Fault.outside_points tt)
  where
    any : {P : List Coord → Type 0} {x : Result (List Coord)} → Answers P x → Answers Any x
    any (value p) = value tt
    any (error h) = error h

figure_coords-Answers :
    (o : ℤ) (fs : List Figure) (ps : List Coord) → Answers Any (figure_coords o fs ps)
unfolding figure_coords
figure_coords-Answers (negsuc _) fs ps = value tt
figure_coords-Answers (pos i) fs ps =
    >>=-Answers _ (ok_or-Answers Fault.outside_figures tt (get_elem? fs i))
      (λ f _. figure_points-Answers f fs ps)

first_coord-Answers :
    (o : ℤ) (fs : List Figure) (ps : List Coord) → Answers Any (first_coord o fs ps)
unfolding first_coord
first_coord-Answers o fs ps = >>=-Answers _ (figure_coords-Answers o fs ps) (λ cs _. first cs)
  where
    first : (cs : List Coord) → Answers Any (first_of cs)
    first [] = error tt
    first (c ∷ cs) = value tt

interior_rings-Answers :
    (i : ℕ) (rest fs : List Figure) (ps : List Coord) → Answers Any (interior_rings i rest fs ps)
unfolding interior_rings
interior_rings-Answers i [] fs ps = value tt
interior_rings-Answers i (f ∷ rest) fs ps =
    let later = interior_rings-Answers (suc i) rest fs ps in
    if-Answers (f.attribute == figure_exterior_ring) (value tt) (
      if-Answers (f.attribute == figure_interior_ring)
        (>>=-Answers _ (figure_coords-Answers (as_i32 i) fs ps)
          (λ r _. >>=-Answers _ later (λ rs _. value tt)))
        later)

collect-Answers :
    {A : Type 0} {P : ℕ → Type 0} (body : ℕ → Result A)
    → ((i : ℕ) → P i → Answers Any (body i))
    → (is : List ℕ) → All P is
    → Answers Any (collect body is)
unfolding collect
collect-Answers body h [] all = value tt
collect-Answers {A} {P} body h (i ∷ is) (p, all) =
    >>=-Answers _ (h i p)
      (λ x _. >>=-Answers _ (collect-Answers {P = P} body h is all) (λ xs _. value tt))

module _ (geo : GeoTypes) where
  build_polygon-Answers :
      (o : ℤ) (fs : List Figure) (ps : List Coord) → Answers Any (build_polygon geo o fs ps)
  unfolding build_polygon
  build_polygon-Answers (negsuc _) fs ps = value tt
  build_polygon-Answers (pos i) fs ps = >>=-Answers _ (figure_coords-Answers (pos i) fs ps) (λ e _.
      >>=-Answers _ (interior_rings-Answers (suc i) (drop (suc i) fs) fs ps) (λ is _. value tt))

  module _ (s : List Shape) (fs : List Figure) (ps : List Coord) where
    at-Answers :
        {A : Type 0} {p : ℤ} (i : ℕ) (body : Shape → Result A)
        → HasParent s i p
        → ((m : Shape) → Answers Any (body m))
        → Answers Any (at geo s fs ps i body)
    at-Answers i body h k = rw (h.found, at) (k h.shape)

    members-Answers :
        {A : Type 0} (j : ℕ) (body : Shape → Result A)
        → ((m : Shape) → Answers Any (body m))
        → Answers Any (collect (λ i. at geo s fs ps i body) (children_from 0 (as_i32 j) s))
    members-Answers j body k =
        collect-Answers {P = λ i. HasParent s i (as_i32 j)} _ (λ i h. at-Answers i body h k) _
          (children-All s (as_i32 j))

    build_kind-Answers :
        (child : ℕ → Result Geometry) (j : ℕ) (m : Shape)
        → ((i : ℕ) → HasParent s i (as_i32 j) → Answers Any (child i))
        → Answers Any (build_kind geo s fs ps child j m)
    unfolding build_kind
    build_kind-Answers child j m k =
        let t = m.shape_type in
        if-Answers (t == shape_point)
          (>>=-Answers _ (first_coord-Answers m.figure_offset fs ps) (λ c _. value tt))
          (if-Answers (t == shape_linestring)
            (>>=-Answers _ (figure_coords-Answers m.figure_offset fs ps) (λ c _. value tt))
            (if-Answers (t == shape_polygon)
              (>>=-Answers _ (build_polygon-Answers m.figure_offset fs ps) (λ c _. value tt))
              (if-Answers (t == shape_multipoint)
                (>>=-Answers _
                  (members-Answers j _ (λ m. first_coord-Answers m.figure_offset fs ps))
                  (λ c _. value tt))
                (if-Answers (t == shape_multilinestring)
                  (>>=-Answers _
                    (members-Answers j _ (λ m. figure_coords-Answers m.figure_offset fs ps))
                    (λ c _. value tt))
                  (if-Answers (t == shape_multipolygon)
                    (>>=-Answers _
                      (members-Answers j _ (λ m. build_polygon-Answers m.figure_offset fs ps))
                      (λ c _. value tt))
                    (if-Answers (t == shape_geometrycollection)
                      (>>=-Answers _
                        (collect-Answers {P = λ i. HasParent s i (as_i32 j)} child k _
                          (children-All s (as_i32 j)))
                        (λ c _. value tt))
                      (if-Answers
                        ((t == shape_circularstring)
                          || (t == shape_compoundcurve)
                          || (t == shape_curvepolygon)
                          || (t == shape_fullglobe))
                        (error tt) (error tt))))))))

    -- A shape whose ancestors lead to the top is built with as much fuel as there are other shapes.
    build_shape-Answers :
        (fuel j : ℕ) (v : List ℕ)
        → length s < 4294967296
        → Ancestors s j v
        → length s ≤ fuel + length v
        → Answers Any (build_shape geo s fs ps fuel j)
    unfolding build_shape
    build_shape-Answers zero j v small a h = absurd (omega (arith, h, length-Ancestors s j v a))
    build_shape-Answers (suc fuel) j v small a h = at-Answers j _ (own j v a).1 (λ m.
        build_kind-Answers _ j m (λ i child.
          build_shape-Answers fuel i (j ∷ v) small (child-Ancestors s small i j v child a)
            (omega (arith, h))))
      where
        own : (j : ℕ) (v : List ℕ) → Ancestors s j v → (p : ℤ) × HasParent s j p
        own j [] a = (negsuc 0, a)
        own j (q ∷ v) a = (as_i32 q, a.0)

  top_level-HasParent : (s : List Shape) (i : ℕ) → top_level s ≡ some i → HasParent s i (negsuc 0)
  top_level-HasParent [] i e = absurd (unfold top_level in ground (arith, e))
  top_level-HasParent (x ∷ s) i e =
      go (int_eq x.parent (negsuc 0)) (top_level s) i refl (λ k q. top_level-HasParent s k q)
        (unfold top_level in e)
    where
      go :
          (c : Bool) (o : Option ℕ) (i : ℕ)
          → int_eq x.parent (negsuc 0) ≡ c
          → ((k : ℕ) → o ≡ some k → HasParent s k (negsuc 0))
          → (if c then some 0 else elim o [ none ↦ none | some i ↦ some (suc i) ]) ≡ some i
          → HasParent (x ∷ s) i (negsuc 0)
      go true o zero p rest r = record {
        shape = x;
        found = refl;
        parent = int_eq_sound x.parent (negsuc 0) p;
      }
      go true o (suc i) p rest r = absurd (ground arith)
      go false none i p rest r = absurd (ground arith)
      go false (some k) zero p rest r = absurd (ground arith)
      go false (some k) (suc i) p rest r =
          let below = rest k refl in
          let e : k ≡ i = ground arith in
          record {
            shape = below.shape;
            found = ap (get_elem? s) (sym e) ∙ below.found;
            parent = below.parent;
          }

  build_top-Answers : (t : Tables) → HasFewShapes t → Answers Any (build_top geo t)
  unfolding build_top
  build_top-Answers t small = go (top_level t.shapes) refl
    where
      go :
          (o : Option ℕ)
          → top_level t.shapes ≡ o
          → Answers Any (
              ok_or Fault.no_top_level o
              >>= build_shape geo t.shapes t.figures t.points (suc (length t.shapes)))
      go none e = error tt
      go (some i) e =
          build_shape-Answers t.shapes t.figures t.points (suc (length t.shapes)) i [] small
            (top_level-HasParent t.shapes i e) (omega arith)

  decode-Answers : (bytes : List ℕ) → AreBytes bytes → Answers Any (decode geo bytes)
  unfolding decode
  decode-Answers bytes h =
      >>=-Answers _ (read_tables-Gives.run (new bytes) h)
        (λ x k. >>=-Answers _ (build_top-Answers x.0.1 k.0) (λ g _. value tt))

  -- Whatever the bytes are, `decode` has an answer: its recursion, which goes no deeper than there
  -- are shapes and one more, ends without its fuel, and it never indexes a slice out of bounds.
  pub decode_ends :
      (bytes : List ℕ)
      → AreBytes bytes
      → (decode geo bytes ≢ fail Fault.looping) × (decode geo bytes ≢ fail Fault.panicked)
  decode_ends bytes h = (
    λ e. no_looping (subst (Answers Any) e (decode-Answers bytes h)),
    λ e. no_panic (subst (Answers Any) e (decode-Answers bytes h)),
  )
    where
      no_looping : Answers {A = ℤ × Geometry} Any (fail Fault.looping) → ⊥
      no_looping (error h) = h

      no_panic : Answers {A = ℤ × Geometry} Any (fail Fault.panicked) → ⊥
      no_panic (error h) = h
