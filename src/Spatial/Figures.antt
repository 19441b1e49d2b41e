-- ===== src/Spatial/Figures.antt =====
-- Reading a figure back from the tables of types/geo.rs.
use mathlib.Core.Path.{refl}
use sqlx_mssql_rs.Prelude.{
  ℕ, ◌+◌, ◌-◌, ◌≤◌, ◌<◌, ◌≡◌, ap, ◌∙◌, List, [], ◌∷◌, ◌++◌, some, arith, ltb, if◌then◌else◌, length,
  length-append, take, drop, take_prefix, drop_prefix, get_elem?,
}
use sqlx_mssql_rs.Prelude.Int.{pos}
use sqlx_mssql_rs.Prelude.Bytes.{as_u32}
use sqlx_mssql_rs.Spatial.{Figure, Fault, Result, ok}
use sqlx_mssql_rs.Spatial.Reader.{slice}
use sqlx_mssql_rs.Spatial.Decode.{next_offset, figure_points, figure_coords, or_end}
use sqlx_mssql_rs.Spatial.Layout.{Run, flatten, figures_of, flatten-append, figures_of-append}

next_offset_skip :
    (s : ℕ) (f : Figure) (fs : List Figure)
    → f.point_offset ≤ s
    → next_offset s (f ∷ fs) ≡ next_offset s fs
unfolding next_offset
next_offset_skip s f fs h = ground arith

-- No figure of the runs has an offset beyond their end.
next_offset_below :
    (s base : ℕ) (a : List Run) (b : List Figure)
    → base + length (flatten a) ≤ s
    → s < 4294967296
    → next_offset s (figures_of base a ++ b) ≡ next_offset s b
next_offset_below s base [] b h k = refl
next_offset_below s base (r ∷ rs) b h k =
    let e = length-append r.coords (flatten rs) in
    next_offset_skip s _ (figures_of (base + length r.coords) rs ++ b) (omega (arith, e))
    ∙ next_offset_below s (base + length r.coords) rs b (omega (arith, e)) k

next_offset_take :
    (s m : ℕ) (f : Figure) (fs : List Figure)
    → s < f.point_offset
    → f.point_offset ≤ m
    → next_offset s fs ≡ some m
    → next_offset s (f ∷ fs) ≡ some f.point_offset
unfolding next_offset
next_offset_take s m f fs h k e = ground arith

next_offset_one :
    (s : ℕ) (f : Figure) → s < f.point_offset → next_offset s (f ∷ []) ≡ some f.point_offset
unfolding next_offset
next_offset_one s f h = ground arith

-- The first of the figures behind `s` is the next one.
next_offset_first :
    (s base : ℕ) (r : Run) (rs : List Run)
    → s < base
    → base + length (flatten (r ∷ rs)) < 4294967296
    → next_offset s (figures_of base (r ∷ rs)) ≡ some base
next_offset_first s base r [] h k = next_offset_one s _ (omega arith) ∙ ap some (omega arith)
next_offset_first s base r (q ∷ rs) h k =
    let e = length-append r.coords (flatten (q ∷ rs)) in
    let ih = next_offset_first s (base + length r.coords) q rs (omega arith) (omega (arith, e)) in
    next_offset_take s (base + length r.coords) _ (figures_of (base + length r.coords) (q ∷ rs))
      (omega arith) (omega arith) ih
    ∙ ap some (omega (arith, e))

slice_middle :
    {A : Type 0} (a b c : List A) (e : Fault)
    → slice (length a) (length a + length b) (a ++ (b ++ c)) e ≡ ok b
slice_middle a b c e =
    let total = length-append a (b ++ c) in
    let rest = length-append b c in
    let width : length a + length b - length a ≡ length b = omega arith in
    go (length a + length b) (length (a ++ (b ++ c))) (omega arith) (omega (arith, total, rest))
    ∙ rw width (ap (λ l. ok (take (length b) l)) (drop_prefix a (b ++ c)) ∙ ap ok (take_prefix b c))
  where
    go :
        (end n : ℕ)
        → length a ≤ end
        → end ≤ n
        → (if ltb end (length a)
            then Result.fail e
            else if ltb n end
            then Result.fail e
            else ok (take (end - length a) (drop (length a) (a ++ (b ++ c)))))
          ≡ ok (take (end - length a) (drop (length a) (a ++ (b ++ c))))
    go end n h k = ground arith

-- The figure behind the runs `before`, its end included.
get_elem?-figures_of :
    (before : List Run) (r : Run) (after : List Run)
    → get_elem? (figures_of 0 (before ++ r ∷ after)) (length before)
      ≡ some (record { attribute = r.attribute; point_offset = as_u32 (length (flatten before)) })
get_elem?-figures_of before r after =
    go 0 before
    ∙ ap (λ n. some (record { attribute = r.attribute; point_offset = as_u32 n })) (omega arith)
  where
    go :
        (base : ℕ) (a : List Run)
        → get_elem? (figures_of base (a ++ r ∷ after)) (length a)
          ≡ some (record {
            attribute = r.attribute;
            point_offset = as_u32 (base + length (flatten a));
          })
    go base [] =
        ap (λ (n : ℕ). some (record { attribute = r.attribute; point_offset = n })) (omega arith)
    go base (q ∷ a) =
        go (base + length q.coords) a
        ∙ ap (λ n. some (record { attribute = r.attribute; point_offset = as_u32 n }))
            (omega (arith, length-append q.coords (flatten a)))

-- Where a run ends: at the next figure, or with the points.
run_end :
    (before : List Run) (r : Run) (after : List Run)
    → 0 < length r.coords
    → length (flatten (before ++ r ∷ after)) < 4294967296
    → or_end
        (length (flatten (before ++ r ∷ after)))
        (next_offset (length (flatten before)) (figures_of 0 (before ++ r ∷ after)))
      ≡ length (flatten before) + length r.coords
run_end before r after h k =
    let s = length (flatten before) in
    let whole = length (flatten (before ++ r ∷ after)) in
    let total : whole ≡ s + (length r.coords + length (flatten after)) =
      ap length (flatten-append before (r ∷ after))
      ∙ length-append (flatten before) _
      ∙ ap (◌+◌ s) (length-append r.coords (flatten after)) in
    let start : as_u32 (0 + s) ≤ s = omega arith in
    ap (λ fs. or_end whole (next_offset s fs)) (figures_of-append 0 before (r ∷ after))
    ∙ ap (or_end whole) (next_offset_below s 0 before _ (omega arith) (omega arith))
    ∙ ap (or_end whole) (next_offset_skip s _ (figures_of (0 + s + length r.coords) after) start)
    ∙ tail after total
  where
    tail :
        (rest : List Run)
        → length (flatten (before ++ r ∷ after))
          ≡ length (flatten before) + (length r.coords + length (flatten rest))
        → or_end (length (flatten (before ++ r ∷ after))) (
            next_offset
              (length (flatten before))
              (figures_of (0 + length (flatten before) + length r.coords) rest))
          ≡ length (flatten before) + length r.coords
    tail [] e = unfold next_offset in omega (arith, e)
    tail (q ∷ rest) e =
        let s = length (flatten before) in
        ap (or_end (length (flatten (before ++ r ∷ after))))
          (next_offset_first s (0 + s + length r.coords) q rest (omega arith) (omega (arith, e)))
        ∙ omega arith

-- The points of a run are read back from its figure.
pub figure_coords_run :
    (before : List Run) (r : Run) (after : List Run)
    → 0 < length r.coords
    → length (flatten (before ++ r ∷ after)) < 4294967296
    → figure_coords
        (pos (length before))
        (figures_of 0 (before ++ r ∷ after))
        (flatten (before ++ r ∷ after))
      ≡ ok r.coords
unfolding figure_coords figure_points
figure_coords_run before r after h k =
    let s = length (flatten before) in
    let e = flatten-append before (r ∷ after) in
    let total = ap length e ∙ length-append (flatten before) (flatten (r ∷ after)) in
    let small : as_u32 s ≡ s = omega (arith, total) in
    rw (get_elem?-figures_of before r after) (
      rw small (
        rw (run_end before r after h k)
          (rw e (slice_middle (flatten before) r.coords (flatten after) Fault.outside_points))))
