-- ===== src/Spatial/Payload.antt =====
-- The decoder of types/geo.rs reads the tables that the encoder wrote.
use mathlib.Core.Path.{refl, subst}
use sqlx_mssql_rs.Prelude.{
  ℕ, ◌+◌, ◌*◌, ◌≤◌, ◌<◌, ◌≡◌, ap, sym, ◌∙◌, List, [], ◌∷◌, ◌++◌, append-nil, arith, length,
  length-append,
}
use sqlx_mssql_rs.Prelude.Int.{ℤ}
use sqlx_mssql_rs.Prelude.Bytes.{to_le_bytes, i32_bits, IsI32, as_u32}
use sqlx_mssql_rs.Spatial.{Coord, Figure, Shape, Tables, ok, prop_valid}
use sqlx_mssql_rs.Spatial.Reader.{
  M, new, pure, ◌>>=◌, read_u8, read_i32, read_u32, repeat, read_point, read_figure, read_shape,
  read_body, read_tables, read_figures_and_shapes, read_point_count,
}
use sqlx_mssql_rs.Spatial.Encode.{write_points, write_figures, write_shapes, write_tables}
use sqlx_mssql_rs.Spatial.Parses.{
  Parses, Parses-map, Parses-bind, read_u8-Parses, read_u32-Parses, read_i32-Parses,
  read_point-Parses, read_figure-Parses, read_shape-Parses, repeat-Parses, IsCoord, IsFigure,
  IsShape, All,
}

-- The tables hold what their number types can.
pub record Fits (t : Tables) : Type 0 where
  pub coords : All IsCoord t.points
  pub offsets : All IsFigure t.figures
  pub indices : All IsShape t.shapes
  pub point_count : length t.points < 4294967296
  pub figure_count : length t.figures < 4294967296
  pub shape_count : length t.shapes < 4294967296

-- A count, and what is read behind it.
counted :
    {A B : Type 0} (n : ℕ) (body : M A) (xs : List A) (k : List A → M B) (bs cs : List ℕ) (c : B)
    → length xs < 4294967296
    → as_u32 (length xs) ≡ n
    → Parses (repeat (length xs) body) bs xs
    → Parses (k xs) cs c
    → Parses (read_u32 >>= λ count. repeat count body >>= k) (to_le_bytes 4 n ++ (bs ++ cs)) c
counted n body xs k bs cs c h e p q =
    let same : n ≡ length xs = omega (arith, e) in
    Parses-bind read_u32 (λ count. repeat count body >>= k) (to_le_bytes 4 n) (bs ++ cs) n c
      (read_u32-Parses n (omega (arith, e)))
      (subst (λ m. Parses (repeat m body >>= k) (bs ++ cs) c) (sym same)
        (Parses-bind (repeat (length xs) body) k bs cs xs c p q))

points_read :
    (cs : List Coord) → All IsCoord cs → Parses (repeat (length cs) read_point) (write_points cs) cs
points_read =
    repeat-Parses IsCoord read_point (λ c. to_le_bytes 8 c.x ++ to_le_bytes 8 c.y) write_points refl
      (λ c cs. refl) read_point-Parses

figures_read :
    (fs : List Figure)
    → All IsFigure fs
    → Parses (repeat (length fs) read_figure) (write_figures fs) fs
figures_read =
    repeat-Parses IsFigure read_figure (λ f. f.attribute ∷ to_le_bytes 4 f.point_offset)
      write_figures refl (λ f fs. refl) read_figure-Parses

shapes_read :
    (ss : List Shape) → All IsShape ss → Parses (repeat (length ss) read_shape) (write_shapes ss) ss
shapes_read =
    repeat-Parses IsShape read_shape
      (λ s.
        to_le_bytes 4 (i32_bits s.parent)
        ++ (to_le_bytes 4 (i32_bits s.figure_offset) ++ s.shape_type ∷ []))
      write_shapes refl (λ s ss. refl) read_shape-Parses

module _ (t : Tables) (fits : Fits t) where
  abbrev shape_bytes : List ℕ
  shape_bytes = to_le_bytes 4 (as_u32 (length t.shapes)) ++ write_shapes t.shapes

  abbrev table_bytes : List ℕ
  table_bytes =
      to_le_bytes 4 (as_u32 (length t.figures)) ++ (write_figures t.figures ++ shape_bytes)

  tables_read : Parses (read_figures_and_shapes prop_valid t.points) table_bytes t
  unfolding read_figures_and_shapes
  tables_read =
      counted (as_u32 (length t.figures)) read_figure t.figures _ (write_figures t.figures)
        shape_bytes t fits.figure_count refl (figures_read t.figures fits.offsets)
        (Parses-bind read_u32 _ (to_le_bytes 4 (as_u32 (length t.shapes))) (write_shapes t.shapes)
          (as_u32 (length t.shapes)) t (read_u32-Parses _ (omega arith))
          (subst
            (λ n.
              Parses (repeat n read_shape >>= λ ss. pure (record t { shapes = ss }))
                (write_shapes t.shapes) t)
            (omega (arith, fits.shape_count))
            (Parses-map (repeat (length t.shapes) read_shape) (λ ss. record t { shapes = ss })
              (write_shapes t.shapes) t.shapes (shapes_read t.shapes fits.indices))))

  body_read :
      Parses
        (read_body prop_valid)
        (to_le_bytes 4 (as_u32 (length t.points)) ++ (write_points t.points ++ table_bytes))
        t
  unfolding read_body read_point_count
  body_read =
      counted (as_u32 (length t.points)) read_point t.points (read_figures_and_shapes prop_valid)
        (write_points t.points) table_bytes t fits.point_count refl
        (points_read t.points fits.coords) tables_read

length-write_points : (cs : List Coord) → length (write_points cs) ≡ 16 * length cs
length-write_points [] = omega arith
length-write_points (c ∷ cs) = omega (arith, length-write_points cs)

length-write_figures : (fs : List Figure) → length (write_figures fs) ≡ 5 * length fs
length-write_figures [] = omega arith
length-write_figures (f ∷ fs) = omega (arith, length-write_figures fs)

length-write_shapes : (ss : List Shape) → length (write_shapes ss) ≡ 9 * length ss
length-write_shapes [] = omega arith
length-write_shapes (s ∷ ss) = omega (arith, length-write_shapes ss)

pub length-write_tables :
    (srid : ℤ) (t : Tables)
    → length (write_tables srid t)
      ≡ 18 + 16 * length t.points + 5 * length t.figures + 9 * length t.shapes
unfolding write_tables
length-write_tables srid t =
    let shapes = to_le_bytes 4 (as_u32 (length t.shapes)) ++ write_shapes t.shapes in
    let figures =
      to_le_bytes 4 (as_u32 (length t.figures)) ++ (write_figures t.figures ++ shapes) in
    omega (
      arith,
      length-append (write_points t.points) figures,
      length-append (write_figures t.figures) shapes,
      length-write_points t.points,
      length-write_figures t.figures,
      length-write_shapes t.shapes,
    )

-- The tables that were written are read, with the SRID, and no byte is left.
pub read_tables-write_tables :
    (srid : ℤ) (t : Tables)
    → IsI32 srid
    → Fits t
    → read_tables (new (write_tables srid t))
      ≡ ok (
        (srid, t),
        record { bytes = write_tables srid t; position = length (write_tables srid t) },
      )
unfolding read_tables write_tables
read_tables-write_tables srid t h fits =
    let bytes = write_tables srid t in
    let small : length bytes ≤ 18446744073709551615 =
      omega (
        arith,
        length-write_tables srid t,
        fits.point_count,
        fits.figure_count,
        fits.shape_count,
      ) in
    all bytes 0 [] small (sym (append-nil bytes), omega arith)
    ∙ ap (λ n. ok ((srid, t), record { bytes = bytes; position = n })) (omega arith)
  where
    all : Parses read_tables (write_tables srid t) (srid, t)
    all =
        let body =
          to_le_bytes 4 (as_u32 (length t.points))
          ++ (write_points t.points ++ table_bytes t fits) in
        Parses-bind read_i32 _ (to_le_bytes 4 (i32_bits srid)) (1 ∷ prop_valid ∷ body) srid
          (srid, t) (read_i32-Parses srid h)
          (Parses-bind read_u8 _ (1 ∷ []) (prop_valid ∷ body) 1 (srid, t) (read_u8-Parses 1)
            (Parses-map (read_u8 >>= read_body) (λ t. (srid, t)) (prop_valid ∷ body) t
              (Parses-bind read_u8 read_body (prop_valid ∷ []) body prop_valid t
                (read_u8-Parses prop_valid) (body_read t fits))))
