-- ===== src/Spatial/Parses.antt =====
-- What the actions of the reader of types/geo.rs read, and what follows for their sequences.
use mathlib.Core.Path.{refl, subst}
use sqlx_mssql_rs.Prelude.{
  ℕ, zero, suc, ◌+◌, ◌-◌, ◌≤◌, ◌<◌, ◌≡◌, ap, sym, ◌∙◌, List, [], ◌∷◌, ◌++◌, append_assoc,
  append-nil, arith, length, length-append, length-drop, take, drop, take_prefix, drop_prefix, ltb,
  if◌then◌else◌,
}
use sqlx_mssql_rs.Prelude.Int.{ℤ}
use sqlx_mssql_rs.Prelude.Bytes.{
  to_le_bytes, from_le_bytes, from_le_bytes-to_le_bytes_4, from_le_bytes-to_le_bytes_8, i32_bits,
  i32_of_bits, i32_bits-lt, i32_of_bits-i32_bits, IsI32,
}
use sqlx_mssql_rs.Spatial.{Coord, Figure, Shape, Fault, Result, ok, fail}
use sqlx_mssql_rs.Spatial.Reader.{
  Reader, M, pure, ◌>>=◌, take_bytes, read_u8, read_i32, read_u32, read_f64, repeat, read_point,
  read_figure, read_shape,
}

-- What is left of the bytes behind a position.
abbrev At : List ℕ → ℕ → List ℕ → Type 0
At b at rest = (drop at b ≡ rest) × (at ≤ length b)

-- The action reads these bytes, wherever they stand, to this value.
abbrev pub Parses : {A : Type 0} → M A → List ℕ → A → Type 0
Parses m bytes a =
    (b : List ℕ) (at : ℕ) (rest : List ℕ)
    → length b ≤ 18446744073709551615
    → At b at (bytes ++ rest)
    → m (record { bytes = b; position = at })
      ≡ ok (a, record { bytes = b; position = at + length bytes })

drop_nil : {A : Type 0} (k : ℕ) → drop {A = A} k [] ≡ []
drop_nil zero = refl
drop_nil (suc k) = refl

drop-drop : {A : Type 0} (m n : ℕ) (xs : List A) → drop (m + n) xs ≡ drop n (drop m xs)
drop-drop zero n xs = ap (λ k. drop k xs) (omega arith)
drop-drop (suc m) n [] = drop_nil (suc m + n) ∙ sym (drop_nil n)
drop-drop (suc m) n (x ∷ xs) =
    let e : suc m + n ≡ suc (m + n) = omega arith in ap (λ k. drop k (x ∷ xs)) e ∙ drop-drop m n xs

At-advance :
    (b bytes rest : List ℕ) (at : ℕ) → At b at (bytes ++ rest) → At b (at + length bytes) rest
At-advance b bytes rest at (e, h) = (
  drop-drop at (length bytes) b ∙ ap (drop (length bytes)) e ∙ drop_prefix bytes rest,
  omega (arith, ap length e, length-append bytes rest, length-drop at b),
)

pub Parses-pure : {A : Type 0} (a : A) → Parses (pure a) [] a
Parses-pure a b at rest h x = ap (λ n. ok (a, record { bytes = b; position = n })) (omega arith)

pub Parses-bind :
    {A B : Type 0} (m : M A) (f : A → M B) (bs cs : List ℕ) (a : A) (c : B)
    → Parses m bs a
    → Parses (f a) cs c
    → Parses (m >>= f) (bs ++ cs) c
Parses-bind m f bs cs a c p q b at rest h x =
    let y : At b at (bs ++ (cs ++ rest)) = (x.0 ∙ append_assoc bs cs rest, x.1) in
    let e = p b at (cs ++ rest) h y in
    let z = At-advance b bs (cs ++ rest) at y in
    rw (e, ◌>>=◌)
      (q b (at + length bs) rest h z
        ∙ ap (λ n. ok (c, record { bytes = b; position = n })) (omega (arith, length-append bs cs)))

-- A last step that reads nothing.
pub Parses-map :
    {A B : Type 0} (m : M A) (f : A → B) (bs : List ℕ) (a : A)
    → Parses m bs a
    → Parses (m >>= λ x. pure (f x)) bs (f a)
Parses-map m f bs a p =
    subst (λ bs. Parses (m >>= λ x. pure (f x)) bs (f a)) (append-nil bs)
      (Parses-bind m (λ x. pure (f x)) bs [] a (f a) p (Parses-pure (f a)))

take_bytes-Parses : (n : ℕ) (chunk : List ℕ) → length chunk ≡ n → Parses (take_bytes n) chunk chunk
unfolding take_bytes
take_bytes-Parses n chunk e b at rest h x =
    let inside : at + n ≤ length b =
      omega (arith, e, x.1, ap length x.0, length-append chunk rest, length-drop at b) in
    let width : at + n - at ≡ length chunk = omega (arith, e) in
    let got : take (at + n - at) (drop at b) ≡ chunk =
      (λ i. take (width i) (x.0 i)) ∙ take_prefix chunk rest in
    let behind : at + n ≡ at + length chunk = omega (arith, e) in
    go (at + n) (take (at + n - at) (drop at b))
      (λ bytes. ok (bytes, record { bytes = b; position = at + n })) (omega arith)
      (omega (arith, h)) inside
    ∙ (λ i. ok (got i, record { bytes = b; position = behind i }))
  where
    go :
        (end : ℕ) (part : List ℕ) (f : List ℕ → Result (List ℕ × Reader))
        → at ≤ end
        → end ≤ 18446744073709551615
        → end ≤ length b
        → (if ltb 18446744073709551615 end
            then fail Fault.length_overflow
            else elim (if ltb end at
                then fail Fault.truncated
                else if ltb (length b) end
                then fail Fault.truncated
                else ok part) [ fail e ↦ fail e | ok bytes ↦ f bytes ])
          ≡ f part
    go end part f h k l = ground arith

pub read_u8-Parses : (n : ℕ) → Parses read_u8 (n ∷ []) n
unfolding read_u8
read_u8-Parses n =
    Parses-bind (take_bytes 1) _ (n ∷ []) [] (n ∷ []) n (take_bytes-Parses 1 (n ∷ []) refl)
      (Parses-pure n)

pub read_u32-Parses : (n : ℕ) → n < 4294967296 → Parses read_u32 (to_le_bytes 4 n) n
unfolding read_u32
read_u32-Parses n h =
    let bytes = to_le_bytes 4 n in
    subst (Parses read_u32 bytes) (from_le_bytes-to_le_bytes_4 n h)
      (Parses-map (take_bytes 4) from_le_bytes bytes bytes (take_bytes-Parses 4 bytes refl))

read_f64-Parses : (n : ℕ) → n < 18446744073709551616 → Parses read_f64 (to_le_bytes 8 n) n
unfolding read_f64
read_f64-Parses n h =
    let bytes = to_le_bytes 8 n in
    subst (Parses read_f64 bytes) (from_le_bytes-to_le_bytes_8 n h)
      (Parses-map (take_bytes 8) from_le_bytes bytes bytes (take_bytes-Parses 8 bytes refl))

pub read_i32-Parses : (z : ℤ) → IsI32 z → Parses read_i32 (to_le_bytes 4 (i32_bits z)) z
unfolding read_i32
read_i32-Parses z h =
    let bytes = to_le_bytes 4 (i32_bits z) in
    let e : i32_of_bits (from_le_bytes bytes) ≡ z =
      ap i32_of_bits (from_le_bytes-to_le_bytes_4 (i32_bits z) (i32_bits-lt z))
      ∙ i32_of_bits-i32_bits z h in
    subst (Parses read_i32 bytes) e (
      Parses-map (take_bytes 4) (λ bytes. i32_of_bits (from_le_bytes bytes)) bytes bytes
        (take_bytes-Parses 4 bytes refl))

-- The numbers of a record are within their types.
abbrev pub IsCoord : Coord → Type 0
IsCoord c = (c.x < 18446744073709551616) × (c.y < 18446744073709551616)

abbrev pub IsFigure : Figure → Type 0
IsFigure f = f.point_offset < 4294967296

abbrev pub IsShape : Shape → Type 0
IsShape s = IsI32 s.parent × IsI32 s.figure_offset

abbrev pub All : {A : Type 0} → (A → Type 0) → List A → Type 0
All P [] = Unit {0}
All P (x ∷ xs) = P x × All P xs

pub read_point-Parses :
    (c : Coord) → IsCoord c → Parses read_point (to_le_bytes 8 c.x ++ to_le_bytes 8 c.y) c
unfolding read_point
read_point-Parses c (hx, hy) =
    Parses-bind read_f64 _ (to_le_bytes 8 c.x) (to_le_bytes 8 c.y) c.x c (read_f64-Parses c.x hx)
      (Parses-bind read_f64 _ (to_le_bytes 8 c.y) [] c.y c (read_f64-Parses c.y hy) (Parses-pure c))

pub read_figure-Parses :
    (f : Figure) → IsFigure f → Parses read_figure (f.attribute ∷ to_le_bytes 4 f.point_offset) f
unfolding read_figure
read_figure-Parses f h =
    Parses-bind read_u8 _ (f.attribute ∷ []) (to_le_bytes 4 f.point_offset) f.attribute f
      (read_u8-Parses f.attribute)
      (Parses-bind read_u32 _ (to_le_bytes 4 f.point_offset) [] f.point_offset f
        (read_u32-Parses f.point_offset h) (Parses-pure f))

pub read_shape-Parses :
    (s : Shape)
    → IsShape s
    → Parses read_shape
        (to_le_bytes 4 (i32_bits s.parent)
          ++ (to_le_bytes 4 (i32_bits s.figure_offset) ++ s.shape_type ∷ []))
        s
unfolding read_shape
read_shape-Parses s (hp, hf) =
    Parses-bind read_i32 _ (to_le_bytes 4 (i32_bits s.parent))
      (to_le_bytes 4 (i32_bits s.figure_offset) ++ s.shape_type ∷ []) s.parent s
      (read_i32-Parses s.parent hp)
      (Parses-bind read_i32 _ (to_le_bytes 4 (i32_bits s.figure_offset)) (s.shape_type ∷ [])
        s.figure_offset s (read_i32-Parses s.figure_offset hf)
        (Parses-bind read_u8 _ (s.shape_type ∷ []) [] s.shape_type s (read_u8-Parses s.shape_type)
          (Parses-pure s)))

-- The items one behind the other.
pub repeat-Parses :
    {A : Type 0} (P : A → Type 0) (body : M A) (one : A → List ℕ) (write : List A → List ℕ)
    → write [] ≡ []
    → ((x : A) (xs : List A) → write (x ∷ xs) ≡ one x ++ write xs)
    → ((x : A) → P x → Parses body (one x) x)
    → (xs : List A) → All P xs
    → Parses (repeat (length xs) body) (write xs) xs
unfolding repeat
repeat-Parses {A} P body one write nil cons reads [] all =
    subst (λ bs. Parses {A = List A} (pure []) bs []) (sym nil) (Parses-pure {A = List A} [])
repeat-Parses P body one write nil cons reads (x ∷ xs) (px, all) =
    let rest = repeat-Parses P body one write nil cons reads xs all in
    subst (λ bs. Parses (repeat (suc (length xs)) body) bs (x ∷ xs)) (sym (cons x xs))
      (Parses-bind body _ (one x) (write xs) x (x ∷ xs) (reads x px)
        (Parses-map (repeat (length xs) body) (λ ys. x ∷ ys) (write xs) xs rest))
