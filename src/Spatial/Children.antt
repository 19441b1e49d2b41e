-- ===== src/Spatial/Children.antt =====
-- The children of a shape in the preorder that the encoder of types/geo.rs writes.
use mathlib.Core.Path.{refl}
use mathlib.Core.Logic.{◌⊎◌, inl, inr}
use sqlx_mssql_rs.Prelude.{
  ℕ, suc, ◌+◌, ◌≤◌, ◌<◌, ◌≡◌, ◌≢◌, ap, ◌∙◌, List, [], ◌∷◌, ◌++◌, append-nil, arith, length, true,
  false, Bool, if◌then◌else◌,
}
use sqlx_mssql_rs.Prelude.Int.{ℤ}
use sqlx_mssql_rs.Prelude.Bytes.{as_i32, as_i32_small, int_eq}
use sqlx_mssql_rs.Spatial.{Shape}
use sqlx_mssql_rs.Spatial.Decode.{children_from}
use sqlx_mssql_rs.Spatial.Layout.{
  Run, Node, Nodes, node, size, sizes, runs_of, shape_of, shapes_of, all_shapes,
}
use sqlx_mssql_rs.Spatial.Split.{length-shapes_of}

-- The parent is none of the indices from `lo` to `hi`.
abbrev pub Outside : ℕ → ℕ → ℤ → Type 0
Outside lo hi p = (m : ℕ) → lo ≤ m → m < hi → int_eq p (as_i32 m) ≡ false

abbrev pub AllOutside : ℕ → ℕ → List Shape → Type 0
AllOutside lo hi [] = Unit {0}
AllOutside lo hi (s ∷ ss) = Outside lo hi s.parent × AllOutside lo hi ss

pub append-AllOutside :
    (lo hi : ℕ) (a b : List Shape)
    → AllOutside lo hi a
    → AllOutside lo hi b
    → AllOutside lo hi (a ++ b)
append-AllOutside lo hi [] b x y = y
append-AllOutside lo hi (s ∷ a) b (o, x) y = (o, append-AllOutside lo hi a b x y)

pub AllOutside-narrow :
    (lo hi lo' hi' : ℕ) (a : List Shape)
    → lo ≤ lo'
    → hi' ≤ hi
    → AllOutside lo hi a
    → AllOutside lo' hi' a
AllOutside-narrow lo hi lo' hi' [] h k x = tt
AllOutside-narrow lo hi lo' hi' (s ∷ a) h k (o, x) =
    (λ m l u. o m (omega arith) (omega arith), AllOutside-narrow lo hi lo' hi' a h k x)

int_eq-as_i32_self : (i : ℕ) → int_eq (as_i32 i) (as_i32 i) ≡ true
int_eq-as_i32_self i = ground arith

-- An index is outside a range that it is not in.
pub as_i32-Outside :
    (i lo hi : ℕ)
    → i < 2147483648
    → hi ≤ 2147483648
    → (hi ≤ i) ⊎ (i < lo)
    → Outside lo hi (as_i32 i)
as_i32-Outside i lo hi h k d m l u =
    let n : i ≢ m = λ e. elim d [ inl x ↦ omega (arith, e) | inr x ↦ omega (arith, e) ] in
    rw (as_i32_small i h) (rw (as_i32_small m (omega arith)) (ground (arith, n)))

mutual
  pub shapes_of-Outside :
      (n : Node) (p : ℤ) (f i lo hi : ℕ)
      → i + size n ≤ 2147483648
      → hi ≤ 2147483648
      → (hi ≤ i) ⊎ (i + size n ≤ lo)
      → Outside lo hi p
      → AllOutside lo hi (shapes_of n p f i)
  shapes_of-Outside (node k rs ch) p f i lo hi h g d o = (
    o,
    all_shapes-Outside ch (as_i32 i) (f + length rs) (suc i) lo hi (omega arith) g
        (elim d [ inl x ↦ inl (omega arith) | inr x ↦ inr (omega arith) ])
        (as_i32-Outside i lo hi (omega arith) g
          (elim d [ inl x ↦ inl x | inr x ↦ inr (omega arith) ])),
  )

  pub all_shapes-Outside :
      (ns : Nodes) (p : ℤ) (f i lo hi : ℕ)
      → i + sizes ns ≤ 2147483648
      → hi ≤ 2147483648
      → (hi ≤ i) ⊎ (i + sizes ns ≤ lo)
      → Outside lo hi p
      → AllOutside lo hi (all_shapes ns p f i)
  all_shapes-Outside Nodes.none p f i lo hi h g d o = tt
  all_shapes-Outside (Nodes.more n ns) p f i lo hi h g d o =
      append-AllOutside lo hi (shapes_of n p f i)
        (all_shapes ns p (f + length (runs_of n)) (i + size n))
        (shapes_of-Outside n p f i lo hi (omega arith) g
          (elim d [ inl x ↦ inl x | inr x ↦ inr (omega arith) ]) o)
        (all_shapes-Outside ns p (f + length (runs_of n)) (i + size n) lo hi (omega arith) g
          (elim d [ inl x ↦ inl (omega arith) | inr x ↦ inr (omega arith) ]) o)

children_from-yes :
    (i : ℕ) (p : ℤ) (s : Shape) (ss : List Shape)
    → int_eq s.parent p ≡ true
    → children_from i p (s ∷ ss) ≡ i ∷ children_from (suc i) p ss
unfolding children_from
children_from-yes i p s ss e = rw e refl

children_from-no :
    (i : ℕ) (p : ℤ) (s : Shape) (ss : List Shape)
    → int_eq s.parent p ≡ false
    → children_from i p (s ∷ ss) ≡ children_from (suc i) p ss
unfolding children_from
children_from-no i p s ss e = rw e refl

children_from-append :
    (i j : ℕ) (p : ℤ) (a b : List Shape)
    → i + length a ≡ j
    → children_from i p (a ++ b) ≡ children_from i p a ++ children_from j p b
unfolding children_from
children_from-append i j p [] b e =
    let e' : i ≡ j = omega (arith, e) in ap (λ i. children_from i p b) e'
children_from-append i j p (s ∷ a) b e =
    go _ _ _ (int_eq s.parent p) (children_from-append (suc i) j p a b (omega (arith, e)))
  where
    go :
        (x y z : List ℕ) (c : Bool)
        → x ≡ y ++ z
        → (if c then i ∷ x else x) ≡ (if c then i ∷ y else y) ++ z
    go x y z true e = ap (◌∷◌ i) e
    go x y z false e = e

children_from-none :
    (i q lo hi : ℕ) (a : List Shape)
    → lo ≤ q
    → q < hi
    → AllOutside lo hi a
    → children_from i (as_i32 q) a ≡ []
children_from-none i q lo hi [] h k x = unfold children_from in refl
children_from-none i q lo hi (s ∷ a) h k (o, x) =
    children_from-no i (as_i32 q) s a (o q h k) ∙ children_from-none (suc i) q lo hi a h k x

-- The indices of siblings.
abbrev pub roots : Nodes → ℕ → List ℕ
roots Nodes.none i = []
roots (Nodes.more n ns) i = i ∷ roots ns (i + size n)

-- Among the shapes below the shape `j`, its children are the roots.
children_from-all_shapes :
    (ns : Nodes) (j f i : ℕ)
    → j < i
    → i + sizes ns ≤ 2147483648
    → children_from i (as_i32 j) (all_shapes ns (as_i32 j) f i) ≡ roots ns i
children_from-all_shapes Nodes.none j f i h k = unfold children_from in refl
children_from-all_shapes (Nodes.more (node t rs ch) ns) j f i h k =
    let n = node t rs ch in
    let below = all_shapes ch (as_i32 i) (f + length rs) (suc i) in
    let rest = all_shapes ns (as_i32 j) (f + length (runs_of n)) (i + size n) in
    let out =
      all_shapes-Outside ch (as_i32 i) (f + length rs) (suc i) j (suc j) (omega arith) (omega arith)
        (inl (omega arith))
        (as_i32-Outside i j (suc j) (omega arith) (omega arith) (inl (omega arith))) in
    children_from-yes i (as_i32 j) (shape_of n (as_i32 j) f) (below ++ rest) (int_eq-as_i32_self j)
    ∙ ap (◌∷◌ i) (
        children_from-append (suc i) (i + size n) (as_i32 j) below rest
          (omega (arith, ap suc (length-shapes_of n (as_i32 j) f i)))
        ∙ (λ d.
            children_from-none (suc i) j j (suc j) below (omega arith) (omega arith) out d
            ++ children_from-all_shapes ns j (f + length (runs_of n)) (i + size n) (omega arith)
                (omega arith) d))

-- The children of a shape that is placed among others are the roots below it.
pub children_from-placed :
    (pre post : List Shape) (k : ℕ) (rs : List Run) (ch : Nodes) (p : ℤ) (f j : ℕ)
    → length pre ≡ j
    → j + suc (sizes ch) ≤ 2147483648
    → AllOutside j (j + suc (sizes ch)) pre
    → AllOutside j (j + suc (sizes ch)) post
    → Outside j (j + suc (sizes ch)) p
    → children_from 0 (as_i32 j) (pre ++ (shapes_of (node k rs ch) p f j ++ post))
      ≡ roots ch (suc j)
children_from-placed pre post k rs ch p f j e h x y o =
    let q = as_i32 j in
    let n = node k rs ch in
    let below = all_shapes ch q (f + length rs) (suc j) in
    let hi = j + suc (sizes ch) in
    children_from-append 0 j q pre (shapes_of n p f j ++ post) (omega (arith, e))
    ∙ (λ d.
        children_from-none 0 j j hi pre (omega arith) (omega arith) x d
        ++ children_from-no j q (shape_of n p f) (below ++ post) (o j (omega arith) (omega arith))
            d)
    ∙ children_from-append (suc j) hi q below post (omega (arith, length-shapes_of n p f j))
    ∙ (λ d.
        children_from-all_shapes ch j (f + length rs) (suc j) (omega arith) (omega arith) d
        ++ children_from-none hi j j hi post (omega arith) (omega arith) y d)
    ∙ append-nil (roots ch (suc j))
