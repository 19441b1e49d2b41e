-- ===== src/Spatial/Placed.antt =====
-- Where a node of the tree stands in the tables of types/geo.rs.
use mathlib.Core.Path.{refl}
use mathlib.Core.Logic.{inl, inr}
use sqlx_mssql_rs.Prelude.{
  ℕ, zero, suc, ◌+◌, ◌≤◌, ◌≡◌, ap, sym, ◌∙◌, List, [], ◌∷◌, ◌++◌, append_assoc, arith, length,
  length-append, get_elem?, some,
}
use sqlx_mssql_rs.Prelude.Int.{ℤ}
use sqlx_mssql_rs.Prelude.Bytes.{as_i32}
use sqlx_mssql_rs.Spatial.{Shape}
use sqlx_mssql_rs.Spatial.Decode.{children_from}
use sqlx_mssql_rs.Spatial.Layout.{
  Run, Node, Nodes, node, size, sizes, runs_of, all_runs, shape_of, shapes_of, all_shapes,
}
use sqlx_mssql_rs.Spatial.Split.{length-shapes_of}
use sqlx_mssql_rs.Spatial.Rings.{IsFresh, append-IsFresh}
use sqlx_mssql_rs.Spatial.Children.{
  Outside, AllOutside, append-AllOutside, AllOutside-narrow, as_i32-Outside, shapes_of-Outside,
  all_shapes-Outside, roots, children_from-placed,
}

-- Every node's own runs are fresh.
abbrev mutual
  pub IsSound : Node → Type 0
  IsSound (node k rs ch) = IsFresh rs × AreSound ch

  pub AreSound : Nodes → Type 0
  AreSound Nodes.none = Unit {0}
  AreSound (Nodes.more n ns) = IsSound n × AreSound ns

mutual
  runs_of-IsFresh : (n : Node) → IsSound n → IsFresh (runs_of n)
  runs_of-IsFresh (node k rs ch) (f, s) = append-IsFresh rs (all_runs ch) f (all_runs-IsFresh ch s)

  all_runs-IsFresh : (ns : Nodes) → AreSound ns → IsFresh (all_runs ns)
  all_runs-IsFresh Nodes.none s = tt
  all_runs-IsFresh (Nodes.more n ns) (s, t) =
      append-IsFresh (runs_of n) (all_runs ns) (runs_of-IsFresh n s) (all_runs-IsFresh ns t)

-- The runs `own` and the shapes `block`, `n` of them, stand in the tables at the figure `f` and the
-- index `j`, and no shape outside the block has its parent inside.
pub record Placed (w : List Run) (s : List Shape) (own : List Run) (block : List Shape) (n : ℕ)
    (p : ℤ) (f j : ℕ) : Type 0 where
  pub pre : List Shape
  pub post : List Shape
  pub before : List Run
  pub after : List Run
  pub shapes : s ≡ pre ++ (block ++ post)
  pub index : length pre ≡ j
  pub runs : w ≡ before ++ (own ++ after)
  pub figure : length before ≡ f
  pub pre_outside : AllOutside j (j + n) pre
  pub post_outside : AllOutside j (j + n) post
  pub parent_outside : Outside j (j + n) p
  pub fresh : IsFresh after
  pub bound : j + n ≤ 2147483648

abbrev pub PlacedNode : List Run → List Shape → Node → ℤ → ℕ → ℕ → Type 0
PlacedNode w s n p f j = Placed w s (runs_of n) (shapes_of n p f j) (size n) p f j

abbrev pub PlacedNodes : List Run → List Shape → Nodes → ℤ → ℕ → ℕ → Type 0
PlacedNodes w s ns p f j = Placed w s (all_runs ns) (all_shapes ns p f j) (sizes ns) p f j

regroup_inner :
    {A : Type 0} {s : List A} (a b c d : List A)
    → s ≡ a ++ ((b ++ c) ++ d)
    → s ≡ a ++ (b ++ (c ++ d))
regroup_inner a b c d e = e ∙ ap (◌++◌ a) (append_assoc b c d)

regroup_outer :
    {A : Type 0} {s : List A} (a b c d : List A)
    → s ≡ a ++ ((b ++ c) ++ d)
    → s ≡ (a ++ b) ++ (c ++ d)
regroup_outer a b c d e = regroup_inner a b c d e ∙ sym (append_assoc a b (c ++ d))

module _ (w : List Run) (s : List Shape) where
  pub placed_first :
      (n : Node) (ns : Nodes) (p : ℤ) (f j : ℕ)
      → AreSound ns
      → PlacedNodes w s (Nodes.more n ns) p f j
      → PlacedNode w s n p f j
  placed_first n ns p f j sound at = record {
    pre = at.pre;
    post = all_shapes ns p (f + length (runs_of n)) (j + size n) ++ at.post;
    before = at.before;
    after = all_runs ns ++ at.after;
    shapes =
        regroup_inner at.pre (shapes_of n p f j)
          (all_shapes ns p (f + length (runs_of n)) (j + size n)) at.post at.shapes;
    index = at.index;
    runs = regroup_inner at.before (runs_of n) (all_runs ns) at.after at.runs;
    figure = at.figure;
    pre_outside = AllOutside-narrow _ _ _ _ at.pre (omega arith) (omega arith) at.pre_outside;
    post_outside =
        append-AllOutside j (j + size n) (all_shapes ns p (f + length (runs_of n)) (j + size n))
          at.post
          (all_shapes-Outside ns p (f + length (runs_of n)) (j + size n) j (j + size n)
            (omega (arith, at.bound)) (omega (arith, at.bound)) (inl (omega arith))
            (λ m l u. at.parent_outside m l (omega arith)))
          (AllOutside-narrow _ _ _ _ at.post (omega arith) (omega arith) at.post_outside);
    parent_outside = λ m l u. at.parent_outside m l (omega arith);
    fresh = append-IsFresh (all_runs ns) at.after (all_runs-IsFresh ns sound) at.fresh;
    bound = omega (arith, at.bound);
  }

  pub placed_rest :
      (n : Node) (ns : Nodes) (p : ℤ) (f j : ℕ)
      → PlacedNodes w s (Nodes.more n ns) p f j
      → PlacedNodes w s ns p (f + length (runs_of n)) (j + size n)
  placed_rest n ns p f j at = record {
    pre = at.pre ++ shapes_of n p f j;
    post = at.post;
    before = at.before ++ runs_of n;
    after = at.after;
    shapes =
        regroup_outer at.pre (shapes_of n p f j)
          (all_shapes ns p (f + length (runs_of n)) (j + size n)) at.post at.shapes;
    index =
        omega (arith, at.index, length-append at.pre (shapes_of n p f j), length-shapes_of n p f j);
    runs = regroup_outer at.before (runs_of n) (all_runs ns) at.after at.runs;
    figure = omega (arith, at.figure, length-append at.before (runs_of n));
    pre_outside =
        append-AllOutside (j + size n) (j + size n + sizes ns) at.pre (shapes_of n p f j)
          (AllOutside-narrow _ _ _ _ at.pre (omega arith) (omega arith) at.pre_outside)
          (shapes_of-Outside n p f j (j + size n) (j + size n + sizes ns) (omega (arith, at.bound))
            (omega (arith, at.bound)) (inr (omega arith))
            (λ m l u. at.parent_outside m (omega arith) (omega arith)));
    post_outside = AllOutside-narrow _ _ _ _ at.post (omega arith) (omega arith) at.post_outside;
    parent_outside = λ m l u. at.parent_outside m (omega arith) (omega arith);
    fresh = at.fresh;
    bound = omega (arith, at.bound);
  }

  pub placed_below :
      (k : ℕ) (rs : List Run) (ch : Nodes) (p : ℤ) (f j : ℕ)
      → PlacedNode w s (node k rs ch) p f j
      → PlacedNodes w s ch (as_i32 j) (f + length rs) (suc j)
  placed_below k rs ch p f j at =
      let top = shape_of (node k rs ch) p f in
      record {
        pre = at.pre ++ top ∷ [];
        post = at.post;
        before = at.before ++ rs;
        after = at.after;
        shapes = at.shapes ∙ sym (append_assoc at.pre (top ∷ []) _);
        index = omega (arith, at.index, length-append at.pre (top ∷ []));
        runs = regroup_outer at.before rs (all_runs ch) at.after at.runs;
        figure = omega (arith, at.figure, length-append at.before rs);
        pre_outside =
            append-AllOutside (suc j) (suc j + sizes ch) at.pre (top ∷ [])
              (AllOutside-narrow _ _ _ _ at.pre (omega arith) (omega arith) at.pre_outside)
              (λ m l u. at.parent_outside m (omega arith) (omega arith), tt);
        post_outside =
            AllOutside-narrow _ _ _ _ at.post (omega arith) (omega arith) at.post_outside;
        parent_outside =
            as_i32-Outside j (suc j) (suc j + sizes ch) (omega (arith, at.bound))
              (omega (arith, at.bound)) (inr (omega arith));
        fresh = at.fresh;
        bound = omega (arith, at.bound);
      }

  pub placed_shape :
      (k : ℕ) (rs : List Run) (ch : Nodes) (p : ℤ) (f j : ℕ)
      → PlacedNode w s (node k rs ch) p f j
      → get_elem? s j ≡ some (shape_of (node k rs ch) p f)
  placed_shape k rs ch p f j at = ap (λ s. get_elem? s j) at.shapes ∙ go at.pre j at.index
    where
      rest : List Shape
      rest = all_shapes ch (as_i32 j) (f + length rs) (suc j) ++ at.post

      go :
          (a : List Shape) (i : ℕ)
          → length a ≡ i
          → get_elem? (a ++ shape_of (node k rs ch) p f ∷ rest) i
            ≡ some (shape_of (node k rs ch) p f)
      go [] zero e = refl
      go [] (suc i) e = absurd (omega (arith, e))
      go (x ∷ a) zero e = absurd (omega (arith, e))
      go (x ∷ a) (suc i) e = go a i (omega (arith, e))

  pub placed_children :
      (k : ℕ) (rs : List Run) (ch : Nodes) (p : ℤ) (f j : ℕ)
      → PlacedNode w s (node k rs ch) p f j
      → children_from 0 (as_i32 j) s ≡ roots ch (suc j)
  placed_children k rs ch p f j at =
      ap (children_from 0 (as_i32 j)) at.shapes
      ∙ children_from-placed at.pre at.post k rs ch p f j at.index at.bound at.pre_outside
          at.post_outside at.parent_outside
