-- ===== src/Spatial/Ancestors.antt =====
-- The ancestors of a shape in the tables that types/geo.rs decodes: no shape is its own ancestor if
-- the first of them is at the top.
use mathlib.Core.Path.{refl, subst}
use sqlx_mssql_rs.Prelude.{
  ℕ, zero, suc, ◌≤◌, ◌<◌, ◌≡◌, ◌≢◌, ap, sym, ◌∙◌, List, [], ◌∷◌, ◌++◌, append_assoc, arith, length,
  length-append, get_elem?, some, ◌==◌, if◌then◌else◌, true, false, Bool,
}
use sqlx_mssql_rs.Prelude.Int.{ℤ, negsuc}
use sqlx_mssql_rs.Prelude.Bytes.{as_i32, as_i32_inj, int_eq}
use sqlx_mssql_rs.Spatial.{Shape}
use sqlx_mssql_rs.Spatial.Decode.{children_from}
use sqlx_mssql_rs.Spatial.Parses.{All}

abbrev pub NotIn : ℕ → List ℕ → Type 0
NotIn x [] = Unit {0}
NotIn x (y ∷ ys) = (x ≢ y) × NotIn x ys

abbrev pub Distinct : List ℕ → Type 0
Distinct [] = Unit {0}
Distinct (x ∷ xs) = NotIn x xs × Distinct xs

abbrev pub Below : ℕ → List ℕ → Type 0
Below n = All (λ x. x < n)

abbrev remove : ℕ → List ℕ → List ℕ
remove n [] = []
remove n (x ∷ xs) = if x == n then xs else x ∷ remove n xs

Below-NotIn : (n : ℕ) (xs : List ℕ) → Below (suc n) xs → NotIn n xs → Below n xs
Below-NotIn n [] b d = tt
Below-NotIn n (x ∷ xs) (l, b) (e, d) = (ground arith, Below-NotIn n xs b d)

NotIn-eq : (n x : ℕ) (xs : List ℕ) → NotIn x xs → x ≡ n → NotIn n xs
NotIn-eq n x [] h e = tt
NotIn-eq n x (y ∷ ys) (g, h) e = (λ f. g (e ∙ f), NotIn-eq n x ys h e)

remove-Below : (n : ℕ) (xs : List ℕ) → Below (suc n) xs → Distinct xs → Below n (remove n xs)
remove-Below n [] b d = tt
remove-Below n (x ∷ xs) (l, b) (g, d) = go (x == n) refl (remove-Below n xs b d)
  where
    go :
        (c : Bool)
        → (x == n) ≡ c
        → Below n (remove n xs)
        → Below n (if c then xs else x ∷ remove n xs)
    go true e rest = Below-NotIn n xs b (NotIn-eq n x xs g (ground arith))
    go false e rest = (ground arith, rest)

remove-NotIn : (y n : ℕ) (xs : List ℕ) → NotIn y xs → NotIn y (remove n xs)
remove-NotIn y n [] h = tt
remove-NotIn y n (x ∷ xs) (g, h) = go (x == n) (remove-NotIn y n xs h)
  where
    go : (c : Bool) → NotIn y (remove n xs) → NotIn y (if c then xs else x ∷ remove n xs)
    go true rest = h
    go false rest = (g, rest)

remove-Distinct : (n : ℕ) (xs : List ℕ) → Distinct xs → Distinct (remove n xs)
remove-Distinct n [] d = tt
remove-Distinct n (x ∷ xs) (g, d) = go (x == n) (remove-Distinct n xs d)
  where
    go : (c : Bool) → Distinct (remove n xs) → Distinct (if c then xs else x ∷ remove n xs)
    go true rest = d
    go false rest = (remove-NotIn x n xs g, rest)

length-remove : (n : ℕ) (xs : List ℕ) → length xs ≤ suc (length (remove n xs))
length-remove n [] = omega arith
length-remove n (x ∷ xs) = ground (arith, length-remove n xs)

-- Distinct numbers below `n` are at most `n`.
pub length-Distinct : (n : ℕ) (xs : List ℕ) → Below n xs → Distinct xs → length xs ≤ n
length-Distinct zero [] b d = omega arith
length-Distinct zero (x ∷ xs) (l, b) d = absurd (omega (arith, l))
length-Distinct (suc n) xs b d = omega (
  arith,
  length-remove n xs,
  length-Distinct n (remove n xs) (remove-Below n xs b d) (remove-Distinct n xs d),
)

pub int_eq_sound : (p q : ℤ) → int_eq p q ≡ true → p ≡ q
int_eq_sound p q h = ground arith

module _ (s : List Shape) where
  -- The shape `i` has the parent `p`.
  pub record HasParent (i : ℕ) (p : ℤ) : Type 0 where
    pub shape : Shape
    pub found : get_elem? s i ≡ some shape
    pub parent : shape.parent ≡ p

  -- The shapes of `v` are the ancestors of the shape `j`, up to one at the top.
  abbrev pub Ancestors : ℕ → List ℕ → Type 0
  Ancestors j [] = HasParent j (negsuc 0)
  Ancestors j (q ∷ v) = HasParent j (as_i32 q) × NotIn j (q ∷ v) × Ancestors q v

  get_elem?-lt :
      {A : Type 0} (xs : List A) (i : ℕ) (x : A) → get_elem? xs i ≡ some x → i < length xs
  get_elem?-lt [] i x e = cc
  get_elem?-lt (y ∷ xs) zero x e = omega arith
  get_elem?-lt (y ∷ xs) (suc i) x e = omega (arith, get_elem?-lt xs i x e)

  pub HasParent-lt : (i : ℕ) (p : ℤ) → HasParent i p → i < length s
  HasParent-lt i p h = get_elem?-lt s i h.shape h.found

  HasParent-eq : (i : ℕ) (p q : ℤ) → HasParent i p → HasParent i q → p ≡ q
  HasParent-eq i p q h k =
      let same : some h.shape ≡ some k.shape = sym h.found ∙ k.found in
      let e : h.shape ≡ k.shape = cc in sym h.parent ∙ ap (λ (z : Shape). z.parent) e ∙ k.parent

  Ancestors-Distinct : (j : ℕ) (v : List ℕ) → Ancestors j v → Distinct (j ∷ v)
  Ancestors-Distinct j [] a = (tt, tt)
  Ancestors-Distinct j (q ∷ v) (h, n, a) = (n, Ancestors-Distinct q v a)

  Ancestors-Below : (j : ℕ) (v : List ℕ) → Ancestors j v → Below (length s) (j ∷ v)
  Ancestors-Below j [] h = (HasParent-lt j _ h, tt)
  Ancestors-Below j (q ∷ v) (h, n, a) = (HasParent-lt j _ h, Ancestors-Below q v a)

  -- There are fewer ancestors than shapes.
  pub length-Ancestors : (j : ℕ) (v : List ℕ) → Ancestors j v → length v < length s
  length-Ancestors j v a =
      omega (
        arith,
        length-Distinct (length s) (j ∷ v) (Ancestors-Below j v a) (Ancestors-Distinct j v a),
      )

  module _ (small : length s < 4294967296) where
    -- The top is no child.
    not_top : (j : ℕ) → j < length s → negsuc 0 ≢ as_i32 j
    not_top j h e = absurd (ground arith)

    -- A child of `j` is neither `u` nor an ancestor of `u`, if `j` is no ancestor of `u`.
    child-NotIn :
        (c j u : ℕ) (v : List ℕ)
        → j < length s
        → HasParent c (as_i32 j)
        → Ancestors u v
        → NotIn j v
        → NotIn c (u ∷ v)
    child-NotIn c j u [] l h a n = (
      λ e. not_top j l (HasParent-eq c _ _ (subst (λ u. HasParent u (negsuc 0)) (sym e) a) h),
      tt,
    )
    child-NotIn c j u (q ∷ v) l h (k, m, a) (g, n) = (
      λ e.
          let same =
            HasParent-eq c (as_i32 j) (as_i32 q) h
              (subst (λ u. HasParent u (as_i32 q)) (sym e) k) in
          g (
            as_i32_inj j q (omega (arith, l, small))
              (omega (arith, small, (Ancestors-Below q v a).0)) same),
      child-NotIn c j q v l h a n,
    )

    own-NotIn : (j : ℕ) (v : List ℕ) → Ancestors j v → NotIn j v
    own-NotIn j [] a = tt
    own-NotIn j (q ∷ v) (h, n, a) = n

    -- The ancestors of a child are its parent and the parent's.
    pub child-Ancestors :
        (c j : ℕ) (v : List ℕ) → HasParent c (as_i32 j) → Ancestors j v → Ancestors c (j ∷ v)
    child-Ancestors c j v h a =
        (h, child-NotIn c j j v (Ancestors-Below j v a).0 h a (own-NotIn j v a), a)

  children_from-All :
      (i : ℕ) (p : ℤ) (pre a : List Shape)
      → s ≡ pre ++ a
      → length pre ≡ i
      → All (λ c. HasParent c p) (children_from i p a)
  unfolding children_from
  children_from-All i p pre [] e n = tt
  children_from-All i p pre (x ∷ a) e n =
      let ih =
        children_from-All (suc i) p (pre ++ x ∷ []) a (e ∙ sym (append_assoc pre (x ∷ []) a))
          (omega (arith, n, length-append pre (x ∷ []))) in
      go (int_eq x.parent p) refl ih
    where
      found : (b : List Shape) (k : ℕ) → length b ≡ k → get_elem? (b ++ x ∷ a) k ≡ some x
      found [] zero h = refl
      found [] (suc k) h = absurd (omega (arith, h))
      found (y ∷ b) zero h = absurd (omega (arith, h))
      found (y ∷ b) (suc k) h = found b k (omega (arith, h))

      go :
          (c : Bool)
          → int_eq x.parent p ≡ c
          → All (λ c. HasParent c p) (children_from (suc i) p a)
          → All
              (λ c. HasParent c p)
              (if c then i ∷ children_from (suc i) p a else children_from (suc i) p a)
      go true h rest = (
        record {
          shape = x;
          found = ap (λ s. get_elem? s i) e ∙ found pre i n;
          parent = int_eq_sound x.parent p h;
        },
        rest,
      )
      go false h rest = rest

  -- The children of a shape have it as their parent.
  pub children-All : (p : ℤ) → All (λ c. HasParent c p) (children_from 0 p s)
  children-All p = children_from-All 0 p [] s refl refl
