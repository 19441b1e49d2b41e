-- ===== src/Connection/Nested.antt =====
-- Nested transactions as a stack, and how the savepoints that connection.rs sets hold that stack.
use mathlib.Core.Path.{subst₂}
use sqlx_mssql_rs.Prelude.{
  ℕ, ◌≤◌, ◌<◌, ◌≡◌, refl, sym, ap, ◌∙◌, inl, inr, some, List, [], ◌∷◌, ◌++◌, append-nil,
  append_assoc, arith, Text, text_eq, text_eq_refl, text_eq_sound, length, Bool-cases,
}
use sqlx_mssql_rs.Prelude.Decimal.{to_string-injective}
use sqlx_mssql_rs.Connection.{savepoint_name}
use sqlx_mssql_rs.Connection.Server.{Mark, work, savepoint, works, unwind}

-- What nested transactions promise: the statements whose effects are durable, and for each level,
-- the innermost first, the statements run in it.
pub record Transactions : Type 0 where
  pub durable : List Text
  pub levels : List (List Text)

abbrev pub at : List Text → List (List Text) → Transactions
at d l = record { durable = d; levels = l }

abbrev pub opened : Transactions → Transactions
opened a = record a { levels = [] ∷ a.levels }

-- A level's statements go to the level around it, and become durable with the outermost one.
abbrev pub committed_levels : List Text → List (List Text) → Transactions
committed_levels durable [] = record { durable = durable; levels = [] }
committed_levels durable (f ∷ []) = record { durable = f ++ durable; levels = [] }
committed_levels durable (f ∷ g ∷ fs) = record { durable = durable; levels = (f ++ g) ∷ fs }

abbrev pub committed : Transactions → Transactions
committed a = committed_levels a.durable a.levels

abbrev inner_dropped : List (List Text) → List (List Text)
inner_dropped [] = []
inner_dropped (_ ∷ fs) = fs

-- The innermost level's statements are undone, and no others.
abbrev pub rolled_back : Transactions → Transactions
rolled_back a = record a { levels = inner_dropped a.levels }

-- All savepoints among the marks have numbers above `i`: they were left by levels that are gone.
abbrev Above : ℕ → List Mark → Type 0
Above i [] = Unit
Above i (work _ ∷ w) = Above i w
Above i (savepoint n ∷ w) = ((j : ℕ) × (i < j) × (n ≡ savepoint_name j)) × Above i w

-- The marks of an open transaction hold the levels: between them stands the savepoint whose number
-- is the depth at which it was set.
abbrev pub Nested : List (List Text) → List Mark → Type 0
Nested [] w = ⊥
Nested (f ∷ []) w = Above 0 w × (works w ≡ f)
Nested (f ∷ g ∷ fs) w =
    (u : List Mark) × (v : List Mark) × (w ≡ u ++ savepoint (savepoint_name (length (g ∷ fs))) ∷ v)
    × Above (length (g ∷ fs)) u
    × (works u ≡ f)
    × Nested (g ∷ fs) v

savepoint_name-injective : (i j : ℕ) → savepoint_name i ≡ savepoint_name j → i ≡ j
unfolding savepoint_name
savepoint_name-injective i j e = to_string-injective i j (cc)

works-append : (u v : List Mark) → works (u ++ v) ≡ works u ++ works v
works-append [] v = refl
works-append (work s ∷ u) v = ap (◌∷◌ s) (works-append u v)
works-append (savepoint n ∷ u) v = works-append u v

Above-append : (i : ℕ) (u v : List Mark) → Above i u → Above i v → Above i (u ++ v)
Above-append i [] v h k = k
Above-append i (work s ∷ u) v h k = Above-append i u v h k
Above-append i (savepoint n ∷ u) v h k = (h.0, Above-append i u v h.1 k)

Above-mono : (i j : ℕ) (u : List Mark) → i ≤ j → Above j u → Above i u
Above-mono i j [] h k = tt
Above-mono i j (work s ∷ u) h k = Above-mono i j u h k
Above-mono i j (savepoint n ∷ u) h ((m, lt, e), k) = ((m, omega arith, e), Above-mono i j u h k)

-- A rollback to the savepoint `i` passes over savepoints with higher numbers.
unwind-Above :
    (i : ℕ) (u v : List Mark)
    → Above i u
    → unwind (savepoint_name i) (u ++ savepoint (savepoint_name i) ∷ v)
      ≡ some (savepoint (savepoint_name i) ∷ v)
unwind-Above i [] v h = rw (text_eq_refl (savepoint_name i))
unwind-Above i (work s ∷ u) v h = unwind-Above i u v h
unwind-Above i (savepoint n ∷ u) v ((j, lt, e), h) =
    elim (Bool-cases (text_eq (savepoint_name i) n)) [
      | inl same ↦ absurd (
          let k = savepoint_name-injective i j (text_eq_sound (savepoint_name i) n same ∙ e) in
          omega arith)
      | inr other ↦ rw other (unwind-Above i u v h)
    ]

-- New marks on top belong to the innermost level.
Nested-extend :
    (u v : List Mark) (g : List Text) (fs : List (List Text))
    → Above (length fs) u
    → Nested (g ∷ fs) v
    → Nested ((works u ++ g) ∷ fs) (u ++ v)
Nested-extend u v g [] h (above, e) =
    (Above-append 0 u v h above, works-append u v ∙ ap (◌++◌ (works u)) e)
Nested-extend u v g (f ∷ fs) h (u', v', split, above, e, nested) = (
  u ++ u',
  v',
  ap (◌++◌ u) split ∙ sym (append_assoc u u' _),
  Above-append _ u u' h above,
  works-append u u' ∙ ap (◌++◌ (works u)) e,
  nested,
)

-- A savepoint opens a level.
pub Nested-opened :
    (f : List Text) (fs : List (List Text)) (w : List Mark)
    → Nested (f ∷ fs) w
    → Nested ([] ∷ f ∷ fs) (savepoint (savepoint_name (length (f ∷ fs))) ∷ w)
Nested-opened f fs w h = ([], w, refl, tt, refl, h)

-- A statement belongs to the innermost level.
pub Nested-work :
    (s : Text) (f : List Text) (fs : List (List Text)) (w : List Mark)
    → Nested (f ∷ fs) w
    → Nested ((s ∷ f) ∷ fs) (work s ∷ w)
Nested-work s f fs w h = Nested-extend (work s ∷ []) w f fs tt h

-- Leaving the innermost level with nothing sent gives its statements to the level around it.
pub Nested-committed :
    (f g : List Text) (fs : List (List Text)) (w : List Mark)
    → Nested (f ∷ g ∷ fs) w
    → Nested ((f ++ g) ∷ fs) w
Nested-committed f g fs w (u, v, split, above, e, nested) =
    let name = savepoint_name (length (g ∷ fs)) in
    let marks = u ++ savepoint name ∷ [] in
    let stale : Above (length fs) marks =
      Above-append (length fs) u (savepoint name ∷ [])
        (Above-mono (length fs) (length (g ∷ fs)) u (omega arith) above)
        ((length (g ∷ fs), omega arith, refl), tt) in
    let same : works marks ≡ f = works-append u (savepoint name ∷ []) ∙ append-nil (works u) ∙ e in
    let whole : marks ++ v ≡ w = append_assoc u (savepoint name ∷ []) v ∙ sym split in
    subst₂ (λ x y. Nested ((x ++ g) ∷ fs) y) same whole (Nested-extend marks v g fs stale nested)

-- A rollback to the savepoint of the innermost level leaves the levels around it.
pub Nested-rolled_back :
    (f g : List Text) (fs : List (List Text)) (w : List Mark)
    → Nested (f ∷ g ∷ fs) w
    → (w' : List Mark) × (unwind (savepoint_name (length (g ∷ fs))) w ≡ some w')
      × Nested (g ∷ fs) w'
Nested-rolled_back f g fs w (u, v, split, above, e, nested) =
    let i = length (g ∷ fs) in
    (
      savepoint (savepoint_name i) ∷ v,
      rw split (unwind-Above i u v above),
      Nested-extend (savepoint (savepoint_name i) ∷ []) v g fs ((i, omega arith, refl), tt) nested,
    )

pub works-Nested : (f : List Text) (w : List Mark) → Nested (f ∷ []) w → works w ≡ f
works-Nested f w h = h.1
