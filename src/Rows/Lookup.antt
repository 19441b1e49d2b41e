-- ===== src/Rows/Lookup.antt =====
-- The column lookup of row.rs and statement.rs, and the sums of query_result.rs.
use mathlib.Core.Path.{subst}
use sqlx_mssql_rs.Prelude.{
  ℕ, zero, suc, ◌+◌, ◌<◌, ◌≡◌, refl, Bool, true, false, ◌||◌, Option, none, some, List, [], ◌∷◌,
  ◌++◌, arith, Text, length, get_elem?, text_eq, text_eq_sound, leb, if◌then◌else◌,
}
use sqlx_mssql_rs.Prelude.Ascii.{eq_ignore_ascii_case, eq_ignore_ascii_case_refl}
use sqlx_mssql_rs.Error.{Error}
use sqlx_mssql_rs.Rows.{
  MssqlColumn, MssqlRow, Looked, ok, err, ColumnIndex, by_position, by_name, position, is_named,
  is_named_alike, or_not_found, exact_or_alike, index, try_get_raw, sum, extend, wrapped,
}

abbrev pub any : {A : Type 0} → (A → Bool) → List A → Bool
any p [] = false
any p (x ∷ xs) = p x || any p xs

-- What a position says: the element there passes the test, or none does.
abbrev Positioned : {A : Type 0} → (A → Bool) → List A → Option ℕ → Type 0
Positioned {A} p xs none = any p xs ≡ false
Positioned {A} p xs (some i) = (x : A) × (get_elem? xs i ≡ some x) × (p x ≡ true)

position-Positioned : {A : Type 0} (p : A → Bool) (xs : List A) → Positioned p xs (position p xs)
position-Positioned p [] = refl
position-Positioned p (x ∷ xs) = go (p x) refl (position p xs) (position-Positioned p xs)
  where
    go :
        (b : Bool)
        → p x ≡ b
        → (o : Option ℕ) → Positioned p xs o
        → Positioned p
            (x ∷ xs)
            (if b then some 0 else elim o [ none ↦ none | some i ↦ some (suc i) ])
    go true e o h = (x, refl, e)
    go false e none h = rw e h
    go false e (some i) h = h

-- What the lookup of a name promises: a column of that name up to the case of its letters, one of
-- exactly that name if there is one, and an error only if there is none of either.
abbrev pub Names : {E : Type 0} → List MssqlColumn → Text → Looked E ℕ → Type 0
Names columns n (ok i) =
    (column : MssqlColumn) × (get_elem? columns i ≡ some column)
    × (eq_ignore_ascii_case column.name n ≡ true)
    × (any (λ (c : MssqlColumn). text_eq c.name n) columns ≡ true → text_eq column.name n ≡ true)
Names columns n (err e) =
    (any (λ (c : MssqlColumn). eq_ignore_ascii_case c.name n) columns ≡ false)
    × (e ≡ Error.column_not_found n)

exact-alike : (s n : Text) → text_eq s n ≡ true → eq_ignore_ascii_case s n ≡ true
exact-alike s n h = rw (text_eq_sound s n h) (eq_ignore_ascii_case_refl n)

module _ (E : Type 0) where
  not_found-Names :
      (columns : List MssqlColumn) (n : Text) (o : Option ℕ)
      → any (is_named n) columns ≡ false
      → Positioned (is_named_alike n) columns o
      → Names {E = E} columns n (or_not_found n o)
  not_found-Names columns n none h k = (k, refl)
  not_found-Names columns n (some i) h (column, e, alike) =
      (column, e, alike, λ found. cc (h, found))

  exact-Names :
      (columns : List MssqlColumn) (n : Text) (o : Option ℕ)
      → Positioned (is_named n) columns o
      → Names {E = E} columns n (exact_or_alike columns n o)
  exact-Names columns n none h =
      not_found-Names columns n _ h (position-Positioned (is_named_alike n) columns)
  exact-Names columns n (some i) (column, e, exact) =
      (column, e, exact-alike column.name n exact, λ _. exact)

  -- A name is looked up as a column of that name up to the case of ASCII letters, and as one of
  -- exactly that name where there is one. The lookup fails, with the name, only where no column has
  -- the name in any case.
  pub index-Names :
      (columns : List MssqlColumn) (n : Text) → Names columns n (index {E = E} columns (by_name n))
  unfolding index
  index-Names columns n = exact-Names columns n _ (position-Positioned (is_named n) columns)

sum-append : (xs ys : List ℕ) → sum (xs ++ ys) ≡ wrapped (sum xs + sum ys)
sum-append [] [] = refl
sum-append [] (y ∷ ys) = omega arith
sum-append (x ∷ xs) ys = omega (arith, sum-append xs ys)

-- Extending a result by two lists of results, one after the other, is the same as by both at once,
-- also where the count of rows wraps around.
extend-append :
    (rows_affected : ℕ) (xs ys : List ℕ)
    → extend (extend rows_affected xs) ys ≡ extend rows_affected (xs ++ ys)
extend-append rows_affected xs ys = omega (arith, sum-append xs ys)

get_elem?-lt : {A : Type 0} (xs : List A) (i : ℕ) (x : A) → get_elem? xs i ≡ some x → i < length xs
get_elem?-lt [] i x h = cc
get_elem?-lt (y ∷ xs) zero x h = omega arith
get_elem?-lt (y ∷ xs) (suc i) x h = omega (arith, get_elem?-lt xs i x h)

lt-get_elem? :
    {A : Type 0} (xs : List A) (i : ℕ) → i < length xs → (x : A) × (get_elem? xs i ≡ some x)
lt-get_elem? [] i h = absurd (omega arith)
lt-get_elem? (y ∷ xs) zero h = (y, refl)
lt-get_elem? (y ∷ xs) (suc i) h = lt-get_elem? xs i (omega arith)

-- What the lookup finds is below the number of columns.
abbrev Below : {E : Type 0} → List MssqlColumn → Looked E ℕ → Type 0
Below columns (ok i) = i < length columns
Below columns (err _) = Unit

module _ (E : Type 0) where
  Names-Below :
      (columns : List MssqlColumn) (n : Text) (r : Looked E ℕ) → Names columns n r → Below columns r
  Names-Below columns n (ok i) (column, e, _, _) = get_elem?-lt columns i column e
  Names-Below columns n (err _) h = tt

  index-Below :
      (columns : List MssqlColumn) (i : ColumnIndex) → Below columns (index {E = E} columns i)
  index-Below columns (by_name n) = Names-Below columns n _ (index-Names E columns n)
  index-Below columns (by_position i) = unfold index in go (leb (length columns) i) refl
    where
      go :
          (b : Bool)
          → leb (length columns) i ≡ b
          → Below {E = E} columns
              (if b then err (Error.column_index_out_of_bounds i (length columns)) else ok i)
      go true e = tt
      go false e = ground arith

  -- In a row with as many values as columns, the value of every column that is found is there: a
  -- lookup fails only where the column is not found.
  pub try_get_raw-index :
      (V : Type 0) (row : MssqlRow V) (i : ColumnIndex) (k : ℕ)
      → length row.values ≡ length row.columns
      → index {E = E} row.columns i ≡ ok k
      → (v : V) × (get_elem? row.values k ≡ some v) × (try_get_raw {E = E} row i ≡ ok v)
  unfolding try_get_raw
  try_get_raw-index V row i k same found =
      let below : k < length row.columns =
        subst (Below row.columns) found (index-Below row.columns i) in
      let (v, e) = lt-get_elem? row.values k (omega arith) in (v, e, rw (found, e) refl)
