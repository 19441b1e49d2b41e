-- ===== src/Request/Names.antt =====
-- The parameters that `build_request` of connection.rs names are those that the statement asks for.
use sqlx_mssql_rs.Prelude.{
  ℕ, Bool, ◌+◌, ◌≡◌, ◌≢◌, refl, ap, true, false, some, List, [], ◌∷◌, ◌++◌, map, arith, Text, codes,
  length, ◌==◌, ==_iff, if◌then◌else◌,
}
use sqlx_mssql_rs.Prelude.Decimal.{to_string}
use sqlx_mssql_rs.ParamMarkers.Regions.{Tag, marker, keep, plain, classify, count_markers, render}
use sqlx_mssql_rs.ParamMarkers.Rewrite.{rewrite_param_markers-classify}
use sqlx_mssql_rs.Request.{
  Built, request, encode_error, mismatch, params_from, check_arity, build_with, build_request,
}

-- The names that `render` writes for the markers.
abbrev pub marker_names : ℕ → List Tag → List Text
marker_names n [] = []
marker_names n (marker ∷ ts) = (codes "@P" ++ to_string (n + 1)) ∷ marker_names (n + 1) ts
marker_names n (keep _ ∷ ts) = marker_names n ts

module _ {V : Type 0} where
  abbrev pub names_of : List (Text × V) → List Text
  names_of = map (λ p. p.0)

  abbrev pub values_of : List (Text × V) → List V
  values_of = map (λ p. p.1)

  values_of-params_from : (n : ℕ) (values : List V) → values_of (params_from n values) ≡ values
  values_of-params_from n [] = refl
  values_of-params_from n (v ∷ values) = ap (◌∷◌ v) (values_of-params_from (n + 1) values)

  names_of-params_from :
      (n : ℕ) (ts : List Tag) (values : List V)
      → count_markers ts ≡ length values
      → names_of (params_from n values) ≡ marker_names n ts
  names_of-params_from n [] [] h = refl
  names_of-params_from n [] (v ∷ values) h = absurd (omega arith)
  names_of-params_from n (keep _ ∷ ts) values h = names_of-params_from n ts values h
  names_of-params_from n (marker ∷ ts) [] h = absurd (omega arith)
  names_of-params_from n (marker ∷ ts) (v ∷ values) h =
      ap (◌∷◌ (codes "@P" ++ to_string (n + 1)))
        (names_of-params_from (n + 1) ts values (omega arith))

  -- What a request with arguments has to be: with as many arguments as markers, the statement whose
  -- markers are named, the parameters under the names of the markers in their order, and the
  -- arguments as their values; an error that tells the two numbers otherwise.
  abbrev pub Asks : List Tag → List V → Built V → Type 0
  Asks tags arguments (request text params) =
      (count_markers tags ≡ length arguments)
      × (text ≡ render 0 tags)
      × (names_of params ≡ marker_names 0 tags)
      × (values_of params ≡ arguments)
  Asks tags arguments (encode_error message) =
      (count_markers tags ≢ length arguments)
      × (message ≡ mismatch (count_markers tags) (length arguments))

  check_arity-Asks :
      (tags : List Tag) (arguments : List V)
      → Asks tags arguments (check_arity arguments (render 0 tags, count_markers tags))
  check_arity-Asks tags arguments = go (count_markers tags == length arguments) refl
    where
      go :
          (b : Bool)
          → (count_markers tags == length arguments) ≡ b
          → Asks tags arguments (
              if b
              then request (render 0 tags) (params_from 0 arguments)
              else encode_error (mismatch (count_markers tags) (length arguments)))
      go true e =
          let same = (==_iff (count_markers tags) (length arguments)).0 e in
          (
            same,
            refl,
            names_of-params_from 0 tags arguments same,
            values_of-params_from 0 arguments,
          )
      go false e =
          (λ same. let k = (==_iff (count_markers tags) (length arguments)).1 same in cc, refl)

  -- A request with at least one argument is always built, and is one that the statement's markers,
  -- those outside of literals, quoted names and comments, ask for: its text names them, and its
  -- parameters have exactly these names, in order, and the arguments as values. Where the numbers of
  -- markers and arguments differ it is an error with both numbers.
  pub build_request-Asks :
      (sql : Text) (argument : V) (arguments : List V)
      → (built : Built V) × (build_request sql (some (argument ∷ arguments)) ≡ some built)
        × Asks (classify plain sql) (argument ∷ arguments) built
  unfolding build_request
  build_request-Asks sql argument arguments = (
    check_arity (argument ∷ arguments)
        (render 0 (classify plain sql), count_markers (classify plain sql)),
    ap (build_with sql (argument ∷ arguments)) (rewrite_param_markers-classify sql),
    check_arity-Asks (classify plain sql) (argument ∷ arguments),
  )
