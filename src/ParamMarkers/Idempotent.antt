-- ===== src/ParamMarkers/Idempotent.antt =====
-- A rewritten statement has no markers left: the names that param_markers.rs writes open no region
-- and close none.
use mathlib.Core.List.{map-append}
use mathlib.Core.Path.{subst}
use sqlx_mssql_rs.Prelude.{
  ℕ, ◌+◌, ◌≡◌, ◌≢◌, refl, sym, ap, ◌∙◌, true, inl, inr, some, [], ◌∷◌, ◌++◌, map, arith, Text,
  codes, ◌==◌, Bool-cases,
}
use sqlx_mssql_rs.Prelude.Decimal.{to_string, to_string-AllDigits, AllDigits, is_digit}
use sqlx_mssql_rs.ParamMarkers.{rewrite_param_markers}
use sqlx_mssql_rs.ParamMarkers.Regions.{
  single, double, bracket, Region, plain, line_comment, block_open, block_comment, block_close,
  quoted, escaped, begins, next, keep, tag, classify, count_markers, render,
}
use sqlx_mssql_rs.ParamMarkers.Rewrite.{classify_marker, rewrite_param_markers-classify}

-- Markers and their names begin with `?` and `@`, on which the machine never looks ahead.
begins-render :
    (x : ℕ) (r : Region) (cs : Text) (n : ℕ)
    → x ≢ b'?'
    → x ≢ b'@'
    → begins x (render n (classify r cs)) ≡ begins x cs
unfolding classify
begins-render x r [] n h k = refl
begins-render x plain (c ∷ cs) n h k = ground arith
begins-render x _ (c ∷ cs) n h k = refl

next-render :
    (r r' : Region) (c : ℕ) (cs : Text) (n : ℕ) → next r c (render n (classify r' cs)) ≡ next r c cs
next-render plain r' c cs n = rw (
  begins-render b'-' r' cs n (omega arith) (omega arith),
  begins-render b'*' r' cs n (omega arith) (omega arith),
)
next-render block_comment r' c cs n = rw (begins-render b'/' r' cs n (omega arith) (omega arith))
next-render (quoted single) r' c cs n = rw (begins-render b'\'' r' cs n (omega arith) (omega arith))
next-render (quoted double) r' c cs n = rw (begins-render b'"' r' cs n (omega arith) (omega arith))
next-render (quoted bracket) r' c cs n = rw (begins-render b']' r' cs n (omega arith) (omega arith))
next-render line_comment r' c cs n = refl
next-render block_open r' c cs n = refl
next-render block_close r' c cs n = refl
next-render (escaped q) r' c cs n = refl

digit_plain :
    (d : ℕ) (rest : Text)
    → is_digit d ≡ true
    → classify plain (d ∷ rest) ≡ keep d ∷ classify plain rest
unfolding classify
digit_plain d rest h = ground arith

classify-digits :
    (ds rest : Text)
    → AllDigits ds
    → classify plain (ds ++ rest) ≡ map keep ds ++ classify plain rest
classify-digits [] rest h = refl
classify-digits (d ∷ ds) rest h =
    digit_plain d (ds ++ rest) h.0 ∙ ap (◌∷◌ (keep d)) (classify-digits ds rest h.1)

-- A character that the machine keeps is kept again, in front of whatever is kept again.
classify-render-keep :
    (r : Region) (c : ℕ) (cs : Text) (n : ℕ)
    → tag r c ≡ keep c
    → (let R = render n (classify (next r c cs) cs) in classify (next r c cs) R ≡ map keep R)
    → classify r (render n (classify r (c ∷ cs))) ≡ map keep (render n (classify r (c ∷ cs)))
unfolding classify
classify-render-keep r c cs n e ih =
    rw e (rw (next-render r (next r c cs) c cs n) (λ i. e i ∷ ih i))

-- So is the name that a marker gets.
classify-render_marker :
    (cs : Text) (n : ℕ)
    → (let R = render (n + 1) (classify plain cs) in classify plain R ≡ map keep R)
    → (let R = codes "@P" ++ (to_string (n + 1) ++ render (n + 1) (classify plain cs)) in
        classify plain R ≡ map keep R)
unfolding classify
classify-render_marker cs n ih =
    let R = render (n + 1) (classify plain cs) in
    ap (λ ts. keep b'@' ∷ keep b'P' ∷ ts)
      (classify-digits (to_string (n + 1)) R (to_string-AllDigits (n + 1))
        ∙ ap (◌++◌ (map keep (to_string (n + 1)))) ih
        ∙ sym (map-append keep (to_string (n + 1)) R))

classify-render :
    (r : Region) (cs : Text) (n : ℕ)
    → classify r (render n (classify r cs)) ≡ map keep (render n (classify r cs))
unfolding classify
classify-render r [] n = refl
classify-render plain (c ∷ cs) n = elim (Bool-cases (c == b'?')) [
  | inl e ↦
      subst (λ ts. classify plain (render n ts) ≡ map keep (render n ts))
        (sym (classify_marker c cs e))
        (classify-render_marker cs n (classify-render plain cs (n + 1)))
  | inr e ↦ classify-render-keep plain c cs n (rw e) (classify-render (next plain c cs) cs n)
]
classify-render r (c ∷ cs) n =
    classify-render-keep r c cs n refl (classify-render (next r c cs) cs n)

render-map-keep : (t : Text) (n : ℕ) → render n (map keep t) ≡ t
render-map-keep [] n = refl
render-map-keep (c ∷ t) n = ap (◌∷◌ c) (render-map-keep t n)

count_markers-map-keep : (t : Text) → count_markers (map keep t) ≡ 0
count_markers-map-keep [] = refl
count_markers-map-keep (c ∷ t) = count_markers-map-keep t

render_unmarked :
    (r : Region) (cs : Text) (n : ℕ)
    → count_markers (classify r cs) ≡ 0
    → render n (classify r cs) ≡ cs
unfolding classify
render_unmarked r [] n h = refl
render_unmarked plain (c ∷ cs) n h = ground (arith, render_unmarked (next plain c cs) cs n)
render_unmarked r (c ∷ cs) n h = ap (◌∷◌ c) (render_unmarked (next r c cs) cs n h)

rewrite_param_markers_result :
    (sql out : Text) (n : ℕ)
    → rewrite_param_markers sql ≡ some (out, n)
    → (out ≡ render 0 (classify plain sql)) × (n ≡ count_markers (classify plain sql))
rewrite_param_markers_result sql out n h =
    let e = sym h ∙ rewrite_param_markers-classify sql in ground arith

-- The rewriting done twice does no more than once: a statement that was rewritten has no markers,
-- and is returned as it is.
pub rewrite_param_markers_again :
    (sql out : Text) (n : ℕ)
    → rewrite_param_markers sql ≡ some (out, n)
    → rewrite_param_markers out ≡ some (out, 0)
rewrite_param_markers_again sql out n h =
    let e = (rewrite_param_markers_result sql out n h).0 in
    let kept : classify plain out ≡ map keep out = rw e (classify-render plain sql 0) in
    rewrite_param_markers-classify out
    ∙ rw kept (λ i. some (render-map-keep out 0 i, count_markers-map-keep out i))

-- A statement in which no marker is found is returned as it is.
pub rewrite_param_markers_unchanged :
    (sql out : Text) → rewrite_param_markers sql ≡ some (out, 0) → out ≡ sql
rewrite_param_markers_unchanged sql out h =
    let (e, counted) = rewrite_param_markers_result sql out 0 h in
    e ∙ render_unmarked plain sql 0 (sym counted)
