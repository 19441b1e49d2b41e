-- ===== src/Values/Digits.antt =====
-- Integers sent as text, as `as_i64` of value.rs in sqlx-mssql-rs-core/src reads them.
use mathlib.Core.Path.{refl, subst}
use sqlx_mssql_rs.Prelude.{
  ℕ, ◌+◌, ◌≡◌, ap, sym, ◌∙◌, ◌∷◌, Bool, true, false, Option, none, some, leb, ◌==◌, if◌then◌else◌,
  Text, arith,
}
use sqlx_mssql_rs.Prelude.Decimal.{
  is_digit, AllDigits, value, to_string, to_string-AllDigits, to_string-cons, value-to_string,
}
use sqlx_mssql_rs.Prelude.Ascii.{
  trim_id, no_space, to_string-no_space, digits_up_to, AllDigits-all_digits,
}
use sqlx_mssql_rs.Prelude.Int.{ℤ, pos, negsuc, display}
use sqlx_mssql_rs.TypeInfo.{MssqlTypeInfo}
use sqlx_mssql_rs.Values.{
  ColumnValues, Foreign, new, textual_form, as_i64_of, as_i64, parse_integer_text,
}
use sqlx_mssql_rs.Values.Convert.{parse_i64, or_else}
use sqlx_mssql_rs.Values.Integers.{IntegerType, try_from}
use sqlx_mssql_rs.Prelude.Read.{◌>>=◌}

digits_up_to-to_string :
    (most n : ℕ) → digits_up_to most (to_string n) ≡ (if leb n most then some n else none)
digits_up_to-to_string most n =
    let (c, ds, e) = to_string-cons n in
    let all = subst AllDigits e (to_string-AllDigits n) in
    let same : value 0 (c ∷ ds) ≡ n = ap (value 0) (sym e) ∙ value-to_string n in
    rw e (rw (AllDigits-all_digits (c ∷ ds) all) (rw same refl))

first_digit : (c : ℕ) → is_digit c ≡ true → ((c == b'-') ≡ false) × ((c == b'+') ≡ false)
first_digit c h = ground arith

parse_i64-unsigned :
    (c : ℕ) (ds : Text) (o : Option ℕ)
    → is_digit c ≡ true
    → digits_up_to 9223372036854775807 (c ∷ ds) ≡ o
    → parse_i64 (c ∷ ds) ≡ (elim o [ none ↦ none | some n ↦ some (pos n) ])
unfolding parse_i64
parse_i64-unsigned c ds o h e = let (m, p) = first_digit c h in rw m (rw p (rw e refl))

-- An integer in decimal notation is parsed exactly where an `i64` holds it.
parse_i64-display : (z : ℤ) → parse_i64 (display z) ≡ try_from IntegerType.i64 z
unfolding display
parse_i64-display (pos n) =
    let (c, ds, e) = to_string-cons n in
    let all = subst AllDigits e (to_string-AllDigits n) in
    let read =
      ap (digits_up_to 9223372036854775807) (sym e)
      ∙ digits_up_to-to_string 9223372036854775807 n in
    ap parse_i64 e
    ∙ parse_i64-unsigned c ds (if leb n 9223372036854775807 then some n else none) all.0 read
    ∙ go (leb n 9223372036854775807)
  where
    go :
        (b : Bool)
        → (elim (if b then some n else none) [ none ↦ none | some n ↦ some (pos n) ])
          ≡ (if b then some (pos n) else none)
    go true = refl
    go false = refl
parse_i64-display (negsuc n) =
    unfold parse_i64 in rw (digits_up_to-to_string 9223372036854775808 (n + 1)) (ground arith)

display-no_space : (z : ℤ) → no_space (display z) ≡ true
unfolding display
display-no_space (pos n) = to_string-no_space n
display-no_space (negsuc n) = to_string-no_space (n + 1)

module _ {V : Type 0} (foreign : Foreign V) where
  -- What the code makes of a text that is no `i64`: a whole number as a float, converted to one.
  abbrev pub by_float : Text → Option ℤ
  by_float text = do
    value ← foreign.parse_f64 text
    if foreign.is_whole value then some (foreign.float_as_i64 value) else none

  parse_integer_text-display :
      (z : ℤ)
      → parse_integer_text foreign (display z)
        ≡ or_else (try_from IntegerType.i64 z) (by_float (display z))
  unfolding parse_integer_text
  parse_integer_text-display z =
      rw (trim_id (display z) (display-no_space z)) (rw (parse_i64-display z) refl)

  as_i64_of-text :
      (raw : ColumnValues V) (text : Text)
      → textual_form foreign raw ≡ some text
      → as_i64_of foreign raw (some text) ≡ parse_integer_text foreign text
  unfolding textual_form as_i64_of
  as_i64_of-text raw text h = ground arith

  -- A value that has a text and whose text is an integer in decimal notation is read as that integer
  -- where an `i64` holds it, and otherwise as what the float of the text is converted to.
  pub as_i64-display :
      (raw : ColumnValues V) (info : MssqlTypeInfo) (z : ℤ)
      → textual_form foreign raw ≡ some (display z)
      → as_i64 foreign (new foreign raw info)
        ≡ or_else (try_from IntegerType.i64 z) (by_float (display z))
  unfolding as_i64 new
  as_i64-display raw info z h =
      rw h (as_i64_of-text raw (display z) h ∙ parse_integer_text-display z)
