-- ===== src/TypeInfo/Declared.antt =====
-- The types that SQL Server declares, read back by `from_system_type_name` of type_info.rs.
use native.Mathlib.Numerals.{unary_clauses}
use sqlx_mssql_rs.Prelude.{
  ℕ, suc, ◌+◌, ◌-◌, ◌*◌, ◌≤◌, ◌≡◌, refl, sym, ap, ◌∙◌, true, false, Option, none, some, [], ◌∷◌,
  ◌++◌, append_assoc, arith, Text, codes, length, length-append, drop, take_prefix, find_first,
  holds, leb, ltb, ◌==◌, if◌then◌else◌,
}
use sqlx_mssql_rs.Prelude.Ascii.{
  lower, to_ascii_lowercase, trim_id, no_space, no_space-append, to_string-no_space, rfind,
  rfind_last, eq_ignore_ascii_case, parse_u8-to_string, split-to_string, split-to_string_pair,
}
use mathlib.Core.Path.{subst}
use sqlx_mssql_rs.Prelude.Decimal.{
  to_string, to_string-cons, to_string-AllDigits, AllDigits, is_digit,
}
use sqlx_mssql_rs.TypeInfo.DataType.{TdsDataType, TdsCodes}
use sqlx_mssql_rs.TypeInfo.{MssqlTypeInfo, new}
use sqlx_mssql_rs.TypeInfo.Parse.{
  Checked, done, parse_argument, is_max, length_of, named, with_args, from_trimmed,
  from_system_type_name,
}

-- A name with arguments in parentheses.
abbrev pub declared : Text → Text → Text
declared base args = base ++ b'(' ∷ (args ++ b')' ∷ [])

rfind-declared :
    (base args : Text) → rfind b')' (declared base args) ≡ some (length base + suc (length args))
rfind-declared base args =
    ap (rfind b')') (sym (append_assoc base (b'(' ∷ args) (b')' ∷ [])))
    ∙ rfind_last b')' (base ++ b'(' ∷ args)
    ∙ ap some (length-append base (b'(' ∷ args))

drop-declared : (base args : Text) → drop (length base + 1) (declared base args) ≡ args ++ b')' ∷ []
drop-declared [] args = refl
drop-declared (c ∷ base) args = simp unary_clauses (simp unary_clauses at (drop-declared base args))

parse_argument_pair :
    (m n : ℕ)
    → m ≤ 255
    → n ≤ 255
    → (parse_argument (to_string m ++ b',' ∷ to_string n) 0 ≡ some m)
      × (parse_argument (to_string m ++ b',' ∷ to_string n) 1 ≡ some n)
unfolding parse_argument
parse_argument_pair m n h k =
    let split_ = split-to_string_pair m n in
    (
      rw (split_, trim_id (to_string m) (to_string-no_space m), parse_u8-to_string m)
          (ground arith),
      rw (split_, trim_id (to_string n) (to_string-no_space n), parse_u8-to_string n)
          (ground arith),
    )

lower_digit : (c : ℕ) → is_digit c ≡ true → (lower c == b'm') ≡ false
lower_digit c h = ground arith

is_max-to_string : (n : ℕ) → is_max (some (to_string n)) ≡ false
unfolding eq_ignore_ascii_case
is_max-to_string n =
    let (c, ds, e) = to_string-cons n in
    let all = subst AllDigits e (to_string-AllDigits n) in rw e (rw (lower_digit c all.0) refl)

-- A number that fits into 8 bits is the length in characters; a larger one is dropped.
length_of-to_string :
    (n k : ℕ) → length_of (some (to_string n)) k ≡ (if leb n 255 then n else 0) * k
unfolding length_of parse_argument
length_of-to_string n k =
    rw
      (
        is_max-to_string n,
        split-to_string n,
        trim_id (to_string n) (to_string-no_space n),
        parse_u8-to_string n,
      )
      (ground arith)

module _ (tds : TdsCodes) where
  with_args-declared :
      (base args : Text)
      → no_space base ≡ true
      → no_space args ≡ true
      → with_args tds (declared base args) (length base) (some (length base + suc (length args)))
        ≡ done (named tds (to_ascii_lowercase base) (some args))
  with_args-declared base args h k =
      let inside : length base + suc (length args) - (length base + 1) ≡ length args =
        omega arith in
      let order : ltb (length base + suc (length args)) (length base + 1) ≡ false = ground arith in
      rw
        (
          order,
          inside,
          drop-declared base args,
          take_prefix base (b'(' ∷ (args ++ b')' ∷ [])),
          take_prefix args (b')' ∷ []),
          trim_id base h,
          trim_id args k,
        )
        refl

  -- A declared name without white space is read as its base, in lower case, and its arguments.
  from_system_type_name-declared :
      (base args : Text)
      → holds b'(' base ≡ false
      → no_space base ≡ true
      → no_space args ≡ true
      → from_system_type_name tds (declared base args)
        ≡ done (named tds (to_ascii_lowercase base) (some args))
  unfolding from_system_type_name
  from_system_type_name-declared base args one h k =
      let whole =
        no_space-append base (b'(' ∷ (args ++ b')' ∷ [])) h
          (no_space-append args (b')' ∷ []) k refl) in
      ap (from_trimmed tds) (trim_id (declared base args) whole)
      ∙ rw (from_trimmed, find_first b'(' base (args ++ b')' ∷ []) one, rfind-declared base args)
          (with_args-declared base args h k)

  -- `decimal` with a precision and a scale that fit into 8 bits is read as it was declared.
  pub from_system_type_name_decimal :
      (precision scale : ℕ)
      → precision ≤ 255
      → scale ≤ 255
      → from_system_type_name tds
          (declared (codes "decimal") (to_string precision ++ b',' ∷ to_string scale))
        ≡ done (
            some (
              new
                (codes "decimal")
                (tds.code TdsDataType.decimal_n)
                17
                (some precision)
                (some scale)))
  from_system_type_name_decimal precision scale h k =
      from_system_type_name-declared (codes "decimal")
        (to_string precision ++ b',' ∷ to_string scale) refl refl
        (no_space-append (to_string precision) (b',' ∷ to_string scale)
          (to_string-no_space precision) (to_string-no_space scale))
      ∙ unfold named in
        (let (first_read, second_read) = parse_argument_pair precision scale h k in
          rw (first_read, second_read) refl)

  -- The length of what is read for a declared name and its arguments.
  abbrev pub length_read : Checked (Option MssqlTypeInfo) → Option ℕ
  length_read (done (some info)) = some info.length
  length_read _ = none

  abbrev pub ReadsLength : Text → ℕ → ℕ → Type 0
  ReadsLength base bytes_per_char n =
      length_read (from_system_type_name tds (declared base (to_string n)))
      ≡ some ((if leb n 255 then n else 0) * bytes_per_char)

  reads_length :
      (base : Text) (bytes_per_char n : ℕ)
      → holds b'(' base ≡ false
      → no_space base ≡ true
      → length_read (done (named tds (to_ascii_lowercase base) (some (to_string n))))
        ≡ some (length_of (some (to_string n)) bytes_per_char)
      → ReadsLength base bytes_per_char n
  reads_length base bytes_per_char n one h e =
      ap length_read
        (from_system_type_name-declared base (to_string n) one h (to_string-no_space n))
      ∙ e
      ∙ ap some (length_of-to_string n bytes_per_char)

  -- The declared length of a character or binary type is read, in bytes, as the number times 1, or
  -- times 2 for the Unicode types, where it is 255 at most; a larger length is read as 0.
  pub ReadsLength-declared :
      (n : ℕ)
      → ReadsLength (codes "char") 1 n
        × ReadsLength (codes "varchar") 1 n
        × ReadsLength (codes "nchar") 2 n
        × ReadsLength (codes "nvarchar") 2 n
        × ReadsLength (codes "binary") 1 n
        × ReadsLength (codes "varbinary") 1 n
  unfolding named
  ReadsLength-declared n = (
    reads_length (codes "char") 1 n refl refl refl,
    reads_length (codes "varchar") 1 n refl refl refl,
    reads_length (codes "nchar") 2 n refl refl refl,
    reads_length (codes "nvarchar") 2 n refl refl refl,
    reads_length (codes "binary") 1 n refl refl refl,
    reads_length (codes "varbinary") 1 n refl refl refl,
  )
