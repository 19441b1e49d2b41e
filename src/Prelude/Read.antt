-- ===== src/Prelude/Read.antt =====
-- Readers of text, for the specifications that read back what the program writes. A reader gives
-- what it has read and the text behind it.
use Prim.Native.Nat.{ℕ, zero, suc, ◌+◌}
use mathlib.Core.Bool.{Bool, true, false}
use mathlib.Core.List.{[], ◌∷◌, ◌++◌}
use mathlib.Core.Option.{Option, none, some}
use mathlib.Core.Path.{◌≡◌, refl, ◌∙◌, sym, ap, subst}
use native.Mathlib.Omega.{arith}
use native.Mathlib.Numerals.{add-one}
use sqlx_mssql_rs.Prelude.Tests.{◌==◌, ==_refl, if◌then◌else◌}
use sqlx_mssql_rs.Prelude.Lists.{Text}
use sqlx_mssql_rs.Prelude.Decimal.{
  is_digit, AllDigits, value, to_string, to_string-AllDigits, to_string-cons, value-to_string,
}
use sqlx_mssql_rs.Prelude.Int.{ℤ, pos, negsuc, display}

infixl 5 ◌>>=◌
abbrev pub ◌>>=◌ {ℓ κ} : {A : Type ℓ} {B : Type κ} → Option A → (A → Option B) → Option B
none >>= f = none
some a >>= f = f a

-- The text behind the prefix `p`, if it is there.
abbrev pub expect : Text → Text → Option Text
expect [] s = some s
expect (p ∷ ps) [] = none
expect (p ∷ ps) (c ∷ s) = if p == c then expect ps s else none

pub expect-append : (p s : Text) → expect p (p ++ s) ≡ some s
expect-append [] s = refl
expect-append (p ∷ ps) s = rw ==_refl (expect-append ps s)

abbrev pub first : ℕ → Text → Bool
first c [] = false
first c (x ∷ _) = x == c

abbrev pub prepend : ℕ → Option (Text × Text) → Option (Text × Text)
prepend c none = none
prepend c (some (t, s)) = some (c ∷ t, s)

-- The body of a T-SQL string or delimited identifier that `q` closes and in which `q` is written
-- twice; the flag is set behind a first `q`.
unfoldable pub read_delimited : ℕ → Bool → Text → Option (Text × Text)
read_delimited q false [] = none
read_delimited q true [] = some ([], [])
read_delimited q false (c ∷ s) = elim (c == q) [
  | true ↦ read_delimited q true s
  | false ↦ prepend c (read_delimited q false s)
]
read_delimited q true (c ∷ s) = elim (c == q) [
  | true ↦ prepend c (read_delimited q false s)
  | false ↦ some ([], c ∷ s)
]

-- The longest run of digits in front.
abbrev pub span_digits : Text → Text × Text
span_digits [] = ([], [])
span_digits (c ∷ s) =
    let (ds, rest) = span_digits s in if is_digit c then (c ∷ ds, rest) else ([], c ∷ s)

abbrev pub starts_digit : Text → Bool
starts_digit [] = false
starts_digit (c ∷ _) = is_digit c

pub span_digits-append :
    (ds s : Text) → AllDigits ds → starts_digit s ≡ false → span_digits (ds ++ s) ≡ (ds, s)
span_digits-append [] [] h e = refl
span_digits-append [] (c ∷ s) h e = rw e
span_digits-append (d ∷ ds) s h e = rw (h.0, span_digits-append ds s h.1 e)

abbrev negated : ℕ → ℤ
negated zero = pos 0
negated (suc n) = negsuc n

-- A decimal number with an optional minus sign.
unfoldable pub read_int : Text → ℤ × Text
read_int [] = (pos 0, [])
read_int (c ∷ s) =
    if c == b'-'
    then (let (ds, rest) = span_digits s in (negated (value 0 ds), rest))
    else (let (ds, rest) = span_digits (c ∷ s) in (pos (value 0 ds), rest))

read_int_digit :
    (d : ℕ) (s ds rest : Text)
    → is_digit d ≡ true
    → span_digits (d ∷ s) ≡ (ds, rest)
    → read_int (d ∷ s) ≡ (pos (value 0 ds), rest)
unfolding read_int
read_int_digit d s ds rest h e = ground arith

-- Reading an integer as it is displayed gives it back, whatever stands behind it but a digit.
pub read_int-display :
    (z : ℤ) (s : Text) → starts_digit s ≡ false → read_int (display z ++ s) ≡ (z, s)
unfolding display
read_int-display (pos n) s h =
    let (d, ds, e) = to_string-cons n in
    let all = subst AllDigits e (to_string-AllDigits n) in
    let same = ap (value 0) (sym e) ∙ value-to_string n in
    rw e (
      read_int_digit d (ds ++ s) (d ∷ ds) s all.0 (span_digits-append (d ∷ ds) s all h) ∙ λ i.
      (pos (same i), s))
read_int-display (negsuc n) s h =
    unfold read_int in
    rw (span_digits-append (to_string (n + 1)) s (to_string-AllDigits (n + 1)) h)
      (rw value-to_string (rw add-one))

-- Reading a delimited body gives back the text whose `q` were doubled.
unfoldable pub double_char : ℕ → Text → Text
double_char q [] = []
double_char q (c ∷ cs) = if c == q then c ∷ c ∷ double_char q cs else c ∷ double_char q cs

pub read_delimited-double :
    (q : ℕ) (v s : Text)
    → first q s ≡ false
    → read_delimited q false (double_char q v ++ q ∷ s) ≡ some (v, s)
unfolding read_delimited double_char
read_delimited-double q [] [] h = ground arith
read_delimited-double q [] (d ∷ s) h = ground arith
read_delimited-double q (c ∷ v) s h = ground (arith, read_delimited-double q v s h)
