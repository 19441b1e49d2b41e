-- ===== src/Prelude/Decimal.antt =====
-- Decimal notation: `to_string` of an unsigned number, and the reading of its digits.
use Prim.Native.Nat.{ℕ, zero, suc, ◌+◌, ◌-◌, ◌*◌, ◌/◌, ◌%◌, ◌<◌}
use mathlib.Core.Path.{◌≡◌, refl, sym, ◌∙◌}
use mathlib.Core.Bool.{Bool, true, ◌&&◌}
use mathlib.Core.Logic.{inl, inr}
use mathlib.Core.List.{[], ◌∷◌, ◌++◌}
use native.Mathlib.Omega.{arith}
use sqlx_mssql_rs.Prelude.Tests.{ltb, leb, if◌then◌else◌, Bool-cases, ltb→lt}
use sqlx_mssql_rs.Prelude.Lists.{Text}

digits : ℕ → ℕ → Text
digits zero n = []
digits (suc f) n =
    let more = digits f (n / 10) in if ltb n 10 then (48 + n) ∷ [] else more ++ (48 + n % 10) ∷ []

-- `n.to_string()`; every division takes a round, so `n + 1` rounds are enough.
unfoldable pub to_string : ℕ → Text
unfolding digits
to_string n = digits (suc n) n

-- `b'0' <= c && c <= b'9'`
abbrev pub is_digit : ℕ → Bool
is_digit c = leb 48 c && leb c 57

-- The value of decimal digits, most significant first, after a prefix of value `acc`.
abbrev pub value : ℕ → Text → ℕ
value acc [] = acc
value acc (c ∷ cs) = value (acc * 10 + (c - 48)) cs

abbrev pub AllDigits : Text → Type 0
AllDigits [] = Unit
AllDigits (c ∷ cs) = (is_digit c ≡ true) × AllDigits cs

AllDigits-append : (xs ys : Text) → AllDigits xs → AllDigits ys → AllDigits (xs ++ ys)
AllDigits-append [] ys hx hy = hy
AllDigits-append (x ∷ xs) ys hx hy = (hx.0, AllDigits-append xs ys hx.1 hy)

value-append : (acc : ℕ) (xs ys : Text) → value acc (xs ++ ys) ≡ value (value acc xs) ys
value-append acc [] ys = refl
value-append acc (x ∷ xs) ys = value-append (acc * 10 + (x - 48)) xs ys

digit_fact : (n : ℕ) → n < 10 → is_digit (48 + n) ≡ true
digit_fact n h = ground arith

digits-AllDigits : (f n : ℕ) → AllDigits (digits f n)
unfolding digits
digits-AllDigits zero n = tt
digits-AllDigits (suc f) n = elim (Bool-cases (ltb n 10)) [
  | inl small ↦ rw small (digit_fact n (ltb→lt n 10 small), tt)
  | inr large ↦ rw large (
      AllDigits-append (digits f (n / 10)) ((48 + n % 10) ∷ []) (digits-AllDigits f (n / 10))
        (digit_fact (n % 10) (omega arith), tt))
]

value-digits : (f n : ℕ) → n < f → value 0 (digits f n) ≡ n
unfolding digits
value-digits zero n h = absurd (omega arith)
value-digits (suc f) n h = elim (Bool-cases (ltb n 10)) [
  | inl small ↦ rw small (omega arith)
  | inr large ↦ rw large (
      value-append 0 (digits f (n / 10)) ((48 + n % 10) ∷ [])
      ∙ rw (value-digits f (n / 10) (ground arith)) (omega arith))
]

-- The printed number has decimal digits only.
pub to_string-AllDigits : (n : ℕ) → AllDigits (to_string n)
unfolding to_string
to_string-AllDigits n = digits-AllDigits (suc n) n

-- Reading the digits gives the number back.
pub value-to_string : (n : ℕ) → value 0 (to_string n) ≡ n
unfolding to_string
value-to_string n = value-digits (suc n) n (omega arith)

pub to_string-injective : (m n : ℕ) → to_string m ≡ to_string n → m ≡ n
to_string-injective m n e = sym (value-to_string m) ∙ rw e (value-to_string n)

snoc-cons : (xs : Text) (x : ℕ) → (d : ℕ) × (ds : Text) × (xs ++ x ∷ [] ≡ d ∷ ds)
snoc-cons [] x = (x, [], refl)
snoc-cons (d ∷ xs) x = (d, xs ++ x ∷ [], refl)

-- There is a first digit.
pub to_string-cons : (n : ℕ) → (d : ℕ) × (ds : Text) × (to_string n ≡ d ∷ ds)
unfolding to_string
to_string-cons n = elim (Bool-cases (ltb n 10)) [
  | inl small ↦ (48 + n, [], rw small)
  | inr large ↦ rw large (snoc-cons (digits n (n / 10)) (48 + n % 10))
]
