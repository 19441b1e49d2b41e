-- ===== src/Prelude/Ascii.antt =====
-- What the driver uses of Rust's `str` methods on ASCII letters, white space and separators.
use Prim.Native.Nat.{ℕ, suc, ◌+◌}
use mathlib.Core.Bool.{Bool, true, false, not, ◌&&◌, ◌||◌}
use mathlib.Core.List.{List, [], ◌∷◌, ◌++◌, map}
use mathlib.Core.Option.{Option, none, some}
use mathlib.Core.Path.{◌≡◌, refl, sym, ap, ◌∙◌, subst}
use native.Mathlib.Omega.{arith}
use sqlx_mssql_rs.Prelude.Tests.{◌==◌, ==_refl, leb, if◌then◌else◌}
use sqlx_mssql_rs.Prelude.Lists.{Text, length, text_eq, text_eq_refl, text_eq_sound}
use sqlx_mssql_rs.Prelude.Decimal.{
  is_digit, AllDigits, value, to_string, to_string-AllDigits, to_string-cons, value-to_string,
}

-- `char::to_ascii_lowercase`.
abbrev pub lower : ℕ → ℕ
lower c = if leb 65 c && leb c 90 then c + 32 else c

abbrev pub to_ascii_lowercase : Text → Text
to_ascii_lowercase = map lower

unfoldable pub eq_ignore_ascii_case : Text → Text → Bool
eq_ignore_ascii_case s r = text_eq (to_ascii_lowercase s) (to_ascii_lowercase r)

pub eq_ignore_ascii_case_refl : (s : Text) → eq_ignore_ascii_case s s ≡ true
unfolding eq_ignore_ascii_case
eq_ignore_ascii_case_refl s = text_eq_refl (to_ascii_lowercase s)

eq_ignore_ascii_case_sound :
    (s r : Text) → eq_ignore_ascii_case s r ≡ true → to_ascii_lowercase s ≡ to_ascii_lowercase r
unfolding eq_ignore_ascii_case
eq_ignore_ascii_case_sound s r h = text_eq_sound (to_ascii_lowercase s) (to_ascii_lowercase r) h

eq_ignore_ascii_case_complete :
    (s r : Text) → to_ascii_lowercase s ≡ to_ascii_lowercase r → eq_ignore_ascii_case s r ≡ true
unfolding eq_ignore_ascii_case
eq_ignore_ascii_case_complete s r h = rw h (text_eq_refl (to_ascii_lowercase r))

pub eq_ignore_ascii_case_sym :
    (s r : Text) → eq_ignore_ascii_case s r ≡ true → eq_ignore_ascii_case r s ≡ true
eq_ignore_ascii_case_sym s r h =
    eq_ignore_ascii_case_complete r s (sym (eq_ignore_ascii_case_sound s r h))

pub eq_ignore_ascii_case_trans :
    (s r q : Text)
    → eq_ignore_ascii_case s r ≡ true
    → eq_ignore_ascii_case r q ≡ true
    → eq_ignore_ascii_case s q ≡ true
eq_ignore_ascii_case_trans s r q h k =
    eq_ignore_ascii_case_complete s q
      (eq_ignore_ascii_case_sound s r h ∙ eq_ignore_ascii_case_sound r q k)

-- `char::is_whitespace`, Unicode's `White_Space`.
abbrev pub is_whitespace : ℕ → Bool
is_whitespace c =
    (leb 9 c && leb c 13)
    || c == 32
    || c == 133
    || c == 160
    || c == 5760
    || (leb 8192 c && leb c 8202)
    || c == 8232
    || c == 8233
    || c == 8239
    || c == 8287
    || c == 12288

abbrev pub trim_start : Text → Text
trim_start [] = []
trim_start (c ∷ s) = let rest = trim_start s in if is_whitespace c then rest else c ∷ s

abbrev keep : ℕ → Text → Text
keep c [] = if is_whitespace c then [] else c ∷ []
keep c (d ∷ s) = c ∷ d ∷ s

abbrev pub trim_end : Text → Text
trim_end [] = []
trim_end (c ∷ s) = keep c (trim_end s)

-- `str::trim`.
unfoldable pub trim : Text → Text
trim s = trim_end (trim_start s)

abbrev pub no_space : Text → Bool
no_space [] = true
no_space (c ∷ s) = not (is_whitespace c) && no_space s

no_space-split : (a b : Bool) → (not a && b) ≡ true → (a ≡ false) × (b ≡ true)
no_space-split true b h = cc
no_space-split false b h = (refl, h)

trim_start_id : (s : Text) → no_space s ≡ true → trim_start s ≡ s
trim_start_id [] h = refl
trim_start_id (c ∷ s) h = rw ((no_space-split (is_whitespace c) (no_space s) h).0) refl

trim_end_id : (s : Text) → no_space s ≡ true → trim_end s ≡ s
trim_end_id [] h = refl
trim_end_id (c ∷ []) h = rw ((no_space-split (is_whitespace c) true h).0) refl
trim_end_id (c ∷ d ∷ s) h =
    ap (keep c) (trim_end_id (d ∷ s) (no_space-split (is_whitespace c) (no_space (d ∷ s)) h).1)

-- A text without white space is its own trim.
pub trim_id : (s : Text) → no_space s ≡ true → trim s ≡ s
unfolding trim
trim_id s h = rw (trim_start_id s h) (trim_end_id s h)

pub no_space-append :
    (s r : Text) → no_space s ≡ true → no_space r ≡ true → no_space (s ++ r) ≡ true
no_space-append [] r h k = k
no_space-append (c ∷ s) r h k =
    let (e, r') = no_space-split (is_whitespace c) (no_space s) h in rw e (no_space-append s r r' k)

-- `str::rfind` of a character.
abbrev pub rfind : ℕ → Text → Option ℕ
rfind c [] = none
rfind c (x ∷ s) = elim (rfind c s) [
  | some i ↦ some (suc i)
  | none ↦ if x == c then some 0 else none
]

pub rfind_last : (c : ℕ) (s : Text) → rfind c (s ++ c ∷ []) ≡ some (length s)
rfind_last c [] = rw ==_refl refl
rfind_last c (x ∷ s) = rw (rfind_last c s) refl

abbrev push_first : ℕ → List Text → List Text
push_first c [] = (c ∷ []) ∷ []
push_first c (t ∷ ts) = (c ∷ t) ∷ ts

-- `str::split` at a character.
abbrev pub split : ℕ → Text → List Text
split q [] = [] ∷ []
split q (c ∷ s) = let rest = split q s in if c == q then [] ∷ rest else push_first c rest

abbrev pub all_digits : Text → Bool
all_digits [] = true
all_digits (c ∷ s) = is_digit c && all_digits s

abbrev pub digits_up_to : ℕ → Text → Option ℕ
digits_up_to most [] = none
digits_up_to most (c ∷ s) =
    if all_digits (c ∷ s) && leb (value 0 (c ∷ s)) most then some (value 0 (c ∷ s)) else none

-- `str::parse` into an unsigned integer of a largest value, which takes one leading plus sign.
unfoldable pub parse_unsigned : ℕ → Text → Option ℕ
parse_unsigned most [] = none
parse_unsigned most (c ∷ s) = if c == b'+' then digits_up_to most s else digits_up_to most (c ∷ s)

abbrev pub parse_u8 : Text → Option ℕ
parse_u8 s = parse_unsigned 255 s

digit_no_space : (c : ℕ) → is_digit c ≡ true → is_whitespace c ≡ false
digit_no_space c h = ground arith

digits_no_space : (ds : Text) → AllDigits ds → no_space ds ≡ true
digits_no_space [] h = refl
digits_no_space (c ∷ ds) h = rw (digit_no_space c h.0) (digits_no_space ds h.1)

pub to_string-no_space : (n : ℕ) → no_space (to_string n) ≡ true
to_string-no_space n = digits_no_space (to_string n) (to_string-AllDigits n)

pub AllDigits-all_digits : (ds : Text) → AllDigits ds → all_digits ds ≡ true
AllDigits-all_digits [] h = refl
AllDigits-all_digits (c ∷ ds) h = rw h.0 (AllDigits-all_digits ds h.1)

digit_no_plus : (c : ℕ) → is_digit c ≡ true → (c == b'+') ≡ false
digit_no_plus c h = ground arith

digit_no_comma : (c : ℕ) → is_digit c ≡ true → (c == b',') ≡ false
digit_no_comma c h = ground arith

-- A printed number is parsed back where it fits into 8 bits, and not parsed otherwise.
pub parse_u8-to_string : (n : ℕ) → parse_u8 (to_string n) ≡ (if leb n 255 then some n else none)
unfolding parse_unsigned
parse_u8-to_string n =
    let (c, ds, e) = to_string-cons n in
    let all = subst AllDigits e (to_string-AllDigits n) in
    let same = ap (value 0) (sym e) ∙ value-to_string n in
    rw e (rw (digit_no_plus c all.0) (rw (AllDigits-all_digits (c ∷ ds) all) (rw same refl)))

split_digits : (ds : Text) → AllDigits ds → split b',' ds ≡ ds ∷ []
split_digits [] h = refl
split_digits (c ∷ ds) h = rw (split_digits ds h.1) (rw (digit_no_comma c h.0) refl)

split_digits_comma : (ds s : Text) → AllDigits ds → split b',' (ds ++ b',' ∷ s) ≡ ds ∷ split b',' s
split_digits_comma [] s h = refl
split_digits_comma (c ∷ ds) s h = rw (split_digits_comma ds s h.1) (rw (digit_no_comma c h.0) refl)

pub split-to_string : (n : ℕ) → split b',' (to_string n) ≡ to_string n ∷ []
split-to_string n = split_digits (to_string n) (to_string-AllDigits n)

pub split-to_string_pair :
    (m n : ℕ) → split b',' (to_string m ++ b',' ∷ to_string n) ≡ to_string m ∷ to_string n ∷ []
split-to_string_pair m n =
    split_digits_comma (to_string m) (to_string n) (to_string-AllDigits m)
    ∙ ap (◌∷◌ (to_string m)) (split-to_string n)
