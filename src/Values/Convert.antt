-- ===== src/Values/Convert.antt =====
-- The text functions of value.rs in sqlx-mssql-rs-core/src, and what they use of Rust's standard
-- library.
use sqlx_mssql_rs.Prelude.{
  ℕ, ◌+◌, ◌-◌, ◌*◌, ◌/◌, ◌%◌, List, [], ◌∷◌, ◌++◌, Bool, true, false, ◌&&◌, ◌||◌, Option, none,
  some, ◌==◌, ltb, leb, if◌then◌else◌, Text, codes, text_eq, take, drop,
}
use sqlx_mssql_rs.Prelude.Ascii.{digits_up_to, to_ascii_lowercase, trim}
use sqlx_mssql_rs.Prelude.Int.{ℤ, pos, negsuc}

-- `Option::or_else`.
abbrev pub or_else : Option ℤ → Option ℤ → Option ℤ
or_else none other = other
or_else (some z) other = some z

abbrev negated : ℕ → ℤ
negated n = if n == 0 then pos 0 else negsuc (n - 1)

abbrev signed : (ℕ → ℤ) → Option ℕ → Option ℤ
signed sign none = none
signed sign (some n) = some (sign n)

-- `str::parse::<i64>`.
unfoldable pub parse_i64 : Text → Option ℤ
parse_i64 [] = none
parse_i64 (c ∷ s) =
    if c == b'-'
    then signed negated (digits_up_to 9223372036854775808 s)
    else if c == b'+'
    then signed pos (digits_up_to 9223372036854775807 s)
    else signed pos (digits_up_to 9223372036854775807 (c ∷ s))

unfoldable pub parse_bool_text : Text → Option Bool
unfolding trim
parse_bool_text text =
    let word = to_ascii_lowercase (trim text) in
    if text_eq word (codes "1") || text_eq word (codes "true")
    then some true
    else if text_eq word (codes "0") || text_eq word (codes "false")
    then some false
    else none

-- `str::as_bytes`: the UTF-8 of a text.
abbrev utf8_char : ℕ → List ℕ
utf8_char c =
    if ltb c 0x80
    then c ∷ []
    else if ltb c 0x800
    then (0xc0 + c / 0x40) ∷ (0x80 + c % 0x40) ∷ []
    else if ltb c 0x10000
    then (0xe0 + c / 0x1000) ∷ (0x80 + c / 0x40 % 0x40) ∷ (0x80 + c % 0x40) ∷ []
    else (0xf0 + c / 0x40000)
      ∷ (0x80 + c / 0x1000 % 0x40)
      ∷ (0x80 + c / 0x40 % 0x40)
      ∷ (0x80 + c % 0x40)
      ∷ []

unfoldable pub utf8 : Text → List ℕ
utf8 [] = []
utf8 (c ∷ s) = utf8_char c ++ utf8 s

-- `String::from_utf16_lossy`.
abbrev pub is_surrogate : ℕ → Bool
is_surrogate u = leb 0xd800 u && leb u 0xdfff

abbrev pub is_pair : ℕ → ℕ → Bool
is_pair u v = leb 0xd800 u && leb u 0xdbff && leb 0xdc00 v && leb v 0xdfff

unfoldable pub from_utf16_lossy : List ℕ → Text
from_utf16_lossy [] = []
from_utf16_lossy (u ∷ []) = (if is_surrogate u then 0xfffd else u) ∷ []
from_utf16_lossy (u ∷ v ∷ us) =
    let paired = (0x10000 + (u - 0xd800) * 0x400 + (v - 0xdc00)) ∷ from_utf16_lossy us in
    let single = (if is_surrogate u then 0xfffd else u) ∷ from_utf16_lossy (v ∷ us) in
    if is_pair u v then paired else single

-- The loop of `utf16le_to_string`, which leaves an odd last byte.
unfoldable pub utf16_units : List ℕ → List ℕ
utf16_units [] = []
utf16_units (a ∷ []) = []
utf16_units (a ∷ b ∷ bytes) = (a + 256 * b) ∷ utf16_units bytes

unfoldable pub utf16le_to_string : List ℕ → Text
unfolding utf16_units from_utf16_lossy
utf16le_to_string bytes = from_utf16_lossy (utf16_units bytes)

-- `format!("{byte:02x}")` of bytes one after the other.
abbrev pub lower_hex : ℕ → ℕ
lower_hex d = if ltb d 10 then 48 + d else 87 + d

abbrev pub hex : List ℕ → Text
hex [] = []
hex (byte ∷ bytes) = lower_hex (byte / 16) ∷ lower_hex (byte % 16) ∷ hex bytes

-- The bytes from one index to another.
abbrev pub range : ℕ → ℕ → List ℕ → List ℕ
range start end bytes = take (end - start) (drop start bytes)

unfoldable pub guid_to_string : List ℕ → Text
guid_to_string bytes =
    hex (range 0 4 bytes)
    ++ b'-'
      ∷ (hex (range 4 6 bytes)
          ++ b'-'
            ∷ (hex (range 6 8 bytes)
                ++ b'-' ∷ (hex (range 8 10 bytes) ++ b'-' ∷ hex (range 10 16 bytes))))
