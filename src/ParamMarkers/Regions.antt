-- ===== src/ParamMarkers/Regions.antt =====
-- What the scan of param_markers.rs is to find, told character by character: a machine over the
-- lexical regions of T-SQL, with one character of look-ahead. It shares no code with the scan.
use sqlx_mssql_rs.Prelude.{
  ℕ, suc, ◌+◌, Bool, false, ◌&&◌, List, [], ◌∷◌, ◌++◌, Text, codes, ◌==◌, if◌then◌else◌,
}
use sqlx_mssql_rs.Prelude.Decimal.{to_string}

pub data Quote : Type 0 where
  single double bracket : Quote

-- The character that ends a quoted region.
abbrev pub closing : Quote → ℕ
closing single = b'\''
closing double = b'"'
closing bracket = b']'

-- Where the next character stands. `block_open` and `block_close` hold the second character of a
-- comment's delimiter, `escaped` the second one of a doubled delimiter.
pub data Region : Type 0 where
  plain line_comment block_open block_comment block_close : Region
  quoted escaped : Quote → Region

-- Whether the text begins with the character `c`.
abbrev pub begins : ℕ → Text → Bool
begins c [] = false
begins c (x ∷ _) = x == c

-- The region behind the character `c`, which has `after` behind it.
abbrev pub next : Region → ℕ → Text → Region
next plain c after =
    if c == b'-' && begins b'-' after
    then line_comment
    else if c == b'/' && begins b'*' after
    then block_open
    else if c == b'\''
    then quoted single
    else if c == b'"'
    then quoted double
    else if c == b'['
    then quoted bracket
    else plain
next line_comment c after = if c == b'\n' then plain else line_comment
next block_open c after = block_comment
next block_comment c after = if c == b'*' && begins b'/' after then block_close else block_comment
next block_close c after = plain
next (quoted q) c after =
    if c == closing q then (if begins (closing q) after then escaped q else plain) else quoted q
next (escaped q) c after = quoted q

-- A character of the statement: a parameter marker, or text to be left alone.
pub data Tag : Type 0 where
  marker : Tag
  keep : ℕ → Tag

abbrev pub tag : Region → ℕ → Tag
tag plain c = if c == b'?' then marker else keep c
tag _ c = keep c

unfoldable pub classify : Region → Text → List Tag
classify r [] = []
classify r (c ∷ cs) = tag r c ∷ classify (next r c cs) cs

abbrev pub count_markers : List Tag → ℕ
count_markers [] = 0
count_markers (marker ∷ ts) = suc (count_markers ts)
count_markers (keep _ ∷ ts) = count_markers ts

-- The statement with its markers named, after `n` earlier markers.
abbrev pub render : ℕ → List Tag → Text
render n [] = []
render n (marker ∷ ts) = codes "@P" ++ (to_string (n + 1) ++ render (n + 1) ts)
render n (keep c ∷ ts) = c ∷ render n ts
