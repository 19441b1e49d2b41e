-- ===== src/ParamMarkers.antt =====
-- sqlx-mssql-rs-core/src/param_markers.rs: the rewriting of `?` markers into `@P1`, `@P2`, ...
-- A `&str` is the list of its characters. An index into it, which the source keeps on a character
-- boundary, is the text that is left from there on, so `sql[index..]` is that text.
pub mod Regions
pub mod Step
pub mod Rewrite
pub mod Idempotent
use sqlx_mssql_rs.Prelude.{
  ℕ, zero, suc, ◌+◌, true, false, ◌&&◌, Option, none, some, [], ◌∷◌, ◌++◌, Text, codes, length,
  take, drop, find, starts_with, ◌==◌, if◌then◌else◌,
}
use sqlx_mssql_rs.Prelude.Decimal.{to_string}

-- The variables of the loop: what is written, how many markers, and `sql[index..]`.
pub record Scanner : Type 0 where
  pub output : Text
  pub markers : ℕ
  pub rest : Text

-- The `while` of `copy_quoted`, from behind the opening delimiter.
unfoldable pub copy_quoted_loop : ℕ → Text → Text → Text × Text
copy_quoted_loop closing output [] = (output, [])
copy_quoted_loop closing output (ch ∷ []) = (output ++ ch ∷ [], [])
copy_quoted_loop closing output (ch ∷ next ∷ rest) = elim (ch == closing) [
  | true ↦ elim (next == closing) [
    | true ↦ copy_quoted_loop closing (output ++ closing ∷ closing ∷ []) rest
    | false ↦ (output ++ closing ∷ [], next ∷ rest)
  ]
  | false ↦ copy_quoted_loop closing (output ++ ch ∷ []) (next ∷ rest)
]

-- `copy_quoted` at the delimiter `opening`.
unfoldable pub copy_quoted : ℕ → ℕ → Text → Scanner → Scanner
unfolding copy_quoted_loop
copy_quoted closing opening rest s =
    let (output, rest') = copy_quoted_loop closing (s.output ++ opening ∷ []) rest in
    record s { output = output; rest = rest' }

-- `push_str(&sql[index..end]); index = end`, where `index + offset` is `end`.
abbrev pub copy_through : ℕ → Text → Scanner → Scanner
copy_through offset sql s = record s {
  output = s.output ++ take offset sql;
  rest = drop offset sql;
}

abbrev pub offset_or : Option ℕ → ℕ → ℕ
offset_or none d = d
offset_or (some i) d = i

-- `map_or(sql.len(), |offset| index + offset)` of a search for the end of the line.
abbrev pub line_end : Text → ℕ
line_end sql = offset_or (find (codes "\n") sql) (length sql)

-- `map_or(sql.len(), |offset| index + 2 + offset + 2)` of a search in `sql[index + 2..]`.
abbrev pub block_end : Text → ℕ
block_end sql = elim (find (codes "*/") (drop 2 sql)) [
  | none ↦ length sql
  | some offset ↦ suc (suc (offset + 2))
]

-- One round of the loop, at the character `ch` with `after` behind it.
unfoldable pub rewrite_step : ℕ → Text → Scanner → Scanner
unfolding copy_quoted
rewrite_step ch after s =
    if ch == b'-' && starts_with (codes "--") (ch ∷ after)
    then copy_through (line_end (ch ∷ after)) (ch ∷ after) s
    else if ch == b'/' && starts_with (codes "/*") (ch ∷ after)
    then copy_through (block_end (ch ∷ after)) (ch ∷ after) s
    else if ch == b'\''
    then copy_quoted b'\'' ch after s
    else if ch == b'"'
    then copy_quoted b'"' ch after s
    else if ch == b'['
    then copy_quoted b']' ch after s
    else if ch == b'?'
    then record s {
      output = s.output ++ codes "@P" ++ to_string (s.markers + 1);
      markers = s.markers + 1;
      rest = after;
    }
    else record s { output = s.output ++ ch ∷ []; rest = after }

-- `while index < sql.len()`; `none` means that the fuel ran out.
unfoldable pub rewrite_loop : ℕ → Text → Scanner → Option (Text × ℕ)
rewrite_loop fuel [] s = some (s.output, s.markers)
rewrite_loop zero (ch ∷ after) s = none
rewrite_loop (suc fuel) (ch ∷ after) s =
    let s' = rewrite_step ch after s in rewrite_loop fuel s'.rest s'

-- Every round moves on by a character at least, so `length sql` rounds are enough.
unfoldable pub rewrite_param_markers : Text → Option (Text × ℕ)
unfolding rewrite_step rewrite_loop
rewrite_param_markers sql =
    rewrite_loop (length sql) sql (record { output = []; markers = 0; rest = sql })
