-- ===== src/Values/Decoders.antt =====
-- The other decoders of value.rs in sqlx-mssql-rs-core/src.
use sqlx_mssql_rs.Prelude.{ℕ, Bool, Option, none, some, List, Text, codes}
use sqlx_mssql_rs.Values.{Foreign, MssqlValue, as_bool, as_f64, as_bytes, decode_error}
use sqlx_mssql_rs.Values.Integers.{Decoded, decoded, undecodable}

-- `ok_or_else` with `decode_error`.
abbrev pub decoded_or : {V A : Type 0} → MssqlValue V → Text → Text → Option A → Decoded A
decoded_or v target reason none = undecodable (decode_error v.type_info.type_name target reason)
decoded_or v target reason (some a) = decoded a

module _ {V : Type 0} (foreign : Foreign V) where
  unfoldable pub decode_bool : MssqlValue V → Decoded Bool
  decode_bool v =
      decoded_or v (codes "bool") (codes "source value is not boolean-compatible")
        (as_bool foreign v)

  -- `value as f32` is a parameter.
  unfoldable pub decode_f32 : (ℕ → ℕ) → MssqlValue V → Decoded ℕ
  decode_f32 as_f32 v =
      decoded_or v (codes "f32") (codes "source value is not numeric")
        (elim (as_f64 foreign v) [ none ↦ none | some x ↦ some (as_f32 x) ])

  unfoldable pub decode_f64 : MssqlValue V → Decoded ℕ
  decode_f64 v = decoded_or v (codes "f64") (codes "source value is not numeric") (as_f64 foreign v)

  unfoldable pub decode_string : MssqlValue V → Decoded Text
  decode_string v = elim v.text [
    | some text ↦ decoded text
    | none ↦ elim (as_bytes foreign v) [
      | some bytes ↦ decoded (foreign.from_utf8_lossy bytes)
      | none ↦ decoded_or v (codes "String") (codes "source value is not text-compatible") none
    ]
  ]

  unfoldable pub decode_str : MssqlValue V → Decoded Text
  decode_str v = decoded_or v (codes "&str") (codes "source value is not borrowed text") v.text

  unfoldable pub decode_vec : MssqlValue V → Decoded (List ℕ)
  decode_vec v =
      decoded_or v (codes "Vec<u8>") (codes "source value is not bytes") (as_bytes foreign v)

  unfoldable pub decode_slice : MssqlValue V → Decoded (List ℕ)
  decode_slice v =
      decoded_or v (codes "&[u8]") (codes "source value is not borrowed bytes") (as_bytes foreign v)
