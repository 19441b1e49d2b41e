-- ===== src/Prelude/Int.antt =====
-- Signed integers over the native numbers, and their decimal notation.
use Prim.Native.Nat.{ℕ, ◌+◌}
use mathlib.Core.List.{◌∷◌}
use sqlx_mssql_rs.Prelude.Lists.{Text}
use sqlx_mssql_rs.Prelude.Decimal.{to_string}

-- `negsuc n` is -(n + 1).
pub data ℤ : Type 0 where
  pos : ℕ → ℤ
  negsuc : ℕ → ℤ

-- `i64::to_string`.
unfoldable pub display : ℤ → Text
display (pos n) = to_string n
display (negsuc n) = b'-' ∷ to_string (n + 1)
