-- ===== src/Prelude/Bytes.antt =====
-- Little-endian bytes, and the conversions between `usize`, `u32` and `i32`.
use sqlx_mssql_rs.Prelude.{
  ℕ, zero, suc, ◌+◌, ◌-◌, ◌*◌, ◌/◌, ◌%◌, ◌<◌, ◌≡◌, Bool, false, List, [], ◌∷◌, arith, ltb, ◌==◌,
  if◌then◌else◌,
}
use sqlx_mssql_rs.Prelude.Int.{ℤ, pos, negsuc}

-- `to_le_bytes` of a value of that many bytes, and `from_le_bytes`.
abbrev pub to_le_bytes : ℕ → ℕ → List ℕ
to_le_bytes zero n = []
to_le_bytes (suc width) n = (n % 256) ∷ to_le_bytes width (n / 256)

abbrev pub from_le_bytes : List ℕ → ℕ
from_le_bytes [] = 0
from_le_bytes (b ∷ bs) = b + 256 * from_le_bytes bs

pub from_le_bytes-to_le_bytes_4 : (n : ℕ) → n < 4294967296 → from_le_bytes (to_le_bytes 4 n) ≡ n
from_le_bytes-to_le_bytes_4 n h = omega arith

pub from_le_bytes-to_le_bytes_8 :
    (n : ℕ) → n < 18446744073709551616 → from_le_bytes (to_le_bytes 8 n) ≡ n
from_le_bytes-to_le_bytes_8 n h = omega arith

-- The two's complement pattern of an `i32`, and the `i32` of a pattern.
abbrev pub i32_bits : ℤ → ℕ
i32_bits (pos n) = n % 4294967296
i32_bits (negsuc n) = 4294967295 - n % 4294967296

abbrev pub i32_of_bits : ℕ → ℤ
i32_of_bits n = if ltb n 2147483648 then pos n else negsuc (4294967295 - n)

abbrev pub IsI32 : ℤ → Type 0
IsI32 (pos n) = n < 2147483648
IsI32 (negsuc n) = n < 2147483648

pub i32_bits-lt : (z : ℤ) → i32_bits z < 4294967296
i32_bits-lt (pos n) = omega arith
i32_bits-lt (negsuc n) = omega arith

pub i32_of_bits-i32_bits : (z : ℤ) → IsI32 z → i32_of_bits (i32_bits z) ≡ z
i32_of_bits-i32_bits (pos n) h = ground arith
i32_of_bits-i32_bits (negsuc n) h = ground arith

pub i32_of_bits-IsI32 : (n : ℕ) → n < 4294967296 → IsI32 (i32_of_bits n)
i32_of_bits-IsI32 n h = ground arith

-- `n as u32` and `n as i32` of a `usize`.
abbrev pub as_u32 : ℕ → ℕ
as_u32 n = n % 4294967296

abbrev pub as_i32 : ℕ → ℤ
as_i32 n = i32_of_bits (n % 4294967296)

pub as_i32_small : (n : ℕ) → n < 2147483648 → as_i32 n ≡ pos n
as_i32_small n h = ground arith

pub as_i32_inj : (m n : ℕ) → m < 4294967296 → n < 4294967296 → as_i32 m ≡ as_i32 n → m ≡ n
as_i32_inj m n h k e = ground arith

abbrev pub int_eq : ℤ → ℤ → Bool
int_eq (pos m) (pos n) = m == n
int_eq (negsuc m) (negsuc n) = m == n
int_eq (pos _) (negsuc _) = false
int_eq (negsuc _) (pos _) = false
