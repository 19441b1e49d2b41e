-- ===== src/Values/Guid.antt =====
-- Reading back what `guid_to_string` of value.rs in sqlx-mssql-rs-core/src renders.
use mathlib.Core.Path.{refl}
use sqlx_mssql_rs.Prelude.{
  ℕ, zero, suc, ◌+◌, ◌-◌, ◌*◌, ◌/◌, ◌%◌, ◌<◌, ◌≡◌, ap, sym, append-nil, ◌∙◌, List, [], ◌∷◌, ◌++◌,
  Option, none, some, leb, ◌==◌, ◌&&◌, if◌then◌else◌, Text, arith, length,
}
use sqlx_mssql_rs.Prelude.Read.{◌>>=◌}
use sqlx_mssql_rs.Values.Convert.{lower_hex, hex, guid_to_string}

-- The value of a lower-case hexadecimal digit.
abbrev pub digit_of : ℕ → Option ℕ
digit_of c =
    if leb 48 c && leb c 57
    then some (c - 48)
    else if leb 97 c && leb c 102
    then some (c - 87)
    else none

-- That many bytes of two digits each, and what stands behind them.
abbrev pub read_hex : ℕ → Text → Option (List ℕ × Text)
read_hex zero s = some ([], s)
read_hex (suc n) [] = none
read_hex (suc n) (a ∷ []) = none
read_hex (suc n) (a ∷ b ∷ s) = do
  hi ← digit_of a
  lo ← digit_of b
  (bytes, rest) ← read_hex n s
  some ((hi * 16 + lo) ∷ bytes, rest)

abbrev pub read_dash : Text → Option Text
read_dash [] = none
read_dash (c ∷ s) = if c == b'-' then some s else none

-- The 8-4-4-4-12 form of a GUID, with nothing behind it.
abbrev pub read_guid : Text → Option (List ℕ)
read_guid text = do
  (a, s) ← read_hex 4 text
  s ← read_dash s
  (b, s) ← read_hex 2 s
  s ← read_dash s
  (c, s) ← read_hex 2 s
  s ← read_dash s
  (d, s) ← read_hex 2 s
  s ← read_dash s
  (e, s) ← read_hex 6 s
  elim s [ [] ↦ some (a ++ (b ++ (c ++ (d ++ e)))) | _ ∷ _ ↦ none ]

digit_of-lower_hex : (n : ℕ) → n < 16 → digit_of (lower_hex n) ≡ some n
digit_of-lower_hex n h = ground arith

abbrev pub AreBytes : List ℕ → Type 0
AreBytes [] = Unit {0}
AreBytes (b ∷ bs) = (b < 256) × AreBytes bs

read_hex-hex :
    (bytes : List ℕ) (s : Text)
    → AreBytes bytes
    → read_hex (length bytes) (hex bytes ++ s) ≡ some (bytes, s)
read_hex-hex [] s h = refl
read_hex-hex (b ∷ bs) s (h, hs) =
    let whole : b / 16 * 16 + b % 16 ≡ b = omega arith in
    rw (digit_of-lower_hex (b / 16) (omega (arith, h))) (
      rw (digit_of-lower_hex (b % 16) (omega arith))
        (rw (read_hex-hex bs s hs) (ap (λ n. some (n ∷ bs, s)) whole)))

-- The text of the 16 bytes of a `uniqueidentifier` is in the form 8-4-4-4-12, and the bytes are read
-- back from it.
pub read_guid-guid_to_string :
    (bytes : List ℕ)
    → length bytes ≡ 16
    → AreBytes bytes
    → read_guid (guid_to_string bytes) ≡ some bytes
unfolding guid_to_string
read_guid-guid_to_string
      (b0 ∷ b1 ∷ b2 ∷ b3 ∷ b4 ∷ b5 ∷ b6 ∷ b7 ∷ b8 ∷ b9 ∷ b10 ∷ b11 ∷ b12 ∷ b13 ∷ b14 ∷ b15 ∷ []) n
      h =
    rw
      (read_hex-hex (b0 ∷ b1 ∷ b2 ∷ b3 ∷ [])
        (b'-'
          ∷ (hex (b4 ∷ b5 ∷ [])
              ++ b'-'
                ∷ (hex (b6 ∷ b7 ∷ [])
                    ++ b'-'
                      ∷ (hex (b8 ∷ b9 ∷ [])
                          ++ b'-' ∷ (hex (b10 ∷ b11 ∷ b12 ∷ b13 ∷ b14 ∷ b15 ∷ []))))))
        (h.0, (h.1.0, (h.1.1.0, (h.1.1.1.0, tt)))))
      (rw
        (read_hex-hex (b4 ∷ b5 ∷ [])
          (b'-'
            ∷ (hex (b6 ∷ b7 ∷ [])
                ++ b'-'
                  ∷ (hex (b8 ∷ b9 ∷ []) ++ b'-' ∷ (hex (b10 ∷ b11 ∷ b12 ∷ b13 ∷ b14 ∷ b15 ∷ [])))))
          (h.1.1.1.1.0, (h.1.1.1.1.1.0, tt)))
        (rw
          (read_hex-hex (b6 ∷ b7 ∷ [])
            (b'-' ∷ (hex (b8 ∷ b9 ∷ []) ++ b'-' ∷ (hex (b10 ∷ b11 ∷ b12 ∷ b13 ∷ b14 ∷ b15 ∷ []))))
            (h.1.1.1.1.1.1.0, (h.1.1.1.1.1.1.1.0, tt)))
          (rw
            (read_hex-hex (b8 ∷ b9 ∷ []) (b'-' ∷ (hex (b10 ∷ b11 ∷ b12 ∷ b13 ∷ b14 ∷ b15 ∷ [])))
              (h.1.1.1.1.1.1.1.1.0, (h.1.1.1.1.1.1.1.1.1.0, tt)))
            (rw
              (ap (read_hex 6) (sym (append-nil (hex (b10 ∷ b11 ∷ b12 ∷ b13 ∷ b14 ∷ b15 ∷ []))))
                ∙ read_hex-hex (b10 ∷ b11 ∷ b12 ∷ b13 ∷ b14 ∷ b15 ∷ []) [] (
                  h.1.1.1.1.1.1.1.1.1.1.0,
                  (
                    h.1.1.1.1.1.1.1.1.1.1.1.0,
                    (
                      h.1.1.1.1.1.1.1.1.1.1.1.1.0,
                      (
                        h.1.1.1.1.1.1.1.1.1.1.1.1.1.0,
                        (h.1.1.1.1.1.1.1.1.1.1.1.1.1.1.0, (h.1.1.1.1.1.1.1.1.1.1.1.1.1.1.1.0, tt)),
                      ),
                    ),
                  ),
                ))
              refl))))
read_guid-guid_to_string _ n h = absurd (omega (arith, n))
