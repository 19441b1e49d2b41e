-- ===== src/Options/Percent.antt =====
-- `percent_decode` of options.rs undoes the percent-encoding of bytes.
use sqlx_mssql_rs.Prelude.{
  ℕ, ◌+◌, ◌*◌, ◌/◌, ◌%◌, ◌<◌, ◌≡◌, refl, sym, ap, ◌∙◌, Bool, true, false, ◌||◌, some, [], ◌∷◌,
  arith, Text, holds, ltb, ◌==◌, ==_iff, if◌then◌else◌, inl, inr, Bool-cases,
}
use sqlx_mssql_rs.Options.{hex_digit, hex_byte, percent_decode_loop, percent_decode_bytes}

-- A digit of an escape, with capital letters.
abbrev digit : ℕ → ℕ
digit d = if ltb d 10 then 48 + d else 55 + d

-- Percent-encoding in which the bytes that `literal` tells may stand for themselves.
abbrev pub percent_encode : (ℕ → Bool) → Text → Text
percent_encode literal [] = []
percent_encode literal (c ∷ s) =
    if literal c
    then c ∷ percent_encode literal s
    else b'%' ∷ digit (c / 16) ∷ digit (c % 16) ∷ percent_encode literal s

abbrev pub AllBytes : Text → Type 0
AllBytes [] = Unit
AllBytes (c ∷ s) = (c < 256) × AllBytes s

hex_digit-digit : (d : ℕ) → d < 16 → hex_digit (digit d) ≡ some d
hex_digit-digit d h = ground arith

digit_no_plus : (d : ℕ) → d < 16 → (digit d == b'+') ≡ false
digit_no_plus d h = ground arith

hex_byte-digits : (c : ℕ) → c < 256 → hex_byte (digit (c / 16)) (digit (c % 16)) ≡ some c
hex_byte-digits c h =
    rw
      (
        digit_no_plus (c / 16) (omega arith),
        hex_digit-digit (c / 16) (omega arith),
        hex_digit-digit (c % 16) (omega arith),
      )
      (let same : c / 16 * 16 + c % 16 ≡ c = omega arith in ap some same)

loop_escape :
    (c : ℕ) (s : Text)
    → c < 256
    → percent_decode_loop (b'%' ∷ digit (c / 16) ∷ digit (c % 16) ∷ s) ≡ c ∷ percent_decode_loop s
unfolding percent_decode_loop
loop_escape c s h = rw (hex_byte-digits c h) refl

loop_literal :
    (c : ℕ) (s : Text)
    → (c == b'%') ≡ false
    → percent_decode_loop (c ∷ s) ≡ c ∷ percent_decode_loop s
unfolding percent_decode_loop
loop_literal c [] h = refl
loop_literal c (a ∷ []) h = refl
loop_literal c (a ∷ b ∷ s) h = rw h refl

literal_no_percent :
    (literal : ℕ → Bool) (c : ℕ) → literal b'%' ≡ false → literal c ≡ true → (c == b'%') ≡ false
literal_no_percent literal c h k = elim (Bool-cases (c == b'%')) [
  | inl e ↦ absurd (let same = (==_iff c b'%').0 e in cc)
  | inr e ↦ e
]

percent_decode_loop-percent_encode :
    (literal : ℕ → Bool) (s : Text)
    → literal b'%' ≡ false
    → AllBytes s
    → percent_decode_loop (percent_encode literal s) ≡ s
percent_decode_loop-percent_encode literal [] h all = unfold percent_decode_loop in refl
percent_decode_loop-percent_encode literal (c ∷ s) h (byte, all) =
    let rest = percent_decode_loop-percent_encode literal s h all in
    elim (Bool-cases (literal c)) [
      | inl e ↦ rw e (loop_literal c _ (literal_no_percent literal c h e) ∙ ap (◌∷◌ c) rest)
      | inr e ↦ rw e (loop_escape c _ byte ∙ ap (◌∷◌ c) rest)
    ]

or_false : (a b : Bool) → (a || b) ≡ false → (a ≡ false) × (b ≡ false)
or_false true b h = cc
or_false false b h = (refl, h)

loop_unescaped : (s : Text) → holds b'%' s ≡ false → percent_decode_loop s ≡ s
loop_unescaped [] h = unfold percent_decode_loop in refl
loop_unescaped (c ∷ s) h =
    let (e, rest) = or_false (c == b'%') (holds b'%' s) h in
    loop_literal c s e ∙ ap (◌∷◌ c) (loop_unescaped s rest)

-- Decoding gives back any bytes that were percent-encoded, whichever of them, but not `%`, stood for
-- themselves.
pub percent_decode_bytes-percent_encode :
    (literal : ℕ → Bool) (s : Text)
    → literal b'%' ≡ false
    → AllBytes s
    → percent_decode_bytes (percent_encode literal s) ≡ s
unfolding percent_decode_bytes
percent_decode_bytes-percent_encode literal s h all =
    elim (Bool-cases (holds b'%' (percent_encode literal s))) [
      | inl e ↦ rw e (percent_decode_loop-percent_encode literal s h all)
      | inr e ↦ rw e (
          sym (loop_unescaped (percent_encode literal s) e)
          ∙ percent_decode_loop-percent_encode literal s h all)
    ]
