-- ===== src/Values/Utf16.antt =====
-- UTF-16LE text through `utf16le_to_string` of value.rs in sqlx-mssql-rs-core/src.
use mathlib.Core.Path.{refl}
use sqlx_mssql_rs.Prelude.{
  ℕ, ◌+◌, ◌-◌, ◌*◌, ◌/◌, ◌%◌, ◌≤◌, ◌<◌, ◌≡◌, ◌⊎◌, inl, inr, ap, ◌∙◌, List, [], ◌∷◌, ◌++◌, Bool,
  true, false, ltb, if◌then◌else◌, Text, arith,
}
use sqlx_mssql_rs.Values.Convert.{
  from_utf16_lossy, utf16_units, utf16le_to_string, is_pair, is_surrogate,
}

-- A Unicode scalar value: a Rust `char`.
abbrev pub IsChar : ℕ → Type 0
IsChar c = (c < 0xd800) ⊎ ((0xdfff < c) × (c < 0x110000))

abbrev pub AllChars : Text → Type 0
AllChars [] = Unit {0}
AllChars (c ∷ s) = IsChar c × AllChars s

-- UTF-16: one code unit, or a pair of surrogates.
abbrev pub utf16_char : ℕ → List ℕ
utf16_char c =
    if ltb c 0x10000
    then c ∷ []
    else (0xd800 + (c - 0x10000) / 0x400) ∷ (0xdc00 + (c - 0x10000) % 0x400) ∷ []

abbrev pub utf16 : Text → List ℕ
utf16 [] = []
utf16 (c ∷ s) = utf16_char c ++ utf16 s

-- Little endian.
abbrev pub little_endian : List ℕ → List ℕ
little_endian [] = []
little_endian (u ∷ us) = (u % 256) ∷ (u / 256) ∷ little_endian us

utf16_units-little_endian : (us : List ℕ) → utf16_units (little_endian us) ≡ us
unfolding utf16_units
utf16_units-little_endian [] = refl
utf16_units-little_endian (u ∷ us) = λ i. whole i ∷ utf16_units-little_endian us i
  where
    whole : u % 256 + 256 * (u / 256) ≡ u
    whole = omega arith

from_utf16_lossy-single :
    (u : ℕ) (us : List ℕ)
    → is_surrogate u ≡ false
    → from_utf16_lossy (u ∷ us) ≡ u ∷ from_utf16_lossy us
unfolding from_utf16_lossy
from_utf16_lossy-single u [] h = rw h refl
from_utf16_lossy-single u (v ∷ us) h = go (is_pair u v) (ground (arith, h))
  where
    go :
        (c : Bool)
        → c ≡ false
        → (if c
            then (0x10000 + (u - 0xd800) * 0x400 + (v - 0xdc00)) ∷ from_utf16_lossy us
            else (if is_surrogate u then 0xfffd else u) ∷ from_utf16_lossy (v ∷ us))
          ≡ u ∷ from_utf16_lossy (v ∷ us)
    go true e = absurd (ground (arith, e))
    go false e = rw h refl

from_utf16_lossy-pair :
    (u v : ℕ) (us : List ℕ)
    → is_pair u v ≡ true
    → from_utf16_lossy (u ∷ v ∷ us)
      ≡ (0x10000 + (u - 0xd800) * 0x400 + (v - 0xdc00)) ∷ from_utf16_lossy us
unfolding from_utf16_lossy
from_utf16_lossy-pair u v us h = rw h refl

in_pair : (hi lo : ℕ) → 0xd800 ≤ hi → hi ≤ 0xdbff → 0xdc00 ≤ lo → lo ≤ 0xdfff → is_pair hi lo ≡ true
in_pair hi lo a b c d = ground arith

from_utf16_lossy-utf16_char :
    (c : ℕ) (us : List ℕ)
    → IsChar c
    → from_utf16_lossy (utf16_char c ++ us) ≡ c ∷ from_utf16_lossy us
from_utf16_lossy-utf16_char c us h = go (ltb c 0x10000) refl
  where
    go :
        (b : Bool)
        → ltb c 0x10000 ≡ b
        → from_utf16_lossy (
            (if b
              then c ∷ []
              else (0xd800 + (c - 0x10000) / 0x400) ∷ (0xdc00 + (c - 0x10000) % 0x400) ∷ [])
            ++ us)
          ≡ c ∷ from_utf16_lossy us
    go true e = from_utf16_lossy-single c us (ground (arith, h))
    go false e =
        let wide : 0x10000 ≤ c = ground (arith, e) in
        let hi = 0xd800 + (c - 0x10000) / 0x400 in
        let lo = 0xdc00 + (c - 0x10000) % 0x400 in
        let top : c < 0x110000 = elim h [ inl l ↦ omega (arith, l) | inr r ↦ r.1 ] in
        let pair : is_pair hi lo ≡ true =
          in_pair hi lo (omega arith) (omega (arith, top, wide)) (omega arith) (omega arith) in
        from_utf16_lossy-pair hi lo us pair
        ∙ ap (λ d. d ∷ from_utf16_lossy us) (omega (arith, wide))

from_utf16_lossy-utf16 : (s : Text) → AllChars s → from_utf16_lossy (utf16 s) ≡ s
from_utf16_lossy-utf16 [] h = unfold from_utf16_lossy in refl
from_utf16_lossy-utf16 (c ∷ s) (h, hs) =
    from_utf16_lossy-utf16_char c (utf16 s) h ∙ ap (◌∷◌ c) (from_utf16_lossy-utf16 s hs)

-- The UTF-16LE bytes of a text of Unicode scalar values are read as that text, also where it has
-- characters beyond the 16-bit ones.
pub utf16le_to_string-little_endian :
    (s : Text) → AllChars s → utf16le_to_string (little_endian (utf16 s)) ≡ s
unfolding utf16le_to_string
utf16le_to_string-little_endian s h =
    ap from_utf16_lossy (utf16_units-little_endian (utf16 s)) ∙ from_utf16_lossy-utf16 s h
