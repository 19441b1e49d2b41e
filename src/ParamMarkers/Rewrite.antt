-- ===== src/ParamMarkers/Rewrite.antt =====
-- The scan of param_markers.rs finds what the machine over regions finds, and always ends.
use Prim.Native.Nat.add
use sqlx_mssql_rs.Prelude.{
  ℕ, zero, suc, ◌+◌, ◌≤◌, true, false, ◌&&◌, some, [], ◌∷◌, ◌++◌, append_assoc, append-nil, ◌≡◌,
  refl, sym, ◌∙◌, inl, inr, arith, Text, codes, length, starts_with, ◌==◌, Bool-cases,
}
use sqlx_mssql_rs.Prelude.Decimal.{to_string}
use sqlx_mssql_rs.ParamMarkers.{
  Scanner, copy_quoted, copy_through, line_end, block_end, rewrite_step, rewrite_loop,
  rewrite_param_markers,
}
use sqlx_mssql_rs.ParamMarkers.Regions.{
  Quote, closing, single, double, bracket, plain, line_comment, block_open, block_comment, quoted,
  begins, marker, keep, classify, count_markers, render,
}
use sqlx_mssql_rs.ParamMarkers.Step.{
  Keeps-cons, comment_end, line_end-cons, Keeps-line, Keeps-block, copy_quoted_loop-Quoted,
  Advances, Advances-Keeps,
}

starts_with_two :
    (a b c : ℕ) (cs : Text) → starts_with (a ∷ b ∷ []) (c ∷ cs) ≡ (a == c && begins b cs)
starts_with_two a b c [] = ground arith
starts_with_two a b c (d ∷ cs) = ground arith

copy_quoted-Advances :
    (q : Quote) (c : ℕ) (after : Text) (s : Scanner)
    → classify plain (c ∷ after) ≡ keep c ∷ classify (quoted q) after
    → Advances (c ∷ after) s (copy_quoted (closing q) c after s)
unfolding copy_quoted
copy_quoted-Advances q c after s e =
    let h = copy_quoted_loop-Quoted q after (s.output ++ c ∷ []) in
    Advances-Keeps (quoted q) c s _ e h.keeps (h.written ∙ append_assoc s.output (c ∷ []) h.text)
      refl

pub classify_marker :
    (c : ℕ) (after : Text)
    → (c == b'?') ≡ true
    → classify plain (c ∷ after) ≡ marker ∷ classify plain after
unfolding classify
classify_marker c after e = ground arith

module _ (c : ℕ) (after : Text) (s : Scanner) where
  line-Advances :
      (c == b'-' && starts_with (codes "--") (c ∷ after)) ≡ true
      → Advances (c ∷ after) s (copy_through (line_end (c ∷ after)) (c ∷ after) s)
  unfolding classify
  line-Advances e =
      let dash : (c == b'\n') ≡ false = ground arith in
      rw (line_end-cons, dash)
        (Advances-Keeps line_comment c s _ (ground (arith, starts_with_two b'-' b'-' c after))
          (Keeps-line after) refl refl)

  other-Advances :
      classify plain (c ∷ after) ≡ keep c ∷ classify plain after
      → Advances (c ∷ after) s (record s { output = s.output ++ c ∷ []; rest = after })
  other-Advances e =
      Advances-Keeps plain c s _ e (record { tags = refl; shorter = omega arith }) refl refl

  marker-Advances :
      (c == b'?') ≡ true
      → Advances (c ∷ after) s (record s {
        output = s.output ++ codes "@P" ++ to_string (s.markers + 1);
        markers = s.markers + 1;
        rest = after;
      })
  marker-Advances e =
      let tags = classify_marker c after e in
      record {
        shown =
            rw tags
              (append_assoc (s.output ++ codes "@P") _ _ ∙ append_assoc s.output (codes "@P") _);
        counted = rw tags (omega arith);
        shorter = omega arith;
      }

block_end-comment_end : (c d : ℕ) (cs : Text) → block_end (c ∷ d ∷ cs) ≡ suc (suc (comment_end cs))
block_end-comment_end c d cs = ground arith

block-Advances :
    (c : ℕ) (after : Text) (s : Scanner)
    → (c == b'/' && starts_with (codes "/*") (c ∷ after)) ≡ true
    → Advances (c ∷ after) s (copy_through (block_end (c ∷ after)) (c ∷ after) s)
unfolding classify
block-Advances c [] s e = ground arith
block-Advances c (d ∷ cs) s e = rw block_end-comment_end (
    Advances-Keeps block_open c s _ (ground (arith, starts_with_two b'/' b'*' c (d ∷ cs)))
      (Keeps-cons block_open block_comment d refl (Keeps-block cs)) refl refl)

rewrite_step-Advances :
    (c : ℕ) (after : Text) (s : Scanner) → Advances (c ∷ after) s (rewrite_step c after s)
unfolding rewrite_step classify
rewrite_step-Advances c after s =
    elim (Bool-cases (c == b'-' && starts_with (codes "--") (c ∷ after))) [
      | inl e ↦ rw e (line-Advances c after s e)
      | inr n1 ↦ rw n1 (elim (Bool-cases (c == b'/' && starts_with (codes "/*") (c ∷ after))) [
        | inl e ↦ rw e (block-Advances c after s e)
        | inr n2 ↦ rw n2 (elim (Bool-cases (c == b'\'')) [
          | inl e ↦ rw e (copy_quoted-Advances single c after s (ground arith))
          | inr n3 ↦ rw n3 (elim (Bool-cases (c == b'"')) [
            | inl e ↦ rw e (copy_quoted-Advances double c after s (ground arith))
            | inr n4 ↦ rw n4 (elim (Bool-cases (c == b'[')) [
              | inl e ↦ rw e (copy_quoted-Advances bracket c after s (ground arith))
              | inr n5 ↦ rw n5 (elim (Bool-cases (c == b'?')) [
                | inl e ↦ rw e (marker-Advances c after s e)
                | inr n6 ↦ rw n6 (
                    other-Advances c after s (
                      ground (
                        arith,
                        starts_with_two b'-' b'-' c after,
                        starts_with_two b'/' b'*' c after,
                      )))
              ])
            ])
          ])
        ])
      ])
    ]

rewrite_loop-classify :
    (fuel : ℕ) (sql : Text) (s : Scanner)
    → length sql ≤ fuel
    → rewrite_loop fuel sql s
      ≡ some (
        s.output ++ render s.markers (classify plain sql),
        s.markers + count_markers (classify plain sql),
      )
unfolding rewrite_loop classify
rewrite_loop-classify fuel [] s h =
    let counted : s.markers ≡ s.markers + 0 = omega arith in
    λ i. some (sym (append-nil s.output) i, counted i)
rewrite_loop-classify zero (c ∷ after) s h = absurd (omega arith)
rewrite_loop-classify (suc fuel) (c ∷ after) s h =
    let step = rewrite_step-Advances c after s in
    rewrite_loop-classify fuel (rewrite_step c after s).rest (rewrite_step c after s)
      (omega (arith, step.shorter))
    ∙ λ i. some (step.shown i, step.counted i)

-- The scan always ends, within as many rounds as the statement has characters. It writes the
-- statement in which each character that stands in plain text and is `?` is replaced by `@P` and
-- its number, counting from 1, and each other character, those of comments, string literals and
-- quoted or bracketed identifiers included, is left as it is; and it counts those markers.
pub rewrite_param_markers-classify :
    (sql : Text)
    → rewrite_param_markers sql
      ≡ some (render 0 (classify plain sql), count_markers (classify plain sql))
unfolding rewrite_param_markers
rewrite_param_markers-classify sql =
    rewrite_loop-classify (length sql) sql (record { output = []; markers = 0; rest = sql })
      (omega arith)
    ∙ rw add.zero
