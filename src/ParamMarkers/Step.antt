-- ===== src/ParamMarkers/Step.antt =====
-- One round of the scan of param_markers.rs against the machine over regions: what a round copies
-- is what the machine keeps.
use sqlx_mssql_rs.Prelude.{
  ℕ, suc, ◌+◌, ◌≤◌, true, false, ◌&&◌, none, some, List, [], ◌∷◌, ◌++◌, map, append-nil,
  append_assoc, ◌≡◌, refl, sym, ap, ◌∙◌, inl, inr, arith, Text, codes, length, take, drop, find,
  ◌==◌, if◌then◌else◌, Bool-cases,
}
use sqlx_mssql_rs.ParamMarkers.{Scanner, copy_quoted_loop, line_end}
use sqlx_mssql_rs.ParamMarkers.Regions.{
  Quote, closing, Region, plain, line_comment, block_comment, quoted, escaped, Tag, keep, begins,
  classify, count_markers, render,
}

pub render-keep :
    (t : Text) (n : ℕ) (ts : List Tag) → render n (map keep t ++ ts) ≡ t ++ render n ts
render-keep [] n ts = refl
render-keep (c ∷ t) n ts = rw (render-keep t n ts)

pub count_markers-keep :
    (t : Text) (ts : List Tag) → count_markers (map keep t ++ ts) ≡ count_markers ts
count_markers-keep [] ts = refl
count_markers-keep (c ∷ t) ts = count_markers-keep t ts

-- The machine keeps `t`, which stands at the front of `sql`, and is then in plain text at `rest`.
pub record Keeps (r : Region) (sql t rest : Text) : Type 0 where
  pub tags : classify r sql ≡ map keep t ++ classify plain rest
  pub shorter : length rest ≤ length sql

pub line_end-cons :
    (c : ℕ) (cs : Text) → line_end (c ∷ cs) ≡ (if c == b'\n' then 0 else suc (line_end cs))
line_end-cons c cs = ground arith

pub Keeps-cons :
    (r r' : Region) (c : ℕ) {cs t rest : Text}
    → classify r (c ∷ cs) ≡ keep c ∷ classify r' cs
    → Keeps r' cs t rest
    → Keeps r (c ∷ cs) (c ∷ t) rest
Keeps-cons r r' c e k = record {
  tags = e ∙ ap (◌∷◌ (keep c)) k.tags;
  shorter = omega (arith, k.shorter);
}

pub Keeps-line :
    (sql : Text) → Keeps line_comment sql (take (line_end sql) sql) (drop (line_end sql) sql)
unfolding classify
Keeps-line [] = record { tags = refl; shorter = omega arith }
Keeps-line (c ∷ cs) = elim (Bool-cases (c == b'\n')) [
  | inl e ↦ rw (line_end-cons, e) (record { tags = ground arith; shorter = omega arith })
  | inr e ↦
      rw (line_end-cons, e) (Keeps-cons line_comment line_comment c (ground arith) (Keeps-line cs))
]

-- Where a block comment ends, from behind its opening delimiter.
abbrev pub comment_end : Text → ℕ
comment_end sql = elim (find (codes "*/") sql) [ none ↦ length sql | some i ↦ i + 2 ]

comment_end-cons :
    (c : ℕ) (cs : Text)
    → comment_end (c ∷ cs) ≡ (if c == b'*' && begins b'/' cs then 2 else suc (comment_end cs))
comment_end-cons c [] = ground arith
comment_end-cons c (d ∷ cs) = ground arith

Keeps-close :
    (c : ℕ) (cs : Text)
    → (c == b'*' && begins b'/' cs) ≡ true
    → Keeps block_comment (c ∷ cs) (c ∷ take 1 cs) (drop 1 cs)
unfolding classify
Keeps-close c [] e = ground arith
Keeps-close c (d ∷ cs) e = record { tags = ground arith; shorter = omega arith }

pub Keeps-block :
    (sql : Text) → Keeps block_comment sql (take (comment_end sql) sql) (drop (comment_end sql) sql)
unfolding classify
Keeps-block [] = record { tags = refl; shorter = omega arith }
Keeps-block (c ∷ cs) = elim (Bool-cases (c == b'*' && begins b'/' cs)) [
  | inl e ↦ rw (comment_end-cons, e) (Keeps-close c cs e)
  | inr e ↦
      rw (comment_end-cons, e)
        (Keeps-cons block_comment block_comment c (ground arith) (Keeps-block cs))
]

-- The same for a quoted region, whose text the loop finds as it goes.
pub record Quoted (q : Quote) (output sql : Text) (result : Text × Text) : Type 0 where
  pub text : Text
  pub written : result.0 ≡ output ++ text
  pub keeps : Keeps (quoted q) sql text result.1

Quoted-cons :
    (q : Quote) (output : Text) (c : ℕ) (sql : Text) {result : Text × Text}
    → classify (quoted q) (c ∷ sql) ≡ keep c ∷ classify (quoted q) sql
    → Quoted q (output ++ c ∷ []) sql result
    → Quoted q output (c ∷ sql) result
Quoted-cons q output c sql e h = record {
  text = c ∷ h.text;
  written = h.written ∙ append_assoc output (c ∷ []) h.text;
  keeps = Keeps-cons (quoted q) (quoted q) c e h.keeps;
}

Quoted-doubled :
    (q : Quote) (output : Text) (c d : ℕ) (cs : Text) {result : Text × Text}
    → (c == closing q) ≡ true
    → (d == closing q) ≡ true
    → Quoted q (output ++ c ∷ d ∷ []) cs result
    → Quoted q output (c ∷ d ∷ cs) result
unfolding classify
Quoted-doubled q output c d cs e e' h = record {
  text = c ∷ d ∷ h.text;
  written = h.written ∙ append_assoc output (c ∷ d ∷ []) h.text;
  keeps =
      Keeps-cons (quoted q) (escaped q) c (ground arith)
        (Keeps-cons (escaped q) (quoted q) d refl h.keeps);
}

-- The three ways of a round at `c`, which has `d` behind it.
module _ (close c d : ℕ) (cs output : Text) where
  copy_inside :
      (c == close) ≡ false
      → copy_quoted_loop close output (c ∷ d ∷ cs)
        ≡ copy_quoted_loop close (output ++ c ∷ []) (d ∷ cs)
  unfolding copy_quoted_loop
  copy_inside e = ground arith

  copy_doubled :
      (c == close) ≡ true
      → (d == close) ≡ true
      → copy_quoted_loop close output (c ∷ d ∷ cs)
        ≡ copy_quoted_loop close (output ++ c ∷ d ∷ []) cs
  unfolding copy_quoted_loop
  copy_doubled e e' = ground arith

  copy_closing :
      (c == close) ≡ true
      → (d == close) ≡ false
      → copy_quoted_loop close output (c ∷ d ∷ cs) ≡ (output ++ c ∷ [], d ∷ cs)
  unfolding copy_quoted_loop
  copy_closing e e' = ground arith

copy_quoted_loop_nil : (close : ℕ) (output : Text) → copy_quoted_loop close output [] ≡ (output, [])
unfolding copy_quoted_loop
copy_quoted_loop_nil close output = refl

copy_quoted_loop_last :
    (close c : ℕ) (output : Text) → copy_quoted_loop close output (c ∷ []) ≡ (output ++ c ∷ [], [])
unfolding copy_quoted_loop
copy_quoted_loop_last close c output = refl

pub copy_quoted_loop-Quoted :
    (q : Quote) (sql output : Text) → Quoted q output sql (copy_quoted_loop (closing q) output sql)
unfolding classify
copy_quoted_loop-Quoted q [] output = rw copy_quoted_loop_nil (record {
  text = [];
  written = sym (append-nil output);
  keeps = record { tags = refl; shorter = omega arith };
})
copy_quoted_loop-Quoted q (c ∷ []) output = rw copy_quoted_loop_last (record {
  text = c ∷ [];
  written = refl;
  keeps = record { tags = refl; shorter = omega arith };
})
copy_quoted_loop-Quoted q (c ∷ d ∷ cs) output = elim (Bool-cases (c == closing q)) [
  | inr e ↦ rw (copy_inside (closing q) c d cs output e) (
      Quoted-cons q output c (d ∷ cs) (ground arith)
        (copy_quoted_loop-Quoted q (d ∷ cs) (output ++ c ∷ [])))
  | inl e ↦ elim (Bool-cases (d == closing q)) [
    | inl e' ↦
        rw (copy_doubled (closing q) c d cs output e e') (
          Quoted-doubled q output c d cs e e' (copy_quoted_loop-Quoted q cs (output ++ c ∷ d ∷ [])))
    | inr e' ↦ rw (copy_closing (closing q) c d cs output e e') (record {
      text = c ∷ [];
      written = refl;
      keeps = record { tags = ground arith; shorter = omega arith };
    })
  ]
]

-- What a round does to the variables, at the text `sql`: the statement as it will be written, and
-- the number of its markers, stay as they are, and the text gets shorter.
pub record Advances (sql : Text) (s s' : Scanner) : Type 0 where
  pub shown :
      s'.output ++ render s'.markers (classify plain s'.rest)
      ≡ s.output ++ render s.markers (classify plain sql)
  pub counted :
      s'.markers + count_markers (classify plain s'.rest)
      ≡ s.markers + count_markers (classify plain sql)
  pub shorter : suc (length s'.rest) ≤ length sql

-- A round that keeps a character and copies a region behind it.
pub Advances-Keeps :
    (r : Region) (c : ℕ) {cs t : Text} (s s' : Scanner)
    → classify plain (c ∷ cs) ≡ keep c ∷ classify r cs
    → Keeps r cs t s'.rest
    → s'.output ≡ s.output ++ c ∷ t
    → s'.markers ≡ s.markers
    → Advances (c ∷ cs) s s'
Advances-Keeps r c {t} s s' e k written same =
    let tags = (Keeps-cons plain r c e k).tags in
    record {
      shown =
          rw (written, same, tags)
            (append_assoc s.output (c ∷ t) _
              ∙ ap (◌++◌ s.output) (sym (render-keep (c ∷ t) s.markers (classify plain s'.rest))));
      counted = rw (same, tags, count_markers-keep (c ∷ t) (classify plain s'.rest));
      shorter = omega (arith, k.shorter);
    }
