-- ===== src/Spatial/Cuts.antt =====
-- Actions of the reader of types/geo.rs on bytes and on a prefix of them.
use mathlib.Core.Path.{refl}
use sqlx_mssql_rs.Prelude.{
  ℕ, zero, suc, ◌+◌, ◌-◌, ◌≤◌, ◌<◌, ◌≡◌, ◌⊎◌, inl, inr, ap, sym, ◌∙◌, List, [], ◌∷◌, ◌++◌, Bool,
  true, false, arith, length, take, drop, ltb, if◌then◌else◌,
}
use sqlx_mssql_rs.Spatial.{Fault, Result, ok, fail}
use sqlx_mssql_rs.Spatial.Reader
use sqlx_mssql_rs.Spatial.Reader.{
  Reader, M, new, slice, take_bytes, first_byte, read_u8, read_i32, read_u32, read_f64, repeat,
  read_point, read_figure, read_shape, read_point_count, read_figures_and_shapes, read_body,
  read_tables,
}

abbrev pub at : List ℕ → ℕ → Reader
at bytes position = record { bytes = bytes; position = position }

-- An action that succeeds leaves the bytes and moves on. Where it succeeds on `b ++ c` it does the
-- same on `b`, if it reads no further, and else finds the payload truncated.
pub record Cuts {A : Type 0} (m : M A) : Type 0 where
  pub grow :
      (r r' : Reader) (a : A) → m r ≡ ok (a, r') → (r'.bytes ≡ r.bytes) × (r.position ≤ r'.position)
  pub cut :
      (b c : List ℕ) (p : ℕ) (a : A) (r : Reader)
      → p ≤ length b
      → m (at (b ++ c) p) ≡ ok (a, r)
      → ((r.position ≤ length b) × (m (at b p) ≡ ok (a, at b r.position)))
        ⊎ ((length b < r.position) × (m (at b p) ≡ fail Fault.truncated))

pub Cuts-pure : {A : Type 0} (a : A) → Cuts (Reader.pure a)
Cuts-pure a = record {
  grow = λ r r' x e. ground (arith, e);
  cut = λ b c p x r h e. ground (arith, e, h);
}

pub Cuts-raise : {A : Type 0} (e : Fault) → Cuts (Reader.raise {A = A} e)
Cuts-raise f = record {
  grow = λ r r' x e. absurd (ground (arith, e));
  cut = λ b c p x r h e. absurd (ground (arith, e));
}

pub Cuts-if : {A : Type 0} {m n : M A} (c : Bool) → Cuts m → Cuts n → Cuts (if c then m else n)
Cuts-if true x y = x
Cuts-if false x y = y

>>=-eq-ok :
    {A B : Type 0} (m : M A) (f : A → M B) (r r' : Reader) (b : B)
    → Reader.◌>>=◌ m f r ≡ ok (b, r')
    → (a : A) × (s : Reader) × (m r ≡ ok (a, s)) × (f a s ≡ ok (b, r'))
>>=-eq-ok {A} {B} m f r r' b e = go (m r) e
  where
    go :
        (x : Result (A × Reader))
        → (elim x [ fail e ↦ fail e | ok (a, r') ↦ f a r' ]) ≡ ok (b, r')
        → (a : A) × (s : Reader) × (x ≡ ok (a, s)) × (f a s ≡ ok (b, r'))
    go (ok (a, s)) h = (a, s, refl, h)
    go (fail e) h = absurd (ground (arith, h))

pub Cuts-bind :
    {A B : Type 0} {m : M A} (f : A → M B)
    → Cuts m
    → ((a : A) → Cuts (f a))
    → Cuts (Reader.◌>>=◌ m f)
Cuts-bind {A} {B} {m} f x y = record {
  grow = λ r r' b e.
      let (a, s, e1, e2) = >>=-eq-ok m f r r' b e in
      let (same, more) = x.grow r s a e1 in
      let (same', more') = (y a).grow s r' b e2 in (same' ∙ same, omega (arith, more, more'));
  cut = λ b c p z r h e.
      let (a, s, e1, e2) = >>=-eq-ok m f (at (b ++ c) p) r z e in
      let same = (x.grow (at (b ++ c) p) s a e1).0 in
      let more = ((y a).grow s r z e2).1 in
      let e2' : f a (at (b ++ c) s.position) ≡ ok (z, r) =
        ap (λ l. f a (at l s.position)) (sym same) ∙ e2 in
      elim (x.cut b c p a s h e1) [
        | inl (inside, got) ↦ elim ((y a).cut b c s.position z r inside e2') [
          | inl (k, last) ↦ inl (k, rw (got, Reader.◌>>=◌) last)
          | inr (k, last) ↦ inr (k, rw (got, Reader.◌>>=◌) last)
        ]
        | inr (beyond, got) ↦ inr (omega (arith, beyond, more), rw (got, Reader.◌>>=◌) refl)
      ];
}

-- `take`, where there are enough bytes and where there are not.
module _ (n : ℕ) (b : List ℕ) (p : ℕ) (small : p + n ≤ 18446744073709551615) where
  taken : Result (List ℕ) → Result (List ℕ × Reader)
  taken x = elim x [ fail e ↦ fail e | ok bytes ↦ ok (bytes, at b (p + n)) ]

  take_bytes-slice : take_bytes n (at b p) ≡ taken (slice p (p + n) b Fault.truncated)
  unfolding take_bytes taken
  take_bytes-slice = go (p + n) (taken (slice p (p + n) b Fault.truncated)) small
    where
      go :
          (end : ℕ) (x : Result (List ℕ × Reader))
          → end ≤ 18446744073709551615
          → (if ltb 18446744073709551615 end then fail Fault.length_overflow else x) ≡ x
      go end x h = ground arith

  take_bytes-inside :
      p + n ≤ length b → take_bytes n (at b p) ≡ ok (take (p + n - p) (drop p b), at b (p + n))
  unfolding taken
  take_bytes-inside h =
      take_bytes-slice ∙ ap taken (go (p + n) (take (p + n - p) (drop p b)) (omega arith) h)
    where
      go :
          (end : ℕ) (x : List ℕ)
          → p ≤ end
          → end ≤ length b
          → (if ltb end p
              then fail Fault.truncated
              else if ltb (length b) end
              then fail Fault.truncated
              else ok x)
            ≡ ok x
      go end x h k = ground arith

  take_bytes-short : length b < p + n → take_bytes n (at b p) ≡ fail Fault.truncated
  unfolding taken
  take_bytes-short h =
      take_bytes-slice ∙ ap taken (go (p + n) (take (p + n - p) (drop p b)) (omega arith) h)
    where
      go :
          (end : ℕ) (x : List ℕ)
          → p ≤ end
          → length b < end
          → (if ltb end p
              then fail Fault.truncated
              else if ltb (length b) end
              then fail Fault.truncated
              else ok x)
            ≡ fail Fault.truncated
      go end x h k = ground arith

take_bytes-small :
    (n : ℕ) (r r' : Reader) (bs : List ℕ)
    → take_bytes n r ≡ ok (bs, r')
    → r.position + n ≤ 18446744073709551615
unfolding take_bytes
take_bytes-small n r r' bs e = go (r.position + n) _ e
  where
    go :
        (end : ℕ) (x : Result (List ℕ × Reader))
        → (if ltb 18446744073709551615 end then fail Fault.length_overflow else x) ≡ ok (bs, r')
        → end ≤ 18446744073709551615
    go end x h = ground (arith, h)

le_or_lt : (m n : ℕ) → (m ≤ n) ⊎ (n < m)
le_or_lt zero n = inl (omega arith)
le_or_lt (suc m) zero = inr (omega arith)
le_or_lt (suc m) (suc n) = elim (le_or_lt m n) [
  | inl h ↦ inl (omega (arith, h))
  | inr h ↦ inr (omega (arith, h))
]

-- What a successful `take` gives.
take_bytes-ok :
    (n : ℕ) (b : List ℕ) (p : ℕ) (r : Reader) (bs : List ℕ)
    → take_bytes n (at b p) ≡ ok (bs, r)
    → (p + n ≤ length b) × (bs ≡ take (p + n - p) (drop p b)) × (r ≡ at b (p + n))
take_bytes-ok n b p r bs e =
    let small = take_bytes-small n (at b p) r bs e in
    elim (le_or_lt (p + n) (length b)) [
      | inl inside ↦
          let f = sym (take_bytes-inside n b p small inside) ∙ e in
          let parts = ok_parts _ _ _ _ f in (inside, sym parts.0, sym parts.1)
      | inr short ↦ absurd (fail_ok (sym (take_bytes-short n b p small short) ∙ e))
    ]
  where
    ok_parts :
        (x y : List ℕ) (r s : Reader)
        → ◌≡◌ {A = Result (List ℕ × Reader)} (ok (x, r)) (ok (y, s))
        → (x ≡ y) × (r ≡ s)
    ok_parts x y r s h = (ground (arith, h), ground (arith, h))

    fail_ok : ◌≡◌ {A = Result (List ℕ × Reader)} (fail Fault.truncated) (ok (bs, r)) → ⊥
    fail_ok h = ground (arith, h)

take-drop-append :
    (k p : ℕ) (b c : List ℕ) → p + k ≤ length b → take k (drop p (b ++ c)) ≡ take k (drop p b)
take-drop-append zero p b c h = refl
take-drop-append (suc k) zero [] c h = absurd (omega (arith, h))
take-drop-append (suc k) zero (x ∷ b) c h =
    ap (◌∷◌ x) (take-drop-append k zero b c (omega (arith, h)))
take-drop-append (suc k) (suc p) [] c h = absurd (omega (arith, h))
take-drop-append (suc k) (suc p) (x ∷ b) c h = take-drop-append (suc k) p b c (omega (arith, h))

pub take_bytes-Cuts : (n : ℕ) → Cuts (take_bytes n)
take_bytes-Cuts n = record {
  grow = λ r r' bs e.
      let (inside, got, last) = take_bytes-ok n r.bytes r.position r' bs e in
      (ap (λ (r : Reader). r.bytes) last, omega (arith, ap (λ (r : Reader). r.position) last));
  cut = λ b c p bs r h e.
      let (inside, got, last) = take_bytes-ok n (b ++ c) p r bs e in
      let small = take_bytes-small n (at (b ++ c) p) r bs e in
      let position : r.position ≡ p + n = ap (λ (r : Reader). r.position) last in
      elim (le_or_lt (p + n) (length b)) [
        | inl k ↦ inl (
          omega (arith, k, position),
          take_bytes-inside n b p small k ∙ (λ i. ok (
            (sym (take-drop-append (p + n - p) p b c (omega (arith, k))) ∙ sym got) i,
            at b (sym position i),
          )),
        )
        | inr k ↦ inr (omega (arith, k, position), take_bytes-short n b p small k)
      ];
}
