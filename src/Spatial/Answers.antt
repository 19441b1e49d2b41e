-- ===== src/Spatial/Answers.antt =====
-- Which results of types/geo.rs are answers: a value, or an error of the source.
use mathlib.Core.Path.{refl, subst, sym, ap, ◌∙◌}
use sqlx_mssql_rs.Prelude.{
  ℕ, zero, suc, ◌+◌, ◌-◌, ◌≤◌, ◌<◌, ◌≡◌, List, [], ◌∷◌, arith, length, take, drop, ltb, Bool, true,
  false, if◌then◌else◌, length-drop,
}
use sqlx_mssql_rs.Spatial.{Fault, Result, ok, fail, ◌>>=◌}
use sqlx_mssql_rs.Spatial.Reader
use sqlx_mssql_rs.Spatial.Reader.{
  Reader, M, slice, take_bytes, first_byte, read_u8, read_i32, read_u32, read_f64, repeat,
  read_point, read_figure, read_shape, read_point_count, read_figures_and_shapes, read_body,
  read_tables,
}
use sqlx_mssql_rs.Spatial.Parses.{All}

abbrev pub IsError : Fault → Type 0
IsError Fault.panicked = ⊥
IsError Fault.looping = ⊥
IsError _ = Unit {0}

pub data Answers {A : Type 0} (P : A → Type 0) : Result A → Type 0 where
  value : {a : A} → P a → Answers P (ok a)
  error : {e : Fault} → IsError e → Answers P (fail e)

abbrev pub Any : {A : Type 0} → A → Type 0
Any a = Unit {0}

pub >>=-Answers :
    {A B : Type 0} {P : A → Type 0} {Q : B → Type 0} {m : Result A} (f : A → Result B)
    → Answers P m
    → ((a : A) → P a → Answers Q (f a))
    → Answers Q (m >>= f)
>>=-Answers f (value p) k = k _ p
>>=-Answers f (error e) k = error e

pub if-Answers :
    {A : Type 0} {P : A → Type 0} {x y : Result A} (c : Bool)
    → Answers P x
    → Answers P y
    → Answers P (if c then x else y)
if-Answers true p q = p
if-Answers false p q = q

-- A slice that is given lies inside.
pub record IsSlice {A : Type 0} (start end : ℕ) (xs part : List A) : Type 0 where
  pub ordered : start ≤ end
  pub inside : end ≤ length xs
  pub same : part ≡ take (end - start) (drop start xs)

pub slice-Answers :
    {A : Type 0} (start end : ℕ) (xs : List A) (e : Fault)
    → IsError e
    → Answers (IsSlice start end xs) (slice start end xs e)
slice-Answers start end xs e h = go (ltb end start) (ltb (length xs) end) refl refl
  where
    go :
        (c d : Bool)
        → ltb end start ≡ c
        → ltb (length xs) end ≡ d
        → Answers
            (IsSlice start end xs)
            (if c then fail e else if d then fail e else ok (take (end - start) (drop start xs)))
    go true d p q = error h
    go false true p q = error h
    go false false p q =
        value (record { ordered = ground arith; inside = ground arith; same = refl })

abbrev pub AreBytes : List ℕ → Type 0
AreBytes = All (λ b. b < 256)

-- On bytes, the action has an answer, and what it reads has the property.
pub record Gives {A : Type 0} (m : M A) (P : A → Type 0) : Type 0 where
  pub run :
      (r : Reader)
      → AreBytes r.bytes
      → Answers (λ (x : A × Reader). P x.0 × AreBytes x.1.bytes) (m r)

pub Gives-pure : {A : Type 0} {P : A → Type 0} (a : A) → P a → Gives (Reader.pure a) P
Gives-pure a p = record { run = λ r h. value (p, h) }

pub Gives-raise :
    {A : Type 0} {P : A → Type 0} (e : Fault) → IsError e → Gives (Reader.raise {A = A} e) P
Gives-raise e p = record { run = λ r h. error p }

pub Gives-if :
    {A : Type 0} {P : A → Type 0} {m n : M A} (c : Bool)
    → Gives m P
    → Gives n P
    → Gives (if c then m else n) P
Gives-if true p q = p
Gives-if false p q = q

pub Gives-bind :
    {A B : Type 0} {P : A → Type 0} {Q : B → Type 0} {m : M A} (f : A → M B)
    → Gives m P
    → ((a : A) → P a → Gives (f a) Q)
    → Gives (Reader.◌>>=◌ m f) Q
Gives-bind {A} {B} {P} {Q} {m} f p q = record { run = λ r h. go r (m r) (p.run r h) }
  where
    go :
        (r : Reader) (x : Result (A × Reader))
        → Answers (λ (x : A × Reader). P x.0 × AreBytes x.1.bytes) x
        → Answers
            (λ (x : B × Reader). Q x.0 × AreBytes x.1.bytes)
            (elim x [ fail e ↦ fail e | ok (a, r') ↦ f a r' ])
    go r (ok (a, r')) (value (pa, h)) = (q a pa).run r' h
    go r (fail e) (error h) = error h

pub Gives-Any : {A : Type 0} {P : A → Type 0} {m : M A} → Gives m P → Gives m Any
Gives-Any {A} {P} {m} g = record { run = λ r h. go (g.run r h) }
  where
    go :
        {x : Result (A × Reader)}
        → Answers (λ (x : A × Reader). P x.0 × AreBytes x.1.bytes) x
        → Answers (λ (x : A × Reader). Any x.0 × AreBytes x.1.bytes) x
    go (value (p, h)) = value (tt, h)
    go (error h) = error h

drop-All : {A : Type 0} (P : A → Type 0) (n : ℕ) (xs : List A) → All P xs → All P (drop n xs)
drop-All P zero xs h = h
drop-All P (suc n) [] h = tt
drop-All P (suc n) (x ∷ xs) (p, h) = drop-All P n xs h

take-All : {A : Type 0} (P : A → Type 0) (n : ℕ) (xs : List A) → All P xs → All P (take n xs)
take-All P zero xs h = tt
take-All P (suc n) [] h = tt
take-All P (suc n) (x ∷ xs) (p, h) = (p, take-All P n xs h)

pub length-take_inside : {A : Type 0} (n : ℕ) (xs : List A) → n ≤ length xs → length (take n xs) ≡ n
length-take_inside zero xs h = refl
length-take_inside (suc n) [] h = absurd (omega (arith, h))
length-take_inside (suc n) (x ∷ xs) h = ap suc (length-take_inside n xs (omega (arith, h)))

pub take_bytes-Gives : (n : ℕ) → Gives (take_bytes n) (λ bs. (length bs ≡ n) × AreBytes bs)
unfolding take_bytes
take_bytes-Gives n = record {
  run = λ r h. if-Answers (ltb 18446744073709551615 (r.position + n)) (error tt) (
      go r h (slice r.position (r.position + n) r.bytes Fault.truncated)
        (slice-Answers r.position (r.position + n) r.bytes Fault.truncated tt));
}
  where
    go :
        (r : Reader)
        → AreBytes r.bytes
        → (x : Result (List ℕ)) → Answers (IsSlice r.position (r.position + n) r.bytes) x
        → Answers
            (λ (x : List ℕ × Reader). ((length x.0 ≡ n) × AreBytes x.0) × AreBytes x.1.bytes)
            (elim x [
              | fail e ↦ fail e
              | ok bytes ↦ ok (bytes, record r { position = r.position + n })
            ])
    go r h (fail e) (error p) = error p
    go r h (ok bs) (value p) =
        let width : r.position + n - r.position ≡ n = omega arith in
        let same : bs ≡ take n (drop r.position r.bytes) =
          p.same ∙ ap (λ k. take k (drop r.position r.bytes)) width in
        value (
          (
            ap length same
                ∙ length-take_inside n (drop r.position r.bytes)
                    (omega (arith, p.inside, length-drop r.position r.bytes)),
            subst AreBytes (sym same) (
                take-All (λ b. b < 256) n (drop r.position r.bytes)
                  (drop-All (λ b. b < 256) r.position r.bytes h)),
          ),
          h,
        )
