-- ===== src/Connection/Reading.antt =====
-- `query_rows` of connection.rs returns the rows that the server delivers.
use mathlib.Core.Path.{subst}
use sqlx_mssql_rs.Prelude.{
  ℕ, zero, suc, ◌+◌, get_elem?, Option, ◌<◌, ◌≡◌, refl, sym, ap, ◌∙◌, Bool, true, false,
  if◌then◌else◌, none, some, List, [], ◌∷◌, ◌++◌, map, append-nil, append_assoc, arith, Text,
  length,
}
use sqlx_mssql_rs.Tds.{TdsResult, StatementResult, Call, Log, Tds}
use sqlx_mssql_rs.Connection.{
  ok, MssqlConnection, call, drain_reset, drain_rollback, drain_pending, continue_with,
}
use sqlx_mssql_rs.Connection.Queries.{row_values, read_rows, read_result, query_rows}

if_false : {A : Type 0} (b : Bool) (x y : A) → b ≡ false → (if b then x else y) ≡ y
if_false true x y h = cc
if_false false x y h = refl

module _ {E P V M W : Type 0} (t : Tds E P V M) (convert : V → M → W) (null : W) where
  -- The client answers with these rows, and then with no more.
  abbrev pub Delivers : Log P → List (List V) → Type 0
  Delivers log [] = t.row_reply (Call.next_row ∷ log) ≡ TdsResult.ok none
  Delivers log (r ∷ rs) =
      (t.row_reply (Call.next_row ∷ log) ≡ TdsResult.ok (some r))
      × Delivers (Call.next_row ∷ log) rs

  abbrev pub after : Log P → List (List V) → Log P
  after log [] = Call.next_row ∷ log
  after log (_ ∷ rs) = after (Call.next_row ∷ log) rs

  call-ok :
      {A : Type 0} (request : Call P) (reply : Log P → TdsResult E A) (context : Text)
      (c : MssqlConnection P) (a : A)
      → reply (request ∷ c.client) ≡ TdsResult.ok a
      → call t request reply context c ≡ (ok a, record c { client = request ∷ c.client })
  unfolding call
  call-ok request reply context c a e = rw (call, e) refl

  read_rows-Delivers :
      (fuel : ℕ) (metadata : List M) (rows : List (List W)) (rs : List (List V))
      (c : MssqlConnection P)
      → length rs < fuel
      → Delivers c.client rs
      → read_rows t convert null fuel metadata rows c ≡ (
        ok (rows ++ map (row_values convert null metadata) rs),
        record c { client = after c.client rs },
      )
  unfolding read_rows
  read_rows-Delivers zero metadata rows rs c h d = absurd (omega arith)
  read_rows-Delivers (suc fuel) metadata rows [] c h d =
      rw (call-ok Call.next_row t.row_reply _ c none d) (
        let e = append-nil rows in
        λ i. (ok (sym e i), record c { client = Call.next_row ∷ c.client }))
  read_rows-Delivers (suc fuel) metadata rows (r ∷ rs) c h (e, d) =
      rw (call-ok Call.next_row t.row_reply _ c (some r) e) (
        read_rows-Delivers fuel metadata (rows ++ row_values convert null metadata r ∷ []) rs
          (record c { client = Call.next_row ∷ c.client }) (omega arith) d
        ∙ ap (λ rows'. (ok rows', record c { client = after (Call.next_row ∷ c.client) rs }))
            (append_assoc rows (row_values convert null metadata r ∷ [])
              (map (row_values convert null metadata) rs)))

  drained :
      (c : MssqlConnection P)
      → c.needs_reset ≡ false
      → c.pending_rollback ≡ false
      → drain_pending t c ≡ (ok tt, c)
  unfolding drain_pending drain_reset drain_rollback
  drained c h k =
      ap (continue_with (λ _. drain_rollback t)) (if_false c.needs_reset _ (ok tt, c) h)
      ∙ if_false c.pending_rollback _ (ok tt, c) k

  -- A value is made from what the client gave at a position and the metadata there.
  abbrev IsCell : Option M → V → W → Type 0
  IsCell none v w = w ≡ null
  IsCell (some m) v w = w ≡ convert v m

  -- The values of a row, from the position `i` on.
  abbrev pub AreCells : List M → ℕ → List V → List W → Type 0
  AreCells ms i [] [] = Unit {0}
  AreCells ms i (v ∷ vs) (w ∷ ws) = IsCell (get_elem? ms i) v w × AreCells ms (suc i) vs ws
  AreCells ms i _ _ = ⊥

  abbrev pub AreRows : List M → List (List V) → List (List W) → Type 0
  AreRows ms [] [] = Unit {0}
  AreRows ms (r ∷ rs) (row ∷ rows) = AreCells ms 0 r row × AreRows ms rs rows
  AreRows ms _ _ = ⊥

  row_values-AreCells :
      (ms rest : List M) (i : ℕ) (vs : List V)
      → ((j : ℕ) → get_elem? ms (i + j) ≡ get_elem? rest j)
      → AreCells ms i vs (row_values convert null rest vs)
  row_values-AreCells ms rest i [] h = tt
  row_values-AreCells ms [] i (v ∷ vs) h =
      let here : get_elem? ms i ≡ none = ap (get_elem? ms) (omega arith) ∙ h 0 in
      (
        subst (λ o. IsCell o v null) (sym here) refl,
        row_values-AreCells ms [] (suc i) vs (λ j. ap (get_elem? ms) (omega arith) ∙ h (suc j)),
      )
  row_values-AreCells ms (m ∷ rest) i (v ∷ vs) h =
      let here : get_elem? ms i ≡ some m = ap (get_elem? ms) (omega arith) ∙ h 0 in
      (
        subst (λ o. IsCell o v (convert v m)) (sym here) refl,
        row_values-AreCells ms rest (suc i) vs (λ j. ap (get_elem? ms) (omega arith) ∙ h (suc j)),
      )

  map-AreRows :
      (ms : List M) (rs : List (List V)) → AreRows ms rs (map (row_values convert null ms) rs)
  map-AreRows ms [] = tt
  map-AreRows ms (r ∷ rs) =
      (row_values-AreCells ms ms 0 r (λ j. ap (get_elem? ms) (omega arith)), map-AreRows ms rs)

  -- The calls with which a result of rows is reached behind a batch: the batch itself, if it answers
  -- with rows, and else one that finds them.
  pub data Arrives (sql : Text) (log : Log P) : Log P → Type 0 where
    at_once :
        t.statement_reply (Call.execute sql ∷ log) ≡ TdsResult.ok StatementResult.rows
        → Arrives sql log (Call.execute sql ∷ log)
    behind_end :
        t.statement_reply (Call.execute sql ∷ log) ≡ TdsResult.ok StatementResult.end_of_results
        → t.positioned_reply (Call.advance_to_rows ∷ Call.execute sql ∷ log) ≡ TdsResult.ok true
        → Arrives sql log (Call.advance_to_rows ∷ Call.execute sql ∷ log)
    behind_no_rows :
        (n : Option ℕ)
        → t.statement_reply (Call.execute sql ∷ log) ≡ TdsResult.ok (StatementResult.no_rows n)
        → t.positioned_reply (Call.advance_to_rows ∷ Call.execute sql ∷ log) ≡ TdsResult.ok true
        → Arrives sql log (Call.advance_to_rows ∷ Call.execute sql ∷ log)

  read_result-Delivers :
      (fuel : ℕ) (rs : List (List V)) (c : MssqlConnection P)
      → Delivers c.client rs
      → length rs < fuel
      → t.unit_reply (Call.close_query ∷ after c.client rs) ≡ TdsResult.ok tt
      → read_result t convert null fuel c ≡ (
        ok (map (row_values convert null (t.metadata c.client)) rs),
        record c { client = Call.close_query ∷ after c.client rs },
      )
  read_result-Delivers fuel rs c d below closed =
      rw
        (
          read_rows-Delivers fuel (t.metadata c.client) [] rs c below d,
          call-ok Call.close_query t.unit_reply _ (record c { client = after c.client rs }) tt
              closed,
        )
        refl

  arrived :
      (fuel : ℕ) (sql : Text) (rs : List (List V)) (c : MssqlConnection P) (log : Log P)
      → c.needs_reset ≡ false
      → c.pending_rollback ≡ false
      → Arrives sql c.client log
      → query_rows t convert null fuel sql c
        ≡ read_result t convert null fuel (record c { client = log })
  unfolding query_rows
  arrived fuel sql rs c log h k (at_once e) =
      rw (drained c h k, call-ok (Call.execute sql) t.statement_reply _ c _ e) refl
  arrived fuel sql rs c log h k (behind_end e p) =
      let c1 : MssqlConnection P = record c { client = Call.execute sql ∷ c.client } in
      rw
        (
          drained c h k,
          call-ok (Call.execute sql) t.statement_reply _ c _ e,
          call-ok Call.advance_to_rows t.positioned_reply _ c1 true p,
        )
        refl
  arrived fuel sql rs c log h k (behind_no_rows n e p) =
      let c1 : MssqlConnection P = record c { client = Call.execute sql ∷ c.client } in
      rw
        (
          drained c h k,
          call-ok (Call.execute sql) t.statement_reply _ c _ e,
          call-ok Call.advance_to_rows t.positioned_reply _ c1 true p,
        )
        refl

  -- On a connection with no work pending, where the server answers a batch with a result of rows, at
  -- once or behind results without rows, any number of rows below the fuel, and then no more, and where
  -- the query can be closed, rows are returned: as many as were delivered and in their order, each with
  -- as many values, and each value is made from the delivered one and the metadata at its position, or
  -- is the null value where the metadata has no such position. The connection has made no other call
  -- than these.
  pub query_rows-Delivers :
      (fuel : ℕ) (sql : Text) (rs : List (List V)) (c : MssqlConnection P) (log : Log P)
      → c.needs_reset ≡ false
      → c.pending_rollback ≡ false
      → Arrives sql c.client log
      → Delivers log rs
      → length rs < fuel
      → t.unit_reply (Call.close_query ∷ after log rs) ≡ TdsResult.ok tt
      → (rows : List (List W)) × AreRows (t.metadata log) rs rows
        × (query_rows t convert null fuel sql c
            ≡ (ok rows, record c { client = Call.close_query ∷ after log rs }))
  query_rows-Delivers fuel sql rs c log h k a d below closed = (
    map (row_values convert null (t.metadata log)) rs,
    map-AreRows (t.metadata log) rs,
    arrived fuel sql rs c log h k a
        ∙ read_result-Delivers fuel rs (record c { client = log }) d below closed,
  )
