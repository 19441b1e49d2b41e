-- ===== src/Connection/Execute.antt =====
-- A statement run inside nested transactions by `exec_sql` of connection.rs.
use sqlx_mssql_rs.Prelude.{
  ℕ, zero, suc, ◌≤◌, ◌≡◌, refl, ap, Bool, true, false, some, List, ◌∷◌, arith, Text, length,
}
use sqlx_mssql_rs.Tds.{TdsResult, StatementResult, Call, Log, Tds}
use sqlx_mssql_rs.Connection.{MssqlConnection, call, drain_pending}
use sqlx_mssql_rs.Connection.Ends.{Ends, Ends-bind, Ends-mono, Ends-call}
use sqlx_mssql_rs.Connection.Server.{Mark, work, run_on, SqlServer}
use sqlx_mssql_rs.Connection.Nested.{Transactions, at, Nested, Nested-work}
use sqlx_mssql_rs.Connection.Represents.{
  Holds, Represents, Fails, Represents-Fails, Reaches, same_session, drain_pending-Reaches,
}
use sqlx_mssql_rs.Connection.Statements.{advance_to_end, close_results, exec_sql}

module _ {E P V M : Type 0} (t : Tds E P V M) where
  abbrev pub advances : ℕ → Log P → Log P
  advances zero log = log
  advances (suc n) log = advances n (Call.advance ∷ log)

  abbrev pub is_last : TdsResult E StatementResult → Bool
  is_last (TdsResult.ok StatementResult.end_of_results) = true
  is_last (TdsResult.ok _) = false
  is_last (TdsResult.err _) = true

  -- Whatever batch is sent, the server answers with the end of its results, or with an error, after
  -- at most `fuel` advances.
  abbrev pub Bounded : ℕ → Type 0
  Bounded fuel =
      (log : Log P) (sql : Text)
      → (n : ℕ) × (n ≤ fuel)
        × (is_last (t.statement_reply (advances n (Call.execute sql ∷ log))) ≡ true)

module _ {E P V M : Type 0} (t : Tds E P V M) (server : SqlServer t) where
  -- What a failed statement leaves: the depth, and what was durable.
  pub record Broken (c : MssqlConnection P) (a : Transactions) : Type 0 where
    pub depth : c.transaction_depth ≡ length a.levels
    pub durable : (server.session c.client).durable ≡ a.durable

  pub Fails-Broken : (c : MssqlConnection P) (a : Transactions) → Fails t server c a → Broken c a
  Fails-Broken c a r = record { depth = r.depth; durable = r.durable }

  -- The batch is sent, and its results are not at their end.
  record Runs (c : MssqlConnection P) (sql : Text) (a : Transactions) : Type 0 where
    pub settled : c.pending_rollback ≡ false
    pub depth : c.transaction_depth ≡ length a.levels
    pub durable : (server.session c.client).durable ≡ a.durable
    pub levels : Holds t server a.levels (server.session c.client).open_transaction
    pub running : (server.session c.client).running ≡ some sql

  -- Where the server is with a batch behind an answer: it belongs to the innermost level with the end
  -- of its results.
  abbrev Ran :
      Text → StatementResult → MssqlConnection P → List Text → List Text → List (List Text) → Type 0
  Ran sql StatementResult.end_of_results c d f fs = Represents t server c (at d ((sql ∷ f) ∷ fs))
  Ran sql _ c d f fs = Runs c sql (at d (f ∷ fs))

  run_on-Ran :
      (sql : Text) (result : StatementResult) (c : MssqlConnection P) (d d' f : List Text)
      (fs : List (List Text)) (w : List Mark)
      → c.pending_rollback ≡ false
      → c.transaction_depth ≡ length (f ∷ fs)
      → d' ≡ d
      → Nested (f ∷ fs) w
      → server.session c.client ≡ run_on sql result d' w
      → Ran sql result c d f fs
  run_on-Ran sql StatementResult.end_of_results c d d' f fs w p h e nested s = record {
    settled = p;
    depth = h;
    durable = rw s e;
    levels = (work sql ∷ w, rw s refl, Nested-work sql f fs w nested);
    idle = rw s refl;
  }
  run_on-Ran sql StatementResult.rows c d d' f fs w p h e nested s = record {
    settled = p;
    depth = h;
    durable = rw s e;
    levels = (w, rw s refl, nested);
    running = rw s refl;
  }
  run_on-Ran sql (StatementResult.no_rows m) c d d' f fs w p h e nested s = record {
    settled = p;
    depth = h;
    durable = rw s e;
    levels = (w, rw s refl, nested);
    running = rw s refl;
  }

  -- Advancing inside a transaction brings the end of the results nearer.
  advance-Ends :
      (n : ℕ) (sql context : Text) (c : MssqlConnection P) (d f : List Text) (fs : List (List Text))
      → Runs c sql (at d (f ∷ fs))
      → is_last t (t.statement_reply (advances t (suc n) c.client)) ≡ true
      → Ends
          (λ result c'.
            Ran sql result c' d f fs
            × (t.statement_reply c'.client ≡ TdsResult.ok result)
            × (is_last t (t.statement_reply (advances t n c'.client)) ≡ true))
          (λ c'. Broken c' (at d (f ∷ fs)))
          (call t Call.advance t.statement_reply context c)
  advance-Ends n sql context c d f fs r last =
      let (w, open_, nested) = r.levels in
      Ends-call t Call.advance t.statement_reply context c
        (λ result e. (
          run_on-Ran sql result (record c { client = Call.advance ∷ c.client }) d _ f fs w r.settled
              r.depth r.durable nested (server.on_advance c.client sql result w e open_ r.running),
          e,
          last,
        ))
        (λ _. record {
          depth = r.depth;
          durable = rw (server.on_advance_durable c.client w open_) r.durable;
        })

  not_last :
      (log : Log P) (result : StatementResult)
      → is_last t (TdsResult.ok result) ≡ false
      → t.statement_reply log ≡ TdsResult.ok result
      → is_last t (t.statement_reply log) ≡ true
      → ⊥
  not_last log result h e last = let k = ap (is_last t) e in cc (h, last, k)

  advance_to_end-Ends :
      (fuel n : ℕ) (sql : Text) (result : StatementResult) (c : MssqlConnection P) (d f : List Text)
      (fs : List (List Text))
      → Ran sql result c d f fs
      → t.statement_reply c.client ≡ TdsResult.ok result
      → n ≤ fuel
      → is_last t (t.statement_reply (advances t n c.client)) ≡ true
      → Ends
          (λ _ c'. Represents t server c' (at d ((sql ∷ f) ∷ fs)))
          (λ c'. Broken c' (at d (f ∷ fs)))
          (advance_to_end t fuel result c)
  unfolding advance_to_end
  advance_to_end-Ends fuel n sql StatementResult.end_of_results c d f fs r e le last = record {
    holds = r;
  }
  advance_to_end-Ends fuel zero sql StatementResult.rows c d f fs r e le last =
      absurd (not_last c.client _ refl e last)
  advance_to_end-Ends zero (suc n) sql StatementResult.rows c d f fs r e le last =
      absurd (omega arith)
  advance_to_end-Ends (suc fuel) (suc n) sql StatementResult.rows c d f fs r e le last =
      Ends-bind (advance_to_end t fuel) (call t Call.advance t.statement_reply _ c)
        (advance-Ends n sql _ c d f fs r last)
        (λ result' c' (r', e', last').
          advance_to_end-Ends fuel n sql result' c' d f fs r' e' (omega arith) last')
  advance_to_end-Ends fuel zero sql (StatementResult.no_rows m) c d f fs r e le last =
      absurd (not_last c.client _ refl e last)
  advance_to_end-Ends zero (suc n) sql (StatementResult.no_rows m) c d f fs r e le last =
      absurd (omega arith)
  advance_to_end-Ends (suc fuel) (suc n) sql (StatementResult.no_rows m) c d f fs r e le last =
      Ends-bind (advance_to_end t fuel) (call t Call.advance t.statement_reply _ c)
        (advance-Ends n sql _ c d f fs r last)
        (λ result' c' (r', e', last').
          advance_to_end-Ends fuel n sql result' c' d f fs r' e' (omega arith) last')

  execute-Ends :
      (sql context : Text) (c : MssqlConnection P) (d f : List Text) (fs : List (List Text))
      → server.plain sql ≡ true
      → Represents t server c (at d (f ∷ fs))
      → Ends
          (λ result c'.
            Ran sql result c' d f fs
            × (t.statement_reply c'.client ≡ TdsResult.ok result)
            × (c'.client ≡ Call.execute sql ∷ c.client))
          (λ c'. Broken c' (at d (f ∷ fs)))
          (call t (Call.execute sql) t.statement_reply context c)
  execute-Ends sql context c d f fs plain r =
      let (w, open_, nested) = r.levels in
      Ends-call t (Call.execute sql) t.statement_reply context c
        (λ result e. (
          run_on-Ran sql result (record c { client = Call.execute sql ∷ c.client }) d _ f fs w
              r.settled r.depth r.durable nested
              (server.on_execute c.client sql result w plain e open_ r.idle),
          e,
          refl,
        ))
        (λ _. record {
          depth = r.depth;
          durable = rw (server.on_execute_durable c.client sql w plain open_) r.durable;
        })

  close_results-Ends :
      (c : MssqlConnection P) (a : Transactions)
      → Represents t server c a
      → Reaches t server a a (close_results t c)
  close_results-Ends c a r =
      let same =
        same_session t server c a Call.close_query c.needs_reset
          (server.on_close_query c.client r.idle) r in
      Ends-call t Call.close_query t.unit_reply _ c (λ _ _. same)
        (λ _. Represents-Fails t server _ a same)

  Broken-below :
      (d f g : List Text) (fs : List (List Text)) (c : MssqlConnection P)
      → Broken c (at d (g ∷ fs))
      → Broken c (at d (f ∷ fs))
  Broken-below d f g fs c b = record { depth = b.depth; durable = b.durable }

  -- With a server that keeps the laws and ends its results within the fuel, a statement that holds no
  -- transaction statement itself and is run inside a transaction ends. Where it succeeds, its results
  -- have come to their end and it belongs to the innermost level. Where it fails, in whichever of its
  -- results, nothing has become durable and the depth is the same.
  pub exec_sql-Ends :
      (fuel : ℕ) (sql : Text) (c : MssqlConnection P) (d f : List Text) (fs : List (List Text))
      → Bounded t fuel
      → server.plain sql ≡ true
      → Represents t server c (at d (f ∷ fs))
      → Ends
          (λ _ c'. Represents t server c' (at d ((sql ∷ f) ∷ fs)))
          (λ c'. Broken c' (at d (f ∷ fs)))
          (exec_sql t fuel sql c)
  unfolding exec_sql
  exec_sql-Ends fuel sql c d f fs bounded plain r =
      Ends-bind _ (drain_pending t c)
        (Ends-mono (drain_pending t c) (drain_pending-Reaches t server c (at d (f ∷ fs)) r)
          (λ _ _ q. q) (λ c' q. Fails-Broken c' (at d (f ∷ fs)) q))
        (λ _ c1 r1.
          Ends-bind _ _ (execute-Ends sql _ c1 d f fs plain r1) (λ result c2 (r2, e, same).
            let (n, le, last) = bounded c1.client sql in
            Ends-bind _ _ (advance_to_end-Ends fuel n sql result c2 d f fs r2 e le (rw same last))
              (λ _ c3 r3.
                Ends-mono _ (close_results-Ends c3 (at d ((sql ∷ f) ∷ fs)) r3) (λ _ _ q. q)
                  (λ c' q. Broken-below d f (sql ∷ f) fs c' (Fails-Broken c' _ q)))))
