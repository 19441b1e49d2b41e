-- ===== src/Connection/Opening.antt =====
-- How `begin_transaction` of connection.rs opens a level, and the calls that it sends.
use mathlib.Core.Path.{subst}
use sqlx_mssql_rs.Prelude.{
  ◌+◌, ◌==◌, ◌≡◌, refl, sym, ap, ◌∙◌, false, if◌then◌else◌, none, List, [], ◌∷◌, arith, Text,
  length,
}
use sqlx_mssql_rs.Tds.{Call, Log, Tds}
use sqlx_mssql_rs.Connection.{
  MssqlConnection, drain_pending, drain_reset, drain_rollback, savepoint_name, start_or_save,
  set_depth, ◌>>◌,
}
use sqlx_mssql_rs.Connection.Ends.{Ends, Ends-bind, Ends-mono, Ends-if, Ends-call}
use sqlx_mssql_rs.Connection.Server.{savepoint, SqlServer}
use sqlx_mssql_rs.Connection.Nested.{Transactions, at, opened, Nested, Nested-opened}
use sqlx_mssql_rs.Connection.Represents.{Represents, Fails, failed_call}

module _ {E P V M : Type 0} (t : Tds E P V M) (server : SqlServer t) where
  -- After the call the depth is still to be raised.
  abbrev pub Opening : Transactions → MssqlConnection P → Type 0
  Opening a c =
      Represents t server (record c { transaction_depth = c.transaction_depth + 1 }) (opened a)

  -- The call that opens a level inside the given ones.
  abbrev pub opening : List (List Text) → Call P
  opening [] = Call.begin_transaction
  opening levels = Call.save_transaction (savepoint_name (length levels))

  -- The calls that stand before it, where a result or a dropped transaction was left.
  abbrev pub cleared : MssqlConnection P → Log P
  cleared c =
      let log = if c.needs_reset then Call.close_query ∷ c.client else c.client in
      if c.pending_rollback then Call.rollback_transaction none ∷ log else log

  abbrev pub IsCleared : Log P → MssqlConnection P → Type 0
  IsCleared log c = (c.client ≡ log) × (c.needs_reset ≡ false)

  drain_rollback-IsCleared :
      (c : MssqlConnection P) (log : Log P)
      → IsCleared log c
      → Ends
          (λ _.
            IsCleared (if c.pending_rollback then Call.rollback_transaction none ∷ log else log))
          (λ _. Unit {0})
          (drain_rollback t c)
  unfolding drain_rollback
  drain_rollback-IsCleared c log (e, h) =
      Ends-if c.pending_rollback _ _
        (λ k.
          Ends-call t (Call.rollback_transaction none) t.unit_reply _ _ (λ _ _. (rw (k, e) refl, h))
            (λ _. tt))
        (λ k. record { holds = (rw k e, h) })

  drain_reset-IsCleared :
      (c : MssqlConnection P)
      → Ends
          (λ _ c'.
            IsCleared (if c.needs_reset then Call.close_query ∷ c.client else c.client) c'
            × (c'.pending_rollback ≡ c.pending_rollback))
          (λ _. Unit {0})
          (drain_reset t c)
  unfolding drain_reset
  drain_reset-IsCleared c =
      Ends-if c.needs_reset _ _
        (λ k.
          Ends-call t Call.close_query t.unit_reply _ _ (λ _ _. ((rw k refl, refl), refl))
            (λ _. tt))
        (λ k. record { holds = ((rw k refl, k), refl) })

  pub drain_pending-IsCleared :
      (c : MssqlConnection P)
      → Ends (λ _. IsCleared (cleared c)) (λ _. Unit {0}) (drain_pending t c)
  unfolding drain_pending
  drain_pending-IsCleared c =
      Ends-bind (λ _. drain_rollback t) (drain_reset t c) (drain_reset-IsCleared c)
        (λ _ c' (h, same).
          Ends-mono _ (drain_rollback-IsCleared c' _ h) (λ _ c'' q. rw (← same) q) (λ _ q. q))

  start_or_save-Opening :
      (c : MssqlConnection P) (d : List Text) (l : List (List Text))
      → Represents t server c (at d l)
      → Ends
          (λ _ c'.
            Opening (at d l) c'
            × (c'.client ≡ opening l ∷ c.client)
            × (c'.needs_reset ≡ c.needs_reset))
          (λ c'. Fails t server c' (at d l))
          (start_or_save t c.transaction_depth c)
  unfolding start_or_save
  start_or_save-Opening c d [] r =
      Ends-if (c.transaction_depth == 0) _ _
        (λ _.
          Ends-call t Call.begin_transaction t.unit_reply _ c
            (λ _ e.
              let s = server.on_begin c.client (rw e) r.levels r.idle in
              (
                record {
                  settled = r.settled;
                  depth = omega (arith, r.depth);
                  durable = rw s r.durable;
                  levels = ([], rw s, (tt, refl));
                  idle = rw s;
                },
                refl,
                refl,
              ))
            (failed_call t server c (at d []) Call.begin_transaction tt r))
        (λ e. absurd (let k = r.depth in ground arith))
  start_or_save-Opening c d (f ∷ fs) r =
      let (w, e, nested) = r.levels in
      let name = savepoint_name c.transaction_depth in
      Ends-if (c.transaction_depth == 0) _ _ (λ e. absurd (let k = r.depth in ground arith))
        (λ _.
          Ends-call t (Call.save_transaction name) t.unit_reply _ c
            (λ _ ok.
              let s = server.on_save c.client name w (rw ok) e r.idle in
              (
                record {
                  settled = r.settled;
                  depth = omega (arith, r.depth);
                  durable = rw s r.durable;
                  levels = (
                    savepoint name ∷ w,
                    rw s,
                    subst (λ k. Nested ([] ∷ f ∷ fs) (savepoint (savepoint_name k) ∷ w))
                        (sym r.depth) (Nested-opened f fs w nested),
                  );
                  idle = rw s;
                },
                ap (λ k. Call.save_transaction (savepoint_name k) ∷ c.client) r.depth,
                refl,
              ))
            (failed_call t server c (at d (f ∷ fs)) (Call.save_transaction name) tt r))

  abbrev pub Opened : MssqlConnection P → Transactions → MssqlConnection P → Type 0
  Opened c a c' =
      Represents t server c' (opened a)
      × (c'.client ≡ opening a.levels ∷ cleared c)
      × (c'.needs_reset ≡ false)

  pub start_or_save-Opened :
      (c c' : MssqlConnection P) (a : Transactions)
      → Represents t server c' a
      → IsCleared (cleared c) c'
      → Ends
          (λ _. Opened c a)
          (λ c''. Fails t server c'' a)
          (((λ c. start_or_save t c.transaction_depth c)
              >> (λ c. set_depth t (c.transaction_depth + 1) c))
            c')
  start_or_save-Opened c c' a r (e, reset) =
      Ends-bind (λ _ c. set_depth t (c.transaction_depth + 1) c)
        (start_or_save t c'.transaction_depth c') (start_or_save-Opening c' a.durable a.levels r)
        (λ _ c'' (q, sent, same). record {
          holds = (q, sent ∙ ap (◌∷◌ (opening a.levels)) e, same ∙ reset);
        })
