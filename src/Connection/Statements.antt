-- ===== src/Connection/Statements.antt =====
-- The methods of sqlx-mssql-rs-core/src/connection.rs that run a statement for its effect. The time
-- that run_migration_pair measures is left out.
use sqlx_mssql_rs.Prelude.{ℕ, zero, suc, Bool, Text, codes, if◌then◌else◌}
use sqlx_mssql_rs.Error.{Error}
use sqlx_mssql_rs.Tds.{StatementResult, Call, Tds}
use sqlx_mssql_rs.Connection.{
  Outcome, ok, err, stuck, MssqlConnection, Action, ◌>>=◌, ◌>>◌, call, drain_pending,
  begin_transaction, commit_transaction, rollback_transaction,
}

-- An error is changed, all else is passed on.
abbrev pub map_err :
    {X Y P A : Type 0} → (X → Y) → Outcome X A × MssqlConnection P → Outcome Y A × MssqlConnection P
map_err f (ok a, c) = (ok a, c)
map_err f (err e, c) = (err (f e), c)
map_err f (stuck, c) = (stuck, c)

-- `let _ = ...; return Err(error)`.
abbrev pub fail_after :
    {X P A : Type 0} → X → Outcome X A × MssqlConnection P → Outcome X A × MssqlConnection P
fail_after error (ok _, c) = (err error, c)
fail_after error (err _, c) = (err error, c)
fail_after error (stuck, c) = (stuck, c)

module _ {E P V M : Type 0} (t : Tds E P V M) where
  -- The `while` of `exec_sql`: on fuel, since only the server knows how many results there are.
  unfoldable pub advance_to_end : ℕ → StatementResult → Action (Error E) P (Unit {0})
  advance_to_end fuel StatementResult.end_of_results c = (ok tt, c)
  advance_to_end zero StatementResult.rows c = (stuck, c)
  advance_to_end zero (StatementResult.no_rows _) c = (stuck, c)
  advance_to_end (suc fuel) StatementResult.rows c =
      (call t Call.advance t.statement_reply (codes "failed to advance past a result set")
          >>= advance_to_end fuel)
        c
  advance_to_end (suc fuel) (StatementResult.no_rows _) c =
      (call t Call.advance t.statement_reply (codes "failed to advance past a result set")
          >>= advance_to_end fuel)
        c

  abbrev pub close_results : Action (Error E) P (Unit {0})
  close_results = call t Call.close_query t.unit_reply (codes "failed to close the result set")

  unfoldable pub exec_sql : ℕ → Text → Action (Error E) P (Unit {0})
  exec_sql fuel sql = do
    drain_pending t
    result ← call t (Call.execute sql) t.statement_reply (codes "query failed")
    advance_to_end fuel result
    close_results

  unfoldable pub execute_simple : Text → Action (Error E) P (Unit {0})
  execute_simple sql = do
    drain_pending t
    call t (Call.execute sql) t.statement_reply (codes "query failed")
    close_results

  unfoldable pub ping : Action (Error E) P (Unit {0})
  ping = execute_simple (codes "SELECT 1")

  unfoldable pub close : Action (Error E) P (Unit {0})
  close = call t Call.close_connection t.unit_reply (codes "failed to close the connection")

  abbrev pub exec_both : ℕ → Text → Text → Action (Error E) P (Unit {0})
  exec_both fuel first_sql second_sql = do exec_sql fuel first_sql; exec_sql fuel second_sql

  -- The `match outcome`.
  unfoldable pub finish_migration :
      Outcome (Error E) (Unit {0}) × MssqlConnection P
      → Outcome (Error E) (Unit {0}) × MssqlConnection P
  finish_migration (ok _, c) = commit_transaction t c
  finish_migration (err error, c) = fail_after error (rollback_transaction t c)
  finish_migration (stuck, c) = (stuck, c)

  unfoldable pub run_migration_pair : ℕ → Text → Text → Bool → Action (Error E) P (Unit {0})
  run_migration_pair fuel first_sql second_sql no_tx =
      if no_tx
      then exec_both fuel first_sql second_sql
      else (begin_transaction t >> λ c. finish_migration (exec_both fuel first_sql second_sql c))
