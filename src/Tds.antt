-- ===== src/Tds.antt =====
-- What the connection uses of the mssql-tds client, which is no part of this repository. The client
-- is opaque: what it answers to a call may depend on all the calls made before, so its state is
-- their list, and the answers are functions of it.
use sqlx_mssql_rs.Prelude.{ℕ, Bool, Option, List, Text}
use sqlx_mssql_rs.Error.{TdsErrors}

pub data TdsResult (E A : Type 0) : Type 0 where
  ok : A → TdsResult E A
  err : E → TdsResult E A

-- `no_rows` has the count of affected rows.
pub data StatementResult : Type 0 where
  rows : StatementResult
  no_rows : Option ℕ → StatementResult
  end_of_results : StatementResult

-- The calls that reach the server, `P` being the parameters of an RPC. A transaction is begun at
-- `ReadCommitted`, and commits and rolls back by name only where a name is given.
pub data Call (P : Type 0) : Type 0 where
  begin_transaction : Call P
  save_transaction : Text → Call P
  commit_transaction : Call P
  rollback_transaction : Option Text → Call P
  close_query : Call P
  close_connection : Call P
  execute : Text → Call P
  execute_sp_executesql : Text → P → Call P
  advance : Call P
  advance_to_rows : Call P
  next_row : Call P

-- The calls made so far, the latest first.
abbrev pub Log : Type 0 → Type 0
Log P = List (Call P)

-- The answers of the client `V` being a column's value and `M` its metadata: each is asked for at
-- the log that begins with the call it answers.
pub record Tds (E P V M : Type 0) : Type 0 where
  pub errors : TdsErrors E
  pub unit_reply : Log P → TdsResult E (Unit {0})
  pub statement_reply : Log P → TdsResult E StatementResult
  pub positioned_reply : Log P → TdsResult E Bool
  pub row_reply : Log P → TdsResult E (Option (List V))
  pub metadata : Log P → List M
