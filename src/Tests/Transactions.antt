-- ===== src/Tests/Transactions.antt =====
-- A server that does what the laws ask of it, and the transaction methods run against it.
use sqlx_mssql_rs.Prelude.{
  refl, ◌≡◌, arith, true, false, Option, none, some, List, [], ◌∷◌, ◌++◌, Text, codes,
}
use sqlx_mssql_rs.Tds.{TdsResult, StatementResult, Call, Log, Tds}
use sqlx_mssql_rs.Connection.{
  MssqlConnection, begin_transaction, commit_transaction, rollback_transaction, savepoint_name,
}
use sqlx_mssql_rs.Connection.Server.{
  Mark, work, savepoint, Session, works, unwind, run_on, SqlServer,
}
use sqlx_mssql_rs.Connection.Ends.{Ends}
use sqlx_mssql_rs.Connection.Dropped.{Queued, Kept}
use sqlx_mssql_rs.Connection.Nested.{Transactions, at, committed, rolled_back}
use sqlx_mssql_rs.Connection.Represents.{Represents, Reaches}
use sqlx_mssql_rs.Connection.Opening.{Opened}
use sqlx_mssql_rs.Connection.Refinement.{
  abandoned, Doubts, begin_transaction-Reaches, commit_transaction-Reaches,
  rollback_transaction-Reaches,
}

-- A client whose calls succeed, and whose batches have two results, with no rows.
abbrev pub client : Tds Unit Unit Unit Unit
client = record {
  errors = record { diagnostics = λ _. none; error_text = λ _. codes "broken" };
  unit_reply = λ _. TdsResult.ok tt;
  statement_reply = λ log. elim log [
    | Call.execute _ ∷ _ ↦ TdsResult.ok (StatementResult.no_rows none)
    | _ ↦ TdsResult.ok StatementResult.end_of_results
  ];
  positioned_reply = λ _. TdsResult.ok false;
  row_reply = λ _. TdsResult.ok none;
  metadata = λ _. [];
}

abbrev with_work : Text → Session → Option (List Mark) → Session
with_work sql s none = record s { durable = sql ∷ s.durable }
with_work sql s (some w) = record s { open_transaction = some (work sql ∷ w) }

abbrev with_savepoint : Text → Session → Option (List Mark) → Session
with_savepoint name s none = s
with_savepoint name s (some w) = record s { open_transaction = some (savepoint name ∷ w) }

abbrev with_commit : Session → Option (List Mark) → Session
with_commit s none = s
with_commit s (some w) = record s { durable = works w ++ s.durable; open_transaction = none }

abbrev rolled_to : Text → Option (List Mark) → Option (List Mark)
rolled_to name none = none
rolled_to name (some w) = unwind name w

-- Every batch has two results: it has run with the second answer.
abbrev advanced : Session → Option Text → Session
advanced s none = s
advanced s (some sql) = with_work sql (record s { running = none }) s.open_transaction

abbrev moved : Call Unit → Session → Session
moved Call.begin_transaction s = record s { open_transaction = some [] }
moved (Call.save_transaction name) s = with_savepoint name s s.open_transaction
moved Call.commit_transaction s = with_commit s s.open_transaction
moved (Call.rollback_transaction none) s = record s { open_transaction = none; running = none }
moved (Call.rollback_transaction (some name)) s = record s {
  open_transaction = rolled_to name s.open_transaction;
}
moved (Call.execute sql) s = record s { running = some sql }
moved Call.advance s = advanced s s.running
moved _ s = s

-- The session after the calls, the latest of which comes first.
abbrev session : Log Unit → Session
session [] = record { durable = []; open_transaction = none; running = none }
session (c ∷ log) = moved c (session log)

abbrev executed :
    (s : Session) (sql : Text) (result : StatementResult) (w : List Mark)
    → ◌≡◌ {A = TdsResult Unit StatementResult}
        (TdsResult.ok (StatementResult.no_rows none))
        (TdsResult.ok result)
    → s.open_transaction ≡ some w
    → moved (Call.execute sql) s ≡ run_on sql result s.durable w
executed s sql StatementResult.end_of_results w e o = absurd (ground (arith, e))
executed s sql StatementResult.rows w e o = absurd (ground (arith, e))
executed s sql (StatementResult.no_rows n) w e o = rw o

abbrev ended :
    (s : Session) (sql : Text) (result : StatementResult) (w : List Mark)
    → ◌≡◌ {A = TdsResult Unit StatementResult}
        (TdsResult.ok StatementResult.end_of_results)
        (TdsResult.ok result)
    → s.open_transaction ≡ some w
    → s.running ≡ some sql
    → moved Call.advance s ≡ run_on sql result s.durable w
ended s sql StatementResult.end_of_results w e o running = rw (running, o)
ended s sql StatementResult.rows w e o running = absurd (ground (arith, e))
ended s sql (StatementResult.no_rows n) w e o running = absurd (ground (arith, e))

abbrev kept :
    (s : Session) (running : Option Text) (w : List Mark)
    → s.open_transaction ≡ some w
    → (advanced s running).durable ≡ s.durable
kept s none w o = refl
kept s (some sql) w o = rw o

abbrev pub server : SqlServer client
server = record {
  session = session;
  plain = λ _. true;
  on_begin = λ log _ _ idle. rw idle;
  on_save = λ log name w _ e idle. rw (e, idle);
  on_commit = λ log w _ e idle. rw (e, idle);
  on_rollback = λ log _. refl;
  on_rollback_to = λ log name w w' _ e idle u. rw (e, idle, u);
  on_failure = λ log c _ e. cc;
  on_failed_commit = λ log w e _. cc;
  on_close_query = λ log _. refl;
  on_execute = λ log sql result w _ e o _. executed (session log) sql result w e o;
  on_execute_durable = λ log sql w _ e. refl;
  on_advance = λ log sql result w e o running. ended (session log) sql result w e o running;
  on_advance_durable = λ log w o. kept (session log) (session log).running w o;
}

abbrev pub one_open : MssqlConnection Unit
one_open = record {
  client = Call.advance ∷ Call.execute (codes "a") ∷ Call.begin_transaction ∷ [];
  transaction_depth = 1;
  needs_reset = false;
  pending_rollback = false;
}

abbrev pub two_open : MssqlConnection Unit
two_open = record {
  client =
      Call.advance
      ∷ Call.execute (codes "b")
      ∷ Call.save_transaction (savepoint_name 1)
      ∷ Call.advance
      ∷ Call.execute (codes "a")
      ∷ Call.begin_transaction
      ∷ [];
  transaction_depth = 2;
  needs_reset = false;
  pending_rollback = false;
}

abbrev pub one : Transactions
one = at [] ((codes "a" ∷ []) ∷ [])

abbrev pub two : Transactions
two = at [] ((codes "b" ∷ []) ∷ (codes "a" ∷ []) ∷ [])

pub one_open-Represents : Represents client server one_open one
one_open-Represents = record {
  settled = refl;
  depth = refl;
  durable = refl;
  levels = (work (codes "a") ∷ [], refl, (tt, refl));
  idle = refl;
}

pub two_open-Represents : Represents client server two_open two
two_open-Represents = record {
  settled = refl;
  depth = refl;
  durable = refl;
  levels = (
    work (codes "b") ∷ savepoint (savepoint_name 1) ∷ work (codes "a") ∷ [],
    refl,
    (work (codes "b") ∷ [], work (codes "a") ∷ [], refl, tt, refl, (tt, refl)),
  );
  idle = refl;
}

-- A connection whose transaction was dropped, with a result left open.
abbrev dropped : MssqlConnection Unit
dropped = record one_open { transaction_depth = 0; needs_reset = true; pending_rollback = true }

dropped-Queued : Queued client server dropped []
dropped-Queued = record { queued = refl; depth = refl; durable = refl; idle = refl }

begin_transaction-Reaches_example :
    Ends
      (λ _. Opened client server dropped (at [] []))
      (Kept client server [])
      (begin_transaction client dropped)
begin_transaction-Reaches_example =
    begin_transaction-Reaches client server dropped (at [] []) (abandoned dropped-Queued)

commit_transaction-Reaches_example :
    Ends
      (λ _ c. Represents client server c (committed two))
      (λ c. Doubts client server c two)
      (commit_transaction client two_open)
commit_transaction-Reaches_example =
    commit_transaction-Reaches client server two_open two two_open-Represents

rollback_transaction-Reaches_example :
    Reaches client server (rolled_back two) two (rollback_transaction client two_open)
rollback_transaction-Reaches_example =
    rollback_transaction-Reaches client server two_open two two_open-Represents
