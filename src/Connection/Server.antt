-- ===== src/Connection/Server.antt =====
-- What is assumed of SQL Server: how its session moves under the calls of connection.rs. The server
-- is no part of this repository, so its session is a function of the log, with these laws.
use sqlx_mssql_rs.Prelude.{
  ◌≡◌, refl, ◌⊎◌, inl, inr, Bool, true, false, Option, none, some, List, [], ◌∷◌, ◌++◌, Text,
  text_eq, if◌then◌else◌,
}
use sqlx_mssql_rs.Tds.{TdsResult, StatementResult, Call, Log, Tds}

pub data Mark : Type 0 where
  work : Text → Mark
  savepoint : Text → Mark

-- The statements whose effects are durable, the open transaction's statements and savepoints, the
-- latest first in both, and the batch whose results are not at their end.
pub record Session : Type 0 where
  pub durable : List Text
  pub open_transaction : Option (List Mark)
  pub running : Option Text

abbrev pub works : List Mark → List Text
works [] = []
works (work s ∷ w) = s ∷ works w
works (savepoint _ ∷ w) = works w

-- A rollback to the latest savepoint of a name, which stays.
abbrev pub unwind : Text → List Mark → Option (List Mark)
unwind name [] = none
unwind name (work s ∷ w) = unwind name w
unwind name (savepoint n ∷ w) = if text_eq name n then some (savepoint n ∷ w) else unwind name w

abbrev pub is_ok : {E A : Type 0} → TdsResult E A → Bool
is_ok (TdsResult.ok _) = true
is_ok (TdsResult.err _) = false

-- What a call other than a commit can leave where it fails.
abbrev pub Aborts : Session → Session → Type 0
Aborts before behind =
    (behind ≡ before)
    ⊎ (behind ≡ record { durable = before.durable; open_transaction = none; running = none })

pub Aborts-durable : (s s' : Session) → Aborts s s' → s'.durable ≡ s.durable
Aborts-durable s s' (inl e) = rw e refl
Aborts-durable s s' (inr e) = rw e refl

-- The calls that begin, save or roll back.
abbrev pub IsTransactionCall : {P : Type 0} → Call P → Type 0
IsTransactionCall Call.begin_transaction = Unit
IsTransactionCall (Call.save_transaction _) = Unit
IsTransactionCall (Call.rollback_transaction _) = Unit
IsTransactionCall _ = ⊥

-- The batch is done with the answer that its results are at their end, and goes on with any other.
abbrev pub run_on : Text → StatementResult → List Text → List Mark → Session
run_on sql StatementResult.end_of_results d w = record {
  durable = d;
  open_transaction = some (work sql ∷ w);
  running = none;
}
run_on sql _ d w = record { durable = d; open_transaction = some w; running = some sql }

module _ {E P V M : Type 0} (t : Tds E P V M) where
  -- Whether the latest call, of those that answer with nothing else, has succeeded.
  abbrev pub succeeded : Log P → Bool
  succeeded log = is_ok (t.unit_reply log)

  -- The documented behaviour of the transaction statements. `plain` tells the batches that hold no
  -- transaction statement themselves. Such a batch counts as run once its results have come to their
  -- end; before that, and where it fails, only this is assumed of it: inside a transaction it makes
  -- nothing durable. A failed call that begins, saves or rolls back leaves the session as it was, or
  -- the transaction is gone as a whole, as it is on a lost connection. A failed commit leaves the
  -- session in doubt: the transaction's work has become durable as a whole, or not at all.
  pub record SqlServer : Type 0 where
    pub session : Log P → Session
    pub plain : Text → Bool
    pub on_begin :
        (log : Log P)
        → succeeded (Call.begin_transaction ∷ log) ≡ true
        → (session log).open_transaction ≡ none
        → (session log).running ≡ none
        → session (Call.begin_transaction ∷ log)
          ≡ record { durable = (session log).durable; open_transaction = some []; running = none }
    pub on_save :
        (log : Log P) (name : Text) (w : List Mark)
        → succeeded (Call.save_transaction name ∷ log) ≡ true
        → (session log).open_transaction ≡ some w
        → (session log).running ≡ none
        → session (Call.save_transaction name ∷ log) ≡ record {
          durable = (session log).durable;
          open_transaction = some (savepoint name ∷ w);
          running = none;
        }
    pub on_commit :
        (log : Log P) (w : List Mark)
        → succeeded (Call.commit_transaction ∷ log) ≡ true
        → (session log).open_transaction ≡ some w
        → (session log).running ≡ none
        → session (Call.commit_transaction ∷ log) ≡ record {
          durable = works w ++ (session log).durable;
          open_transaction = none;
          running = none;
        }
    pub on_rollback :
        (log : Log P)
        → succeeded (Call.rollback_transaction none ∷ log) ≡ true
        → session (Call.rollback_transaction none ∷ log)
          ≡ record { durable = (session log).durable; open_transaction = none; running = none }
    pub on_rollback_to :
        (log : Log P) (name : Text) (w w' : List Mark)
        → succeeded (Call.rollback_transaction (some name) ∷ log) ≡ true
        → (session log).open_transaction ≡ some w
        → (session log).running ≡ none
        → unwind name w ≡ some w'
        → session (Call.rollback_transaction (some name) ∷ log)
          ≡ record { durable = (session log).durable; open_transaction = some w'; running = none }
    pub on_failure :
        (log : Log P) (c : Call P)
        → IsTransactionCall c
        → succeeded (c ∷ log) ≡ false
        → Aborts (session log) (session (c ∷ log))
    pub on_failed_commit :
        (log : Log P) (w : List Mark)
        → succeeded (Call.commit_transaction ∷ log) ≡ false
        → (session log).open_transaction ≡ some w
        → Aborts (session log) (session (Call.commit_transaction ∷ log))
          ⊎ ((session (Call.commit_transaction ∷ log)).durable ≡ works w ++ (session log).durable)
    pub on_close_query :
        (log : Log P)
        → (session log).running ≡ none
        → session (Call.close_query ∷ log) ≡ session log
    pub on_execute :
        (log : Log P) (sql : Text) (result : StatementResult) (w : List Mark)
        → plain sql ≡ true
        → t.statement_reply (Call.execute sql ∷ log) ≡ TdsResult.ok result
        → (session log).open_transaction ≡ some w
        → (session log).running ≡ none
        → session (Call.execute sql ∷ log) ≡ run_on sql result (session log).durable w
    pub on_execute_durable :
        (log : Log P) (sql : Text) (w : List Mark)
        → plain sql ≡ true
        → (session log).open_transaction ≡ some w
        → (session (Call.execute sql ∷ log)).durable ≡ (session log).durable
    pub on_advance :
        (log : Log P) (sql : Text) (result : StatementResult) (w : List Mark)
        → t.statement_reply (Call.advance ∷ log) ≡ TdsResult.ok result
        → (session log).open_transaction ≡ some w
        → (session log).running ≡ some sql
        → session (Call.advance ∷ log) ≡ run_on sql result (session log).durable w
    pub on_advance_durable :
        (log : Log P) (w : List Mark)
        → (session log).open_transaction ≡ some w
        → (session (Call.advance ∷ log)).durable ≡ (session log).durable
