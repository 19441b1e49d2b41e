-- ===== src/Connection.antt =====
-- The state of a connection in sqlx-mssql-rs-core/src/connection.rs and its transaction methods. A
-- method is an action: it gives its outcome and the connection afterwards, and what a failing
-- method has changed stays changed. The log settings are left out, since they only feed log output.
pub mod Server
pub mod Nested
pub mod Ends
pub mod Represents
pub mod Opening
pub mod Refinement
pub mod Statements
pub mod Execute
pub mod Dropped
pub mod Queries
pub mod Reading
use sqlx_mssql_rs.Prelude.{
  ℕ, ◌+◌, ◌-◌, Bool, true, false, Option, none, some, List, ◌∷◌, ◌++◌, Text, codes, if◌then◌else◌,
  ◌==◌,
}
use sqlx_mssql_rs.Prelude.Decimal.{to_string}
use sqlx_mssql_rs.Error.{Error, database_error_with_context}
use sqlx_mssql_rs.Tds.{TdsResult, Call, Log, Tds}

-- `stuck` is no outcome of the code: a loop over the server's answers ran out of fuel.
pub data Outcome (X A : Type 0) : Type 0 where
  ok : A → Outcome X A
  err : X → Outcome X A
  stuck : Outcome X A

-- `client` is the log of the calls that were made on it.
pub record MssqlConnection (P : Type 0) : Type 0 where
  pub client : Log P
  pub transaction_depth : ℕ
  pub needs_reset : Bool
  pub pending_rollback : Bool

abbrev pub Action : Type 0 → Type 0 → Type 0 → Type 0
Action X P A = MssqlConnection P → Outcome X A × MssqlConnection P

-- The rest of an action, by the outcome of its first part.
abbrev pub continue_with :
    {X P A B : Type 0}
    → (A → Action X P B)
    → Outcome X A × MssqlConnection P
    → Outcome X B × MssqlConnection P
continue_with f (ok a, c) = f a c
continue_with f (err e, c) = (err e, c)
continue_with f (stuck, c) = (stuck, c)

infixl 5 ◌>>=◌ ◌>>◌
abbrev pub ◌>>=◌ : {X P A B : Type 0} → Action X P A → (A → Action X P B) → Action X P B
◌>>=◌ m f c = continue_with f (m c)

abbrev pub ◌>>◌ : {X P A B : Type 0} → Action X P A → Action X P B → Action X P B
m >> k = m >>= λ _. k

abbrev pub pure : {X P A : Type 0} → A → Action X P A
pure a c = (ok a, c)

abbrev pub modify : {X P : Type 0} → (MssqlConnection P → MssqlConnection P) → Action X P (Unit {0})
modify f c = (ok tt, f c)

-- `format!("sqlx_sp_{}", depth)`.
unfoldable pub savepoint_name : ℕ → Text
savepoint_name depth = codes "sqlx_sp_" ++ to_string depth

module _ {E P V M : Type 0} (t : Tds E P V M) where
  -- A call of the client, awaited, its error mapped with a context and returned.
  unfoldable pub call :
      {A : Type 0} → Call P → (Log P → TdsResult E A) → Text → Action (Error E) P A
  call request reply context c =
      let log = request ∷ c.client in
      let c' = record c { client = log } in
      elim (reply log) [
        | TdsResult.ok a ↦ (ok a, c')
        | TdsResult.err e ↦ (err (database_error_with_context t.errors e context), c')
      ]

  -- The first `if` of `drain_pending`.
  unfoldable pub drain_reset : Action (Error E) P (Unit {0})
  drain_reset c =
      if c.needs_reset
      then call Call.close_query t.unit_reply (codes "failed to close the previous result set")
          (record c { needs_reset = false })
      else (ok tt, c)

  -- The second one.
  unfoldable pub drain_rollback : Action (Error E) P (Unit {0})
  drain_rollback c =
      if c.pending_rollback
      then call (Call.rollback_transaction none) t.unit_reply
          (codes "failed to roll back the abandoned transaction")
          (record c { pending_rollback = false })
      else (ok tt, c)

  unfoldable pub drain_pending : Action (Error E) P (Unit {0})
  drain_pending = do drain_reset; drain_rollback

  abbrev pub set_depth : ℕ → Action (Error E) P (Unit {0})
  set_depth depth = modify (λ c. record c { transaction_depth = depth })

  -- The transaction that is begun, or the savepoint that stands for a nested one.
  unfoldable pub start_or_save : ℕ → Action (Error E) P (Unit {0})
  start_or_save depth c =
      if depth == 0
      then call Call.begin_transaction t.unit_reply (codes "failed to begin a transaction") c
      else call (Call.save_transaction (savepoint_name depth)) t.unit_reply
          (codes "failed to begin a transaction") c

  -- `transaction_depth` is a `usize`; its bound is not modelled.
  unfoldable pub begin_transaction : Action (Error E) P (Unit {0})
  begin_transaction = do
    drain_pending
    (λ c. start_or_save c.transaction_depth c)
    (λ c. set_depth (c.transaction_depth + 1) c)

  unfoldable pub commit_transaction : Action (Error E) P (Unit {0})
  commit_transaction c =
      let depth = c.transaction_depth in
      if depth == 0
      then (ok tt, c)
      else if depth == 1
      then (call Call.commit_transaction t.unit_reply (codes "failed to commit the transaction")
            >> set_depth (depth - 1))
          c
      else set_depth (depth - 1) c

  unfoldable pub rollback_transaction : Action (Error E) P (Unit {0})
  rollback_transaction c =
      let depth = c.transaction_depth in
      if depth == 0
      then (ok tt, c)
      else if depth == 1
      then (call (Call.rollback_transaction none) t.unit_reply
              (codes "failed to roll back the transaction")
            >> set_depth (depth - 1))
          c
      else (call (Call.rollback_transaction (some (savepoint_name (depth - 1)))) t.unit_reply
              (codes "failed to roll back to the nested transaction savepoint")
            >> set_depth (depth - 1))
          c

-- `queue_rollback`, which `start_rollback` calls when a transaction is dropped.
unfoldable pub queue_rollback : {P : Type 0} → MssqlConnection P → MssqlConnection P
queue_rollback c = record c { pending_rollback = true; transaction_depth = 0 }
