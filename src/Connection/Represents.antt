-- ===== src/Connection/Represents.antt =====
-- What it is that a connection and its server stand at a stack of nested transactions.
use sqlx_mssql_rs.Prelude.{
  ◌≡◌, refl, ◌⊎◌, inl, inr, Bool, false, Option, none, some, List, [], ◌∷◌, Text, length,
}
use sqlx_mssql_rs.Error.{Error}
use sqlx_mssql_rs.Tds.{Call, Tds}
use sqlx_mssql_rs.Connection.{Outcome, MssqlConnection, drain_reset, drain_rollback, drain_pending}
use sqlx_mssql_rs.Connection.Ends.{Ends, Ends-bind, Ends-if, Ends-call}
use sqlx_mssql_rs.Connection.Server.{Mark, SqlServer, Aborts, is_ok, IsTransactionCall}
use sqlx_mssql_rs.Connection.Nested.{Transactions, Nested}

module _ {E P V M : Type 0} (t : Tds E P V M) (server : SqlServer t) where
  -- The levels are those of the server's open transaction.
  abbrev pub Holds : List (List Text) → Option (List Mark) → Type 0
  Holds [] o = o ≡ none
  Holds (f ∷ fs) o = (w : List Mark) × (o ≡ some w) × Nested (f ∷ fs) w

  -- The connection and the server stand at the nested transactions `a`, and no batch is running.
  pub record Represents (c : MssqlConnection P) (a : Transactions) : Type 0 where
    pub settled : c.pending_rollback ≡ false
    pub depth : c.transaction_depth ≡ length a.levels
    pub durable : (server.session c.client).durable ≡ a.durable
    pub levels : Holds a.levels (server.session c.client).open_transaction
    pub idle : (server.session c.client).running ≡ none

  -- The depth is that of `a` and nothing but its work is durable. The server is at the levels of `a`
  -- too, or it has rolled the whole transaction back.
  pub record Fails (c : MssqlConnection P) (a : Transactions) : Type 0 where
    pub settled : c.pending_rollback ≡ false
    pub depth : c.transaction_depth ≡ length a.levels
    pub durable : (server.session c.client).durable ≡ a.durable
    pub levels :
        Holds a.levels (server.session c.client).open_transaction
        ⊎ ((server.session c.client).open_transaction ≡ none)

  pub Represents-Fails : (c : MssqlConnection P) (a : Transactions) → Represents c a → Fails c a
  Represents-Fails c a r = record {
    settled = r.settled;
    depth = r.depth;
    durable = r.durable;
    levels = inl r.levels;
  }

  -- The connection ends at the nested transactions `done`, or with an error that fails at `failed`.
  abbrev pub Reaches :
      Transactions → Transactions → {A : Type 0} → Outcome (Error E) A × MssqlConnection P → Type 0
  Reaches done failed = Ends (λ _ c. Represents c done) (λ c. Fails c failed)

  pub same_session :
      (c : MssqlConnection P) (a : Transactions) (x : Call P) (reset : Bool)
      → server.session (x ∷ c.client) ≡ server.session c.client
      → Represents c a
      → Represents (record c { client = x ∷ c.client; needs_reset = reset }) a
  same_session c a x reset e r = record {
    settled = r.settled;
    depth = r.depth;
    durable = rw e r.durable;
    levels = rw e r.levels;
    idle = rw e r.idle;
  }

  drain_reset-Reaches :
      (c : MssqlConnection P) (a : Transactions) → Represents c a → Reaches a a (drain_reset t c)
  unfolding drain_reset
  drain_reset-Reaches c a r =
      let same =
        same_session c a Call.close_query false (server.on_close_query c.client r.idle) r in
      Ends-if c.needs_reset _ _
        (λ _.
          Ends-call t Call.close_query t.unit_reply _ _ (λ _ _. same)
            (λ _. Represents-Fails _ a same))
        (λ _. record { holds = r })

  drain_rollback-Reaches :
      (c : MssqlConnection P) (a : Transactions) → Represents c a → Reaches a a (drain_rollback t c)
  unfolding drain_rollback
  drain_rollback-Reaches c a r =
      Ends-if c.pending_rollback _ _ (λ e. cc (r.settled, e)) (λ _. record { holds = r })

  -- With no abandoned transaction, draining leaves the nested transactions alone.
  pub drain_pending-Reaches :
      (c : MssqlConnection P) (a : Transactions) → Represents c a → Reaches a a (drain_pending t c)
  unfolding drain_pending
  drain_pending-Reaches c a r =
      Ends-bind (λ _. drain_rollback t) (drain_reset t c) (drain_reset-Reaches c a r)
        (λ _ c'. drain_rollback-Reaches c' a)

  -- What a session leaves that is as it was, or whose transaction is gone.
  pub aborted :
      (c : MssqlConnection P) (a : Transactions) (x : Call P)
      → Represents c a
      → Aborts (server.session c.client) (server.session (x ∷ c.client))
      → Fails (record c { client = x ∷ c.client }) a
  aborted c a x r (inl same) = Represents-Fails _ a (same_session c a x c.needs_reset same r)
  aborted c a x r (inr gone) = record {
    settled = r.settled;
    depth = r.depth;
    durable = rw gone r.durable;
    levels = inr (rw gone refl);
  }

  -- What a failing transaction call leaves.
  pub failed_call :
      (c : MssqlConnection P) (a : Transactions) (x : Call P)
      → IsTransactionCall x
      → Represents c a
      → is_ok (t.unit_reply (x ∷ c.client)) ≡ false
      → Fails (record c { client = x ∷ c.client }) a
  failed_call c a x h r e = aborted c a x r (server.on_failure c.client x h e)
