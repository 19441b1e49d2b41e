-- ===== src/Connection/Dropped.antt =====
-- A transaction that is dropped: `queue_rollback` of connection.rs, and the rollback that the next use
-- of the connection sends.
use sqlx_mssql_rs.Prelude.{◌≡◌, refl, ◌∙◌, true, none, List, [], Text}
use sqlx_mssql_rs.Tds.{Call, Tds}
use sqlx_mssql_rs.Connection.{
  ok, MssqlConnection, drain_reset, drain_rollback, drain_pending, commit_transaction,
  queue_rollback,
}
use sqlx_mssql_rs.Connection.Ends.{Ends, Ends-bind, Ends-if, Ends-call}
use sqlx_mssql_rs.Connection.Server.{SqlServer, Aborts-durable}
use sqlx_mssql_rs.Connection.Nested.{Transactions, at}
use sqlx_mssql_rs.Connection.Represents.{Represents}

module _ {E P V M : Type 0} (t : Tds E P V M) (server : SqlServer t) where
  -- A rollback is still to be sent.
  pub record Queued (c : MssqlConnection P) (d : List Text) : Type 0 where
    pub queued : c.pending_rollback ≡ true
    pub depth : c.transaction_depth ≡ 0
    pub durable : (server.session c.client).durable ≡ d
    pub idle : (server.session c.client).running ≡ none

  abbrev pub Kept : List Text → MssqlConnection P → Type 0
  Kept d c = (server.session c.client).durable ≡ d

  drain_reset-Queued :
      (c : MssqlConnection P) (d : List Text)
      → Queued c d
      → Ends (λ _ c'. Queued c' d) (Kept d) (drain_reset t c)
  unfolding drain_reset
  drain_reset-Queued c d q =
      Ends-if c.needs_reset _ _
        (λ _.
          Ends-call t Call.close_query t.unit_reply _ _
            (λ _ _. record {
              queued = q.queued;
              depth = q.depth;
              durable = rw (server.on_close_query c.client q.idle) q.durable;
              idle = rw (server.on_close_query c.client q.idle) q.idle;
            })
            (λ _. rw (server.on_close_query c.client q.idle) q.durable))
        (λ _. record { holds = q })

  drain_rollback-Queued :
      (c : MssqlConnection P) (d : List Text)
      → Queued c d
      → Ends (λ _ c'. Represents t server c' (at d [])) (Kept d) (drain_rollback t c)
  unfolding drain_rollback
  drain_rollback-Queued c d q =
      Ends-if c.pending_rollback _ _
        (λ _.
          Ends-call t (Call.rollback_transaction none) t.unit_reply _ _
            (λ _ e.
              let s = server.on_rollback c.client (rw e) in
              record {
                settled = refl;
                depth = q.depth;
                durable = rw s q.durable;
                levels = rw s;
                idle = rw s;
              })
            (λ e.
              Aborts-durable _ _ (server.on_failure c.client (Call.rollback_transaction none) tt e)
              ∙ q.durable))
        (λ e. cc (q.queued, e))

  -- The abandoned transaction is rolled back.
  pub drain_pending-Queued :
      (c : MssqlConnection P) (d : List Text)
      → Queued c d
      → Ends (λ _ c'. Represents t server c' (at d [])) (Kept d) (drain_pending t c)
  unfolding drain_pending
  drain_pending-Queued c d q =
      Ends-bind _ _ (drain_reset-Queued c d q) (λ _ c' q'. drain_rollback-Queued c' d q')

  -- A transaction is dropped at whatever depth, on a connection that stands at nested transactions
  -- with a server that keeps the laws. A commit of the transactions around it then returns success
  -- without a call to the server, and the next use of the connection, where its rollback succeeds,
  -- leaves no transaction open and none of the statements of any level durable. Where that use fails,
  -- nothing has become durable either.
  pub queue_rollback-Ends :
      (c : MssqlConnection P) (a : Transactions)
      → Represents t server c a
      → (commit_transaction t (queue_rollback c) ≡ (ok tt, queue_rollback c))
        × Ends
            (λ _ c'. Represents t server c' (at a.durable []))
            (Kept a.durable)
            (drain_pending t (queue_rollback c))
  unfolding queue_rollback commit_transaction
  queue_rollback-Ends c a r = (
    refl,
    drain_pending-Queued (queue_rollback c) a.durable
        (record { queued = refl; depth = refl; durable = r.durable; idle = r.idle }),
  )
