-- ===== src/Connection/Refinement.antt =====
-- The transaction methods of connection.rs implement the stack of nested transactions.
use sqlx_mssql_rs.Prelude.{
  ◌-◌, ◌==◌, ◌≡◌, refl, ◌⊎◌, inl, inr, true, false, none, some, List, [], ◌∷◌, ◌++◌, arith, Text,
  length,
}
use sqlx_mssql_rs.Tds.{Call, Log, Tds}
use sqlx_mssql_rs.Connection.{
  MssqlConnection, call, drain_pending, savepoint_name, set_depth, ◌>>◌, begin_transaction,
  commit_transaction, rollback_transaction,
}
use sqlx_mssql_rs.Connection.Ends.{Ends, Ends-bind, Ends-both, Ends-mono, Ends-if, Ends-call}
use sqlx_mssql_rs.Connection.Server.{SqlServer, succeeded}
use sqlx_mssql_rs.Connection.Nested.{
  Transactions, at, committed, rolled_back, Nested-committed, Nested-rolled_back, works-Nested,
}
use sqlx_mssql_rs.Connection.Represents.{
  Represents, Fails, Reaches, drain_pending-Reaches, aborted, failed_call,
}
use sqlx_mssql_rs.Connection.Dropped.{Queued, Kept, drain_pending-Queued}
use sqlx_mssql_rs.Connection.Opening.{Opened, drain_pending-IsCleared, start_or_save-Opened}

module _ {E P V M : Type 0} (t : Tds E P V M) (server : SqlServer t) where
  -- Where a transaction can be begun: the connection stands at nested transactions, or one was
  -- dropped and is still to be rolled back.
  pub data Stands (c : MssqlConnection P) : Transactions → Type 0 where
    settled : {a : Transactions} → Represents t server c a → Stands c a
    abandoned : {d : List Text} → Queued t server c d → Stands c (at d [])

  abbrev pub Unopened :
      (c : MssqlConnection P) (a : Transactions) → Stands c a → MssqlConnection P → Type 0
  Unopened c a (settled _) c' = Fails t server c' a
  Unopened c a (abandoned {d} _) c' = Kept t server d c'

  -- With a server that keeps the laws, on a connection that stands at nested transactions or has a
  -- dropped one still to be rolled back, beginning a transaction ends. Where it succeeds a level is
  -- open inside the others; the calls were, in their order, that which closes a result left open, if
  -- there is one, the rollback of the dropped transaction, if there is one, and then `BEGIN` at the
  -- outermost level and a savepoint numbered by the depth elsewhere; and no result is left open. Where
  -- it fails nothing has become durable; a connection that stood at nested transactions has the same
  -- depth, and its levels stay or the server has rolled the whole transaction back.
  pub begin_transaction-Reaches :
      (c : MssqlConnection P) (a : Transactions) (s : Stands c a)
      → Ends (λ _. Opened t server c a) (Unopened c a s) (begin_transaction t c)
  unfolding begin_transaction
  begin_transaction-Reaches c a (settled r) =
      Ends-bind _ (drain_pending t c)
        (Ends-both _ (drain_pending-Reaches t server c a r) (drain_pending-IsCleared t server c))
        (λ _ c' (r', h). start_or_save-Opened t server c c' a r' h)
  begin_transaction-Reaches c a (abandoned {d} q) =
      Ends-bind _ (drain_pending t c)
        (Ends-both _ (drain_pending-Queued t server c d q) (drain_pending-IsCleared t server c))
        (λ _ c' (r', h).
          Ends-mono _ (start_or_save-Opened t server c c' (at d []) r' h) (λ _ _ p. p)
            (λ _ f. f.durable))

  -- A call that leaves a level: the depth is lowered behind it.
  leave_Ends :
      {R : MssqlConnection P → Type 0} (c : MssqlConnection P) (done : Transactions) (x : Call P)
      (context : Text)
      → (succeeded t (x ∷ c.client) ≡ true
          → Represents t server
              (record c { client = x ∷ c.client; transaction_depth = c.transaction_depth - 1 })
              done)
      → (succeeded t (x ∷ c.client) ≡ false → R (record c { client = x ∷ c.client }))
      → Ends
          (λ _ c'. Represents t server c' done)
          R
          ((call t x t.unit_reply context >> set_depth t (c.transaction_depth - 1)) c)
  leave_Ends c done x context k l =
      Ends-bind (λ _. set_depth t (c.transaction_depth - 1)) (call t x t.unit_reply context c)
        (Ends-call t
          {Q = λ _ c'.
            Represents t server (record c' { transaction_depth = c.transaction_depth - 1 }) done}
          x t.unit_reply context c (λ _ e. k (rw e)) l)
        (λ _ c' q. record { holds = q })

  -- A failed commit: it has not happened, or its answer was lost and all of it has.
  abbrev pub Doubts : MssqlConnection P → Transactions → Type 0
  Doubts c a =
      Fails t server c a
      ⊎ ((c.transaction_depth ≡ length a.levels)
          × ((server.session c.client).durable ≡ (committed a).durable)
          × (log : Log P) × (c.client ≡ Call.commit_transaction ∷ log))

  doubtful :
      (c : MssqlConnection P) (d f : List Text)
      → Represents t server c (at d (f ∷ []))
      → succeeded t (Call.commit_transaction ∷ c.client) ≡ false
      → Doubts (record c { client = Call.commit_transaction ∷ c.client }) (at d (f ∷ []))
  doubtful c d f r e =
      let (w, open_, nested) = r.levels in
      elim (server.on_failed_commit c.client w e open_) [
        | inl h ↦ inl (aborted t server c (at d (f ∷ [])) Call.commit_transaction r h)
        | inr all ↦ inr (r.depth, rw (all, r.durable, works-Nested f w nested) refl, c.client, refl)
      ]

  commit_at :
      (c : MssqlConnection P) (d : List Text) (l : List (List Text))
      → Represents t server c (at d l)
      → Ends
          (λ _ c'. Represents t server c' (committed (at d l)))
          (λ c'. Doubts c' (at d l))
          (commit_transaction t c)
  unfolding commit_transaction
  commit_at c d [] r =
      Ends-if (c.transaction_depth == 0) _ _ (λ _. record { holds = r })
        (λ e. absurd (let k = r.depth in ground arith))
  commit_at c d (f ∷ []) r =
      let (w, e, nested) = r.levels in
      Ends-if (c.transaction_depth == 0) _ _ (λ e. absurd (let k = r.depth in ground arith))
        (λ _.
          Ends-if (c.transaction_depth == 1) _ _
            (λ _.
              leave_Ends c (at (f ++ d) []) Call.commit_transaction _
                (λ ok.
                  let s = server.on_commit c.client w ok e r.idle in
                  record {
                    settled = r.settled;
                    depth = omega (arith, r.depth);
                    durable = rw (s, r.durable, works-Nested f w nested);
                    levels = rw s;
                    idle = rw s;
                  })
                (doubtful c d f r))
            (λ e. absurd (let k = r.depth in ground arith)))
  commit_at c d (f ∷ g ∷ fs) r =
      let (w, e, nested) = r.levels in
      Ends-if (c.transaction_depth == 0) _ _ (λ e. absurd (let k = r.depth in ground arith))
        (λ _.
          Ends-if (c.transaction_depth == 1) _ _ (λ e. absurd (let k = r.depth in ground arith))
            (λ _. record {
              holds = record {
                settled = r.settled;
                depth = omega (arith, r.depth);
                durable = r.durable;
                levels = (w, e, Nested-committed f g fs w nested);
                idle = r.idle;
              };
            }))

  rollback_at :
      (c : MssqlConnection P) (d : List Text) (l : List (List Text))
      → Represents t server c (at d l)
      → Reaches t server (rolled_back (at d l)) (at d l) (rollback_transaction t c)
  unfolding rollback_transaction
  rollback_at c d [] r =
      Ends-if (c.transaction_depth == 0) _ _ (λ _. record { holds = r })
        (λ e. absurd (let k = r.depth in ground arith))
  rollback_at c d (f ∷ []) r =
      Ends-if (c.transaction_depth == 0) _ _ (λ e. absurd (let k = r.depth in ground arith))
        (λ _.
          Ends-if (c.transaction_depth == 1) _ _
            (λ _.
              leave_Ends c (at d []) (Call.rollback_transaction none) _
                (λ ok.
                  let s = server.on_rollback c.client ok in
                  record {
                    settled = r.settled;
                    depth = omega (arith, r.depth);
                    durable = rw (s, r.durable);
                    levels = rw s;
                    idle = rw s;
                  })
                (failed_call t server c (at d (f ∷ [])) (Call.rollback_transaction none) tt r))
            (λ e. absurd (let k = r.depth in ground arith)))
  rollback_at c d (f ∷ g ∷ fs) r =
      let (w, e, nested) = r.levels in
      let (w', unwound, left) = Nested-rolled_back f g fs w nested in
      let name = savepoint_name (c.transaction_depth - 1) in
      let same : length (g ∷ fs) ≡ c.transaction_depth - 1 = omega (arith, r.depth) in
      Ends-if (c.transaction_depth == 0) _ _ (λ e. absurd (let k = r.depth in ground arith))
        (λ _.
          Ends-if (c.transaction_depth == 1) _ _ (λ e. absurd (let k = r.depth in ground arith))
            (λ _.
              leave_Ends c (at d (g ∷ fs)) (Call.rollback_transaction (some name)) _
                (λ ok.
                  let s =
                    server.on_rollback_to c.client name w w' ok e r.idle (rw (← same) unwound) in
                  record {
                    settled = r.settled;
                    depth = omega (arith, r.depth);
                    durable = rw (s, r.durable);
                    levels = (w', rw s, left);
                    idle = rw s;
                  })
                (failed_call t server c (at d (f ∷ g ∷ fs)) (Call.rollback_transaction (some name))
                  tt r)))

  -- On a connection that stands at nested transactions, with a server that keeps the laws,
  -- committing ends, and closes the innermost level: its statements go to the level around it, and
  -- those of the outermost one become durable. With no transaction open it does nothing. Where it
  -- fails the depth stays, and either nothing has become durable, and the levels stay or the server
  -- has rolled the whole transaction back; or the call that failed was the commit, and all the
  -- statements of the outermost level have become durable.
  pub commit_transaction-Reaches :
      (c : MssqlConnection P) (a : Transactions)
      → Represents t server c a
      → Ends
          (λ _ c'. Represents t server c' (committed a))
          (λ c'. Doubts c' a)
          (commit_transaction t c)
  commit_transaction-Reaches c a = commit_at c a.durable a.levels

  -- On a connection that stands at nested transactions, with a server that keeps the laws, rolling
  -- back ends, and undoes the innermost level's statements, those of the levels that were committed
  -- into it included, and no others. With no transaction open it does nothing. Where it fails the
  -- depth stays, nothing has become durable, and the levels stay or the server has rolled the whole
  -- transaction back.
  pub rollback_transaction-Reaches :
      (c : MssqlConnection P) (a : Transactions)
      → Represents t server c a
      → Reaches t server (rolled_back a) a (rollback_transaction t c)
  rollback_transaction-Reaches c a = rollback_at c a.durable a.levels
