-- ===== src/Migrate/Atomic.antt =====
-- A migration that runs in a transaction is applied or reverted with its record, or not at all.
use sqlx_mssql_rs.Prelude.{◌≡◌, ◌⊎◌, List, ◌∷◌, ◌++◌, Text}
use sqlx_mssql_rs.Error.{Error}
use sqlx_mssql_rs.Tds.{Call, Log, Tds}
use sqlx_mssql_rs.Connection.{MssqlConnection}
use sqlx_mssql_rs.Connection.Ends.{Ends}
use sqlx_mssql_rs.Connection.Server.{SqlServer}
use sqlx_mssql_rs.Connection.Represents.{Represents}

module _ {E P V M : Type 0} (t : Tds E P V M) (server : SqlServer t) where
  abbrev pub Durable : List Text → MssqlConnection P → Type 0
  Durable d c = (server.session c.client).durable ≡ d

  -- What a failure leaves: nothing has become durable, or what failed is the commit itself and all of
  -- the statements have.
  abbrev pub AllOrNothing : List Text → List Text → MssqlConnection P → Type 0
  AllOrNothing d f c =
      Durable d c
      ⊎ (Durable (f ++ d) c × (log : Log P) × (c.client ≡ Call.commit_transaction ∷ log))
