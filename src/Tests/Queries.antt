-- ===== src/Tests/Queries.antt =====
-- A client that delivers one row, and the instance of the theorem on queries.
use sqlx_mssql_rs.Prelude.{ℕ, ◌*◌, ◌≡◌, refl, false, none, some, List, [], ◌∷◌, arith, codes}
use sqlx_mssql_rs.Tds.{TdsResult, StatementResult, Call, Log, Tds}
use sqlx_mssql_rs.Connection.{ok, MssqlConnection}
use sqlx_mssql_rs.Connection.Queries.{query_rows}
use sqlx_mssql_rs.Connection.Reading.{after, AreRows, at_once, query_rows-Delivers}

abbrev one_row : Tds Unit Unit ℕ ℕ
one_row = record {
  errors = record { diagnostics = λ _. none; error_text = λ _. codes "broken" };
  unit_reply = λ _. TdsResult.ok tt;
  statement_reply = λ _. TdsResult.ok StatementResult.rows;
  positioned_reply = λ _. TdsResult.ok false;
  row_reply = λ log. elim log [
    | Call.next_row ∷ Call.execute _ ∷ _ ↦ TdsResult.ok (some (7 ∷ 8 ∷ []))
    | _ ↦ TdsResult.ok none
  ];
  metadata = λ _. 1 ∷ 2 ∷ [];
}

abbrev value : ℕ → ℕ → ℕ
value v m = v * m

abbrev columns : List ℕ
columns = 1 ∷ 2 ∷ []

abbrev delivered : List (List ℕ)
delivered = (7 ∷ 8 ∷ []) ∷ []

abbrev fresh : MssqlConnection Unit
fresh = record { client = []; transaction_depth = 0; needs_reset = false; pending_rollback = false }

abbrev sent : Log Unit
sent = Call.execute (codes "SELECT 7, 8") ∷ []

query_rows-Delivers_example :
    (rows : List (List ℕ)) × AreRows one_row value 0 columns delivered rows
    × (query_rows one_row value 0 2 (codes "SELECT 7, 8") fresh ≡ (
      ok rows,
      record fresh { client = Call.close_query ∷ after one_row value 0 sent delivered },
    ))
query_rows-Delivers_example =
    query_rows-Delivers one_row value 0 2 (codes "SELECT 7, 8") delivered fresh sent refl refl
      (at_once refl) (refl, refl) (omega arith) refl
