-- ===== src/Connection/Queries.antt =====
-- The methods of sqlx-mssql-rs-core/src/connection.rs that read rows. A column's value is made by
-- value.rs, `convert` from what the client gives and its metadata, and `null` without metadata.
use sqlx_mssql_rs.Prelude.{
  ℕ, zero, suc, Bool, true, false, Option, none, some, List, [], ◌∷◌, ◌++◌, map, Text, codes,
  get_elem?,
}
use sqlx_mssql_rs.Prelude.Int.{ℤ, pos}
use sqlx_mssql_rs.Error.{Error}
use sqlx_mssql_rs.Tds.{StatementResult, Call, Tds}
use sqlx_mssql_rs.Connection.{
  Outcome, ok, err, stuck, MssqlConnection, Action, ◌>>=◌, ◌>>◌, pure, call, drain_pending,
  continue_with,
}
use sqlx_mssql_rs.Connection.Statements.{close_results}

-- `.ok()` of a call, whose error, and so its context, is dropped.
abbrev pub ignored :
    {X P A : Type 0} → Outcome X A × MssqlConnection P → Outcome X (Unit {0}) × MssqlConnection P
ignored (ok _, c) = (ok tt, c)
ignored (err _, c) = (ok tt, c)
ignored (stuck, c) = (stuck, c)

-- A row's values with the metadata of their columns.
abbrev pub row_values : {V M W : Type 0} → (V → M → W) → W → List M → List V → List W
row_values convert null ms [] = []
row_values convert null [] (v ∷ vs) = null ∷ row_values convert null [] vs
row_values convert null (m ∷ ms) (v ∷ vs) = convert v m ∷ row_values convert null ms vs

module _ {E P V M W : Type 0} (t : Tds E P V M) (convert : V → M → W) (null : W) where
  -- The `while let` of `query_rows`, on fuel.
  unfoldable pub read_rows : ℕ → List M → List (List W) → Action (Error E) P (List (List W))
  read_rows zero metadata rows c = (stuck, c)
  read_rows (suc fuel) metadata rows c =
      let next = λ (values : List V).
        read_rows fuel metadata (rows ++ row_values convert null metadata values ∷ []) in
      (call t Call.next_row t.row_reply (codes "failed to read a row") >>= λ row. elim row [
        | none ↦ pure rows
        | some values ↦ next values
      ])
        c

  abbrev pub read_result : ℕ → Action (Error E) P (List (List W))
  read_result fuel c =
      (read_rows fuel (t.metadata c.client) [] >>= λ rows. close_results t >> pure rows) c

  abbrev pub at_rows : ℕ → Bool → Action (Error E) P (List (List W))
  at_rows fuel true c = read_result fuel c
  at_rows fuel false c =
      continue_with (λ _. pure []) (ignored (call t Call.close_query t.unit_reply (codes "") c))

  -- Behind `execute`.
  abbrev pub rows_of : ℕ → StatementResult → Action (Error E) P (List (List W))
  rows_of fuel StatementResult.rows = read_result fuel
  rows_of fuel _ =
      call t Call.advance_to_rows t.positioned_reply (codes "failed to read the result set")
      >>= at_rows fuel

  unfoldable pub query_rows : ℕ → Text → Action (Error E) P (List (List W))
  query_rows fuel sql = do
    drain_pending t
    result ← call t (Call.execute sql) t.statement_reply (codes "query failed")
    rows_of fuel result

-- `Option::unwrap_or_default`, for numbers and bytes.
abbrev pub or_default {ℓ} : {A : Type ℓ} → A → Option A → A
or_default d none = d
or_default d (some a) = a

-- `and_then` on the value at a position.
abbrev pub cell : {W A : Type 0} → (W → Option A) → List W → ℕ → Option A
cell read row i = elim (get_elem? row i) [ none ↦ none | some w ↦ read w ]

module _ {E P V M W : Type 0} (t : Tds E P V M) (convert : V → M → W) (null : W)
    (as_i64 : W → Option ℤ) (as_bytes : W → Option (List ℕ)) where
  abbrev pub first_cell : List (List W) → Option ℤ
  first_cell rows = elim (get_elem? rows 0) [ none ↦ none | some row ↦ cell as_i64 row 0 ]

  unfoldable pub scalar_i64 : ℕ → Text → Action (Error E) P (Option ℤ)
  scalar_i64 fuel sql = query_rows t convert null fuel sql >>= λ rows. pure (first_cell rows)

  abbrev pub version_and_checksum : List W → ℤ × List ℕ
  version_and_checksum row =
      (or_default (pos 0) (cell as_i64 row 0), or_default [] (cell as_bytes row 1))

  unfoldable pub list_migrations : ℕ → Text → Action (Error E) P (List (ℤ × List ℕ))
  list_migrations fuel sql =
      query_rows t convert null fuel sql >>= λ rows. pure (map version_and_checksum rows)

module _ {E P V M : Type 0} (t : Tds E P V M) where
  abbrev metadata_failure : Text
  metadata_failure = codes "failed to read statement metadata"

  -- The `while let` of `collect_rows`, on fuel.
  unfoldable pub collect_values : ℕ → List (List V) → Action (Error E) P (List (List V))
  collect_values zero rows c = (stuck, c)
  collect_values (suc fuel) rows c =
      let next = λ (values : List V). collect_values fuel (rows ++ values ∷ []) in
      (call t Call.next_row t.row_reply metadata_failure >>= λ row. elim row [
        | none ↦ pure rows
        | some values ↦ next values
      ])
        c

  abbrev pub collect_result : ℕ → Action (Error E) P (List M × List (List V))
  collect_result fuel c =
      let metadata = t.metadata c.client in
      (collect_values fuel [] >>= λ rows.
      call t Call.close_query t.unit_reply (codes "failed to close the metadata result set")
      >> pure (metadata, rows))
        c

  abbrev pub collect_at : ℕ → Bool → Action (Error E) P (List M × List (List V))
  collect_at fuel true c = collect_result fuel c
  collect_at fuel false c =
      continue_with (λ _. pure ([], []))
        (ignored (call t Call.close_query t.unit_reply (codes "") c))

  abbrev pub collect_of : ℕ → StatementResult → Action (Error E) P (List M × List (List V))
  collect_of fuel StatementResult.rows = collect_result fuel
  collect_of fuel _ =
      call t Call.advance_to_rows t.positioned_reply metadata_failure >>= collect_at fuel

  unfoldable pub collect_rows : ℕ → Text → P → Action (Error E) P (List M × List (List V))
  collect_rows fuel sql params = do
    drain_pending t
    result ←
        call t (Call.execute_sp_executesql sql params) t.statement_reply
          (codes "failed to describe the statement")
    collect_of fuel result
