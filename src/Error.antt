-- ===== src/Error.antt =====
-- sqlx-mssql-rs-core/src/error.rs: the driver's errors, and what is lifted out of a TDS error.
use sqlx_mssql_rs.Prelude.{ℕ, Option, none, some, List, ◌∷◌, ◌++◌, Text, codes}
use sqlx_mssql_rs.Prelude.Decimal.{to_string}

-- One entry of the `errors` of mssql-tds's diagnostics; SQL Server's numbers are not negative.
pub record ServerMessage : Type 0 where
  pub message : Text
  pub number : ℕ

-- What the driver asks of mssql-tds's `Error`: its diagnostics, if the server has reported it, and
-- its `to_string`.
pub record TdsErrors (E : Type 0) : Type 0 where
  pub diagnostics : E → Option (List ServerMessage)
  pub error_text : E → Text

pub record MssqlDatabaseError (E : Type 0) : Type 0 where
  pub source : E
  pub message : Text
  pub code : Option Text

pub data MssqlError (E : Type 0) : Type 0 where
  database : MssqlDatabaseError E → MssqlError E
  configuration : Text → MssqlError E

-- The cases of `sqlx_core::Error` that the driver makes.
pub data Error (E : Type 0) : Type 0 where
  database : MssqlDatabaseError E → Error E
  configuration : Text → Error E
  encode : Text → Error E
  column_index_out_of_bounds : ℕ → ℕ → Error E
  column_not_found : Text → Error E

module _ {E : Type 0} where
  -- `impl From<MssqlError> for sqlx_core::Error`.
  abbrev pub to_sqlx_error : MssqlError E → Error E
  to_sqlx_error (MssqlError.database error) = Error.database error
  to_sqlx_error (MssqlError.configuration message) = Error.configuration message

module _ {E : Type 0} (t : TdsErrors E) where
  -- The primary message and the number of the first reported error.
  abbrev pub primary : E → Option (List ServerMessage) → Text × Option Text
  primary error (some (first ∷ _)) = (first.message, some (to_string first.number))
  primary error _ = (t.error_text error, none)

  -- `impl From<TdsError> for MssqlDatabaseError`.
  unfoldable pub from_tds_error : E → MssqlDatabaseError E
  from_tds_error error =
      let (message, code) = primary error (t.diagnostics error) in
      record { source = error; message = message; code = code }

  unfoldable pub with_context : E → Text → MssqlDatabaseError E
  with_context error context =
      let database_error = from_tds_error error in
      record database_error { message = context ++ (codes ": " ++ database_error.message) }

  -- `sqlx_core::Error::from(database_error_with_context(error, context))`.
  unfoldable pub database_error_with_context : E → Text → Error E
  database_error_with_context error context =
      to_sqlx_error (MssqlError.database (with_context error context))

  -- `impl From<TdsError> for MssqlError`.
  unfoldable pub mssql_error_from : E → MssqlError E
  mssql_error_from error = MssqlError.database (from_tds_error error)
