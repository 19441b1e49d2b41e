-- ===== src/Request.antt =====
-- `build_request` of sqlx-mssql-rs-core/src/connection.rs: the statement and the named parameters of an
-- RPC. `V` is a parameter's value; its status flags are always NONE and are left out.
pub mod Names
use sqlx_mssql_rs.Prelude.{
  ℕ, ◌+◌, Option, none, some, List, [], ◌∷◌, ◌++◌, Text, codes, length, ◌==◌, if◌then◌else◌,
}
use sqlx_mssql_rs.Prelude.Decimal.{to_string}
use sqlx_mssql_rs.ParamMarkers.{rewrite_param_markers}

pub data Built (V : Type 0) : Type 0 where
  request : Text → List (Text × V) → Built V
  encode_error : Text → Built V

abbrev pub mismatch : ℕ → ℕ → Text
mismatch markers arguments =
    codes "query has "
    ++ (to_string markers
        ++ (codes " parameter marker(s) but "
            ++ (to_string arguments ++ codes " argument(s) were provided")))

module _ {V : Type 0} where
  abbrev pub unwrap_or_default : Option (List V) → List V
  unwrap_or_default none = []
  unwrap_or_default (some arguments) = arguments

  -- The enumerated values, from an index on.
  abbrev pub params_from : ℕ → List V → List (Text × V)
  params_from index [] = []
  params_from index (value ∷ values) =
      (codes "@P" ++ to_string (index + 1), value) ∷ params_from (index + 1) values

  abbrev pub check_arity : List V → Text × ℕ → Built V
  check_arity arguments (rewritten, markers) =
      if markers == length arguments
      then request rewritten (params_from 0 arguments)
      else encode_error (mismatch markers (length arguments))

  -- Behind `is_empty`; `none` only where the rewriting runs out of fuel.
  abbrev pub build_with : Text → List V → Option (Text × ℕ) → Option (Built V)
  build_with sql arguments none = none
  build_with sql arguments (some r) = some (check_arity arguments r)

  abbrev pub build_from : Text → List V → Option (Built V)
  build_from sql [] = some (request sql [])
  build_from sql (value ∷ values) = build_with sql (value ∷ values) (rewrite_param_markers sql)

  unfoldable pub build_request : Text → Option (List V) → Option (Built V)
  build_request sql arguments = build_from sql (unwrap_or_default arguments)
