-- ===== src/Tests/Rows.antt =====
-- Instances of the theorems on rows and requests.
use sqlx_mssql_rs.Prelude.{ℕ, ◌≡◌, refl, none, some, List, [], ◌∷◌, Text, codes, get_elem?}
use sqlx_mssql_rs.Prelude.Ascii.{eq_ignore_ascii_case}
use sqlx_mssql_rs.ParamMarkers.Regions.{plain, classify}
use sqlx_mssql_rs.TypeInfo.{new}
use sqlx_mssql_rs.Rows.{MssqlColumn, MssqlRow, ok, by_name, index, try_get_raw}
use sqlx_mssql_rs.Rows.Lookup.{Names, index-Names, try_get_raw-index}
use sqlx_mssql_rs.Any.{column_names}
use sqlx_mssql_rs.Any.Names.{column_names-index}
use sqlx_mssql_rs.Request.{Built, build_request}
use sqlx_mssql_rs.Request.Names.{Asks, build_request-Asks}

abbrev column : ℕ → Text → MssqlColumn
column ordinal name = record {
  ordinal = ordinal;
  name = name;
  type_info = new (codes "int") 56 4 none none;
  nullable = none;
}

abbrev row : MssqlRow ℕ
row = record { columns = column 0 (codes "id") ∷ column 1 (codes "ID") ∷ []; values = 7 ∷ 8 ∷ [] }

upper_run : index {E = Unit} row.columns (by_name (codes "ID")) ≡ ok 1
unfolding index
upper_run = refl

mixed_run : index {E = Unit} row.columns (by_name (codes "Id")) ≡ ok 0
unfolding index eq_ignore_ascii_case
mixed_run = refl

index-Names_example :
    Names row.columns (codes "Id") (index {E = Unit} row.columns (by_name (codes "Id")))
index-Names_example = index-Names Unit row.columns (codes "Id")

try_get_raw-index_example :
    (v : ℕ) × (get_elem? row.values 1 ≡ some v)
    × (try_get_raw {E = Unit} row (by_name (codes "ID")) ≡ ok v)
try_get_raw-index_example = try_get_raw-index Unit ℕ row (by_name (codes "ID")) 1 refl upper_run

-- Of two columns with one name, a row gives the first and the map of the `Any` driver the second.
abbrev twice : List MssqlColumn
twice = column 0 (codes "id") ∷ column 1 (codes "id") ∷ []

first_of_two : index {E = Unit} twice (by_name (codes "id")) ≡ ok 0
unfolding index
first_of_two = refl

second_of_two : column_names twice (codes "id") ≡ some 1
unfolding column_names
second_of_two = refl

column_names-index_example :
    (i : ℕ) × (column_names row.columns (codes "ID") ≡ some i)
    × (index {E = Unit} row.columns (by_name (codes "ID")) ≡ ok i)
column_names-index_example = column_names-index row.columns (codes "ID") refl

abbrev statement : Text
statement = codes "SELECT '?', ?"

build_request-Asks_example :
    (built : Built ℕ) × (build_request statement (some (5 ∷ [])) ≡ some built)
    × Asks (classify plain statement) (5 ∷ []) built
build_request-Asks_example = build_request-Asks statement 5 []
