-- ===== src/Tests/Markers.antt =====
-- Runs and instances of param_markers.rs.
use sqlx_mssql_rs.Prelude.{some, ◌≡◌, refl, Text, codes}
use sqlx_mssql_rs.Prelude.Decimal.{to_string}
use sqlx_mssql_rs.ParamMarkers.{rewrite_param_markers}
use sqlx_mssql_rs.ParamMarkers.Regions.{plain, classify, count_markers, render}
use sqlx_mssql_rs.ParamMarkers.Rewrite.{rewrite_param_markers-classify}
use sqlx_mssql_rs.ParamMarkers.Idempotent.{
  rewrite_param_markers_again, rewrite_param_markers_unchanged,
}

abbrev quoted : Text
quoted = codes "WHERE a = '''?''' AND b = ?"

abbrev quoted_rewritten : Text
quoted_rewritten = codes "WHERE a = '''?''' AND b = @P1"

escaped_quote : rewrite_param_markers quoted ≡ some (quoted_rewritten, 1)
unfolding rewrite_param_markers to_string
escaped_quote = refl

comments :
    rewrite_param_markers (codes "SELECT ? -- ?\n/* ? */ , ?")
    ≡ some (codes "SELECT @P1 -- ?\n/* ? */ , @P2", 2)
unfolding rewrite_param_markers to_string
comments = refl

abbrev unmarked : Text
unmarked = codes "SELECT [a?] FROM t /* ? */"

unmarked_run : rewrite_param_markers unmarked ≡ some (unmarked, 0)
unfolding rewrite_param_markers
unmarked_run = refl

rewrite_param_markers-classify_example :
    rewrite_param_markers quoted
    ≡ some (render 0 (classify plain quoted), count_markers (classify plain quoted))
rewrite_param_markers-classify_example = rewrite_param_markers-classify quoted

rewrite_param_markers_again_example :
    rewrite_param_markers quoted_rewritten ≡ some (quoted_rewritten, 0)
rewrite_param_markers_again_example =
    rewrite_param_markers_again quoted quoted_rewritten 1 escaped_quote

rewrite_param_markers_unchanged_example : unmarked ≡ unmarked
rewrite_param_markers_unchanged_example =
    rewrite_param_markers_unchanged unmarked unmarked unmarked_run
