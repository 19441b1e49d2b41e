-- ===== src/Spatial/Bounds.antt =====
-- Which points `figure_coords` of types/geo.rs gives.
use mathlib.Core.Logic.{◌⊎◌}
use sqlx_mssql_rs.Prelude.{
  ℕ, ◌+◌, ◌≤◌, ◌≡◌, List, length, take, drop, get_elem?, Option, some, none,
}
use sqlx_mssql_rs.Spatial.{Coord, Figure}
use sqlx_mssql_rs.Spatial.Parses.{All}
use sqlx_mssql_rs.Spatial.Answers.{Answers}

-- The offset is not inside the range.
abbrev pub IsOutside : ℕ → ℕ → Figure → Type 0
IsOutside start end g = (g.point_offset ≤ start) ⊎ (end ≤ g.point_offset)

abbrev IsLeast : ℕ → Option ℕ → List Figure → Type 0
IsLeast s none = All (λ g. g.point_offset ≤ s)
IsLeast s (some m) = All (IsOutside s m)

-- The points of a figure: those from its offset on, inside the table, up to where no other figure
-- starts: that is the offset of another figure or the end of the table.
pub record IsOwn (f : Figure) (figures : List Figure) (points coords : List Coord) : Type 0 where
  pub inside : f.point_offset + length coords ≤ length points
  pub same : coords ≡ take (length coords) (drop f.point_offset points)
  pub alone : All (IsOutside f.point_offset (f.point_offset + length coords)) figures
  pub stops :
      (f.point_offset + length coords ≡ length points)
      ⊎ ((g : Figure) × (i : ℕ) × (get_elem? figures i ≡ some g)
          × (g.point_offset ≡ f.point_offset + length coords))

-- A next offset is that of some figure.
abbrev IsOffset : List Figure → Option ℕ → Type 0
IsOffset fs none = Unit {0}
IsOffset fs (some m) = (g : Figure) × (i : ℕ) × (get_elem? fs i ≡ some g) × (g.point_offset ≡ m)

abbrev StopsAt : ℕ → List Figure → ℕ → Type 0
StopsAt n fs end =
    (end ≡ n) ⊎ ((g : Figure) × (i : ℕ) × (get_elem? fs i ≡ some g) × (g.point_offset ≡ end))
