-- ===== src/Costmap/Polygon/Tests.antt =====
-- Runs of the polygon functions on a map of five columns and five rows.
use navigation_learning.Prelude.{ℕ, ◌≡◌, refl, true, false, some, List, [], ◌∷◌, replicate}
use mathlib.Core.List.{Perm}
use navigation_learning.Costmap.Numbers.{numbers}
use navigation_learning.Costmap.Grid.{Costmap, index_to_cells, world_to_map}
use navigation_learning.Costmap.Raytrace.{raytrace_line, bresenham, limit, gather_cells}
use navigation_learning.Costmap.Polygon.{
  sort_round, sort_loop, sort_cells, scan_column, fill_columns, polygon_outline_cells,
  convex_fill_cells, set_convex_polygon_cost,
}
use navigation_learning.Costmap.Polygon.Sort.{AscendingX, sort_cells-AscendingX}

abbrev grid : Costmap ℕ
grid = record {
  size_x = 5;
  size_y = 5;
  resolution = 1;
  origin_x = 0;
  origin_y = 0;
  cells = replicate 25 0;
  default_value = 0;
}

sorts_three : sort_cells ((3, 0) ∷ (2, 1) ∷ (1, 0) ∷ []) ≡ some ((1, 0) ∷ (2, 1) ∷ (3, 0) ∷ [])
unfolding sort_cells sort_loop sort_round
sorts_three = refl

square_filled :
    set_convex_polygon_cost numbers ((1, 1) ∷ (3, 1) ∷ (3, 3) ∷ (1, 3) ∷ []) 9 grid
    ≡ some (
      record grid {
        cells =
            0 ∷ 0 ∷ 0 ∷ 0 ∷ 0 ∷ 0 ∷ 9 ∷ 9 ∷ 9 ∷ 0 ∷ 0 ∷ 9 ∷ 9 ∷ 9 ∷ 0 ∷ 0 ∷ 9 ∷ 9 ∷ 9 ∷ 0 ∷ 0 ∷ 0
            ∷ 0 ∷ 0 ∷ 0 ∷ [];
      },
      true,
    )
unfolding index_to_cells set_convex_polygon_cost convex_fill_cells polygon_outline_cells
    fill_columns scan_column sort_cells sort_loop sort_round raytrace_line bresenham limit
    gather_cells world_to_map
square_filled = refl

outside_kept :
    set_convex_polygon_cost numbers ((1, 1) ∷ (7, 1) ∷ (3, 3) ∷ []) 9 grid ≡ some (grid, false)
unfolding set_convex_polygon_cost world_to_map
outside_kept = refl

sort_cells-AscendingX_example :
    (out : List (ℕ × ℕ)) × (sort_cells ((3, 0) ∷ (2, 1) ∷ []) ≡ some out)
    × AscendingX out
    × Perm out ((3, 0) ∷ (2, 1) ∷ [])
sort_cells-AscendingX_example = sort_cells-AscendingX ((3, 0) ∷ (2, 1) ∷ [])
