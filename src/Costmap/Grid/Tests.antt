-- ===== src/Costmap/Grid/Tests.antt =====
-- Runs on small maps, and the theorems at concrete maps. World coordinates are numbers here.
use navigation_learning.Prelude.{ℕ, ◌<◌, ◌≡◌, refl, some, List, [], ◌∷◌, arith, if◌then◌else◌}
use navigation_learning.Prelude.Int.{pos, negsuc, ◌-ℤ◌, ◌+ℤ◌}
use navigation_learning.Costmap.Buffer.{memcpy, memset}
use navigation_learning.Costmap.Grid.Overlap.{cell_size, start}
use navigation_learning.Costmap.Grid.{
  Costmap, reset_map_to_value, reset_rows, copy_map_region, copy_rows,
}
use navigation_learning.Costmap.Grid.Index.{IsValid, cost_at}
use navigation_learning.Costmap.Grid.Region.{
  in_rect, Pasted, copy_map_region-Pasted, reset_map_to_value-Painted,
}
use navigation_learning.Costmap.Grid.Origin.{move_window, moved_cost, move_window-moved_cost}

-- 1 2 3
-- 4 5 6
abbrev small : Costmap ℕ
small = record {
  size_x = 3;
  size_y = 2;
  resolution = 1;
  origin_x = 0;
  origin_y = 0;
  cells = 1 ∷ 2 ∷ 3 ∷ 4 ∷ 5 ∷ 6 ∷ [];
  default_value = 9;
}

small-IsValid : IsValid small
small-IsValid = record { size = refl; bounded = omega arith }

shifted :
    move_window 7 (pos 1) (negsuc 0) 10 20 small
    ≡ some (record small { origin_x = 10; origin_y = 20; cells = 9 ∷ 9 ∷ 9 ∷ 2 ∷ 3 ∷ 9 ∷ [] })
unfolding move_window copy_map_region copy_rows cell_size start ◌-ℤ◌ ◌+ℤ◌ memcpy memset
shifted = refl

painted :
    reset_map_to_value 1 0 3 2 8 small ≡ some (record small { cells = 1 ∷ 8 ∷ 8 ∷ 4 ∷ 8 ∷ 8 ∷ [] })
unfolding reset_map_to_value reset_rows memset
painted = refl

copy_map_region-Pasted_example :
    Pasted small.cells 3 1 0
      (0 ∷ 0 ∷ 0 ∷ 0 ∷ [])
      2
      2
      0
      0
      2
      2
      (copy_map_region small.cells 1 0 3 (0 ∷ 0 ∷ 0 ∷ 0 ∷ []) 0 0 2 2 2)
copy_map_region-Pasted_example =
    copy_map_region-Pasted small.cells 3 2 1 0 (0 ∷ 0 ∷ 0 ∷ 0 ∷ []) 2 2 0 0 2 2
      (refl, omega arith, omega arith, omega arith) (refl, omega arith, omega arith, omega arith)

reset_map_to_value-Painted_example :
    (out : List ℕ) × (reset_map_to_value 1 0 3 2 8 small ≡ some (record small { cells = out }))
    × IsValid (record small { cells = out })
    × ((x y : ℕ)
        → x < 3
        → y < 2
        → cost_at 3 out x y ≡ (if in_rect 1 0 2 2 x y then 8 else cost_at 3 small.cells x y))
reset_map_to_value-Painted_example =
    reset_map_to_value-Painted small 1 0 3 2 8 small-IsValid (omega arith) (omega arith)

move_window-moved_cost_example :
    (out : List ℕ) × (move_window 7 (pos 1) (negsuc 0) 10 20 small
      ≡ some (record small { origin_x = 10; origin_y = 20; cells = out }))
    × IsValid (record small { cells = out })
    × ((x y : ℕ) → x < 3 → y < 2 → cost_at 3 out x y ≡ moved_cost small (pos 1) (negsuc 0) x y)
move_window-moved_cost_example =
    move_window-moved_cost small small-IsValid (pos 1) (negsuc 0) (omega arith) (omega arith) 7 10
      20
