-- ===== src/Costmap/Layer/Tests.antt =====
-- Runs of the update methods, and the theorem at concrete grids.
use navigation_learning.Prelude.{◌≡◌, refl, true, some, [], ◌∷◌, arith}
use navigation_learning.Costmap.Grid.{Costmap}
use navigation_learning.Costmap.Layer.{
  CostmapLayer, update_with, update_rows, update_row, max_step, addition_step, update_with_max,
  update_with_true_overwrite, update_with_overwrite, update_with_addition,
}
use navigation_learning.Costmap.Layer.Merge.{
  Updated, merge_max, merge_overwrite, merge_addition, updates-Updated,
}

abbrev master : Costmap (Unit {0})
master = record {
  size_x = 3;
  size_y = 2;
  resolution = tt;
  origin_x = tt;
  origin_y = tt;
  cells = 10 ∷ 255 ∷ 200 ∷ 40 ∷ 50 ∷ 60 ∷ [];
  default_value = 0;
}

abbrev layer : CostmapLayer (Unit {0})
layer = record {
  grid = record master { cells = 255 ∷ 20 ∷ 100 ∷ 254 ∷ 0 ∷ 0 ∷ [] };
  enabled = true;
}

maximum :
    update_with_max layer master 0 0 3 2
    ≡ some (record master { cells = 10 ∷ 20 ∷ 200 ∷ 254 ∷ 50 ∷ 60 ∷ [] })
unfolding update_with_max update_with update_rows update_row max_step
maximum = refl

addition :
    update_with_addition layer master 0 0 3 1
    ≡ some (record master { cells = 10 ∷ 20 ∷ 252 ∷ 40 ∷ 50 ∷ 60 ∷ [] })
unfolding update_with_addition update_with update_rows update_row addition_step
addition = refl

updates-Updated_example :
    Updated merge_max layer master 1 0 3 2 (update_with_max layer master 1 0 3 2)
    × Updated
        (λ cost old. cost)
        layer
        master
        1
        0
        3
        2
        (update_with_true_overwrite layer master 1 0 3 2)
    × Updated merge_overwrite layer master 1 0 3 2 (update_with_overwrite layer master 1 0 3 2)
    × Updated merge_addition layer master 1 0 3 2 (update_with_addition layer master 1 0 3 2)
updates-Updated_example =
    updates-Updated layer master 1 0 3 2 (record { size = refl; bounded = omega arith }) refl
      (omega arith) (omega arith)
