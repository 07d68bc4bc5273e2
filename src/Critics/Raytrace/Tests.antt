-- ===== src/Critics/Raytrace/Tests.antt =====
-- The two walks on a map of ten columns. Lengths are numbers here, and no line is cut short.
use mathlib.Core.Option.{map as map_option}
use navigation_learning.Prelude.{suc, some, min, max, ◌≡◌, refl, [], ◌∷◌, map, arith}
use navigation_learning.Prelude.Int.{pos, ◌-ℤ◌, abs_ℤ}
use navigation_learning.Costmap.Numbers.{numbers}
use navigation_learning.Costmap.Raytrace.{raytrace_line, bresenham, limit}
use navigation_learning.Critics.LineIterator.{new}
use navigation_learning.Critics.Raytrace.{line_cells, raytrace_line-line_cells}
use navigation_learning.Critics.Raytrace.Offsets.{index_of}

raytrace_line-test : raytrace_line numbers 10 4 1 1 3 100 ≡ 14 ∷ 23 ∷ 22 ∷ 31 ∷ []
unfolding raytrace_line bresenham limit
raytrace_line-test = refl

raytrace_line-line_cells_example :
    some (raytrace_line numbers 10 4 1 1 3 100)
    ≡ map_option (map (index_of 10)) (
        line_cells
          (suc (
            min
              (limit numbers
                (pos 1 -ℤ pos 4)
                (pos 3 -ℤ pos 1)
                100
                (max (abs_ℤ (pos 1 -ℤ pos 4)) (abs_ℤ (pos 3 -ℤ pos 1))))
              (max (abs_ℤ (pos 1 -ℤ pos 4)) (abs_ℤ (pos 3 -ℤ pos 1)))))
          (new (pos 4) (pos 1) (pos 1) (pos 3)))
unfolding ◌-ℤ◌
raytrace_line-line_cells_example = raytrace_line-line_cells numbers 10 4 1 1 3 100 (record {
  x0_fits = omega arith;
  y0_fits = omega arith;
  x1_fits = omega arith;
  y1_fits = omega arith;
  distances = omega arith;
})
