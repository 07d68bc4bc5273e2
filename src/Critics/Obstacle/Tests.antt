-- ===== src/Critics/Obstacle/Tests.antt =====
-- Examples of the obstacle critics on a map of four columns and one row.
use navigation_learning.Prelude.{ℕ, ◌+◌, ◌-◌, ◌*◌, ◌/◌, ◌≡◌, refl, [], ◌∷◌, arith, ltb}
use navigation_learning.Prelude.Int.{pos, ◌-ℤ◌, ◌+ℤ◌}
use navigation_learning.Costmap.Doubles.{Doubles}
use navigation_learning.Costmap.Grid.{Costmap, get_cost}
use navigation_learning.Critics.LineIterator.{new, advance, advances}
use navigation_learning.Critics.Obstacle.{line_cost, line_loop, point_cost, hits_obstacle}
use navigation_learning.Critics.Obstacle.Scores.{Covered, line_cost-Covered}

abbrev numbers : Doubles ℕ
numbers = record {
  add = λ a b. a + b;
  sub = λ a b. a - b;
  mul = λ a b. a * b;
  div = λ a b. a / b;
  lt = ltb;
  of_ℕ = λ n. n;
  of_ℤ = λ z. 0;
  half = 0;
  ceil = λ n. n;
  hypot = λ a b. a + b;
  truncate = λ n. pos n;
  to_unsigned = λ n. n;
}

abbrev strip : Costmap ℕ
strip = record {
  size_x = 4;
  size_y = 1;
  resolution = 1;
  origin_x = 0;
  origin_y = 0;
  cells = 3 ∷ 7 ∷ 5 ∷ 254 ∷ [];
  default_value = 0;
}

line_cost-test : line_cost numbers strip (pos 0) (pos 3) (pos 0) (pos 0) ≡ hits_obstacle
unfolding line_cost line_loop point_cost get_cost new advance ◌-ℤ◌ ◌+ℤ◌
line_cost-test = refl

line_cost-Covered_example :
    Covered numbers strip 7 (advances 1 (new (pos 2) (pos 0) (pos 0) (pos 0)))
unfolding line_cost line_loop point_cost get_cost new advance ◌-ℤ◌ ◌+ℤ◌
line_cost-Covered_example =
    line_cost-Covered numbers strip (pos 2) (pos 0) (pos 0) (pos 0) 7 1 refl (omega arith)
