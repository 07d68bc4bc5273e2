-- ===== src/Costmap/Extent/Tests.antt =====
-- An example of the boxes, with numbers for coordinates.
use navigation_learning.Prelude.{ℕ, ◌+◌, ◌-◌, ◌*◌, ◌/◌, arith, ltb}
use navigation_learning.Prelude.Int.{pos}
use navigation_learning.Costmap.Doubles.{Doubles}
use navigation_learning.Costmap.Extent.{Box}
use navigation_learning.Costmap.Extent.Cover.{OrderLaws}

abbrev numbers : Doubles ℕ
numbers = record {
  add = λ a b. a + b;
  sub = λ a b. a - b;
  mul = λ a b. a * b;
  div = λ a b. a / b;
  lt = ltb;
  of_ℕ = λ n. n;
  of_ℤ = λ z. 0;
  half = 0;
  ceil = λ n. n;
  hypot = λ a b. a + b;
  truncate = λ n. pos n;
  to_unsigned = λ n. n;
}

numbers-OrderLaws : OrderLaws numbers
numbers-OrderLaws = record { asym = λ a b h. ground arith; cotrans = λ a b c h g. ground arith }

abbrev window : Box ℕ
window = record { min_x = 2; min_y = 2; max_x = 4; max_y = 4 }

abbrev corner : Box ℕ
corner = record { min_x = 7; min_y = 7; max_x = 9; max_y = 9 }
