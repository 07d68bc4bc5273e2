-- ===== src/Costmap/Numbers.antt =====
-- Natural numbers for world coordinates, for the tests.
use navigation_learning.Prelude.{ℕ, ◌+◌, ◌-◌, ◌*◌, ◌/◌, ltb}
use navigation_learning.Prelude.Int.{pos, abs_ℤ}
use navigation_learning.Costmap.Doubles.{Doubles}

abbrev pub numbers : Doubles ℕ
numbers = record {
  add = λ a b. a + b;
  sub = λ a b. a - b;
  mul = λ a b. a * b;
  div = λ a b. a / b;
  lt = ltb;
  of_ℕ = λ n. n;
  of_ℤ = λ z. abs_ℤ z;
  half = 0;
  ceil = λ n. n;
  hypot = λ a b. a + b;
  truncate = λ n. pos n;
  to_unsigned = λ n. n;
}
