-- ===== src/Costmap/Doubles.antt =====
-- The floating-point operations that costmaps use on world coordinates, as a parameter.
use navigation_learning.Prelude.{ℕ, ◌-◌, Bool, u32, ltb, if◌then◌else◌}
use navigation_learning.Prelude.Int.{ℤ, pos, negsuc}

pub record Doubles (D : Type 0) : Type 0 where
  pub add : D → D → D
  pub sub : D → D → D
  pub mul : D → D → D
  pub div : D → D → D
  pub lt : D → D → Bool
  pub of_ℕ : ℕ → D
  pub of_ℤ : ℤ → D
  pub half : D
  pub ceil : D → D
  pub hypot : D → D → D
  pub truncate : D → ℤ  -- static_cast<int>
  pub to_unsigned : D → ℕ  -- (unsigned int)

-- `std::min` and `std::max`: the first argument wins a tie.
abbrev pub min_D : {D : Type 0} → Doubles D → D → D → D
min_D d a b = if d.lt b a then b else a

abbrev pub max_D : {D : Type 0} → Doubles D → D → D → D
max_D d a b = if d.lt a b then b else a

-- `int` to `unsigned int`.
abbrev pub to_u32 : ℤ → ℕ
to_u32 (pos n) = u32 n
to_u32 (negsuc n) = 4294967295 - u32 n

-- `unsigned int` to `int`.
abbrev pub to_i32 : ℕ → ℤ
to_i32 n = if ltb n 2147483648 then pos n else negsuc (4294967295 - n)
