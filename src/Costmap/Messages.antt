-- ===== src/Costmap/Messages.antt =====
-- The messages that navigation2/nav2_costmap_2d/plugins/static_layer.cpp reads, with the fields that it
-- uses; `values` is the field `data`.
use navigation_learning.Prelude.{ℕ, ◌-◌, List, u8}
use navigation_learning.Prelude.Int.{ℤ, pos, negsuc}

-- `nav_msgs/OccupancyGrid` and `map_msgs/OccupancyGridUpdate`, whose cells are signed bytes.
pub record OccupancyGrid (D : Type 0) : Type 0 where
  pub width : ℕ
  pub height : ℕ
  pub resolution : D
  pub origin_x : D
  pub origin_y : D
  pub values : List ℤ

pub record OccupancyGridUpdate : Type 0 where
  pub x : ℤ
  pub y : ℤ
  pub width : ℕ
  pub height : ℕ
  pub values : List ℤ

-- A signed byte to `unsigned char`.
abbrev pub to_u8 : ℤ → ℕ
to_u8 (pos n) = u8 n
to_u8 (negsuc n) = 255 - u8 n
