-- ===== src/Costmap/Extent.antt =====
-- The boxes of `CostmapLayer` in navigation2/nav2_costmap_2d/src/costmap_layer.cpp: the area that an
-- update has to cover, grown by points and by the extra bounds that other code asks for; with
-- `matchSize`, which gives a layer the sizes of the master grid. `far` is 1e6 and `near` is -1e6.
pub mod Cover
mod Tests
use package.navigation_learning.Prelude.{
  ℕ, ◌-◌, ◌/◌, min, max, ap, Bool, true, false, Option, none, map, if◌then◌else◌,
}
use package.navigation_learning.Costmap.Doubles.{Doubles, min_D, max_D}
use package.navigation_learning.Costmap.Grid.{Costmap, resize_map}

pub record Box (D : Type 0) : Type 0 where
  pub min_x : D
  pub min_y : D
  pub max_x : D
  pub max_y : D

-- `extra_min_x_` to `extra_max_y_`, and `has_extra_bounds_`.
pub record ExtraBounds (D : Type 0) : Type 0 where
  pub box : Box D
  pub has_extra_bounds : Bool

module _ {D : Type 0} (d : Doubles D) (far near : D) where
  abbrev pub none_yet : Box D
  none_yet = record { min_x = far; min_y = far; max_x = near; max_y = near }

  unfoldable pub new : ExtraBounds D
  new = record { box = none_yet; has_extra_bounds = false }

  unfoldable pub touch : D → D → Box D → Box D
  touch x y b = record {
    min_x = min_D d x b.min_x;
    min_y = min_D d y b.min_y;
    max_x = max_D d x b.max_x;
    max_y = max_D d y b.max_y;
  }

  -- `std::min(a, b)` and `std::max(a, b)` on each side.
  abbrev pub join : Box D → Box D → Box D
  join a b = record {
    min_x = min_D d a.min_x b.min_x;
    min_y = min_D d a.min_y b.min_y;
    max_x = max_D d a.max_x b.max_x;
    max_y = max_D d a.max_y b.max_y;
  }

  unfoldable pub add_extra_bounds : D → D → D → D → ExtraBounds D → ExtraBounds D
  add_extra_bounds mx0 my0 mx1 my1 e = record {
    box = join (record { min_x = mx0; min_y = my0; max_x = mx1; max_y = my1 }) e.box;
    has_extra_bounds = true;
  }

  unfoldable pub use_extra_bounds : Box D → ExtraBounds D → Box D × ExtraBounds D
  use_extra_bounds b e =
      if e.has_extra_bounds
      then (join e.box b, record { box = none_yet; has_extra_bounds = false })
      else (b, e)

module _ {D : Type 0} where
  -- The layer's own grid, resized to the master's.
  unfoldable pub match_size : ℕ → Costmap D → Costmap D → Option (Costmap D)
  match_size junk master layer =
      resize_map junk master.size_x master.size_y master.resolution master.origin_x master.origin_y
        layer
