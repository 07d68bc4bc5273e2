-- ===== src/Costmap/Layered.antt =====
-- `LayeredCostmap` (navigation2/nav2_costmap_2d/src/layered_costmap.cpp): a master grid and the layers
-- that write to it. A layer is a value of a type `S` with the virtual methods of `Layer`; a fault in
-- one is `none`. `int` bounds are integers without a limit; log messages are left out.
pub mod Window
pub mod Compose
mod Tests
use package.navigation_learning.Prelude.{
  ℕ, suc, ◌+◌, ◌-◌, ◌/◌, ◌<◌, min, max, ap, Bool, true, false, ◌&&◌, Option, none, some, List, [],
  ◌∷◌, map, u32, ltb, if◌then◌else◌, set,
}
use package.navigation_learning.Prelude.Int.{ℤ, pos, negsuc, pos_part, ◌+ℤ◌, ltb_ℤ}
use package.navigation_learning.Costmap.Doubles.{Doubles, to_u32, to_i32}
use package.navigation_learning.Costmap.Grid.{
  Costmap, resize_map as resize_costmap, reset_map, world_to_map_enforce_bounds, ◌>>=◌,
}
use package.navigation_learning.Costmap.Grid.Origin.{update_origin}
use package.navigation_learning.Costmap.Extent.{Box}

-- The virtual methods that the costmap calls: `updateBounds`, `updateCosts`, `matchSize`, `isCurrent`.
pub record Layer (D S : Type 0) : Type 0 where
  pub update_bounds : S → D → D → D → Box D → S × Box D
  pub update_costs : S → Costmap D → ℕ → ℕ → ℕ → ℕ → Option (S × Costmap D)
  pub match_size : S → Costmap D → Option S
  pub is_current : S → Bool

pub record LayeredCostmap (D S : Type 0) : Type 0 where
  pub costmap : Costmap D
  pub rolling_window : Bool
  pub current : Bool
  pub bounds : Box D
  pub bx0 : ℕ
  pub bxn : ℕ
  pub by0 : ℕ
  pub byn : ℕ
  pub initialized : Bool
  pub size_locked : Bool
  pub plugins : List S

module _ {D S : Type 0} (d : Doubles D) where
  -- The constructor, with the default constructor of `Costmap2D`.
  pub new : Bool → Bool → LayeredCostmap D S
  new rolling_window track_unknown = record {
    costmap = record {
      size_x = 0;
      size_y = 0;
      resolution = d.of_ℕ 0;
      origin_x = d.of_ℕ 0;
      origin_y = d.of_ℕ 0;
      cells = [];
      default_value = if track_unknown then 255 else 0;
    };
    rolling_window = rolling_window;
    current = false;
    bounds = record { min_x = d.of_ℕ 0; min_y = d.of_ℕ 0; max_x = d.of_ℕ 0; max_y = d.of_ℕ 0 };
    bx0 = 0;
    bxn = 0;
    by0 = 0;
    byn = 0;
    initialized = false;
    size_locked = false;
    plugins = [];
  }

-- `std::min(static_cast<int>(size), xn + 1)`.
unfoldable pub upper_end : ℤ → ℕ → ℤ
upper_end xn size = if ltb_ℤ (xn +ℤ pos 1) (to_i32 size) then xn +ℤ pos 1 else to_i32 size

-- One side of the window; none when the bounds are crossed.
unfoldable pub side : ℤ → ℤ → ℕ → Option (ℕ × ℕ)
side x0 xn size =
    if ltb_ℤ (upper_end xn size) (pos (pos_part x0))
    then none
    else some (pos_part x0, to_u32 (upper_end xn size))

module _ {D : Type 0} (d : Doubles D) where
  -- `getSizeInMetersX` and `getSizeInMetersY`.
  abbrev pub size_in_meters : Costmap D → ℕ → D
  size_in_meters c size = d.mul (d.add (d.of_ℕ (u32 (size + 4294967295))) d.half) c.resolution

  abbrev pub rolled_origin : Costmap D → D → ℕ → D
  rolled_origin c robot size = d.sub robot (d.div (size_in_meters c size) (d.of_ℕ 2))

  unfoldable pub window : Costmap D → Box D → Option ((ℕ × ℕ) × (ℕ × ℕ))
  window c b =
      let low = world_to_map_enforce_bounds d c b.min_x b.min_y in
      let high = world_to_map_enforce_bounds d c b.max_x b.max_y in
      side low.0 high.0 c.size_x >>= λ xs. side low.1 high.1 c.size_y >>= λ ys. some (xs, ys)

module _ {D S : Type 0} (d : Doubles D) where
  unfoldable pub roll : ℕ → D → D → LayeredCostmap D S → Option (Costmap D)
  roll junk robot_x robot_y l =
      if l.rolling_window
      then update_origin d junk (rolled_origin d l.costmap robot_x l.costmap.size_x)
          (rolled_origin d l.costmap robot_y l.costmap.size_y) l.costmap
      else some l.costmap

module _ {D S : Type 0} (L : Layer D S) where
  abbrev pub match_all : Costmap D → List S → Option (List S)
  match_all c [] = some []
  match_all c (s ∷ plugins) =
      L.match_size s c >>= λ s'. match_all c plugins >>= λ rest. some (s' ∷ rest)

  unfoldable pub resize_map :
      ℕ → ℕ → ℕ → D → D → D → Bool → LayeredCostmap D S → Option (LayeredCostmap D S)
  resize_map junk size_x size_y resolution origin_x origin_y size_locked l =
      resize_costmap junk size_x size_y resolution origin_x origin_y l.costmap >>= λ c.
      match_all c l.plugins >>= λ plugins.
      some (record l { costmap = c; size_locked = size_locked; plugins = plugins })

  abbrev pub bounds_pass : D → D → D → List S → Box D → List S × Box D
  bounds_pass robot_x robot_y robot_yaw [] b = ([], b)
  bounds_pass robot_x robot_y robot_yaw (s ∷ plugins) b =
      let first = L.update_bounds s robot_x robot_y robot_yaw b in
      let rest = bounds_pass robot_x robot_y robot_yaw plugins first.1 in (first.0 ∷ rest.0, rest.1)

  -- The bounds that the layers ask for, from the empty box; `far` is 1e30 and `near` is -1e30.
  abbrev pub asked_bounds : D → D → D → D → D → List S → List S × Box D
  asked_bounds far near robot_x robot_y robot_yaw plugins =
      bounds_pass robot_x robot_y robot_yaw plugins
        (record { min_x = far; min_y = far; max_x = near; max_y = near })

  abbrev pub costs_pass : ℕ → ℕ → ℕ → ℕ → List S → Costmap D → Option (List S × Costmap D)
  costs_pass x0 y0 xn yn [] c = some ([], c)
  costs_pass x0 y0 xn yn (s ∷ plugins) c = L.update_costs s c x0 y0 xn yn >>= λ first.
      costs_pass x0 y0 xn yn plugins first.1 >>= λ rest. some (first.0 ∷ rest.0, rest.1)

  -- The part of `updateMap` from the check of the window on.
  unfoldable pub update_window :
      Option ((ℕ × ℕ) × (ℕ × ℕ)) → LayeredCostmap D S → Option (LayeredCostmap D S)
  update_window none l = some l
  update_window (some ((x0, xn), (y0, yn))) l = reset_map x0 y0 xn yn l.costmap >>= λ c.
      costs_pass x0 y0 xn yn l.plugins c >>= λ r. some (record l {
        costmap = r.1;
        plugins = r.0;
        bx0 = x0;
        bxn = xn;
        by0 = y0;
        byn = yn;
        initialized = true;
      })

  module _ (d : Doubles D) (far near : D) (junk : ℕ) where
    unfoldable pub update_map : D → D → D → LayeredCostmap D S → Option (LayeredCostmap D S)
    update_map robot_x robot_y robot_yaw l = roll d junk robot_x robot_y l >>= λ c. elim l.plugins [
      | [] ↦ some (record l { costmap = c })
      | s ∷ plugins ↦
          let b = asked_bounds far near robot_x robot_y robot_yaw (s ∷ plugins) in
          update_window (window d c b.1) (record l { costmap = c; plugins = b.0; bounds = b.1 })
    ]

  unfoldable pub is_current : LayeredCostmap D S → LayeredCostmap D S × Bool
  is_current l = let current = all_current l.plugins in (record l { current = current }, current)
    where
      all_current : List S → Bool
      all_current [] = true
      all_current (s ∷ plugins) = L.is_current s && all_current plugins
