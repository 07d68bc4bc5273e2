-- ===== src/Costmap/Static.antt =====
-- `StaticLayer` (navigation2/nav2_costmap_2d/plugins/static_layer.cpp): the layer that holds a map from
-- the map server. The transform to the map's frame that a rolling window looks up is an argument, none
-- when the lookup throws. Subscriptions, log messages and frame names are left out.
pub mod Fill
pub mod Process
pub mod Composes
pub mod Updates
mod Tests
use package.navigation_learning.Prelude.{
  ℕ, zero, suc, ◌+◌, ◌-◌, ◌*◌, ◌/◌, ◌<◌, min, max, ap, Bool, true, false, not, ◌&&◌, ◌||◌, Option,
  none, some, List, ◌++◌, map, u32, u8, ltb, leb, ◌==◌, if◌then◌else◌, get_elem?, set,
}
use package.navigation_learning.Prelude.Int.{ℤ, pos, negsuc, leb_ℤ, ltb_ℤ}
use package.navigation_learning.Costmap.Doubles.{Doubles, min_D, max_D, to_u32, to_i32}
use package.navigation_learning.Costmap.Grid.{
  Costmap, resize_map, get_cost, set_cost, map_to_world, world_to_map, ◌>>=◌,
}
use package.navigation_learning.Costmap.Extent.{Box, ExtraBounds, use_extra_bounds, match_size}
use package.navigation_learning.Costmap.Messages.{OccupancyGrid, OccupancyGridUpdate, to_u8}
use package.navigation_learning.Costmap.Layer.{
  CostmapLayer, no_information, lethal_obstacle, write, update_with_max, update_with_true_overwrite,
}

pub record StaticLayer (D : Type 0) : Type 0 where
  pub layer : CostmapLayer D
  pub extra : ExtraBounds D
  pub is_rolling : Bool
  pub track_unknown_space : Bool
  pub use_maximum : Bool
  pub trinary_costmap : Bool
  pub lethal_threshold : ℕ
  pub unknown_cost_value : ℕ
  pub x : ℕ
  pub y : ℕ
  pub width : ℕ
  pub height : ℕ
  pub has_updated_data : Bool
  pub current : Bool

abbrev pub free_space : ℕ
free_space = 0

-- `std::max(std::min(temp_lethal_threshold, 100), 0)`.
unfoldable pub clamp_threshold : ℤ → ℕ
clamp_threshold (pos n) = if ltb 100 n then 100 else n
clamp_threshold (negsuc n) = 0

-- The two loops that write the cells of a row: `n` cells from `index`, read from `di` on.
unfoldable pub write_cells : (ℕ → ℕ) → List ℤ → ℕ → ℕ → ℕ → List ℕ → Option (List ℕ)
write_cells interpret values zero index di m = some m
write_cells interpret values (suc n) index di m = get_elem? values di >>= λ v.
    write m index (interpret (to_u8 v)) >>= λ m'.
    write_cells interpret values n (u32 (index + 1)) (u32 (di + 1)) m'

-- `for (unsigned int i = 0; i < size_y; ++i)` in `processMap`, with the rounds left.
unfoldable pub write_map : (ℕ → ℕ) → List ℤ → ℕ → ℕ → ℕ → List ℕ → Option (List ℕ)
write_map interpret values size_x zero index m = some m
write_map interpret values size_x (suc rows) index m =
    write_cells interpret values size_x index index m >>= λ m'.
    write_map interpret values size_x rows (u32 (index + size_x)) m'

-- `for (unsigned int y = 0; y < update->height ; y++)` in `incomingUpdate`.
unfoldable pub write_update :
    (ℕ → ℕ) → OccupancyGridUpdate → ℕ → ℕ → ℕ → ℕ → List ℕ → Option (List ℕ)
write_update interpret update size_x zero y di m = some m
write_update interpret update size_x (suc rows) y di m =
    let index_base = u32 (u32 (to_u32 update.y + y) * size_x) in
    write_cells interpret update.values update.width (u32 (index_base + to_u32 update.x)) di m
    >>= λ m'. write_update interpret update size_x rows (y + 1) (u32 (di + update.width)) m'

module _ {D : Type 0} (d : Doubles D) where
  -- `!=` on doubles that are numbers.
  abbrev pub ne_D : D → D → Bool
  ne_D a b = d.lt a b || d.lt b a

  unfoldable pub interpret_value : StaticLayer D → ℕ → ℕ
  interpret_value s value =
      if s.track_unknown_space && value == s.unknown_cost_value
      then no_information
      else if not (s.track_unknown_space) && value == s.unknown_cost_value
      then free_space
      else if leb s.lethal_threshold value
      then lethal_obstacle
      else if s.trinary_costmap
      then free_space
      else u8 (
          d.to_unsigned
            (d.mul (d.div (d.of_ℕ value) (d.of_ℕ s.lethal_threshold)) (d.of_ℕ lethal_obstacle)))

  abbrev pub differs : Costmap D → OccupancyGrid D → Bool
  differs c m =
      not (c.size_x == m.width)
      || not (c.size_y == m.height)
      || ne_D c.resolution m.resolution
      || ne_D c.origin_x m.origin_x
      || ne_D c.origin_y m.origin_y

  abbrev pub with_grid : StaticLayer D → Costmap D → StaticLayer D
  with_grid s c = record s { layer = record (s.layer) { grid = c } }

  -- `StaticLayer::matchSize`.
  unfoldable pub match_static : ℕ → Costmap D → StaticLayer D → Option (StaticLayer D)
  match_static junk master s =
      if s.is_rolling
      then some s
      else (match_size junk master s.layer.grid >>= λ c. some (with_grid s c))

  -- The master, its flag `size_locked_` and this layer, after the resizing in `processMap`. Of the
  -- layers that `LayeredCostmap::resizeMap` resizes, only this one is seen.
  unfoldable pub fit :
      ℕ
      → OccupancyGrid D
      → Costmap D
      → Bool
      → StaticLayer D
      → Option (Costmap D × Bool × StaticLayer D)
  fit junk m master size_locked s =
      if not (s.is_rolling) && (differs master m || not size_locked)
      then (resize_map junk m.width m.height m.resolution m.origin_x m.origin_y master
          >>= λ master'. match_static junk master' s >>= λ s'. some (master', true, s'))
      else if differs s.layer.grid m
      then (resize_map junk m.width m.height m.resolution m.origin_x m.origin_y s.layer.grid
          >>= λ c. some (master, size_locked, with_grid s c))
      else some (master, size_locked, s)

  unfoldable pub fill : OccupancyGrid D → StaticLayer D → Option (StaticLayer D)
  fill m s =
      write_map (interpret_value s) m.values m.width m.height 0 s.layer.grid.cells >>= λ cells.
      some (record (with_grid s (record (s.layer.grid) { cells = cells })) {
        x = 0;
        y = 0;
        width = s.layer.grid.size_x;
        height = s.layer.grid.size_y;
        has_updated_data = true;
        current = true;
      })

  unfoldable pub process_map :
      ℕ
      → OccupancyGrid D
      → Costmap D
      → Bool
      → StaticLayer D
      → Option (Costmap D × Bool × StaticLayer D)
  process_map junk m master size_locked s =
      fit junk m master size_locked s >>= λ r. fill m r.2 >>= λ s'. some (r.0, r.1, s')

  -- The test that makes `incomingUpdate` ignore an update.
  unfoldable pub exceeds : OccupancyGridUpdate → StaticLayer D → Bool
  exceeds update s =
      ltb_ℤ update.y (to_i32 s.y)
      || ltb (u32 (s.y + s.height)) (u32 (to_u32 update.y + update.height))
      || ltb_ℤ update.x (to_i32 s.x)
      || ltb (u32 (s.x + s.width)) (u32 (to_u32 update.x + update.width))

  unfoldable pub incoming_update : OccupancyGridUpdate → StaticLayer D → Option (StaticLayer D)
  incoming_update update s =
      if exceeds update s
      then some s
      else (write_update (interpret_value s) update s.layer.grid.size_x update.height 0 0
            s.layer.grid.cells
          >>= λ cells. some (record (with_grid s (record (s.layer.grid) { cells = cells })) {
            x = to_u32 update.x;
            y = to_u32 update.y;
            width = update.width;
            height = update.height;
            has_updated_data = true;
          }))

  -- `far` is 1e6 and `near` is -1e6.
  unfoldable pub update_bounds : D → D → StaticLayer D → Box D → StaticLayer D × Box D
  update_bounds far near s b =
      if not (s.is_rolling) && not (s.has_updated_data || s.extra.has_extra_bounds)
      then (s, b)
      else (let r = use_extra_bounds d far near b s.extra in
          let low = map_to_world d s.layer.grid s.x s.y in
          let high = map_to_world d s.layer.grid (u32 (s.x + s.width)) (u32 (s.y + s.height)) in
          (
            record s { extra = r.1; has_updated_data = false },
            record {
              min_x = min_D d low.0 r.0.min_x;
              min_y = min_D d low.1 r.0.min_y;
              max_x = max_D d high.0 r.0.max_x;
              max_y = max_D d high.1 r.0.max_y;
            },
          ))

  -- The body of the loops for a rolling window.
  unfoldable pub copy_cell :
      (D × D → D × D) → StaticLayer D → ℕ → ℕ → Costmap D → Option (Costmap D)
  copy_cell transform s i j master =
      let p = transform (map_to_world d master i j) in
      elim (world_to_map d s.layer.grid p.0 p.1) [
        | none ↦ some master
        | some loc ↦ get_cost s.layer.grid loc.0 loc.1 >>= λ cost.
            if s.use_maximum
            then (get_cost master i j >>= λ old. set_cost master i j (max cost old))
            else set_cost master i j cost
      ]

  abbrev pub copy_column :
      (D × D → D × D) → StaticLayer D → ℕ → ℕ → ℕ → Costmap D → Option (Costmap D)
  copy_column transform s i zero j master = some master
  copy_column transform s i (suc n) j master =
      copy_cell transform s i j master >>= λ master'. copy_column transform s i n (j + 1) master'

  abbrev pub copy_columns :
      (D × D → D × D) → StaticLayer D → ℕ → ℕ → ℕ → ℕ → Costmap D → Option (Costmap D)
  copy_columns transform s zero i rows j master = some master
  copy_columns transform s (suc n) i rows j master =
      copy_column transform s i rows j master >>= λ master'.
      copy_columns transform s n (i + 1) rows j master'

  unfoldable pub update_costs :
      Option (D × D → D × D) → StaticLayer D → Costmap D → ℕ → ℕ → ℕ → ℕ → Option (Costmap D)
  update_costs transform s master min_i min_j max_i max_j =
      if not (s.layer.enabled)
      then some master
      else if not (s.is_rolling)
      then if not (s.use_maximum)
        then update_with_true_overwrite s.layer master min_i min_j max_i max_j
        else update_with_max s.layer master min_i min_j max_i max_j
      else elim transform [
        | none ↦ some master
        | some t ↦ copy_columns t s (max_i - min_i) min_i (max_j - min_j) min_j master
      ]
