-- ===== src/Costmap/Grid.antt =====
-- `Costmap2D` of navigation2/nav2_costmap_2d/src/costmap_2d.cpp and its header. The array `costmap_`
-- is a list of bytes, empty where the pointer is null; an access outside it is `none`. A fresh array
-- holds an unspecified byte `junk`. World coordinates are an abstract type `D`, and the mutex is
-- left out: each method is one step.
pub mod Index
pub mod Region
pub mod Overlap
pub mod Origin
mod Tests
use package.navigation_learning.Prelude.{
  ℕ, zero, suc, ◌+◌, ◌-◌, ◌*◌, ◌/◌, ◌<◌, max, ap, Bool, true, false, not, ◌&&◌, ◌||◌, Option, none,
  some, List, [], map, u32, u8, ltb, ◌==◌, if◌then◌else◌, length, get_elem?, set, replicate,
}
use package.navigation_learning.Prelude.Int.{ℤ, pos, negsuc, ◌+ℤ◌, ◌-ℤ◌, ltb_ℤ}
use package.navigation_learning.Costmap.Buffer.{at, memset, memcpy}
use package.navigation_learning.Costmap.Doubles.{Doubles, max_D, to_u32, to_i32}

pub record Costmap (D : Type 0) : Type 0 where
  pub size_x : ℕ
  pub size_y : ℕ
  pub resolution : D
  pub origin_x : D
  pub origin_y : D
  pub cells : List ℕ
  pub default_value : ℕ

infixl 5 ◌>>=◌
abbrev pub ◌>>=◌ {ℓ κ} : {A : Type ℓ} {B : Type κ} → Option A → (A → Option B) → Option B
none >>= f = none
some a >>= f = f a

-- `getIndex` and `indexToCells`.
abbrev pub index_in : ℕ → ℕ → ℕ → ℕ
index_in size_x mx my = u32 (my * size_x + mx)

-- The two loops over rows of the array. `copy_rows` moves both pointers by a row in each round.
unfoldable pub copy_rows : List ℕ → ℕ → ℕ → List ℕ → ℕ → ℕ → ℕ → ℕ → Option (List ℕ)
copy_rows src sm sm_size_x dest dm dm_size_x region_x zero = some dest
copy_rows src sm sm_size_x dest dm dm_size_x region_x (suc rows) =
    memcpy dest dm src sm region_x >>= λ dest'.
    copy_rows src (sm + sm_size_x) sm_size_x dest' (dm + dm_size_x) dm_size_x region_x rows

-- `copyMapRegion`: the lower left corner and the width of each map, and the size of the region.
unfoldable pub copy_map_region : List ℕ → ℕ → ℕ → ℕ → List ℕ → ℕ → ℕ → ℕ → ℕ → ℕ → Option (List ℕ)
copy_map_region src sx sy sm_size_x dest dx dy dm_size_x region_x region_y =
    copy_rows src (index_in sm_size_x sx sy) sm_size_x dest (index_in dm_size_x dx dy) dm_size_x
      region_x region_y

-- The loop of `resetMapToValue`, which steps an unsigned index by a row while it is below `last`.
unfoldable pub reset_rows : ℕ → List ℕ → ℕ → ℕ → ℕ → ℕ → ℕ → Option (List ℕ)
reset_rows zero cells y last size_x len value = none
reset_rows (suc fuel) cells y last size_x len value =
    if ltb y last
    then (memset cells y value len >>= λ cells'.
        reset_rows fuel cells' (u32 (y + size_x)) last size_x len value)
    else some cells

module _ {D : Type 0} where
  pub get_index : Costmap D → ℕ → ℕ → ℕ
  get_index c mx my = index_in c.size_x mx my

  unfoldable pub index_to_cells : Costmap D → ℕ → ℕ × ℕ
  index_to_cells c index =
      let my = index / c.size_x in (u32 (index + 4294967296 - u32 (my * c.size_x)), my)

  unfoldable pub delete_maps : Costmap D → Costmap D
  delete_maps c = record c { cells = [] }

  unfoldable pub init_maps : ℕ → ℕ → ℕ → Costmap D → Costmap D
  init_maps junk size_x size_y c = record c { cells = replicate (u32 (size_x * size_y)) junk }

  unfoldable pub reset_maps : Costmap D → Option (Costmap D)
  reset_maps c = memset c.cells 0 c.default_value (u32 (c.size_x * c.size_y)) >>= λ cells.
      some (record c { cells = cells })

  unfoldable pub resize_map : ℕ → ℕ → ℕ → D → D → D → Costmap D → Option (Costmap D)
  unfolding init_maps reset_maps
  resize_map junk size_x size_y resolution origin_x origin_y c = reset_maps (
      init_maps junk size_x size_y (record c {
        size_x = size_x;
        size_y = size_y;
        resolution = resolution;
        origin_x = origin_x;
        origin_y = origin_y;
      }))

  -- The constructor with sizes.
  unfoldable pub new : ℕ → ℕ → ℕ → D → D → D → ℕ → Option (Costmap D)
  unfolding init_maps reset_maps
  new junk size_x size_y resolution origin_x origin_y default_value = reset_maps (
      init_maps junk size_x size_y (record {
        size_x = size_x;
        size_y = size_y;
        resolution = resolution;
        origin_x = origin_x;
        origin_y = origin_y;
        cells = [];
        default_value = default_value;
      }))

  -- One round more than there are rows is enough when the end of the region does not wrap.
  unfoldable pub reset_map_to_value : ℕ → ℕ → ℕ → ℕ → ℕ → Costmap D → Option (Costmap D)
  reset_map_to_value x0 y0 xn yn value c =
      reset_rows (suc yn) c.cells (u32 (y0 * c.size_x + x0)) (u32 (yn * c.size_x + x0)) c.size_x
        (u32 (xn + 4294967296 - x0)) value
      >>= λ cells. some (record c { cells = cells })

  unfoldable pub reset_map : ℕ → ℕ → ℕ → ℕ → Costmap D → Option (Costmap D)
  reset_map x0 y0 xn yn c = reset_map_to_value x0 y0 xn yn c.default_value c

  unfoldable pub get_cost : Costmap D → ℕ → ℕ → Option ℕ
  get_cost c mx my = get_elem? c.cells (index_in c.size_x mx my)

  pub set_cost : Costmap D → ℕ → ℕ → ℕ → Option (Costmap D)
  set_cost c mx my cost =
      if ltb (index_in c.size_x mx my) (length c.cells)
      then some (record c { cells = set c.cells (index_in c.size_x mx my) (u8 cost) })
      else none

  -- `operator=`; `is_self` is the test `this == &map`. The default value is not copied.
  unfoldable pub assign : ℕ → Bool → Costmap D → Costmap D → Option (Costmap D)
  unfolding init_maps
  assign junk true c map = some c
  assign junk false c map =
      let t = init_maps junk map.size_x map.size_y (record c {
        size_x = map.size_x;
        size_y = map.size_y;
        resolution = map.resolution;
        origin_x = map.origin_x;
        origin_y = map.origin_y;
      }) in
      memcpy t.cells 0 map.cells 0 (u32 (t.size_x * t.size_y)) >>= λ cells.
      some (record t { cells = cells })

  module _ (d : Doubles D) where
    pub cell_distance : Costmap D → D → ℕ
    cell_distance c world_dist =
        d.to_unsigned (max_D d (d.of_ℕ 0) (d.ceil (d.div world_dist c.resolution)))

    unfoldable pub map_to_world : Costmap D → ℕ → ℕ → D × D
    map_to_world c mx my = (
      d.add c.origin_x (d.mul (d.add (d.of_ℕ mx) d.half) c.resolution),
      d.add c.origin_y (d.mul (d.add (d.of_ℕ my) d.half) c.resolution),
    )

    -- The cell of a coordinate, `static_cast<int>((w - origin) / resolution)`.
    abbrev pub cell_of : D → D → D → ℤ
    cell_of w origin resolution = d.truncate (d.div (d.sub w origin) resolution)

    -- `none` is the result false; callers read the out-parameters only after true.
    unfoldable pub world_to_map : Costmap D → D → D → Option (ℕ × ℕ)
    world_to_map c wx wy =
        let mx = to_u32 (cell_of wx c.origin_x c.resolution) in
        let my = to_u32 (cell_of wy c.origin_y c.resolution) in
        if d.lt wx c.origin_x || d.lt wy c.origin_y
        then none
        else if ltb mx c.size_x && ltb my c.size_y
        then some (mx, my)
        else none

    pub world_to_map_no_bounds : Costmap D → D → D → ℤ × ℤ
    world_to_map_no_bounds c wx wy =
        (cell_of wx c.origin_x c.resolution, cell_of wy c.origin_y c.resolution)

    -- One coordinate of `worldToMapEnforceBounds`.
    pub enforce : D → D → D → ℕ → ℤ
    enforce w origin resolution size =
        if d.lt w origin
        then pos 0
        else if d.lt (d.add (d.mul resolution (d.of_ℕ size)) origin) w
        then to_i32 (u32 (size + 4294967295))
        else cell_of w origin resolution

    unfoldable pub world_to_map_enforce_bounds : Costmap D → D → D → ℤ × ℤ
    unfolding enforce
    world_to_map_enforce_bounds c wx wy =
        (enforce wx c.origin_x c.resolution c.size_x, enforce wy c.origin_y c.resolution c.size_y)

    -- Copies the window of `map` between two of its cells into `c`, which already has no array.
    unfoldable pub copy_window :
        ℕ → Costmap D → Costmap D → D → D → ℕ × ℕ → ℕ × ℕ → Option (Costmap D)
    unfolding init_maps
    copy_window junk c map origin_x origin_y (lx, ly) (ux, uy) =
        let size_x = u32 (ux + 4294967296 - lx) in
        let size_y = u32 (uy + 4294967296 - ly) in
        let t = init_maps junk size_x size_y (record c {
          size_x = size_x;
          size_y = size_y;
          resolution = map.resolution;
          origin_x = origin_x;
          origin_y = origin_y;
        }) in
        copy_map_region map.cells lx ly map.size_x t.cells 0 0 size_x size_x size_y >>= λ cells.
        some (record t { cells = cells })

    -- The maps are deleted before the corners of the window are looked up.
    unfoldable pub copy_costmap_window :
        ℕ → Bool → Costmap D → Costmap D → D → D → D → D → Option (Costmap D × Bool)
    unfolding copy_window delete_maps world_to_map
    copy_costmap_window junk true c map wx wy size_x size_y = some (c, false)
    copy_costmap_window junk false c map wx wy size_x size_y = elim (world_to_map map wx wy) [
      | none ↦ some (delete_maps c, false)
      | some lower ↦ elim (world_to_map map (d.add wx size_x) (d.add wy size_y)) [
        | none ↦ some (delete_maps c, false)
        | some upper ↦
            copy_window junk (delete_maps c) map wx wy lower upper >>= λ t. some (t, true)
      ]
    ]
