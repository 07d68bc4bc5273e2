-- ===== src/Costmap/Layered/Tests.antt =====
-- A costmap with two static layers.
use navigation_learning.Prelude.{
  ℕ, ◌<◌, ◌≡◌, refl, true, false, none, some, [], ◌∷◌, arith, if◌then◌else◌,
}
use navigation_learning.Prelude.Int.{◌+ℤ◌}
use navigation_learning.Costmap.Buffer.{memset}
use navigation_learning.Costmap.Numbers.{numbers}
use navigation_learning.Costmap.Extent.{use_extra_bounds}
use navigation_learning.Costmap.Grid.{
  Costmap, reset_map, reset_map_to_value, reset_rows, map_to_world, world_to_map_enforce_bounds,
}
use navigation_learning.Costmap.Grid.Index.{IsValid, cost_at}
use navigation_learning.Costmap.Layer.{
  update_with, update_rows, update_row, max_step, update_with_max,
}
use navigation_learning.Costmap.Layered.{
  LayeredCostmap, asked_bounds, upper_end, side, window, roll, update_window, update_map,
}
use navigation_learning.Costmap.Layered.Compose.{AllSuit, in_window, merge_all, update_map-Written}
use navigation_learning.Costmap.Static.{StaticLayer, update_bounds, update_costs}
use navigation_learning.Costmap.Static.Composes.{
  static_layer, merge_static, SuitsStatic, static_layer-LayerLaw,
}

abbrev grid : Costmap ℕ
grid = record {
  size_x = 3;
  size_y = 1;
  resolution = 1;
  origin_x = 0;
  origin_y = 0;
  cells = 9 ∷ 9 ∷ 9 ∷ [];
  default_value = 0;
}

grid-IsValid : IsValid grid
grid-IsValid = record { size = refl; bounded = omega arith }

abbrev layer : Costmap ℕ → StaticLayer ℕ
layer c = record {
  layer = record { grid = c; enabled = true };
  extra = record {
    box = record { min_x = 0; min_y = 0; max_x = 0; max_y = 0 };
    has_extra_bounds = false;
  };
  is_rolling = false;
  track_unknown_space = true;
  use_maximum = true;
  trinary_costmap = true;
  lethal_threshold = 65;
  unknown_cost_value = 255;
  x = 0;
  y = 0;
  width = 3;
  height = 1;
  has_updated_data = false;
  current = true;
}

abbrev walls : StaticLayer ℕ
walls = layer (record grid { cells = 254 ∷ 0 ∷ 255 ∷ [] })

abbrev carpets : StaticLayer ℕ
carpets = record (layer (record grid { cells = 0 ∷ 50 ∷ 60 ∷ [] })) {
  x = 1;
  width = 1;
  has_updated_data = true;
}

abbrev two_layers : LayeredCostmap ℕ (StaticLayer ℕ)
two_layers = record {
  costmap = grid;
  rolling_window = false;
  current = false;
  bounds = record { min_x = 0; min_y = 0; max_x = 0; max_y = 0 };
  bx0 = 0;
  bxn = 0;
  by0 = 0;
  byn = 0;
  initialized = false;
  size_locked = true;
  plugins = walls ∷ carpets ∷ [];
}

updated_cells :
    update_map (static_layer numbers 1000 0 0 none) numbers 1000 0 0 0 0 0 two_layers
    ≡ some (record two_layers {
      costmap = record grid { cells = 9 ∷ 50 ∷ 60 ∷ [] };
      bounds = record { min_x = 1; min_y = 0; max_x = 2; max_y = 1 };
      bx0 = 1;
      bxn = 3;
      by0 = 0;
      byn = 1;
      initialized = true;
      plugins = walls ∷ record carpets { has_updated_data = false } ∷ [];
    })
unfolding update_map roll window side upper_end update_window static_layer update_bounds
    update_costs update_with_max update_with update_rows update_row max_step reset_map
    reset_map_to_value reset_rows memset map_to_world world_to_map_enforce_bounds ◌+ℤ◌
    use_extra_bounds
updated_cells = refl

rolls : roll numbers 0 0 0 two_layers ≡ some grid
unfolding roll
rolls = refl

suit :
    AllSuit SuitsStatic
      (asked_bounds (static_layer numbers 1000 0 0 none) 1000 0 0 0 0 (walls ∷ carpets ∷ [])).0
      3
      1
unfolding static_layer update_bounds use_extra_bounds map_to_world
suit = ((refl, refl, refl), ((refl, refl, refl), tt))

update_map-Written_example :
    (result : LayeredCostmap ℕ (StaticLayer ℕ)) × (update_map
        (static_layer numbers 1000 0 0 none)
        numbers
        1000
        0
        0
        0
        0
        0
        two_layers
      ≡ some result)
    × IsValid (result.costmap)
    × ((x y : ℕ)
        → x < 3
        → y < 1
        → (let b =
              asked_bounds
                (static_layer numbers 1000 0 0 none)
                1000
                0
                0
                0
                0
                (walls ∷ carpets ∷ []) in
            cost_at 3 result.costmap.cells x y ≡ (
              if in_window (window numbers grid b.1) x y
              then merge_all merge_static b.0 x y 0
              else cost_at 3 grid.cells x y)))
update_map-Written_example =
    update_map-Written (static_layer numbers 1000 0 0 none) merge_static SuitsStatic
      (static_layer-LayerLaw numbers 1000 0 0 none) numbers 1000 0 0 0 0 0 walls (carpets ∷ [])
      two_layers grid refl rolls grid-IsValid (omega arith) suit
