-- ===== src/Costmap/Static/Tests.antt =====
-- Static layers on small maps.
use navigation_learning.Prelude.{ℕ, ◌≡◌, refl, true, false, some, [], ◌∷◌, arith}
use navigation_learning.Prelude.Int.{pos, negsuc}
use navigation_learning.Costmap.Numbers.{numbers}
use navigation_learning.Costmap.Grid.{Costmap}
use navigation_learning.Costmap.Grid.Index.{IsValid}
use navigation_learning.Costmap.Messages.{OccupancyGrid, OccupancyGridUpdate}
use navigation_learning.Costmap.Static.{
  StaticLayer, exceeds, incoming_update, interpret_value, write_update, write_cells, process_map,
}
use navigation_learning.Costmap.Static.Process.{Processed, process_map-Processed}
use navigation_learning.Costmap.Static.Updates.{
  Taken, incoming_update-Taken, incoming_update_narrows,
}

abbrev grid : Costmap ℕ
grid = record {
  size_x = 3;
  size_y = 1;
  resolution = 1;
  origin_x = 0;
  origin_y = 0;
  cells = 0 ∷ 0 ∷ 0 ∷ [];
  default_value = 0;
}

grid-IsValid : IsValid grid
grid-IsValid = record { size = refl; bounded = omega arith }

abbrev layer : StaticLayer ℕ
layer = record {
  layer = record { grid = grid; enabled = true };
  extra = record {
    box = record { min_x = 0; min_y = 0; max_x = 0; max_y = 0 };
    has_extra_bounds = false;
  };
  is_rolling = false;
  track_unknown_space = true;
  use_maximum = false;
  trinary_costmap = true;
  lethal_threshold = 65;
  unknown_cost_value = 255;
  x = 0;
  y = 0;
  width = 3;
  height = 1;
  has_updated_data = false;
  current = false;
}

-- The second cell occupied, the third one unknown.
abbrev first : OccupancyGridUpdate
first = record { x = pos 1; y = pos 0; width = 2; height = 1; values = pos 100 ∷ negsuc 0 ∷ [] }

abbrev second : OccupancyGridUpdate
second = record { x = pos 0; y = pos 0; width = 1; height = 1; values = pos 100 ∷ [] }

abbrev taken_first : StaticLayer ℕ
taken_first = record layer {
  layer = record { grid = record grid { cells = 0 ∷ 254 ∷ 255 ∷ [] }; enabled = true };
  x = 1;
  y = 0;
  width = 2;
  height = 1;
  has_updated_data = true;
}

takes_first : incoming_update numbers first layer ≡ some taken_first
unfolding incoming_update exceeds write_update write_cells interpret_value
takes_first = refl

ignores_second : incoming_update numbers second taken_first ≡ some taken_first
unfolding incoming_update exceeds
ignores_second = refl

abbrev map_message : OccupancyGrid ℕ
map_message = record {
  width = 1;
  height = 2;
  resolution = 1;
  origin_x = 0;
  origin_y = 0;
  values = pos 0 ∷ pos 80 ∷ [];
}

process_map-Processed_example :
    Processed numbers map_message layer (process_map numbers 7 map_message grid true layer)
process_map-Processed_example =
    process_map-Processed numbers 7 map_message grid true layer grid-IsValid (omega arith) refl

incoming_update-Taken_example :
    (exceeds numbers first layer ≡ true → incoming_update numbers first layer ≡ some layer)
    × (exceeds numbers first layer ≡ false
        → Taken numbers first layer 1 0 (incoming_update numbers first layer))
incoming_update-Taken_example =
    incoming_update-Taken numbers first layer 1 0 grid-IsValid (omega arith) (refl, refl)
      (omega arith, omega arith) (refl, omega arith)

first_in_window : exceeds numbers first layer ≡ false
unfolding exceeds
first_in_window = refl

incoming_update_narrows_example : incoming_update numbers second taken_first ≡ some taken_first
incoming_update_narrows_example =
    incoming_update_narrows numbers first second layer taken_first 1 0 0 0 (refl, refl) (refl, refl)
      (omega arith, omega arith) (omega arith, omega arith) first_in_window takes_first refl
