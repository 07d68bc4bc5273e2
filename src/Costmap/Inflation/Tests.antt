-- ===== src/Costmap/Inflation/Tests.antt =====
-- Runs of the inflation layer.
use navigation_learning.Prelude.{
  ℕ, ◌<◌, ◌≡◌, refl, true, false, Option, none, some, List, [], ◌∷◌, arith,
}
use navigation_learning.Prelude.Int.{pos}
use navigation_learning.Costmap.Numbers.{numbers}
use navigation_learning.Costmap.Grid.{Costmap}
use package.navigation_learning.Costmap.Inflation.{
  InflationLayer, compute_cost, compute_caches, push_later, push, enqueue_cell_at, enqueue_around,
  visit_cell, visit_bins, obstacles_in_row, obstacles, update_inflation_costs,
}
use package.navigation_learning.Costmap.Inflation.Push.{Tabled, HypotBounds}
use package.navigation_learning.Costmap.Inflation.Tables.{compute_caches-Tabled}
use package.navigation_learning.Costmap.Inflation.Spread.{Inflated, update_inflation_costs-Inflated}

-- A factor of 0 beyond the inscribed radius.
abbrev no_factor : ℕ → ℕ
no_factor a = 0

abbrev bare : InflationLayer ℕ
bare = record {
  enabled = true;
  inflation_radius = 2;
  inscribed_radius = 1;
  cost_scaling_factor = 1;
  inflate_unknown = false;
  cell_inflation_radius = 2;
  cached_cell_inflation_radius = 0;
  resolution = 1;
  seen = [];
  cached_costs = [];
  cached_distances = [];
  last_bounds = (0, 0, 0, 0);
  need_reinflation = false;
}

-- An obstacle with a free cell, an unknown one and two free ones on the right.
abbrev strip : Costmap ℕ
strip = record {
  size_x = 5;
  size_y = 1;
  resolution = 1;
  origin_x = 0;
  origin_y = 0;
  cells = 7 ∷ 254 ∷ 255 ∷ 0 ∷ 9 ∷ [];
  default_value = 0;
}

numbers-HypotBounds : HypotBounds numbers
numbers-HypotBounds r i j h = ground arith

small_costs : (distance : ℕ) → compute_cost numbers no_factor bare distance < 255
unfolding compute_cost
small_costs distance = ground arith

compute_caches-Tabled_example : Tabled numbers (compute_caches numbers no_factor bare)
compute_caches-Tabled_example = compute_caches-Tabled numbers no_factor bare refl refl small_costs

bare-Tabled : Tabled numbers (compute_caches numbers no_factor bare)
bare-Tabled = compute_caches-Tabled numbers no_factor bare refl refl small_costs

update_inflation_costs-Inflated_example :
    Inflated numbers (compute_caches numbers no_factor bare) strip (
      update_inflation_costs numbers
        (pos 0)
        (pos 0)
        (pos 5)
        (pos 1)
        (compute_caches numbers no_factor bare)
        strip)
update_inflation_costs-Inflated_example =
    update_inflation_costs-Inflated numbers (pos 0) (pos 0) (pos 5) (pos 1)
      (compute_caches numbers no_factor bare) strip refl (omega arith) bare-Tabled
      numbers-HypotBounds

abbrev run : Option (List ℕ)
unfolding compute_cost compute_caches push_later push enqueue_cell_at enqueue_around visit_cell
    visit_bins obstacles_in_row obstacles update_inflation_costs
run =
    elim (update_inflation_costs numbers (pos 0) (pos 0) (pos 5) (pos 1)
      (compute_caches numbers no_factor bare) strip) [ none ↦ none | some r ↦ some (r.1.cells) ]

run_test : run ≡ some (253 ∷ 254 ∷ 253 ∷ 0 ∷ 9 ∷ [])
unfolding run
run_test = refl
