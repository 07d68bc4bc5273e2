-- ===== src/Costmap/Layer.antt =====
-- `CostmapLayer` of navigation2/nav2_costmap_2d/src/costmap_layer.cpp: the four ways in which a layer
-- writes its costs to the master grid. The bounds come from `LayeredCostmap::updateMap`, which clamps
-- them to the map, so they are natural numbers here.
pub mod Merge
mod Tests
use package.navigation_learning.Prelude.{
  ℕ, zero, suc, ◌+◌, ◌-◌, ◌*◌, ◌/◌, ◌<◌, min, max, ap, Bool, true, ◌||◌, Option, none, some, List,
  ◌++◌, map, u32, ltb, leb, ◌==◌, if◌then◌else◌, length, get_elem?, set,
}
use package.navigation_learning.Costmap.Buffer.{at}
use package.navigation_learning.Costmap.Grid.{Costmap, ◌>>=◌}

abbrev pub no_information : ℕ
no_information = 255

abbrev pub lethal_obstacle : ℕ
lethal_obstacle = 254

abbrev pub inscribed_inflated_obstacle : ℕ
inscribed_inflated_obstacle = 253

-- A write outside the array is a fault.
abbrev pub write : List ℕ → ℕ → ℕ → Option (List ℕ)
write m it v = if ltb it (length m) then some (set m it v) else none

-- The bodies of the inner loops: the layer's cost, the master array and the index.
unfoldable pub max_step : ℕ → List ℕ → ℕ → Option (List ℕ)
max_step cost m it =
    if cost == no_information
    then some m
    else (get_elem? m it >>= λ old.
        if old == no_information || ltb old cost then write m it cost else some m)

unfoldable pub true_overwrite_step : ℕ → List ℕ → ℕ → Option (List ℕ)
true_overwrite_step cost m it = write m it cost

unfoldable pub overwrite_step : ℕ → List ℕ → ℕ → Option (List ℕ)
overwrite_step cost m it = if cost == no_information then some m else write m it cost

unfoldable pub addition_step : ℕ → List ℕ → ℕ → Option (List ℕ)
addition_step cost m it =
    if cost == no_information
    then some m
    else (get_elem? m it >>= λ old.
        if old == no_information
        then write m it cost
        else if leb inscribed_inflated_obstacle (old + cost)
        then write m it (inscribed_inflated_obstacle - 1)
        else write m it (old + cost))

module _ (step : ℕ → List ℕ → ℕ → Option (List ℕ)) (layer : List ℕ) where
  -- `for (int i = min_i; i < max_i; i++) { …; it++; }` with the rounds left.
  unfoldable pub update_row : ℕ → ℕ → List ℕ → Option (List ℕ)
  update_row zero it m = some m
  update_row (suc n) it m =
      get_elem? layer it >>= λ cost. step cost m it >>= λ m'. update_row n (u32 (it + 1)) m'

  -- `for (int j = min_j; j < max_j; j++) { unsigned int it = j * span + min_i; … }`.
  unfoldable pub update_rows : ℕ → ℕ → ℕ → ℕ → ℕ → List ℕ → Option (List ℕ)
  update_rows zero j span min_i n m = some m
  update_rows (suc rows) j span min_i n m =
      update_row n (u32 (j * span + min_i)) m >>= λ m'. update_rows rows (j + 1) span min_i n m'

-- A layer: its own grid and the flag `enabled_`.
pub record CostmapLayer (D : Type 0) : Type 0 where
  pub grid : Costmap D
  pub enabled : Bool

module _ {D : Type 0} where
  -- What the four methods share; `max - min` rounds, none if the bounds are crossed.
  unfoldable pub update_with :
      (ℕ → List ℕ → ℕ → Option (List ℕ))
      → CostmapLayer D
      → Costmap D
      → ℕ
      → ℕ
      → ℕ
      → ℕ
      → Option (Costmap D)
  update_with step l master min_i min_j max_i max_j =
      if l.enabled
      then (update_rows step l.grid.cells (max_j - min_j) min_j master.size_x min_i (max_i - min_i)
            master.cells
          >>= λ cells. some (record master { cells = cells }))
      else some master

  unfoldable pub update_with_max : CostmapLayer D → Costmap D → ℕ → ℕ → ℕ → ℕ → Option (Costmap D)
  update_with_max = update_with max_step

  unfoldable pub update_with_true_overwrite :
      CostmapLayer D → Costmap D → ℕ → ℕ → ℕ → ℕ → Option (Costmap D)
  update_with_true_overwrite = update_with true_overwrite_step

  unfoldable pub update_with_overwrite :
      CostmapLayer D → Costmap D → ℕ → ℕ → ℕ → ℕ → Option (Costmap D)
  update_with_overwrite = update_with overwrite_step

  unfoldable pub update_with_addition :
      CostmapLayer D → Costmap D → ℕ → ℕ → ℕ → ℕ → Option (Costmap D)
  update_with_addition = update_with addition_step
