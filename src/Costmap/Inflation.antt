-- ===== src/Costmap/Inflation.antt =====
-- `InflationLayer` of navigation2/nav2_costmap_2d/plugins/inflation_layer.cpp and its header, but for
-- the reading of parameters. A cell's distance bin is found in the map `inflation_cells_`, which is
-- empty between two calls of updateCosts. `none` is an access outside an array.
pub mod Spread
mod Around
mod Visit
mod Push
pub mod Tables
mod Tests
use navigation_learning.Prelude.{
  ℕ, zero, suc, ◌+◌, ◌-◌, ◌*◌, ◌/◌, min, max, ap, Bool, true, false, not, ◌&&◌, ◌||◌, Option, none,
  some, List, [], ◌∷◌, ◌++◌, map, u32, u8, ltb, leb, ◌==◌, if◌then◌else◌, length, get_elem?, set,
  replicate,
}
use navigation_learning.Prelude.Int.{ℤ, pos, negsuc, pos_part}
use navigation_learning.Costmap.Doubles.{Doubles, min_D, max_D, to_u32, to_i32}
use navigation_learning.Costmap.Grid.{Costmap, ◌>>=◌, cell_distance, index_in}

pub record InflationCell : Type 0 where
  pub index : ℕ
  pub x : ℕ
  pub y : ℕ
  pub src_x : ℕ
  pub src_y : ℕ

pub record InflationLayer (D : Type 0) : Type 0 where
  pub enabled : Bool
  pub inflation_radius : D
  pub inscribed_radius : D
  pub cost_scaling_factor : D
  pub inflate_unknown : Bool
  pub cell_inflation_radius : ℕ
  pub cached_cell_inflation_radius : ℕ
  pub resolution : D
  pub seen : List Bool
  pub cached_costs : List (List ℕ)
  pub cached_distances : List (List D)
  pub last_bounds : D × D × D × D  -- min x, min y, max x, max y
  pub need_reinflation : Bool

-- The state of the loops over the bins: the bin that is visited, with the cells of it that are left,
-- and the bins after it. A cell for a bin before it is not visited any more.
pub record Wave (D : Type 0) : Type 0 where
  pub master : List ℕ
  pub seen : List Bool
  pub key : D
  pub pending : List InflationCell
  pub later : List (D × List InflationCell)

abbrev pub gap : ℕ → ℕ → ℕ
gap a b = if ltb a b then b - a else a - b

abbrev pub tabulate {ℓ} : {A : Type ℓ} → ℕ → ℕ → (ℕ → A) → List A
tabulate zero i f = []
tabulate (suc n) i f = f i ∷ tabulate n (suc i) f

abbrev pub lookup {ℓ} : {A : Type ℓ} → List (List A) → InflationCell → Option A
lookup table c = get_elem? table (gap c.x c.src_x) >>= λ row. get_elem? row (gap c.y c.src_y)

abbrev pub inflated : Bool → ℕ → ℕ → ℕ
inflated inflate_unknown old_cost cost =
    if (old_cost == 255) && (if inflate_unknown then ltb 0 cost else leb 253 cost)
    then cost
    else max old_cost cost

-- A side of the window, wider by the radius and cut to the grid. The `int` is added to an `unsigned`
-- radius and stored back in the `int`; a side below 0 is 0, and no column or row is before one.
abbrev pub widened_lower : ℕ → ℤ → ℕ
widened_lower radius a = pos_part (to_i32 (u32 (to_u32 a + 4294967296 - radius)))

abbrev pub widened_upper : ℕ → ℕ → ℤ → ℕ
widened_upper radius size a =
    min (pos_part (to_i32 size)) (pos_part (to_i32 (u32 (to_u32 a + radius))))

-- A read at an `int` index.
abbrev pub read_at : List ℕ → ℤ → Option ℕ
read_at cells (pos n) = get_elem? cells n
read_at cells (negsuc n) = none

abbrev pub wave_fuel : ℕ → ℕ → ℕ → ℕ
wave_fuel size_x size_y cells = 9 * (size_x * size_y) + cells + 1

module _ {D : Type 0} where
  -- The lethal cells of a row, from column i on, and of the rows from j on.
  unfoldable pub obstacles_in_row : Costmap D → ℕ → ℕ → ℕ → Option (List InflationCell)
  obstacles_in_row master j zero i = some []
  obstacles_in_row master j (suc columns) i =
      let index = to_i32 (index_in master.size_x i j) in
      read_at master.cells index >>= λ cost. obstacles_in_row master j columns (suc i) >>= λ rest.
      some (
        if cost == 254
        then record { index = pos_part index; x = i; y = j; src_x = i; src_y = j } ∷ rest
        else rest)

  unfoldable pub obstacles : Costmap D → ℕ → ℕ → ℕ → ℕ → Option (List InflationCell)
  obstacles master min_i columns zero j = some []
  obstacles master min_i columns (suc rows) j = obstacles_in_row master j columns min_i >>= λ row.
      obstacles master min_i columns rows (suc j) >>= λ rest. some (row ++ rest)

module _ {D : Type 0} (d : Doubles D) where
  -- hypot(i, j) for i and j up to a cell more than the radius.
  abbrev pub distance_table : ℕ → List (List D)
  distance_table radius =
      tabulate (radius + 2) 0 (λ i. tabulate (radius + 2) 0 (λ j. d.hypot (d.of_ℕ i) (d.of_ℕ j)))

  -- inflation_cells_[distance].push_back, in the order of the map.
  unfoldable pub push_later :
      D → InflationCell → List (D × List InflationCell) → List (D × List InflationCell)
  push_later distance c [] = (distance, c ∷ []) ∷ []
  push_later distance c (bin ∷ bins) =
      if d.lt distance (bin.0)
      then (distance, c ∷ []) ∷ bin ∷ bins
      else if d.lt (bin.0) distance
      then bin ∷ push_later distance c bins
      else (bin.0, bin.1 ++ (c ∷ [])) ∷ bins

  unfoldable pub push : D → InflationCell → Wave D → Wave D
  push distance c w =
      if d.lt distance w.key
      then w
      else if d.lt w.key distance
      then record w { later = push_later distance c w.later }
      else record w { pending = w.pending ++ (c ∷ []) }

  unfoldable pub enqueue_cell_at : InflationLayer D → InflationCell → Wave D → Option (Wave D)
  enqueue_cell_at l c w = get_elem? w.seen c.index >>= λ seen.
      if seen
      then some w
      else (lookup l.cached_distances c >>= λ distance.
          if d.lt (d.of_ℕ l.cell_inflation_radius) distance
          then some w
          else some (push distance c w))

  abbrev pub when : Bool → (Wave D → Option (Wave D)) → Wave D → Option (Wave D)
  when b step w = if b then step w else some w

  -- The neighbours of a cell, for a grid of the given size.
  unfoldable pub enqueue_around :
      InflationLayer D → ℕ → ℕ → InflationCell → Wave D → Option (Wave D)
  enqueue_around l size_x size_y c w =
      when (ltb 0 c.x) (enqueue_cell_at l (record c { index = c.index - 1; x = c.x - 1 })) w
      >>= λ w1.
          when (ltb 0 c.y) (enqueue_cell_at l (record c { index = c.index - size_x; y = c.y - 1 }))
            w1
          >>= λ w2.
              when (ltb c.x (size_x - 1))
                (enqueue_cell_at l (record c { index = u32 (c.index + 1); x = c.x + 1 })) w2
              >>= λ w3.
                  when (ltb c.y (size_y - 1))
                    (enqueue_cell_at l (record c { index = u32 (c.index + size_x); y = c.y + 1 }))
                    w3

  unfoldable pub visit_cell : InflationLayer D → ℕ → ℕ → InflationCell → Wave D → Option (Wave D)
  visit_cell l size_x size_y c w = get_elem? w.seen c.index >>= λ seen.
      if seen
      then some w
      else (lookup l.cached_costs c >>= λ cost. get_elem? w.master c.index >>= λ old_cost.
          enqueue_around l size_x size_y c (record w {
            seen = set w.seen c.index true;
            master = set w.master c.index (inflated l.inflate_unknown old_cost cost);
          }))

  -- The loops over the bins and over the cells of each.
  unfoldable pub visit_bins : ℕ → InflationLayer D → ℕ → ℕ → Wave D → Option (Wave D)
  visit_bins zero l size_x size_y w = none
  visit_bins (suc fuel) l size_x size_y w = elim w.pending [
    | [] ↦ elim w.later [
      | [] ↦ some w
      | bin ∷ bins ↦
          visit_bins fuel l size_x size_y (record w { key = bin.0; pending = bin.1; later = bins })
    ]
    | c ∷ cells ↦ visit_cell l size_x size_y c (record w { pending = cells }) >>= λ after.
        visit_bins fuel l size_x size_y after
  ]

  unfoldable pub update_inflation_costs :
      ℤ → ℤ → ℤ → ℤ → InflationLayer D → Costmap D → Option (InflationLayer D × Costmap D)
  update_inflation_costs min_i min_j max_i max_j l master =
      if not l.enabled || (l.cell_inflation_radius == 0)
      then some (l, master)
      else let r = l.cell_inflation_radius in
        let x0 = widened_lower r min_i in
        let y0 = widened_lower r min_j in
        let xn = widened_upper r master.size_x max_i in
        let yn = widened_upper r master.size_y max_j in
        (obstacles master x0 (xn - x0) (yn - y0) y0 >>= λ cells.
        visit_bins (wave_fuel master.size_x master.size_y (length cells)) l master.size_x
          master.size_y
          (record {
            master = master.cells;
            seen = replicate (u32 (master.size_x * master.size_y)) false;
            key = d.of_ℕ 0;
            pending = cells;
            later = [];
          })
        >>= λ w. some (record l { seen = w.seen }, record master { cells = w.master }))

module _ {D : Type 0} (d : Doubles D) (exp : D → D) where
  -- distance == 0
  abbrev is_zero_distance : D → Bool
  is_zero_distance a = not (d.lt a (d.of_ℕ 0)) && not (d.lt (d.of_ℕ 0) a)

  unfoldable pub compute_cost : InflationLayer D → D → ℕ
  compute_cost l distance =
      if is_zero_distance distance
      then 254
      else let euclidean_distance = d.mul distance l.resolution in
        if not (d.lt l.inscribed_radius euclidean_distance)
        then 253
        else let factor = exp (
            d.mul (d.mul (d.of_ℤ (negsuc 0)) l.cost_scaling_factor)
              (d.sub euclidean_distance l.inscribed_radius)) in
          u8 (d.to_unsigned (d.mul (d.of_ℕ 252) factor))

  unfoldable pub compute_caches : InflationLayer D → InflationLayer D
  compute_caches l =
      if l.cell_inflation_radius == 0
      then l
      else let distances =
          if l.cell_inflation_radius == l.cached_cell_inflation_radius
          then l.cached_distances
          else distance_table d l.cell_inflation_radius in
        record l {
          cached_cell_inflation_radius = l.cell_inflation_radius;
          cached_distances = distances;
          cached_costs = map (map (compute_cost l)) distances;
        }

  unfoldable pub match_inflation : Costmap D → InflationLayer D → InflationLayer D
  match_inflation costmap l =
      record (compute_caches (record l {
        resolution = costmap.resolution;
        cell_inflation_radius = cell_distance d costmap l.inflation_radius;
      })) { seen = replicate (u32 (costmap.size_x * costmap.size_y)) false }

  -- With the inscribed radius of the new footprint.
  unfoldable pub on_footprint_changed : Costmap D → D → InflationLayer D → InflationLayer D
  on_footprint_changed costmap inscribed_radius l =
      record (compute_caches (record l {
        inscribed_radius = inscribed_radius;
        cell_inflation_radius = cell_distance d costmap l.inflation_radius;
      })) { need_reinflation = true }

  -- `lowest` and `highest` are the ends of the range of float.
  unfoldable pub update_inflation_bounds :
      D → D → D × D × D × D → InflationLayer D → (D × D × D × D) × InflationLayer D
  update_inflation_bounds lowest highest (min_x, min_y, max_x, max_y) l =
      let (last_min_x, last_min_y, last_max_x, last_max_y) = l.last_bounds in
      if l.need_reinflation
      then (
        (lowest, lowest, highest, highest),
        record l { last_bounds = (min_x, min_y, max_x, max_y); need_reinflation = false },
      )
      else (
        (
          d.sub (min_D d last_min_x min_x) l.inflation_radius,
          d.sub (min_D d last_min_y min_y) l.inflation_radius,
          d.add (max_D d last_max_x max_x) l.inflation_radius,
          d.add (max_D d last_max_y max_y) l.inflation_radius,
        ),
        record l { last_bounds = (min_x, min_y, max_x, max_y) },
      )
