-- ===== src/Queue/Cells.antt =====
-- `CostmapQueue` of navigation2/nav2_dwb_controller/costmap_queue (src/costmap_queue.cpp and its
-- header): cells in the order of their distance to a source cell. The costmap it refers to is used
-- for its sizes alone, which are arguments. A read or write outside a vector is a fault.
pub mod Growth
pub mod Enqueue
pub mod Grid
pub mod Start
pub mod Example
mod Tests
use package.navigation_learning.Prelude.{
  ℕ, zero, suc, ◌+◌, ◌-◌, ◌*◌, ◌/◌, max, ap, Bool, true, false, Option, none, some, List, [], ◌∷◌,
  map, u32, ltb, ◌==◌, if◌then◌else◌, get_elem?, set, replicate,
}
use package.navigation_learning.Prelude.Int.{ℤ, pos, negsuc}
use package.navigation_learning.Costmap.Grid.{index_in, ◌>>=◌}
use package.navigation_learning.Costmap.Doubles.{to_i32, to_u32}
use package.navigation_learning.Queue.Order.{Order}
use package.navigation_learning.Queue.Bins.{
  MapBasedQueue, Front, item, out_of_range, undefined, enqueue, front, pop,
}
use package.navigation_learning.Queue.Bins as Bins

pub record CellData (D : Type 0) : Type 0 where
  pub distance : D
  pub index : ℕ
  pub x : ℕ
  pub y : ℕ
  pub src_x : ℕ
  pub src_y : ℕ

pub record CostmapQueue (D : Type 0) : Type 0 where
  pub queue : MapBasedQueue D (CellData D)
  pub seen : List Bool
  pub max_distance : ℤ
  pub manhattan : Bool
  pub cached_distances : List (List D)
  pub cached_max_distance : ℤ

-- `unsigned` to `double`, and `hypot`.
pub record Distances (D : Type 0) : Type 0 where
  pub order : Order D
  pub of_ℕ : ℕ → D
  pub hypot : ℕ → ℕ → D

abbrev pub same_ℤ : ℤ → ℤ → Bool
same_ℤ (pos a) (pos b) = a == b
same_ℤ (negsuc a) (negsuc b) = a == b
same_ℤ _ _ = false

unfoldable pub absolute_difference : ℕ → ℕ → ℕ
absolute_difference x y = if ltb y x then x - y else y - x

-- The values of a function below a number, in a vector.
abbrev pub table {ℓ} : {A : Type ℓ} → ℕ → ℕ → (ℕ → A) → List A
table zero i f = []
table (suc n) i f = f i ∷ table n (i + 1) f

module _ {D : Type 0} (d : Distances D) where
  abbrev pub distance_at : Bool → ℕ → ℕ → D
  distance_at manhattan i j = if manhattan then d.of_ℕ (u32 (i + j)) else d.hypot i j

  unfoldable pub compute_cache : ℕ → ℕ → CostmapQueue D → CostmapQueue D
  compute_cache size_x size_y q =
      let max_distance =
        if same_ℤ q.max_distance (negsuc 0) then to_i32 (max size_x size_y) else q.max_distance in
      let n = u32 (to_u32 max_distance + 2) in
      if same_ℤ max_distance q.cached_max_distance
      then record q { max_distance = max_distance }
      else record q {
        max_distance = max_distance;
        cached_distances = table n 0 (λ i. table n 0 (λ j. distance_at q.manhattan i j));
        cached_max_distance = max_distance;
      }

  unfoldable pub reset : ℕ → ℕ → CostmapQueue D → CostmapQueue D
  reset size_x size_y q =
      let q' =
        compute_cache size_x size_y (record q { seen = replicate (u32 (size_x * size_y)) false }) in
      record q' { queue = Bins.reset q'.queue }

  unfoldable pub new : ℕ → ℕ → Bool → CostmapQueue D
  new size_x size_y manhattan = reset size_x size_y record {
    queue = Bins.new true;
    seen = [];
    max_distance = negsuc 0;
    manhattan = manhattan;
    cached_distances = [];
    cached_max_distance = negsuc 0;
  }

  unfoldable pub distance_lookup : ℕ → ℕ → ℕ → ℕ → CostmapQueue D → Option D
  distance_lookup cur_x cur_y src_x src_y q =
      get_elem? q.cached_distances (absolute_difference cur_x src_x) >>= λ row.
      get_elem? row (absolute_difference cur_y src_y)

  -- `validCellToQueue` is virtual: a derived class gives the test.
  module _ (valid_cell_to_queue : CellData D → Bool) where
    unfoldable pub enqueue_from : ℕ → ℕ → ℕ → ℕ → ℕ → CostmapQueue D → Option (CostmapQueue D)
    enqueue_from index cur_x cur_y src_x src_y q = get_elem? q.seen index >>= λ seen.
        if seen
        then some q
        else (distance_lookup cur_x cur_y src_x src_y q >>= λ distance.
            let cell : CellData D = record {
              distance = distance;
              index = index;
              x = cur_x;
              y = cur_y;
              src_x = src_x;
              src_y = src_y;
            } in
            if valid_cell_to_queue cell
            then some (record q {
              seen = set q.seen index true;
              queue = enqueue d.order distance cell q.queue;
            })
            else some q)

    unfoldable pub enqueue_cell : ℕ → ℕ → ℕ → CostmapQueue D → Option (CostmapQueue D)
    enqueue_cell size_x x y q = enqueue_from (index_in size_x x y) x y x y q

    -- An enqueue behind a test.
    abbrev pub enqueue_if : Bool → ℕ → ℕ → ℕ → ℕ → ℕ → CostmapQueue D → Option (CostmapQueue D)
    enqueue_if test index cur_x cur_y src_x src_y q =
        if test then enqueue_from index cur_x cur_y src_x src_y q else some q

    unfoldable pub enqueue_neighbors : ℕ → ℕ → CellData D → CostmapQueue D → Option (CostmapQueue D)
    enqueue_neighbors size_x size_y c q =
        enqueue_if (ltb 0 c.x) (u32 (c.index + 4294967295)) (c.x - 1) c.y c.src_x c.src_y q
        >>= enqueue_if (ltb 0 c.y) (u32 (c.index + 4294967296 - size_x)) c.x (c.y - 1) c.src_x
            c.src_y
        >>= enqueue_if (ltb c.x (u32 (size_x + 4294967295))) (u32 (c.index + 1)) (u32 (c.x + 1)) c.y
            c.src_x c.src_y
        >>= enqueue_if (ltb c.y (u32 (size_y + 4294967295))) (u32 (c.index + size_x)) c.x
            (u32 (c.y + 1)) c.src_x c.src_y

    -- None stands for the exception of `front` as well.
    unfoldable pub get_next_cell : ℕ → ℕ → CostmapQueue D → Option (CellData D × CostmapQueue D)
    get_next_cell size_x size_y q = elim (front d.order q.queue) [
      | item c ↦
          enqueue_neighbors size_x size_y c (record q { queue = pop d.order q.queue }) >>= λ q'.
          some (c, q')
      | out_of_range ↦ none
      | undefined ↦ none
    ]
