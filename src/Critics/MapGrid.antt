-- ===== src/Critics/MapGrid.antt =====
-- `MapGridCritic` (navigation2/nav2_dwb_controller/dwb_critics/src/map_grid.cpp): a score for each cell
-- of the costmap by its distance to source cells, and the score of a trajectory. The queue is the
-- critic's own `MapGridQueue`, with the Manhattan distance. An access outside a vector is a fault.
pub mod Drain
mod Tests
use package.navigation_learning.Prelude.{
  ℕ, zero, suc, ◌+◌, ◌-◌, ◌*◌, ◌/◌, ap, ◌⊎◌, inl, inr, Bool, true, false, not, Option, none, some,
  List, [], ◌∷◌, map, arith, u32, ltb, if◌then◌else◌, length, get_elem?, set, drop, replicate,
}
use package.navigation_learning.Costmap.Doubles.{Doubles}
use package.navigation_learning.Costmap.Grid.{Costmap, index_in, world_to_map, ◌>>=◌}
use package.navigation_learning.Queue.Bins.{is_empty}
use package.navigation_learning.Queue.Cells.{
  CellData, CostmapQueue, Distances, absolute_difference, get_next_cell,
}
use package.navigation_learning.Queue.Cells as Cells

pub data ScoreAggregationType : Type 0 where
  last : ScoreAggregationType
  sum : ScoreAggregationType
  product : ScoreAggregationType

-- Why a trajectory is illegal.
pub data IllegalTrajectory : Type 0 where
  hits_obstacle : IllegalTrajectory
  hits_unreachable_area : IllegalTrajectory
  goes_off_grid : IllegalTrajectory

pub record MapGridCritic (D : Type 0) : Type 0 where
  pub queue : CostmapQueue D
  pub cell_values : List D
  pub obstacle_score : D
  pub unreachable_score : D
  pub stop_on_failure : Bool
  pub aggregation_type : ScoreAggregationType

-- The arithmetic of scores, which are doubles.
pub record Scores (D : Type 0) : Type 0 where
  pub distances : Distances D
  pub add : D → D → D
  pub mul : D → D → D

-- `validCellToQueue`.
abbrev pub valid_cell_to_queue : {D : Type 0} → CellData D → Bool
valid_cell_to_queue cell = true

abbrev pub write_score : {D : Type 0} → List D → ℕ → D → Option (List D)
write_score values index v = if ltb index (length values) then some (set values index v) else none

module _ {D : Type 0} (s : Scores D) where
  open s use {distances as d}

  unfoldable pub set_as_obstacle : ℕ → MapGridCritic D → Option (MapGridCritic D)
  set_as_obstacle index c = write_score c.cell_values index c.obstacle_score >>= λ values.
      some (record c { cell_values = values })

  -- For a costmap of the given size.
  unfoldable pub reset : ℕ → ℕ → MapGridCritic D → MapGridCritic D
  reset size_x size_y c =
      let n = u32 (size_x * size_y) in
      let unreachable = s.add (d.of_ℕ n) (d.of_ℕ 1) in
      record c {
        queue = Cells.reset d size_x size_y c.queue;
        cell_values = replicate n unreachable;
        obstacle_score = d.of_ℕ n;
        unreachable_score = unreachable;
      }

  abbrev pub manhattan_distance : CellData D → D
  manhattan_distance cell =
      d.of_ℕ (u32 (absolute_difference cell.src_x cell.x + absolute_difference cell.src_y cell.y))

  -- The loop on fuel; none when the fuel runs out.
  unfoldable pub drain : ℕ → ℕ → ℕ → CostmapQueue D → List D → Option (CostmapQueue D × List D)
  drain zero size_x size_y q values = none
  drain (suc n) size_x size_y q values = elim (is_empty q.queue) [
    | true ↦ some (q, values)
    | false ↦ get_next_cell d valid_cell_to_queue size_x size_y q >>= λ r.
        write_score values r.0.index (manhattan_distance r.0) >>= λ values'.
        drain n size_x size_y r.1 values'
  ]

  -- The fuel is one round more than the grid has cells.
  unfoldable pub propogate_manhattan_distances : ℕ → ℕ → MapGridCritic D → Option (MapGridCritic D)
  propogate_manhattan_distances size_x size_y c =
      drain (suc (size_x * size_y)) size_x size_y c.queue c.cell_values >>= λ r.
      some (record c { queue = r.0; cell_values = r.1 })

  abbrev pub get_score : ℕ → ℕ → ℕ → MapGridCritic D → Option D
  get_score size_x x y c = get_elem? c.cell_values (index_in size_x x y)

  module _ {W : Type 0} (world : Doubles W) (costmap : Costmap W) where
    -- None is a fault, `inl` an exception.
    unfoldable pub score_pose : W × W → MapGridCritic D → Option (IllegalTrajectory ⊎ D)
    score_pose (x, y) c = elim (world_to_map world costmap x y) [
      | none ↦ some (inl goes_off_grid)
      | some cell ↦ get_score costmap.size_x cell.0 cell.1 c >>= λ v. some (inr v)
    ]

    abbrev pub aggregate : ScoreAggregationType → D → D → D
    aggregate last score grid_dist = grid_dist
    aggregate sum score grid_dist = s.add score grid_dist
    aggregate product score grid_dist =
        if d.order.lt (d.of_ℕ 0) score then s.mul score grid_dist else score

    abbrev pub failure : MapGridCritic D → D → Option IllegalTrajectory
    failure c grid_dist =
        if not (c.stop_on_failure)
        then none
        else if d.order.eq grid_dist c.obstacle_score
        then some hits_obstacle
        else if d.order.eq grid_dist c.unreachable_score
        then some hits_unreachable_area
        else none

    -- The loop over the poses from `start_index` on.
    unfoldable pub score_poses : List (W × W) → D → MapGridCritic D → Option (IllegalTrajectory ⊎ D)
    score_poses [] score c = some (inr score)
    score_poses (p ∷ poses) score c = score_pose p c >>= λ r. elim r [
      | inl e ↦ some (inl e)
      | inr grid_dist ↦ elim (failure c grid_dist) [
        | some e ↦ some (inl e)
        | none ↦ score_poses poses (aggregate c.aggregation_type score grid_dist) c
      ]
    ]

    -- `traj.poses.size() - 1` wraps when there is no pose, and then no pose is scored.
    abbrev pub start_index : ScoreAggregationType → Bool → ℕ → ℕ
    start_index last false n = u32 (n + 4294967295)
    start_index last true n = 0
    start_index sum stop n = 0
    start_index product stop n = 0

    abbrev pub start_score : ScoreAggregationType → D
    start_score last = d.of_ℕ 0
    start_score sum = d.of_ℕ 0
    start_score product = d.of_ℕ 1

    unfoldable pub score_trajectory :
        List (W × W) → MapGridCritic D → Option (IllegalTrajectory ⊎ D)
    score_trajectory poses c =
        score_poses (drop (start_index c.aggregation_type c.stop_on_failure (length poses)) poses)
          (start_score c.aggregation_type) c
