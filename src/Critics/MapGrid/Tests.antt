-- ===== src/Critics/MapGrid/Tests.antt =====
-- The scores of a grid of two cells with the right one as the source.
use navigation_learning.Prelude.{
  ℕ, ◌+◌, ◌*◌, ◌≡◌, refl, inl, inr, true, false, none, some, [], ◌∷◌, arith,
}
use navigation_learning.Costmap.Numbers.{numbers}
use navigation_learning.Costmap.Grid.{Costmap, world_to_map}
use navigation_learning.Queue.Bins.{enqueue, bins_for, front, pop}
use navigation_learning.Queue.Cells.{
  enqueue_from, enqueue_neighbors, distance_lookup, absolute_difference, get_next_cell,
}
use navigation_learning.Queue.Cells.Example.{one, one-Valid, numbers-OrderLaws}
use navigation_learning.Queue.Cells.Example as Example
use navigation_learning.Critics.MapGrid.{
  MapGridCritic, Scores, last, sum, goes_off_grid, hits_unreachable_area, drain,
  propogate_manhattan_distances, score_pose, score_poses, score_trajectory,
}
use navigation_learning.Critics.MapGrid.Drain.{Propagated, propogate_manhattan_distances-Propagated}

abbrev scores : Scores ℕ
scores = record { distances = Example.numbers; add = λ a b. a + b; mul = λ a b. a * b }

abbrev critic : MapGridCritic ℕ
critic = record {
  queue = one;
  cell_values = 3 ∷ 3 ∷ [];
  obstacle_score = 2;
  unreachable_score = 3;
  stop_on_failure = true;
  aggregation_type = sum;
}

propagated_scores :
    elim (propogate_manhattan_distances scores 2 1 critic) [ none ↦ [] | some c ↦ c.cell_values ]
    ≡ 1 ∷ 0 ∷ []
unfolding propogate_manhattan_distances drain get_next_cell enqueue_neighbors enqueue_from
    distance_lookup absolute_difference enqueue bins_for front pop
propagated_scores = refl

abbrev costmap : Costmap ℕ
costmap = record {
  size_x = 2;
  size_y = 1;
  resolution = 1;
  origin_x = 0;
  origin_y = 0;
  cells = 0 ∷ 0 ∷ [];
  default_value = 0;
}

-- A trajectory over both cells, one that leaves the map, and one without poses.
summed :
    score_trajectory scores numbers costmap
      ((0, 0) ∷ (1, 0) ∷ [])
      (record critic { cell_values = 1 ∷ 0 ∷ [] })
    ≡ some (inr 1)
unfolding score_trajectory score_poses score_pose world_to_map
summed = refl

off_grid :
    score_trajectory scores numbers costmap
      ((0, 0) ∷ (5, 0) ∷ [])
      (record critic { cell_values = 1 ∷ 0 ∷ [] })
    ≡ some (inl goes_off_grid)
unfolding score_trajectory score_poses score_pose world_to_map
off_grid = refl

unreachable_first :
    score_trajectory scores numbers costmap ((0, 0) ∷ []) critic ≡ some (inl hits_unreachable_area)
unfolding score_trajectory score_poses score_pose world_to_map
unreachable_first = refl

no_poses :
    score_trajectory scores numbers costmap []
      (record critic { stop_on_failure = false; aggregation_type = last })
    ≡ some (inr 0)
unfolding score_trajectory score_poses
no_poses = refl

propogate_manhattan_distances-Propagated_example :
    Propagated scores numbers-OrderLaws 2 1
      (omega arith)
      (λ x y. (x ≡ 1) × (y ≡ 0))
      critic
      (propogate_manhattan_distances scores 2 1 critic)
propogate_manhattan_distances-Propagated_example =
    propogate_manhattan_distances-Propagated scores numbers-OrderLaws 2 1 (omega arith)
      (λ x y. (x ≡ 1) × (y ≡ 0)) critic one-Valid ((refl, refl), tt) refl
