-- ===== src/Critics/Obstacle.antt =====
-- `BaseObstacleCritic` (navigation2/nav2_dwb_controller/dwb_critics/src/base_obstacle.cpp) and
-- `ObstacleFootprintCritic` (src/obstacle_footprint.cpp there), which score a trajectory by the costs
-- under it. Costs are bytes, which `double` holds exactly, so scores are natural numbers; -1.0 is only
-- the first value of a variable that is written before it is read. `cos` and `sin` are parameters.
pub mod Scores
mod Tests
use package.navigation_learning.Prelude.{
  ℕ, zero, suc, ◌+◌, ◌-◌, ◌*◌, ◌/◌, max, ap, Bool, true, false, not, ◌&&◌, Option, none, some, List,
  [], ◌∷◌, map, u32, ◌==◌, if◌then◌else◌,
}
use package.navigation_learning.Prelude.Int.{ℤ}
use package.navigation_learning.Costmap.Doubles.{Doubles, to_u32, to_i32}
use package.navigation_learning.Costmap.Grid.{Costmap, get_cost, world_to_map}
use package.navigation_learning.Costmap.Layer.{
  no_information, lethal_obstacle, inscribed_inflated_obstacle,
}
use package.navigation_learning.Critics.LineIterator.{LineIterator, new, is_valid, advance}

-- A score, one of the exceptions, a fault (a read outside the grid or the overflow of an `int`), or a
-- loop that ran out of fuel.
pub data Score : Type 0 where
  legal : ℕ → Score
  off_grid : Score
  hits_obstacle : Score
  hits_unknown : Score
  fault : Score
  no_fuel : Score

infixl 5 ◌then_score◌
abbrev pub ◌then_score◌ : Score → (ℕ → Score) → Score
legal n then_score f = f n
off_grid then_score f = off_grid
hits_obstacle then_score f = hits_obstacle
hits_unknown then_score f = hits_unknown
fault then_score f = fault
no_fuel then_score f = no_fuel

pub record Pose2D (D : Type 0) : Type 0 where
  pub x : D
  pub y : D
  pub theta : D

pub record Point (D : Type 0) : Type 0 where
  pub x : D
  pub y : D

abbrev pub is_valid_cost : ℕ → Bool
is_valid_cost cost =
    not (cost == lethal_obstacle)
    && not (cost == inscribed_inflated_obstacle)
    && not (cost == no_information)

abbrev pub score_base : Option ℕ → Score
score_base none = fault
score_base (some cost) = if is_valid_cost cost then legal cost else hits_obstacle

abbrev pub score_point : Option ℕ → Score
score_point none = fault
score_point (some cost) =
    if cost == lethal_obstacle
    then hits_obstacle
    else if cost == no_information
    then hits_unknown
    else legal cost

module _ {D : Type 0} (d : Doubles D) where
  -- `BaseObstacleCritic::scorePose`.
  unfoldable pub score_pose : Costmap D → Pose2D D → Score
  score_pose c pose = elim (world_to_map d c pose.x pose.y) [
    | none ↦ off_grid
    | some (cell_x, cell_y) ↦ score_base (get_cost c cell_x cell_y)
  ]

  abbrev pub accumulate : Bool → ℕ → ℕ → ℕ
  accumulate sum_scores score pose_score = (if sum_scores then 1 else 0) * score + pose_score

  -- The loop of `scoreTrajectory`, from a score on.
  unfoldable pub score_poses : Bool → Costmap D → ℕ → List (Pose2D D) → Score
  score_poses sum_scores c score [] = legal score
  score_poses sum_scores c score (p ∷ poses) =
      score_pose c p then_score λ s. score_poses sum_scores c (accumulate sum_scores score s) poses

  unfoldable pub score_trajectory : Bool → Costmap D → List (Pose2D D) → Score
  score_trajectory sum_scores c poses = score_poses sum_scores c 0 poses

  -- `ObstacleFootprintCritic::pointCost`; the coordinates become `unsigned` for `getCost`.
  unfoldable pub point_cost : Costmap D → ℤ → ℤ → Score
  point_cost c x y = score_point (get_cost c (to_u32 x) (to_u32 y))

  -- The loop of `lineCost`, with the step to the next round.
  unfoldable pub line_loop : ℕ → Costmap D → Option LineIterator → ℕ → Score
  line_loop n c none line_cost = fault
  line_loop zero c (some line) line_cost = no_fuel
  line_loop (suc n) c (some line) line_cost = elim (is_valid line) [
    | true ↦
        point_cost c line.x line.y then_score λ p. line_loop n c (advance line) (max line_cost p)
    | false ↦ legal line_cost
  ]

  abbrev pub pixels : Option LineIterator → ℕ
  pixels none = 0
  pixels (some line) = line.numpixels

  unfoldable pub line_cost : Costmap D → ℤ → ℤ → ℤ → ℤ → Score
  line_cost c x0 x1 y0 y1 = let line = new x0 y0 x1 y1 in line_loop (pixels line + 2) c line 0

  -- The cost of the line between two points of the footprint.
  unfoldable pub edge_cost : Costmap D → Point D → Point D → Score
  edge_cost c a b = elim (world_to_map d c a.x a.y) [
    | none ↦ off_grid
    | some (x0, y0) ↦ elim (world_to_map d c b.x b.y) [
      | none ↦ off_grid
      | some (x1, y1) ↦ line_cost c (to_i32 x0) (to_i32 x1) (to_i32 y0) (to_i32 y1)
    ]
  ]

  -- The lines from each point to the next, and from the last one back to the front.
  unfoldable pub score_edges : Costmap D → Point D → ℕ → Point D → List (Point D) → Score
  score_edges c first cost a [] = edge_cost c a first then_score λ line. legal (max line cost)
  score_edges c first cost a (b ∷ points) =
      edge_cost c a b then_score λ line. score_edges c first (max line cost) b points

  -- `scorePose` with a footprint; `prepare` refuses an empty one, for which `size() - 1` wraps.
  unfoldable pub score_footprint : Costmap D → List (Point D) → Score
  score_footprint c [] = fault
  score_footprint c (a ∷ points) = score_edges c a 0 a points

  module _ (cos sin : D → D) where
    unfoldable pub oriented_footprint : Pose2D D → List (Point D) → List (Point D)
    oriented_footprint pose spec =
        let cos_th = cos pose.theta in
        let sin_th = sin pose.theta in
        map
          (λ (p : Point D). record {
            x = d.sub (d.add pose.x (d.mul p.x cos_th)) (d.mul p.y sin_th);
            y = d.add (d.add pose.y (d.mul p.x sin_th)) (d.mul p.y cos_th);
          })
          spec

    -- `ObstacleFootprintCritic::scorePose`.
    unfoldable pub score_pose_footprint : Costmap D → List (Point D) → Pose2D D → Score
    score_pose_footprint c spec pose = elim (world_to_map d c pose.x pose.y) [
      | none ↦ off_grid
      | some cell ↦ score_footprint c (oriented_footprint pose spec)
    ]
