-- ===== src/Amcl/Filter.antt =====
-- The particle filter's data, navigation2/nav2_amcl/src/pf/pf.c and its header pf.hpp. An array of
-- samples is the list of its first sample_count entries: the others are written before they are
-- read. `none` is an assertion that fails, or a NULL pointer that is read.
pub mod Stats
pub mod Resample
mod Limit
mod Tally
mod Draws
pub mod Ready
pub mod Sizes
pub mod Sensor
pub mod Reach
mod Tests
use navigation_learning.Prelude.{
  ℕ, zero, ◌-◌, ◌/◌, min, max, Bool, true, false, ◌||◌, none, List, [], ◌∷◌, ltb, leb,
  if◌then◌else◌, length, set,
}
use navigation_learning.Prelude.Int.{ℤ, pos, ltb_ℤ}
use navigation_learning.Amcl.KdTree.{Scalars, Pose, KdTree}

-- The operations on doubles that the filter uses, beside those of the tree.
pub record Math (D : Type 0) : Type 0 where
  pub scalars : Scalars D
  pub sub : D → D → D
  pub mul : D → D → D
  pub lt : D → D → Bool
  pub le : D → D → Bool
  pub eq : D → D → Bool
  pub fabs : D → D
  pub sqrt : D → D
  pub cos : D → D
  pub sin : D → D
  pub log : D → D
  pub ceil : D → D
  pub atan2 : D → D → D
  pub of_ℕ : ℕ → D
  pub minus_two : D

-- The generators, with the state that a call changes: drand48 and random_pose_fn.
pub record Random (S D : Type 0) : Type 0 where
  pub uniform : S → D × S
  pub random_pose : S → Pose D × S

pub record Sample (D : Type 0) : Type 0 where
  pub pose : Pose D
  pub weight : D

-- The entries of a pf_matrix_t that are written; the others stay 0.0.
pub record Cov (D : Type 0) : Type 0 where
  pub xx : D
  pub xy : D
  pub yx : D
  pub yy : D
  pub tt : D

-- The workspaces m[4] and c[2][2].
pub record Moments (D : Type 0) : Type 0 where
  pub m0 : D
  pub m1 : D
  pub m2 : D
  pub m3 : D
  pub c00 : D
  pub c01 : D
  pub c10 : D
  pub c11 : D

pub record Cluster (D : Type 0) : Type 0 where
  pub count : ℕ
  pub weight : D
  pub mean : Pose D
  pub cov : Cov D
  pub work : Moments D

pub record SampleSet (D : Type 0) : Type 0 where
  pub samples : List (Sample D)
  pub kdtree : KdTree D
  pub cluster_count : ℕ
  pub cluster_max_count : ℕ
  pub clusters : List (Cluster D)
  pub mean : Pose D
  pub cov : Cov D
  pub converged : Bool

-- `second` is whether current_set is 1.
pub record Filter (D : Type 0) : Type 0 where
  pub min_samples : ℕ
  pub max_samples : ℕ
  pub pop_err : D
  pub pop_z : D
  pub second : Bool
  pub sets : SampleSet D × SampleSet D
  pub w_slow : D
  pub w_fast : D
  pub alpha_slow : D
  pub alpha_fast : D
  pub dist_threshold : D
  pub converged : Bool

module _ {D : Type 0} where
  -- sets[current_set], and the other set.
  unfoldable pub current : Filter D → SampleSet D
  current pf = if pf.second then pf.sets.1 else pf.sets.0

  unfoldable pub other : Filter D → SampleSet D
  other pf = if pf.second then pf.sets.0 else pf.sets.1

  unfoldable pub set_current : SampleSet D → Filter D → Filter D
  set_current set pf = record pf { sets = if pf.second then (pf.sets.0, set) else (set, pf.sets.1) }

  unfoldable pub set_other : SampleSet D → Filter D → Filter D
  set_other set pf = record pf { sets = if pf.second then (set, pf.sets.1) else (pf.sets.0, set) }

  unfoldable pub init_converged : Filter D → Filter D
  init_converged pf =
      set_current (record (current pf) { converged = false }) (record pf { converged = false })

  -- pf_resample_limit, for k bins with samples in them.
  unfoldable pub resample_limit : Math D → Filter D → ℕ → ℤ
  resample_limit f pf k =
      if leb k 1
      then pos pf.max_samples
      else let s = f.scalars in
        let a = f.of_ℕ 1 in
        let ratio = s.div (f.of_ℕ 2) (f.mul (f.of_ℕ 9) (f.sub (f.of_ℕ k) (f.of_ℕ 1))) in
        let c = f.mul (f.sqrt ratio) pf.pop_z in
        let x = s.add (f.sub a ratio) c in
        let scale = s.div (f.of_ℕ (k - 1)) (f.mul (f.of_ℕ 2) pf.pop_err) in
        let n = s.to_int (f.ceil (f.mul (f.mul (f.mul scale x) x) x)) in
        if ltb_ℤ n (pos pf.min_samples)
        then pos pf.min_samples
        else if ltb_ℤ (pos pf.max_samples) n
        then pos pf.max_samples
        else n

  -- The sums of pf_update_converged.
  unfoldable pub sum_by : Math D → (Sample D → D) → D → List (Sample D) → D
  sum_by f read acc [] = acc
  sum_by f read acc (sample ∷ samples) = sum_by f read (f.scalars.add acc (read sample)) samples

  unfoldable pub all_near : Math D → D → D → D → List (Sample D) → Bool
  all_near f threshold mean_x mean_y [] = true
  all_near f threshold mean_x mean_y (sample ∷ samples) =
      if f.lt threshold (f.fabs (f.sub sample.pose.x mean_x))
        || f.lt threshold (f.fabs (f.sub sample.pose.y mean_y))
      then false
      else all_near f threshold mean_x mean_y samples

  unfoldable pub update_converged : Math D → Filter D → Filter D
  update_converged f pf =
      let set = current pf in
      let count = f.of_ℕ (length set.samples) in
      let mean_x = f.scalars.div (sum_by f (λ a. a.pose.x) f.scalars.zero set.samples) count in
      let mean_y = f.scalars.div (sum_by f (λ a. a.pose.y) f.scalars.zero set.samples) count in
      let near = all_near f pf.dist_threshold mean_x mean_y set.samples in
      set_current (record set { converged = near }) (record pf { converged = near })
