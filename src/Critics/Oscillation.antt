-- ===== src/Critics/Oscillation.antt =====
-- `OscillationCritic` of navigation2/nav2_dwb_controller/dwb_critics/src/oscillation.cpp, which rejects
-- trajectories whose velocity flips its sign a second time. Velocities, poses and times are values of
-- a parameter type with the operations the source uses on `double`; the clock's readings are
-- arguments. The parameters that `onInit` reads are its arguments.
pub mod Trend
pub mod Repeat
mod Tests
use package.navigation_learning.Prelude.{
  ℕ, zero, ◌-◌, ◌/◌, Bool, true, false, not, ◌&&◌, ◌||◌, Option, none, some, if◌then◌else◌, set,
}

pub record Scalars (D : Type 0) : Type 0 where
  pub zero_D : D
  pub lt : D → D → Bool
  pub le : D → D → Bool
  pub add : D → D → D
  pub sub : D → D → D
  pub mul : D → D → D
  pub fabs : D → D

pub data Sign : Type 0 where
  sign_zero : Sign
  sign_positive : Sign
  sign_negative : Sign

abbrev pub is_positive : Sign → Bool
is_positive sign_positive = true
is_positive _ = false

abbrev pub is_negative : Sign → Bool
is_negative sign_negative = true
is_negative _ = false

pub record CommandTrend : Type 0 where
  pub sign : Sign
  pub positive_only : Bool
  pub negative_only : Bool

-- `CommandTrend::reset`, which the constructor calls.
abbrev pub fresh : CommandTrend
fresh = record { sign = sign_zero; positive_only = false; negative_only = false }

abbrev pub has_sign_flipped : CommandTrend → Bool
has_sign_flipped t = t.positive_only || t.negative_only

pub record Pose (D : Type 0) : Type 0 where
  pub x : D
  pub y : D
  pub theta : D

-- Velocities have the same three parts as poses.
abbrev pub Twist : Type 0 → Type 0
Twist D = Pose D

pub record Critic (D : Type 0) : Type 0 where
  pub x_trend : CommandTrend
  pub y_trend : CommandTrend
  pub theta_trend : CommandTrend
  pub pose : Pose D
  pub prev_stationary_pose : Pose D
  pub prev_reset_time : D
  pub oscillation_reset_dist : D
  pub oscillation_reset_dist_sq : D
  pub oscillation_reset_angle : D
  pub oscillation_reset_time : D
  pub x_only_threshold : D

module _ {D : Type 0} (d : Scalars D) where
  unfoldable pub update : CommandTrend → D → CommandTrend × Bool
  update t velocity =
      if d.lt velocity d.zero_D
      then (if is_positive t.sign
          then (record t { sign = sign_negative; negative_only = true }, true)
          else (record t { sign = sign_negative }, false))
      else if d.lt d.zero_D velocity
      then (if is_negative t.sign
          then (record t { sign = sign_positive; positive_only = true }, true)
          else (record t { sign = sign_positive }, false))
      else (t, false)

  unfoldable pub is_oscillating : CommandTrend → D → Bool
  is_oscillating t velocity =
      (t.positive_only && d.lt velocity d.zero_D) || (t.negative_only && d.lt d.zero_D velocity)

  unfoldable pub reset : Critic D → Critic D
  reset c = record c { x_trend = fresh; y_trend = fresh; theta_trend = fresh }

  -- `searchAndGetParam` and `get_parameter` are not under this model: their results are arguments.
  unfoldable pub on_init : D → D → D → D → Critic D → Critic D
  on_init dist angle time x_only c = reset (record c {
    oscillation_reset_dist = dist;
    oscillation_reset_dist_sq = d.mul dist dist;
    oscillation_reset_angle = angle;
    oscillation_reset_time = time;
    x_only_threshold = x_only;
  })

  abbrev pub prepare : Pose D → Critic D → Critic D × Bool
  prepare p c = (record c { pose = p }, true)

  unfoldable pub reset_available : D → Critic D → Bool
  reset_available now c =
      let x_diff = d.sub c.pose.x c.prev_stationary_pose.x in
      let y_diff = d.sub c.pose.y c.prev_stationary_pose.y in
      let sq_dist = d.add (d.mul x_diff x_diff) (d.mul y_diff y_diff) in
      let th_diff = d.sub c.pose.theta c.prev_stationary_pose.theta in
      let t_diff = d.sub now c.prev_reset_time in
      if d.le d.zero_D c.oscillation_reset_dist && d.lt c.oscillation_reset_dist_sq sq_dist
      then true
      else if d.le d.zero_D c.oscillation_reset_angle
          && d.lt c.oscillation_reset_angle (d.fabs th_diff)
      then true
      else d.le d.zero_D c.oscillation_reset_time && d.lt c.oscillation_reset_time t_diff

  unfoldable pub set_oscillation_flags : Twist D → Critic D → Critic D × Bool
  set_oscillation_flags cmd c =
      let x = update c.x_trend cmd.x in
      let y = update c.y_trend cmd.y in
      let theta = update c.theta_trend cmd.theta in
      let c' = record c { x_trend = x.0 } in
      if d.lt c.x_only_threshold d.zero_D || d.le (d.fabs cmd.x) c.x_only_threshold
      then (record c' { y_trend = y.0; theta_trend = theta.0 }, x.1 || y.1 || theta.1)
      else (c', x.1)

  abbrev pub restricted : Critic D → Bool
  restricted c =
      has_sign_flipped c.x_trend || has_sign_flipped c.y_trend || has_sign_flipped c.theta_trend

  -- The clock is read once when flags were set, and once for the reset.
  unfoldable pub debrief : D → D → Twist D → Critic D → Critic D
  debrief set_time now cmd c =
      let t = set_oscillation_flags cmd c in
      let c' =
        if t.1
        then record t.0 { prev_stationary_pose = t.0.pose; prev_reset_time = set_time }
        else t.0 in
      if restricted c' && reset_available now c' then reset c' else c'

  -- None is the exception for an oscillating trajectory.
  unfoldable pub score_trajectory : Twist D → Critic D → Option ℕ
  score_trajectory velocity c =
      if is_oscillating c.x_trend velocity.x
        || is_oscillating c.y_trend velocity.y
        || is_oscillating c.theta_trend velocity.theta
      then none
      else some 0
