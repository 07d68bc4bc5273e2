-- ===== src/Critics/Oscillation/Tests.antt =====
-- Examples of the oscillation critic. A number n stands for the velocity n - 10 here, and lengths,
-- angles and times are not negative.
use navigation_learning.Prelude.{
  ℕ, ◌+◌, ◌-◌, ◌*◌, ◌≡◌, refl, none, some, arith, ltb, leb, if◌then◌else◌,
}
use navigation_learning.Critics.Oscillation.{
  Scalars, Pose, Twist, Critic, fresh, on_init, reset, debrief, score_trajectory, update,
  is_oscillating, set_oscillation_flags, reset_available,
}
use navigation_learning.Critics.Oscillation.Trend.{SignLaws}
use navigation_learning.Critics.Oscillation.Repeat.{
  initialised, commanded, debrief-repeat, debrief-blocks,
}

abbrev shifted : Scalars ℕ
shifted = record {
  zero_D = 10;
  lt = ltb;
  le = leb;
  add = λ a b. a + b - 10;
  sub = λ a b. a + 10 - b;
  mul = λ a b. if leb 10 a then 10 + (a - 10) * (b - 10) else 10 + (10 - a) * (10 - b);
  fabs = λ a. if leb 10 a then a else 20 - a;
}

shifted-SignLaws : SignLaws shifted
shifted-SignLaws = record { one_side = λ v h. ground arith }

abbrev still : Pose ℕ
still = record { x = 10; y = 10; theta = 10 }

abbrev forward : Twist ℕ
forward = record { x = 15; y = 10; theta = 10 }

abbrev backward : Twist ℕ
backward = record { x = 5; y = 10; theta = 10 }

abbrev off : Critic ℕ
off = record {
  x_trend = fresh;
  y_trend = fresh;
  theta_trend = fresh;
  pose = still;
  prev_stationary_pose = still;
  prev_reset_time = 10;
  oscillation_reset_dist = 10;
  oscillation_reset_dist_sq = 10;
  oscillation_reset_angle = 10;
  oscillation_reset_time = 10;
  x_only_threshold = 10;
}

abbrev began : Critic ℕ
began = on_init shifted 12 11 9 11 off

debrief-repeat_example :
    score_trajectory shifted backward
      (debrief shifted 10 10 backward (debrief shifted 10 10 forward began))
    ≡ some 0
unfolding score_trajectory is_oscillating debrief on_init reset update set_oscillation_flags
debrief-repeat_example =
    debrief-repeat shifted shifted-SignLaws 10 10 backward (debrief shifted 10 10 forward began)
      (commanded 10 10 forward began (initialised 12 11 9 11 off) refl) refl

debrief-blocks_example :
    score_trajectory shifted forward
      (debrief shifted 10 10 backward (debrief shifted 10 10 forward began))
    ≡ none
unfolding score_trajectory is_oscillating debrief on_init reset update set_oscillation_flags
    reset_available
debrief-blocks_example =
    debrief-blocks shifted shifted-SignLaws 10 10 backward forward
      (debrief shifted 10 10 forward began) refl refl refl refl
