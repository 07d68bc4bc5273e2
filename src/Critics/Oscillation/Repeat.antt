-- ===== src/Critics/Oscillation/Repeat.antt =====
-- Runs of the critic in which every command was scored before it was sent.
use navigation_learning.Prelude.{◌≡◌, refl, Bool, true, false, none, some, arith, if◌then◌else◌}
use navigation_learning.Critics.Oscillation.{
  Scalars, CommandTrend, fresh, Pose, Twist, Critic, update, is_oscillating, reset, on_init,
  prepare, reset_available, set_oscillation_flags, debrief, score_trajectory,
}
use navigation_learning.Critics.Oscillation.Trend.{
  SignLaws, IsConsistent, update-IsConsistent, update-repeat, update-flips,
}

-- The states that the critic passes through; a command is one that it did not reject.
pub data Reach {D : Type 0} (d : Scalars D) : Critic D → Type 0 where
  initialised :
      (dist angle time x_only : D) (c : Critic D) → Reach d (on_init d dist angle time x_only c)
  prepared : (p : Pose D) (c : Critic D) → Reach d c → Reach d ((prepare d p c).0)
  was_reset : (c : Critic D) → Reach d c → Reach d (reset d c)
  commanded :
      (set_time now : D) (v : Twist D) (c : Critic D)
      → Reach d c
      → score_trajectory d v c ≡ some 0
      → Reach d (debrief d set_time now v c)

-- A property of each trend.
record Each {D : Type 0} (X Y T : CommandTrend → Type 0) (c : Critic D) : Type 0 where
  x : X c.x_trend
  y : Y c.y_trend
  theta : T c.theta_trend

fresh_lem : IsConsistent fresh
fresh_lem = ground arith

if_lem {ℓ κ} :
    {A : Type ℓ} (P : A → Type κ) (b : Bool) {u w : A} → P u → P w → P (if b then u else w)
if_lem P true p q = p
if_lem P false p q = q

module _ {D : Type 0} (d : Scalars D) where
  set_oscillation_flags-Each :
      (X Y T : CommandTrend → Type 0) (v : Twist D) (c : Critic D)
      → Each X Y T c
      → Each X Y T (record c {
        x_trend = (update d c.x_trend v.x).0;
        y_trend = (update d c.y_trend v.y).0;
        theta_trend = (update d c.theta_trend v.theta).0;
      })
      → Each X Y T ((set_oscillation_flags d v c).0)
  unfolding set_oscillation_flags
  set_oscillation_flags-Each X Y T v c k u =
      if_lem (λ (p : Critic D × Bool). Each X Y T (p.0)) _
        (record { x = u.x; y = u.y; theta = u.theta })
        (record { x = u.x; y = k.y; theta = k.theta })

  -- A debrief updates a trend, leaves it, or starts it afresh.
  debrief-Each :
      (X Y T : CommandTrend → Type 0) (set_time now : D) (v : Twist D) (c : Critic D)
      → Each X Y T (reset d c)
      → Each X Y T c
      → Each X Y T (record c {
        x_trend = (update d c.x_trend v.x).0;
        y_trend = (update d c.y_trend v.y).0;
        theta_trend = (update d c.theta_trend v.theta).0;
      })
      → Each X Y T (debrief d set_time now v c)
  unfolding debrief reset
  debrief-Each X Y T s n v c f k u =
      let t = set_oscillation_flags d v c in
      let flags = set_oscillation_flags-Each X Y T v c k u in
      if_lem (Each X Y T) _ (record { x = f.x; y = f.y; theta = f.theta })
        (if_lem (Each X Y T) (t.1) (record { x = flags.x; y = flags.y; theta = flags.theta }) flags)

module _ {D : Type 0} (d : Scalars D) (laws : SignLaws d) where
  score_free :
      (c : Critic D) (v : Twist D)
      → score_trajectory d v c ≡ some 0
      → Each
          (λ t. is_oscillating d t v.x ≡ false)
          (λ t. is_oscillating d t v.y ≡ false)
          (λ t. is_oscillating d t v.theta ≡ false)
          c
  unfolding score_trajectory
  score_free c v h = record { x = ground arith; y = ground arith; theta = ground arith }

  free_score :
      (c : Critic D) (v : Twist D)
      → Each
          (λ t. is_oscillating d t v.x ≡ false)
          (λ t. is_oscillating d t v.y ≡ false)
          (λ t. is_oscillating d t v.theta ≡ false)
          c
      → score_trajectory d v c ≡ some 0
  unfolding score_trajectory
  free_score c v f = ground (arith, f.x, f.y, f.theta)

  Reach-IsConsistent : (c : Critic D) → Reach d c → Each IsConsistent IsConsistent IsConsistent c
  unfolding on_init reset
  Reach-IsConsistent _ (initialised dist angle time x_only c) = record {
    x = fresh_lem;
    y = fresh_lem;
    theta = fresh_lem;
  }
  Reach-IsConsistent _ (prepared p c r) =
      let e = Reach-IsConsistent c r in record { x = e.x; y = e.y; theta = e.theta }
  Reach-IsConsistent _ (was_reset c r) = record { x = fresh_lem; y = fresh_lem; theta = fresh_lem }
  Reach-IsConsistent _ (commanded s n v c r h) =
      let e = Reach-IsConsistent c r in
      let f = score_free c v h in
      debrief-Each d IsConsistent IsConsistent IsConsistent s n v c
        (record { x = fresh_lem; y = fresh_lem; theta = fresh_lem }) e
        (record {
          x = update-IsConsistent d laws c.x_trend v.x e.x f.x;
          y = update-IsConsistent d laws c.y_trend v.y e.y f.y;
          theta = update-IsConsistent d laws c.theta_trend v.theta e.theta f.theta;
        })

  fresh_free : (w : D) → is_oscillating d fresh w ≡ false
  unfolding is_oscillating
  fresh_free w = refl

  -- In every run whose commands were scored and not rejected, a command that is accepted is accepted
  -- again right after its debrief, whatever the clock reads.
  pub debrief-repeat :
      (set_time now : D) (v : Twist D) (c : Critic D)
      → Reach d c
      → score_trajectory d v c ≡ some 0
      → score_trajectory d v (debrief d set_time now v c) ≡ some 0
  unfolding reset
  debrief-repeat s n v c r h =
      let e = Reach-IsConsistent c r in
      let f = score_free c v h in
      free_score (debrief d s n v c) v (
        debrief-Each d _ _ _ s n v c
          (record { x = fresh_free v.x; y = fresh_free v.y; theta = fresh_free v.theta }) f
          (record {
            x = update-repeat d laws c.x_trend v.x e.x f.x;
            y = update-repeat d laws c.y_trend v.y e.y f.y;
            theta = update-repeat d laws c.theta_trend v.theta e.theta f.theta;
          }))

  -- A command that flips the sign of the forward velocity closes the old direction: unless the debrief
  -- finds that the robot went far enough, turned far enough or waited long enough since that command,
  -- every trajectory whose forward velocity has the old sign is rejected afterwards.
  pub debrief-blocks :
      (set_time now : D) (v w : Twist D) (c : Critic D)
      → (update d c.x_trend v.x).1 ≡ true
      → d.lt v.x d.zero_D ≡ d.lt d.zero_D w.x
      → d.lt d.zero_D v.x ≡ d.lt w.x d.zero_D
      → reset_available d now (record ((set_oscillation_flags d v c).0) {
        prev_stationary_pose = c.pose;
        prev_reset_time = set_time;
      })
        ≡ false
      → score_trajectory d w (debrief d set_time now v c) ≡ none
  unfolding debrief set_oscillation_flags score_trajectory
  debrief-blocks s n v w c flip e1 e2 held =
      ground (arith, update-flips d laws c.x_trend v.x w.x flip e1 e2, held)
