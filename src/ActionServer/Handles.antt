-- ===== src/ActionServer/Handles.antt =====
-- What the action server uses of rclcpp_action's goal handles, and what it relies on.
use navigation_learning.Prelude.{◌≡◌, ◌↔◌, Bool, true, false, if◌then◌else◌}

pub record GoalHandles (H W G R F : Type 0) : Type 0 where
  pub same : H → H → Bool  -- equality of pointers
  pub is_active : H → W → Bool
  pub is_canceling : H → W → Bool
  pub get_goal : H → G
  pub empty_result : R
  pub abort : R → H → W → W
  pub canceled : R → H → W → W
  pub succeed : R → H → W → W
  pub publish_feedback : F → H → W → W

-- The documented effect of the three terminal transitions: the goal is active no more, and no
-- other goal is touched.
pub record TerminalLaws {H W G R F : Type 0} (g : GoalHandles H W G R F) : Type 0 where
  pub same_iff : (h k : H) → (g.same h k ≡ true) ↔ (h ≡ k)
  pub abort_active :
      (r : R) (h k : H) (w : W)
      → g.is_active k (g.abort r h w) ≡ (if g.same h k then false else g.is_active k w)
  pub canceled_active :
      (r : R) (h k : H) (w : W)
      → g.is_active k (g.canceled r h w) ≡ (if g.same h k then false else g.is_active k w)
  pub succeed_active :
      (r : R) (h k : H) (w : W)
      → g.is_active k (g.succeed r h w) ≡ (if g.same h k then false else g.is_active k w)
