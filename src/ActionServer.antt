-- ===== src/ActionServer.antt =====
-- `SimpleActionServer` of navigation2/nav2_util/include/nav2_util/simple_action_server.hpp. Each
-- method that changes the state holds `update_mutex_` throughout, so a method is one step on the state;
-- `publish_feedback`, which takes no lock, only reads the current handle. Goal handles
-- (`rclcpp_action::ServerGoalHandle`) are a parameter: handles `H`, results `R`, goals `G`,
-- feedback `F`, and a world `W` that holds the handles' states. Log messages are left out.
pub mod Handles
pub mod Slots
pub mod Ending
pub mod Coverage
pub mod Races
mod Tests
use package.navigation_learning.Prelude.{
  ℕ, suc, ◌+◌, ◌-◌, ◌/◌, min, Bool, true, false, not, ◌&&◌, Option, none, some, if◌then◌else◌, drop,
}
use Handles.{GoalHandles}

-- `threads` counts the detached threads that run `execute_callback_`.
pub record Server (H W : Type 0) : Type 0 where
  pub server_active : Bool
  pub preempt_requested : Bool
  pub current_handle : Option H
  pub pending_handle : Option H
  pub threads : ℕ
  pub world : W

pub data GoalResponse : Type 0 where
  reject accept_and_execute : GoalResponse

pub data CancelResponse : Type 0 where
  accept_cancel : CancelResponse

-- The constructor, with `autostart`.
unfoldable pub new : {H W : Type 0} → Bool → W → Server H W
new autostart w = record {
  server_active = autostart;
  preempt_requested = false;
  current_handle = none;
  pending_handle = none;
  threads = 0;
  world = w;
}

module _ {H W G R F : Type 0} (g : GoalHandles H W G R F) where
  -- `is_active(handle)`: not null and active.
  abbrev pub is_active : Option H → W → Bool
  is_active none w = false
  is_active (some h) w = g.is_active h w

  abbrev pub is_canceling : Option H → W → Bool
  is_canceling none w = false
  is_canceling (some h) w = g.is_canceling h w

  abbrev pub abort : R → Option H → W → W
  abort r none w = w
  abort r (some h) w = g.abort r h w

  abbrev pub canceled : R → Option H → W → W
  canceled r none w = w
  canceled r (some h) w = g.canceled r h w

  abbrev pub succeed : R → Option H → W → W
  succeed r none w = w
  succeed r (some h) w = g.succeed r h w

  pub handle_goal : Server H W → GoalResponse
  handle_goal s = if s.server_active then accept_and_execute else reject

  pub handle_cancel : Server H W → CancelResponse
  handle_cancel s = accept_cancel

  -- The block that both branches of `handle_accepted` share: an occupied pending slot is aborted.
  unfoldable pub drop_pending : Server H W → Server H W
  drop_pending s =
      if is_active s.pending_handle s.world
      then record s {
        world = abort g.empty_result s.pending_handle s.world;
        pending_handle = none;
        preempt_requested = false;
      }
      else s

  unfoldable pub handle_accepted : H → Server H W → Server H W
  unfolding drop_pending
  handle_accepted h s =
      let t = drop_pending s in
      if is_active s.current_handle s.world
      then record t { preempt_requested = true; pending_handle = some h }
      else record t { current_handle = some h; threads = t.threads + 1 }

  unfoldable pub activate : Server H W → Server H W
  activate s = record s { server_active = true }

  -- The first `if` of `terminate_goals`.
  unfoldable pub terminate_current : R → Server H W → Server H W
  terminate_current r s =
      if is_active s.current_handle s.world
      then if is_canceling s.current_handle s.world
        then record s { world = canceled r s.current_handle s.world; current_handle = none }
        else record s { world = abort r s.current_handle s.world; current_handle = none }
      else s

  unfoldable pub terminate_pending : R → Server H W → Server H W
  terminate_pending r s =
      if is_active s.pending_handle s.world
      then if is_canceling s.pending_handle s.world
        then record s {
          world = canceled r s.pending_handle s.world;
          pending_handle = none;
          preempt_requested = false;
        }
        else record s {
          world = abort r s.pending_handle s.world;
          pending_handle = none;
          preempt_requested = false;
        }
      else s

  unfoldable pub terminate_goals : R → Server H W → Server H W
  unfolding terminate_current terminate_pending
  terminate_goals r s = terminate_pending r (terminate_current r s)

  -- `terminate_goals()` with its default argument, an empty result.
  unfoldable pub deactivate : Server H W → Server H W
  unfolding terminate_goals
  deactivate s = terminate_goals g.empty_result (record s { server_active = false })

  pub is_server_active : Server H W → Bool
  is_server_active s = s.server_active

  pub is_preempt_requested : Server H W → Bool
  is_preempt_requested s = s.preempt_requested

  -- `current_handle_ != pending_handle_` compares pointers.
  abbrev pub same_handle : Option H → Option H → Bool
  same_handle none none = true
  same_handle none (some k) = false
  same_handle (some h) none = false
  same_handle (some h) (some k) = g.same h k

  -- The handle that held the current slot is aborted unless it is the pending one.
  unfoldable pub preempt_current : Server H W → Server H W
  preempt_current s =
      if is_active s.current_handle s.world && not (same_handle s.current_handle s.pending_handle)
      then record s { world = abort g.empty_result s.current_handle s.world }
      else s

  goal_of : Option H → Option G
  goal_of none = none
  goal_of (some h) = some (g.get_goal h)

  -- `none` is the null goal pointer.
  unfoldable pub accept_pending_goal : Server H W → Server H W × Option G
  unfolding preempt_current goal_of
  accept_pending_goal s = if not (is_active s.pending_handle s.world) then (s, none) else (
    record (preempt_current s) {
      current_handle = s.pending_handle;
      pending_handle = none;
      preempt_requested = false;
    },
    goal_of s.pending_handle,
  )

  unfoldable pub get_current_goal : Server H W → Option G
  unfolding goal_of
  get_current_goal s = if is_active s.current_handle s.world then goal_of s.current_handle else none

  unfoldable pub cancel_of : Option H → Option H → W → Bool
  cancel_of none pending w = false
  cancel_of (some c) (some p) w = g.is_canceling p w
  cancel_of (some c) none w = g.is_canceling c w

  unfoldable pub is_cancel_requested : Server H W → Bool
  unfolding cancel_of
  is_cancel_requested s = cancel_of s.current_handle s.pending_handle s.world

  unfoldable pub succeeded_current : R → Server H W → Server H W
  succeeded_current r s =
      let t =
        if is_active s.current_handle s.world
        then record s { world = succeed r s.current_handle s.world; current_handle = none }
        else s in
      if is_active t.pending_handle t.world
      then record t {
        world = abort g.empty_result t.pending_handle t.world;
        pending_handle = none;
        preempt_requested = false;
      }
      else t

  publish_to : F → Option H → Server H W → Option (Server H W)
  publish_to f none s = none
  publish_to f (some h) s = some (record s { world = g.publish_feedback f h s.world })

  -- `none` is the dereference of a null handle: the check before it only logs.
  unfoldable pub publish_feedback : F → Server H W → Option (Server H W)
  unfolding publish_to
  publish_feedback f s = publish_to f s.current_handle s
