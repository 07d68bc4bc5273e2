-- ===== src/BehaviorTree/Recovery.antt =====
-- `RecoveryNode` of navigation2/nav2_behavior_tree/src/recovery_node.cpp. The node's children and
-- `haltChildren` belong to the BehaviorTree.CPP library: they act on a world `W` that the model
-- takes as a parameter. The `while` loop runs on fuel.
pub mod Attempts
pub mod Refinement
pub mod Settling
pub mod Bounds
mod Tests
use package.navigation_learning.Prelude.{
  ℕ, zero, suc, ◌+◌, ◌-◌, ◌*◌, ◌/◌, ◌^◌, true, false, not, ◌&&◌, u32, ltb, leb, ◌==◌, if◌then◌else◌,
  set, take,
}

-- `BT::NodeStatus`.
pub data NodeStatus : Type 0 where
  idle running success failure : NodeStatus

pub record RecoveryNode : Type 0 where
  pub current_child_idx : ℕ
  pub number_of_retries : ℕ
  pub retry_count : ℕ
  pub status : NodeStatus

-- What the library does for a control node: `executeTick` of a child, `haltChildren(i)` and
-- `ControlNode::halt`.
pub record Children (W : Type 0) : Type 0 where
  pub execute_tick : ℕ → W → NodeStatus × W
  pub halt_children : ℕ → W → W
  pub halt_control : W → W

-- The constructor; `setStatus` has not been called yet.
unfoldable pub new : ℕ → RecoveryNode
new retries = record {
  current_child_idx = 0;
  number_of_retries = retries;
  retry_count = 0;
  status = NodeStatus.idle;
}

-- One round of the loop either leaves `tick` or goes round again.
pub data Round (W : Type 0) : Type 0 where
  leave : NodeStatus → RecoveryNode → W → Round W
  again : RecoveryNode → W → Round W

-- `threw` is the `BehaviorTreeException`; `stuck` is a loop that ran out of fuel.
pub data Outcome (W : Type 0) : Type 0 where
  returned : NodeStatus → RecoveryNode → W → Outcome W
  threw : RecoveryNode → W → Outcome W
  stuck : Outcome W

module _ {W : Type 0} (c : Children W) where
  pub halt : RecoveryNode → W → RecoveryNode × W
  halt s w = (record s { current_child_idx = 0; retry_count = 0 }, c.halt_control w)

  -- The `switch` for the first child.
  unfoldable pub after_first : NodeStatus → RecoveryNode → W → Round W
  after_first NodeStatus.success s w = leave NodeStatus.success (record s { retry_count = 0 }) w
  after_first NodeStatus.failure s w =
      if leb s.retry_count s.number_of_retries
      then again (record s { current_child_idx = u32 (s.current_child_idx + 1) }) w
      else leave NodeStatus.failure s (c.halt_children 0 w)
  after_first NodeStatus.running s w = leave NodeStatus.running s w
  after_first NodeStatus.idle s w = again s w

  -- The `switch` for the second child; `--` on an unsigned int adds 2^32 - 1.
  unfoldable pub after_second : NodeStatus → RecoveryNode → W → Round W
  after_second NodeStatus.success s w =
      again
        (record s {
          retry_count = u32 (s.retry_count + 1);
          current_child_idx = u32 (s.current_child_idx + 4294967295);
        })
        (c.halt_children 1 w)
  after_second NodeStatus.failure s w =
      leave NodeStatus.failure
        (record s { current_child_idx = u32 (s.current_child_idx + 4294967295); retry_count = 0 }) w
  after_second NodeStatus.running s w = leave NodeStatus.running s w
  after_second NodeStatus.idle s w = again s w

  unfoldable pub after_child : NodeStatus → RecoveryNode → W → Round W
  unfolding after_first after_second
  after_child st s w =
      if s.current_child_idx == 0
      then after_first st s w
      else if s.current_child_idx == 1
      then after_second st s w
      else again s w

  -- The body of the loop: tick the current child and look at its status.
  unfoldable pub round : RecoveryNode → W → Round W
  unfolding after_child
  round s w = let (st, w') = c.execute_tick s.current_child_idx w in after_child st s w'

  unfoldable pub tick_loop : ℕ → ℕ → RecoveryNode → W → Outcome W
  tick_loop children_count zero s w = stuck
  tick_loop children_count (suc fuel) s w =
      elim (ltb s.current_child_idx children_count && ltb s.retry_count s.number_of_retries) [
        | true ↦ elim (round s w) [
          | leave st s' w' ↦ returned st s' w'
          | again s' w' ↦ tick_loop children_count fuel s' w'
        ]
        | false ↦ returned NodeStatus.failure (record s { retry_count = 0 }) w
      ]

  -- Two rounds for each retry left, and one for the last test.
  unfoldable pub tick : ℕ → RecoveryNode → W → Outcome W
  unfolding tick_loop round
  tick children_count s w =
      if not (children_count == 2)
      then threw s w
      else tick_loop children_count (2 * s.number_of_retries + 1)
          (record s { status = NodeStatus.running }) w
