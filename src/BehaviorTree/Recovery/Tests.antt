-- ===== src/BehaviorTree/Recovery/Tests.antt =====
-- Runs of a recovery node, and the theorems at concrete nodes.
use navigation_learning.Prelude.{ℕ, ◌-◌, ◌≡◌, refl, arith, ◌==◌, if◌then◌else◌}
use navigation_learning.BehaviorTree.Recovery.{
  NodeStatus, RecoveryNode, Children, returned, threw, tick,
}
use navigation_learning.BehaviorTree.Recovery.Refinement.{
  IsValid, returns, NeverIdle, started, expected, tick-expected,
}
use navigation_learning.BehaviorTree.Recovery.Settling.{Settled, tick-Settled}
use navigation_learning.BehaviorTree.Recovery.Bounds.{last_recovery_fails}

-- The world counts down the failures of the first child; its recovery always succeeds.
abbrev flaky : Children ℕ
flaky = record {
  execute_tick = λ i w.
      if i == 0
      then (if w == 0 then (NodeStatus.success, w) else (NodeStatus.failure, w - 1))
      else (NodeStatus.success, w);
  halt_children = λ i w. w;
  halt_control = λ w. w;
}

flaky-NeverIdle : NeverIdle flaky
flaky-NeverIdle i w = ground arith

abbrev node : RecoveryNode
node = record {
  current_child_idx = 0;
  number_of_retries = 3;
  retry_count = 0;
  status = NodeStatus.idle;
}

node-IsValid : IsValid node
node-IsValid = ground arith

recovers_twice :
    tick flaky 2 node 2
    ≡ returned NodeStatus.success (record node { status = NodeStatus.running }) 0
unfolding tick
recovers_twice = refl

gives_up :
    tick flaky 2 node 5
    ≡ returned NodeStatus.failure (record node { status = NodeStatus.running }) 2
unfolding tick
gives_up = refl

one_child : tick flaky 1 node 5 ≡ threw node 5
unfolding tick
one_child = refl

-- With no retries the first child is never executed.
no_retries :
    tick flaky 2 (record node { number_of_retries = 0 }) 0
    ≡ returned NodeStatus.failure
        (record node { number_of_retries = 0; status = NodeStatus.running })
        0
unfolding tick
no_retries = refl

tick-expected_example : tick flaky 2 node 2 ≡ returns (started node) (expected flaky node 2)
tick-expected_example = tick-expected flaky node 2 flaky-NeverIdle node-IsValid

tick-Settled_example : Settled flaky node (tick flaky 2 node 2)
tick-Settled_example = tick-Settled flaky node 2 flaky-NeverIdle node-IsValid

abbrev last_node : RecoveryNode
last_node = record node { current_child_idx = 1; retry_count = 2 }

last_recovery_fails_example :
    tick flaky 2 last_node 7
    ≡ returned NodeStatus.failure (record node { status = NodeStatus.running }) 7
last_recovery_fails_example =
    last_recovery_fails flaky last_node 7 7 flaky-NeverIdle (omega arith) refl refl refl
