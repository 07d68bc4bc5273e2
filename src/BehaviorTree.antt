-- ===== src/BehaviorTree.antt =====
-- Control nodes of navigation2/nav2_behavior_tree.
pub mod Recovery
