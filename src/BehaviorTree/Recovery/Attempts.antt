-- ===== src/BehaviorTree/Recovery/Attempts.antt =====
-- What a recovery node promises: a bounded alternation of its two children, by recursion on the
-- attempts that are left.
use navigation_learning.Prelude.{ℕ, zero, suc}
use navigation_learning.BehaviorTree.Recovery.{NodeStatus, Children}

-- Where the next tick resumes: at the first child or at the recovery, with so many attempts left.
pub data Resume : Type 0 where
  at_first at_recovery : ℕ → Resume
  fresh : Resume

pub record Session (W : Type 0) : Type 0 where
  pub status : NodeStatus
  pub resume : Resume
  pub world : W

module _ {W : Type 0} (c : Children W) where
  abbrev pub by_first : ℕ → (W → Session W) → NodeStatus × W → Session W
  by_first left recover (NodeStatus.success, w) = record {
    status = NodeStatus.success;
    resume = fresh;
    world = w;
  }
  by_first left recover (NodeStatus.failure, w) = recover w
  by_first left recover (_, w) = record {
    status = NodeStatus.running;
    resume = at_first left;
    world = w;
  }

  abbrev pub by_recovery : ℕ → (W → Session W) → NodeStatus × W → Session W
  by_recovery left retry (NodeStatus.success, w) = retry (c.halt_children 1 w)
  by_recovery left retry (NodeStatus.failure, w) = record {
    status = NodeStatus.failure;
    resume = fresh;
    world = w;
  }
  by_recovery left retry (_, w) = record {
    status = NodeStatus.running;
    resume = at_recovery left;
    world = w;
  }

  -- The recovery child, then `retry` if it succeeds.
  unfoldable pub recover_then : ℕ → (W → Session W) → W → Session W
  recover_then left retry w = by_recovery left retry (c.execute_tick 1 w)

  -- The first child; on failure the recovery child and one attempt less.
  unfoldable pub attempts : ℕ → W → Session W
  unfolding recover_then
  attempts zero w = record { status = NodeStatus.failure; resume = fresh; world = w }
  attempts (suc left) w =
      let next = recover_then (suc left) (attempts left) in
      by_first (suc left) next (c.execute_tick 0 w)
