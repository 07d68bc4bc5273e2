-- ===== src/BehaviorTree/Recovery/Bounds.antt =====
-- How often one call of `tick` executes the first child.
use navigation_learning.Prelude.{
  ◌≡◌, ap, ◌∙◌, ℕ, zero, suc, ◌+◌, ◌-◌, ◌≤◌, sym, inl, inr, arith, ◌==◌, if◌then◌else◌,
}
use mathlib.Core.Path.{subst}
use navigation_learning.BehaviorTree.Recovery.{
  NodeStatus, RecoveryNode, Children, Outcome, returned, tick,
}
use navigation_learning.BehaviorTree.Recovery.Attempts.{
  Session, by_first, by_recovery, recover_then, attempts,
}
use navigation_learning.BehaviorTree.Recovery.Refinement.{
  IsValid, NeverIdle, started, returns, expected, tick-expected, expected_first, expected_recovery,
}

-- The children with a counter of the executions of the first child.
abbrev count_first : ℕ → ℕ → ℕ
count_first i n = if i == 0 then n + 1 else n

pub counting : {W : Type 0} → Children W → Children (W × ℕ)
counting c = record {
  execute_tick = λ i u. let (st, w) = c.execute_tick i u.0 in (st, (w, count_first i u.1));
  halt_children = λ i u. (c.halt_children i u.0, u.1);
  halt_control = λ u. (c.halt_control u.0, u.1);
}

module _ {W : Type 0} (c : Children W) where
  by_first-le :
      (left n : ℕ) (recover : W × ℕ → Session (W × ℕ))
      → ((w : W) → (recover (w, n + 1)).world.1 ≤ n + suc left)
      → (p : NodeStatus × W)
      → (by_first (counting c) (suc left) recover (p.0, (p.1, n + 1))).world.1 ≤ n + suc left
  by_first-le left n recover h (NodeStatus.success, w) = omega arith
  by_first-le left n recover h (NodeStatus.failure, w) = h w
  by_first-le left n recover h (NodeStatus.running, w) = omega arith
  by_first-le left n recover h (NodeStatus.idle, w) = omega arith

  by_recovery-le :
      (left n bound : ℕ) (retry : W × ℕ → Session (W × ℕ))
      → n ≤ bound
      → ((w : W) → (retry (w, n)).world.1 ≤ bound)
      → (p : NodeStatus × W) → (by_recovery (counting c) left retry (p.0, (p.1, n))).world.1 ≤ bound
  unfolding counting
  by_recovery-le left n bound retry b h (NodeStatus.success, w) = h (c.halt_children 1 w)
  by_recovery-le left n bound retry b h (NodeStatus.failure, w) = b
  by_recovery-le left n bound retry b h (NodeStatus.running, w) = b
  by_recovery-le left n bound retry b h (NodeStatus.idle, w) = b

  attempts-le : (left n : ℕ) (w : W) → (attempts (counting c) left (w, n)).world.1 ≤ n + left
  unfolding attempts recover_then counting
  attempts-le zero n w = omega arith
  attempts-le (suc left) n w =
      by_first-le left n (recover_then (counting c) (suc left) (attempts (counting c) left))
        (λ w'.
          by_recovery-le (suc left) (n + 1) (n + suc left) (attempts (counting c) left)
            (omega arith) (λ w''. omega (arith, attempts-le left (n + 1) w''))
            (c.execute_tick 1 w'))
        (c.execute_tick 0 w)

  recover_then-le :
      (left n : ℕ) (w : W)
      → (recover_then (counting c) (suc left) (attempts (counting c) left) (w, n)).world.1
        ≤ n + left
  unfolding recover_then counting
  recover_then-le left n w =
      by_recovery-le (suc left) n (n + left) (attempts (counting c) left) (omega arith)
        (λ w'. attempts-le left n w') (c.execute_tick 1 w)

  expected-le :
      (s : RecoveryNode) (w : W) (n : ℕ)
      → IsValid s
      → (expected (counting c) s (w, n)).world.1 ≤ n + (s.number_of_retries - s.retry_count)
  expected-le s w n v = elim v.placed [
    | inl e ↦
        subst (λ (r : Session (W × ℕ)). r.world.1 ≤ n + (s.number_of_retries - s.retry_count))
          (expected_first (counting c) s (w, n) e)
          (attempts-le (s.number_of_retries - s.retry_count) n w)
    | inr (e, less) ↦
        let left = s.number_of_retries - s.retry_count - 1 in
        subst (λ (r : Session (W × ℕ)). r.world.1 ≤ n + (s.number_of_retries - s.retry_count))
          (expected_recovery (counting c) s (w, n) left e (omega arith))
          (omega (arith, recover_then-le left n w))
  ]

abbrev pub first_ticks : {W : Type 0} → Outcome (W × ℕ) → ℕ
first_ticks (returned st s u) = u.1
first_ticks _ = 0

counting-NeverIdle : {W : Type 0} (c : Children W) → NeverIdle c → NeverIdle (counting c)
unfolding counting
counting-NeverIdle c quiet i u = quiet i u.0

-- One `tick` of a valid node executes the first child at most as often as there are retries left.
pub tick-first_ticks_le :
    {W : Type 0} (c : Children W) (s : RecoveryNode) (w : W)
    → NeverIdle c
    → IsValid s
    → first_ticks (tick (counting c) 2 s (w, 0)) ≤ s.number_of_retries - s.retry_count
tick-first_ticks_le c s w quiet v =
    subst (λ o. first_ticks o ≤ s.number_of_retries - s.retry_count)
      (sym (tick-expected (counting c) s (w, 0) (counting-NeverIdle c quiet) v))
      (omega (arith, expected-le c s w 0 v))

-- On a valid node that spends its last retry, a recovery that succeeds ends in FAILURE with the
-- node reset: the first child is not executed again.
pub last_recovery_fails :
    {W : Type 0} (c : Children W) (s : RecoveryNode) (w w' : W)
    → NeverIdle c
    → IsValid s
    → s.current_child_idx ≡ 1
    → s.retry_count + 1 ≡ s.number_of_retries
    → c.execute_tick 1 w ≡ (NodeStatus.success, w')
    → tick c 2 s w
      ≡ returned NodeStatus.failure
          (record s { current_child_idx = 0; retry_count = 0; status = NodeStatus.running })
          (c.halt_children 1 w')
unfolding recover_then attempts
last_recovery_fails c s w w' quiet v at last e =
    tick-expected c s w quiet v
    ∙ ap (returns (started s)) (sym (expected_recovery c s w 0 at (omega arith)))
    ∙ ap (λ p. returns (started s) (by_recovery c 1 (attempts c 0) p)) e
