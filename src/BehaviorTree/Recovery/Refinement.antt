-- ===== src/BehaviorTree/Recovery/Refinement.antt =====
-- The loop of `tick` implements the bounded alternation.
use navigation_learning.Prelude.{
  ℕ, zero, suc, ◌+◌, ◌-◌, ◌*◌, ◌≤◌, ◌<◌, ◌≡◌, refl, sym, ap, ◌∙◌, ◌≢◌, ◌⊎◌, inl, inr, true, arith,
  u32, ltb, leb, ◌==◌, if◌then◌else◌,
}
use navigation_learning.BehaviorTree.Recovery.{
  NodeStatus, RecoveryNode, Children, Outcome, Round, returned, leave, again, round, tick_loop,
  tick, after_first, after_second,
}
use navigation_learning.BehaviorTree.Recovery.Attempts.{
  Resume, at_first, at_recovery, fresh, Session, recover_then, attempts, by_first, by_recovery,
}

-- Between ticks a node stands at its first child, or at its second with a retry left.
pub record IsValid (s : RecoveryNode) : Type 0 where
  pub bounded : s.number_of_retries < 4294967296
  pub counted : s.retry_count ≤ s.number_of_retries
  pub placed :
      (s.current_child_idx ≡ 0) ⊎ (s.current_child_idx ≡ 1) × (s.retry_count < s.number_of_retries)

abbrev pub resume_at : Resume → RecoveryNode → RecoveryNode
resume_at (at_first left) s = record s {
  current_child_idx = 0;
  retry_count = s.number_of_retries - left;
}
resume_at (at_recovery left) s = record s {
  current_child_idx = 1;
  retry_count = s.number_of_retries - left;
}
resume_at fresh s = record s { current_child_idx = 0; retry_count = 0 }

abbrev pub returns : {W : Type 0} → RecoveryNode → Session W → Outcome W
returns s r = returned r.status (resume_at r.resume s) r.world

-- The library never hands `idle` back from `executeTick`.
abbrev pub NeverIdle : {W : Type 0} → Children W → Type 0
NeverIdle {W} c = (i : ℕ) (w : W) → (c.execute_tick i w).0 ≢ NodeStatus.idle

module _ {W : Type 0} (c : Children W) (quiet : NeverIdle c) (s : RecoveryNode)
    (bounded : s.number_of_retries < 4294967296) where
  continue_with : ℕ → Round W → Outcome W
  continue_with fuel (leave st s' w') = returned st s' w'
  continue_with fuel (again s' w') = tick_loop c 2 fuel s' w'

  mid :
      (left : ℕ)
      → suc left ≤ s.number_of_retries
      → ltb (s.number_of_retries - suc left) s.number_of_retries ≡ true
  mid left h = ground arith

  -- One round at the first child.
  step_first :
      (left fuel : ℕ) (w : W)
      → suc left ≤ s.number_of_retries
      → tick_loop c 2 (suc fuel) (resume_at (at_first (suc left)) s) w
        ≡ continue_with fuel (
            after_first c
              (c.execute_tick 0 w).0
              (resume_at (at_first (suc left)) s)
              (c.execute_tick 0 w).1)
  unfolding tick_loop round continue_with
  step_first left fuel w h = ground (arith, mid left h)

  step_second :
      (left fuel : ℕ) (w : W)
      → suc left ≤ s.number_of_retries
      → tick_loop c 2 (suc fuel) (resume_at (at_recovery (suc left)) s) w
        ≡ continue_with fuel (
            after_second c
              (c.execute_tick 1 w).0
              (resume_at (at_recovery (suc left)) s)
              (c.execute_tick 1 w).1)
  unfolding tick_loop round continue_with
  step_second left fuel w h = ground (arith, mid left h)

  -- The two switches, on each status that a child hands back.
  first_case :
      (left fuel : ℕ) (st : NodeStatus) (w : W)
      → suc left ≤ s.number_of_retries
      → st ≢ NodeStatus.idle
      → (recover : W → Session W)
      → ((w' : W)
          → tick_loop c 2 fuel (resume_at (at_recovery (suc left)) s) w' ≡ returns s (recover w'))
      → continue_with fuel (after_first c st (resume_at (at_first (suc left)) s) w)
        ≡ returns s (by_first c (suc left) recover (st, w))
  unfolding continue_with after_first
  first_case left fuel NodeStatus.success w h q recover ih = refl
  first_case left fuel NodeStatus.running w h q recover ih = refl
  first_case left fuel NodeStatus.idle w h q recover ih = absurd (q refl)
  first_case left fuel NodeStatus.failure w h q recover ih =
      let e : leb (s.number_of_retries - suc left) s.number_of_retries ≡ true = ground arith in
      rw e (ih w)

  second_case :
      (left fuel : ℕ) (st : NodeStatus) (w : W)
      → suc left ≤ s.number_of_retries
      → st ≢ NodeStatus.idle
      → (retry : W → Session W)
      → ((w' : W) → tick_loop c 2 fuel (resume_at (at_first left) s) w' ≡ returns s (retry w'))
      → continue_with fuel (after_second c st (resume_at (at_recovery (suc left)) s) w)
        ≡ returns s (by_recovery c (suc left) retry (st, w))
  unfolding continue_with after_second
  second_case left fuel NodeStatus.failure w h q retry ih = refl
  second_case left fuel NodeStatus.running w h q retry ih = refl
  second_case left fuel NodeStatus.idle w h q retry ih = absurd (q refl)
  second_case left fuel NodeStatus.success w h q retry ih =
      let e : u32 (s.number_of_retries - suc left + 1) ≡ s.number_of_retries - left = omega arith in
      rw e (ih (c.halt_children 1 w))

  loop_first :
      (left fuel : ℕ) (w : W)
      → left ≤ s.number_of_retries
      → 2 * left < fuel
      → tick_loop c 2 fuel (resume_at (at_first left) s) w ≡ returns s (attempts c left w)
  unfolding attempts recover_then
  loop_first left zero w h f = absurd (omega arith)
  loop_first zero (suc fuel) w h f = unfold tick_loop in ground arith
  loop_first (suc left) (suc zero) w h f = absurd (omega arith)
  loop_first (suc left) (suc (suc fuel)) w h f =
      step_first left (suc fuel) w h
      ∙ first_case left (suc fuel) (c.execute_tick 0 w).0 (c.execute_tick 0 w).1 h (quiet 0 w) _
          (λ w'.
            step_second left fuel w' h
            ∙ second_case left fuel (c.execute_tick 1 w').0 (c.execute_tick 1 w').1 h (quiet 1 w') _
                (λ w''. loop_first left fuel w'' (omega arith) (omega arith)))

  loop_second :
      (left fuel : ℕ) (w : W)
      → suc left ≤ s.number_of_retries
      → 2 * left + 1 < fuel
      → tick_loop c 2 fuel (resume_at (at_recovery (suc left)) s) w
        ≡ returns s (recover_then c (suc left) (attempts c left) w)
  unfolding recover_then
  loop_second left zero w h f = absurd (omega arith)
  loop_second left (suc fuel) w h f =
      step_second left fuel w h
      ∙ second_case left fuel (c.execute_tick 1 w).0 (c.execute_tick 1 w).1 h (quiet 1 w) _
          (λ w'. loop_first left fuel w' (omega arith) (omega arith))

-- What the next tick of a valid node promises.
unfoldable pub expected : {W : Type 0} → Children W → RecoveryNode → W → Session W
expected c s w =
    if s.current_child_idx == 0
    then attempts c (s.number_of_retries - s.retry_count) w
    else recover_then c (s.number_of_retries - s.retry_count)
        (attempts c (s.number_of_retries - s.retry_count - 1)) w

abbrev pub started : RecoveryNode → RecoveryNode
started s = record s { status = NodeStatus.running }

at_first_lem :
    (s : RecoveryNode)
    → s.retry_count ≤ s.number_of_retries
    → s.current_child_idx ≡ 0
    → started s ≡ resume_at (at_first (s.number_of_retries - s.retry_count)) (started s)
at_first_lem s h e = ground arith

at_recovery_lem :
    (s : RecoveryNode) (left : ℕ)
    → s.retry_count ≤ s.number_of_retries
    → s.current_child_idx ≡ 1
    → s.number_of_retries - s.retry_count ≡ suc left
    → started s ≡ resume_at (at_recovery (suc left)) (started s)
at_recovery_lem s left h e d = ground arith

pub expected_first :
    {W : Type 0} (c : Children W) (s : RecoveryNode) (w : W)
    → s.current_child_idx ≡ 0
    → attempts c (s.number_of_retries - s.retry_count) w ≡ expected c s w
unfolding expected
expected_first c s w e = ground arith

pub expected_recovery :
    {W : Type 0} (c : Children W) (s : RecoveryNode) (w : W) (left : ℕ)
    → s.current_child_idx ≡ 1
    → s.number_of_retries - s.retry_count ≡ suc left
    → recover_then c (suc left) (attempts c left) w ≡ expected c s w
unfolding expected
expected_recovery c s w left e d =
    let l : s.number_of_retries - s.retry_count - 1 ≡ left = omega arith in
    ap (λ k. recover_then c k (attempts c left) w) (sym d)
    ∙ ap (λ k. recover_then c (s.number_of_retries - s.retry_count) (attempts c k) w) (sym l)
    ∙ ground arith

-- On a valid node with two children that never hand back `idle`, `tick` always returns, and it
-- returns the status, the world and the place to resume of the bounded alternation.
pub tick-expected :
    {W : Type 0} (c : Children W) (s : RecoveryNode) (w : W)
    → NeverIdle c
    → IsValid s
    → tick c 2 s w ≡ returns (started s) (expected c s w)
unfolding tick
tick-expected c s w quiet v = elim v.placed [
  | inl e ↦
      ap (λ t. tick_loop c 2 (2 * s.number_of_retries + 1) t w) (at_first_lem s v.counted e)
      ∙ loop_first c quiet (started s) v.bounded (s.number_of_retries - s.retry_count) _ w
          (omega arith) (omega arith)
      ∙ ap (returns (started s)) (expected_first c s w e)
  | inr (e, less) ↦
      let left = s.number_of_retries - s.retry_count - 1 in
      let d : s.number_of_retries - s.retry_count ≡ suc left = omega arith in
      ap (λ t. tick_loop c 2 (2 * s.number_of_retries + 1) t w)
        (at_recovery_lem s left v.counted e d)
      ∙ loop_second c quiet (started s) v.bounded left _ w (omega arith) (omega arith)
      ∙ ap (returns (started s)) (expected_recovery c s w left e d)
]
