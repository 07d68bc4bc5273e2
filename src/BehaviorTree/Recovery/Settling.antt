-- ===== src/BehaviorTree/Recovery/Settling.antt =====
-- What a recovery node leaves behind when its `tick` returns.
use navigation_learning.Prelude.{ℕ, zero, suc, ◌-◌, ◌≤◌, ◌<◌, ◌≡◌, refl, ◌≢◌, inl, inr, arith}
use mathlib.Core.Path.{subst}
use navigation_learning.BehaviorTree.Recovery.{
  NodeStatus, RecoveryNode, Children, Outcome, returned, tick,
}
use navigation_learning.BehaviorTree.Recovery.Attempts.{
  Resume, at_first, at_recovery, fresh, Session, by_first, by_recovery, recover_then, attempts,
}
use navigation_learning.BehaviorTree.Recovery.Refinement.{
  IsValid, resume_at, NeverIdle, expected, started, expected_first, expected_recovery,
  tick-expected,
}

-- A place to resume that fits the status and the number of retries.
abbrev Fits : ℕ → NodeStatus → Resume → Type 0
Fits retries st (at_first left) = (0 < left) × (left ≤ retries) × (st ≡ NodeStatus.running)
Fits retries st (at_recovery left) = (0 < left) × (left ≤ retries) × (st ≡ NodeStatus.running)
Fits retries st fresh = st ≢ NodeStatus.running

-- The first child succeeded, and its world is the one that is left.
abbrev pub FirstSucceeds : {W : Type 0} → Children W → W → Type 0
FirstSucceeds {W} c w = (u : W) × (c.execute_tick 0 u ≡ (NodeStatus.success, w))

record Sound {W : Type 0} (c : Children W) (retries : ℕ) (r : Session W) : Type 0 where
  fits : Fits retries r.status r.resume
  succeeded : r.status ≡ NodeStatus.success → FirstSucceeds c r.world

module _ {W : Type 0} (c : Children W) (retries : ℕ) where
  by_first-Sound :
      (left : ℕ) (u : W) (recover : W → Session W)
      → left < retries
      → ((w : W) → Sound c retries (recover w))
      → (p : NodeStatus × W) → c.execute_tick 0 u ≡ p
      → Sound c retries (by_first c (suc left) recover p)
  by_first-Sound left u recover h ih (NodeStatus.success, w) e = record {
    fits = λ q. cc;
    succeeded = λ _. (u, e);
  }
  by_first-Sound left u recover h ih (NodeStatus.failure, w) e = ih w
  by_first-Sound left u recover h ih (NodeStatus.running, w) e = record {
    fits = (omega arith, omega arith, refl);
    succeeded = λ q. cc;
  }
  by_first-Sound left u recover h ih (NodeStatus.idle, w) e = record {
    fits = (omega arith, omega arith, refl);
    succeeded = λ q. cc;
  }

  by_recovery-Sound :
      (left : ℕ) (retry : W → Session W)
      → left < retries
      → ((w : W) → Sound c retries (retry w))
      → (p : NodeStatus × W) → Sound c retries (by_recovery c (suc left) retry p)
  by_recovery-Sound left retry h ih (NodeStatus.success, w) = ih (c.halt_children 1 w)
  by_recovery-Sound left retry h ih (NodeStatus.failure, w) = record {
    fits = λ q. cc;
    succeeded = λ q. cc;
  }
  by_recovery-Sound left retry h ih (NodeStatus.running, w) = record {
    fits = (omega arith, omega arith, refl);
    succeeded = λ q. cc;
  }
  by_recovery-Sound left retry h ih (NodeStatus.idle, w) = record {
    fits = (omega arith, omega arith, refl);
    succeeded = λ q. cc;
  }

  attempts-Sound : (left : ℕ) (w : W) → left ≤ retries → Sound c retries (attempts c left w)
  unfolding attempts recover_then
  attempts-Sound zero w h = record { fits = λ q. cc; succeeded = λ q. cc }
  attempts-Sound (suc left) w h =
      by_first-Sound left w (recover_then c (suc left) (attempts c left)) h
        (λ w'.
          by_recovery-Sound left (attempts c left) h (λ w''. attempts-Sound left w'' (omega arith))
            (c.execute_tick 1 w'))
        (c.execute_tick 0 w) refl

  recover_then-Sound :
      (left : ℕ) (w : W)
      → left < retries
      → Sound c retries (recover_then c (suc left) (attempts c left) w)
  unfolding recover_then
  recover_then-Sound left w h =
      by_recovery-Sound left (attempts c left) h (λ w'. attempts-Sound left w' (omega arith))
        (c.execute_tick 1 w)

-- The outcome is a return that left the node ready for the next tick.
pub record Settled {W : Type 0} (c : Children W) (s : RecoveryNode) (o : Outcome W) : Type 0 where
  pub status : NodeStatus
  pub node : RecoveryNode
  pub world : W
  pub outcome : o ≡ returned status node world
  pub valid : IsValid node
  pub retries_kept : node.number_of_retries ≡ s.number_of_retries
  pub reset : status ≢ NodeStatus.running → (node.current_child_idx ≡ 0) × (node.retry_count ≡ 0)
  pub succeeded : status ≡ NodeStatus.success → FirstSucceeds c world

resume_at-IsValid :
    (s : RecoveryNode) (st : NodeStatus) (r : Resume)
    → s.number_of_retries < 4294967296
    → Fits s.number_of_retries st r
    → IsValid (resume_at r s)
resume_at-IsValid s st (at_first left) b f = ground arith
resume_at-IsValid s st (at_recovery left) b f = ground arith
resume_at-IsValid s st fresh b f = ground arith

resume_at-retries :
    (s : RecoveryNode) (r : Resume) → (resume_at r s).number_of_retries ≡ s.number_of_retries
resume_at-retries s (at_first left) = refl
resume_at-retries s (at_recovery left) = refl
resume_at-retries s fresh = refl

resume_at-reset :
    (s : RecoveryNode) (st : NodeStatus) (r : Resume)
    → Fits s.number_of_retries st r
    → st ≢ NodeStatus.running
    → ((resume_at r s).current_child_idx ≡ 0) × ((resume_at r s).retry_count ≡ 0)
resume_at-reset s st (at_first left) f q = absurd (q f.2)
resume_at-reset s st (at_recovery left) f q = absurd (q f.2)
resume_at-reset s st fresh f q = (refl, refl)

expected-Sound :
    {W : Type 0} (c : Children W) (s : RecoveryNode) (w : W)
    → IsValid s
    → Sound c s.number_of_retries (expected c s w)
expected-Sound c s w v = elim v.placed [
  | inl e ↦
      subst (Sound c s.number_of_retries) (expected_first c s w e)
        (attempts-Sound c s.number_of_retries (s.number_of_retries - s.retry_count) w (omega arith))
  | inr (e, less) ↦
      let left = s.number_of_retries - s.retry_count - 1 in
      subst (Sound c s.number_of_retries) (expected_recovery c s w left e (omega arith))
        (recover_then-Sound c s.number_of_retries left w (omega arith))
]

-- From a valid node whose children never hand back `idle`, `tick` returns and leaves a valid node
-- with the same number of retries. Unless the status is RUNNING the node is back at its first
-- child with no retry counted, and SUCCESS is returned only if the first child has just succeeded.
pub tick-Settled :
    {W : Type 0} (c : Children W) (s : RecoveryNode) (w : W)
    → NeverIdle c
    → IsValid s
    → Settled c s (tick c 2 s w)
tick-Settled c s w quiet v =
    let r = expected c s w in
    let g = expected-Sound c s w v in
    record {
      status = r.status;
      node = resume_at r.resume (started s);
      world = r.world;
      outcome = tick-expected c s w quiet v;
      valid = resume_at-IsValid (started s) r.status r.resume v.bounded g.fits;
      retries_kept = resume_at-retries (started s) r.resume;
      reset = resume_at-reset (started s) r.status r.resume g.fits;
      succeeded = g.succeeded;
    }
