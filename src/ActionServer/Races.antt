-- ===== src/ActionServer/Races.antt =====
-- Two goals in sequence, and a goal that races with `deactivate`.
use navigation_learning.Prelude.{
  ◌+◌, ◌≡◌, refl, ap, ◌∙◌, ◌≢◌, ◌⊎◌, true, false, Option, none, some, arith, if◌then◌else◌,
}
use navigation_learning.ActionServer.Handles.{GoalHandles, TerminalLaws}
use navigation_learning.ActionServer.Slots.{active_slot}
use navigation_learning.ActionServer.Ending.{IsIdle, ending-IsIdle}
use navigation_learning.ActionServer.Coverage.{System, Reach, deactivated, deliver}
use navigation_learning.ActionServer.{
  Server, drop_pending, handle_accepted, deactivate, terminate_goals, terminate_current,
  terminate_pending, preempt_current, accept_pending_goal, abort,
}

module _ {H W G R F : Type 0} (g : GoalHandles H W G R F) (laws : TerminalLaws g) where
  abort-keeps :
      (r : R) (o : Option H) (w : W) (k : H)
      → o ≢ some k
      → g.is_active k (abort g r o w) ≡ g.is_active k w
  abort-keeps r none w k q = refl
  abort-keeps r (some h) w k q = ground (arith, laws.abort_active r h k w, laws.same_iff h k)

  abort-ends : (r : R) (h : H) (w : W) → g.is_active h (g.abort r h w) ≡ false
  abort-ends r h w = ground (arith, laws.abort_active r h h w, laws.same_iff h h)

  drop_pending-keeps :
      (s : Server H W) (k : H)
      → s.pending_handle ≢ some k
      → g.is_active k s.world ≡ true
      → g.is_active k (drop_pending g s).world ≡ true
  unfolding drop_pending
  drop_pending-keeps s k np a =
      ground (arith, abort-keeps g.empty_result s.pending_handle s.world k)

  -- The goal of the pending slot is active no more once the slot is dropped.
  pending_ended :
      (s : Server H W) (k : H)
      → s.pending_handle ≡ some k
      → g.is_active k (drop_pending g s).world ≡ false
  unfolding drop_pending
  pending_ended s k e = ground (
    arith,
    active_slot g laws s.pending_handle s.world k,
    laws.abort_active g.empty_result k k s.world,
    laws.same_iff k k,
  )

  -- The state of the server after the two methods, from the dropped pending slot on.
  after_both : H → H → Server H W → Server H W
  after_both c h s =
      let d = drop_pending g s in
      record d {
        world = if g.is_active c d.world then g.abort g.empty_result c d.world else d.world;
        current_handle = some h;
        pending_handle = none;
        preempt_requested = false;
      }

  handed_over :
      (s : Server H W) (c h : H)
      → s.current_handle ≡ some c
      → c ≢ h
      → g.is_active c s.world ≡ true
      → g.is_active h (drop_pending g s).world ≡ true
      → accept_pending_goal g (handle_accepted g h s) ≡ (after_both c h s, some (g.get_goal h))
  unfolding after_both accept_pending_goal handle_accepted preempt_current drop_pending
  handed_over s c h ec ne ac ah = ground (arith, laws.same_iff c h)

  after_both-newest :
      (s : Server H W) (c h : H)
      → c ≢ h
      → g.is_active h (drop_pending g s).world ≡ true
      → g.is_active h (after_both c h s).world ≡ true
  unfolding after_both
  after_both-newest s c h ne a =
      ground
        (arith, laws.abort_active g.empty_result c h (drop_pending g s).world, laws.same_iff c h)

  after_both-older :
      (s : Server H W) (c h k : H)
      → s.current_handle ≡ some c
      → (s.current_handle ≡ some k) ⊎ (s.pending_handle ≡ some k)
      → g.is_active k (after_both c h s).world ≡ false
  unfolding after_both
  after_both-older s c h k ec held = ground (
    arith,
    laws.abort_active g.empty_result c k (drop_pending g s).world,
    laws.same_iff c k,
    pending_ended s k,
  )

  after_both-threads : (s : Server H W) (c h : H) → (after_both c h s).threads ≡ s.threads
  unfolding after_both drop_pending
  after_both-threads s c h = ground arith

  -- While a goal `c` runs, let a new active goal `h` arrive that is not in a slot. If the execute
  -- thread then takes the pending goal, it gets the goal of `h`, `h` is the current goal, nothing is
  -- pending, the old goals of both slots are active no more, and no second thread was started.
  pub newest_goal_wins :
      (s : Server H W) (c h : H)
      → s.current_handle ≡ some c
      → s.pending_handle ≢ some h
      → c ≢ h
      → g.is_active c s.world ≡ true
      → g.is_active h s.world ≡ true
      → let (u, goal) = accept_pending_goal g (handle_accepted g h s) in
        (goal ≡ some (g.get_goal h))
        × (u.current_handle ≡ some h)
        × (u.pending_handle ≡ none)
        × (u.preempt_requested ≡ false)
        × (u.threads ≡ s.threads)
        × (g.is_active h u.world ≡ true)
        × ((k : H)
            → (s.current_handle ≡ some k) ⊎ (s.pending_handle ≡ some k)
            → g.is_active k u.world ≡ false)
  unfolding after_both
  newest_goal_wins s c h ec np ne ac ah =
      let r = handed_over s c h ec ne ac (drop_pending-keeps s h np ah) in
      rw r (
        refl,
        refl,
        refl,
        refl,
        after_both-threads s c h,
        after_both-newest s c h ne (drop_pending-keeps s h np ah),
        λ k held. after_both-older s c h k ec held,
      )

  deactivate-threads : (s : Server H W) → (deactivate g s).threads ≡ s.threads
  unfolding deactivate terminate_goals terminate_current terminate_pending
  deactivate-threads s = ground arith

  deliver_idle :
      (h : H) (s : Server H W)
      → IsIdle g laws s
      → handle_accepted g h s ≡ record s { current_handle = some h; threads = s.threads + 1 }
  unfolding handle_accepted drop_pending
  deliver_idle h s i = ground arith

  -- If a goal is still to be handed over when `deactivate` runs, the system can reach a state in
  -- which the server is inactive and yet holds that goal as its current one, in a thread of its own.
  pub late_goal_starts :
      (y : System H W) (h : H)
      → y.arriving h ≡ true
      → (z : System H W) × Reach g y z
        × (z.server.server_active ≡ false)
        × (z.server.current_handle ≡ some h)
        × (z.server.threads ≡ y.server.threads + 1)
  late_goal_starts y h m =
      let d = deactivate g y.server in
      let (_, _, idle, off) = ending-IsIdle g laws g.empty_result y.server in
      let e = deliver_idle h d idle in
      (
        _,
        Reach.next (Reach.next Reach.here deactivated) (deliver h m),
        ap (λ (s : Server H W). s.server_active) e ∙ off,
        ap (λ (s : Server H W). s.current_handle) e,
        ap (λ (s : Server H W). s.threads) e ∙ ap (λ n. n + 1) (deactivate-threads y.server),
      )
