-- ===== src/ActionServer/Slots.antt =====
-- What the terminal transitions do to the two slots of the server.
use navigation_learning.Prelude.{
  ◌≡◌, refl, ◌≢◌, ◌⊎◌, true, Option, none, some, arith, if◌then◌else◌,
}
use navigation_learning.ActionServer.Handles.{GoalHandles, TerminalLaws}
use navigation_learning.ActionServer.{
  Server, is_active, abort, canceled, succeed, drop_pending, handle_accepted, terminate_current,
  terminate_pending, terminate_goals, same_handle, preempt_current, accept_pending_goal,
  succeeded_current,
}

module _ {H W G R F : Type 0} (g : GoalHandles H W G R F) (laws : TerminalLaws g) where
  -- A goal that is active after a slot was ended was active before, and is not that slot's.
  abbrev pub Spares : Option H → W → W → H → Type 0
  Spares o w w' k = g.is_active k w' ≡ true → (o ≢ some k) × (g.is_active k w ≡ true)

  pub abort-Spares :
      (r : R) (o : Option H) (w : W) (k : H) → o ≢ none → Spares o w (abort g r o w) k
  abort-Spares r none w k q a = absurd (q refl)
  abort-Spares r (some h) w k q a = ground (arith, laws.abort_active r h k w, laws.same_iff h k)

  pub canceled-Spares :
      (r : R) (o : Option H) (w : W) (k : H) → o ≢ none → Spares o w (canceled g r o w) k
  canceled-Spares r none w k q a = absurd (q refl)
  canceled-Spares r (some h) w k q a =
      ground (arith, laws.canceled_active r h k w, laws.same_iff h k)

  pub succeed-Spares :
      (r : R) (o : Option H) (w : W) (k : H) → o ≢ none → Spares o w (succeed g r o w) k
  succeed-Spares r none w k q a = absurd (q refl)
  succeed-Spares r (some h) w k q a = ground (arith, laws.succeed_active r h k w, laws.same_iff h k)

  pub is_active-ne : (o : Option H) (w : W) → is_active g o w ≡ true → o ≢ none
  is_active-ne none w a = λ e. cc
  is_active-ne (some h) w a = λ e. cc

  pub active_slot :
      (o : Option H) (w : W) (k : H) → o ≡ some k → g.is_active k w ≡ true → is_active g o w ≡ true
  active_slot none w k e a = cc
  active_slot (some h) w k e a = ground arith

  -- Where a goal that is still active is held.
  abbrev pub Held : Server H W → H → Type 0
  Held s k = (s.current_handle ≡ some k) ⊎ (s.pending_handle ≡ some k)

  -- `t` may have let go of the slots of `s`, but holds what is still active.
  abbrev pub Keeps : Server H W → Server H W → Type 0
  Keeps s t =
      (k : H)
      → g.is_active k t.world ≡ true
      → (g.is_active k s.world ≡ true) × (Held s k → Held t k)

  pub drop_pending-Keeps : (s : Server H W) → Keeps s (drop_pending g s)
  unfolding drop_pending
  drop_pending-Keeps s k a = ground (
    arith,
    is_active-ne s.pending_handle s.world,
    abort-Spares g.empty_result s.pending_handle s.world k,
  )

  pub terminate_current-Keeps : (r : R) (s : Server H W) → Keeps s (terminate_current g r s)
  unfolding terminate_current
  terminate_current-Keeps r s k a = ground (
    arith,
    is_active-ne s.current_handle s.world,
    abort-Spares r s.current_handle s.world k,
    canceled-Spares r s.current_handle s.world k,
  )

  pub terminate_pending-Keeps : (r : R) (s : Server H W) → Keeps s (terminate_pending g r s)
  unfolding terminate_pending
  terminate_pending-Keeps r s k a = ground (
    arith,
    is_active-ne s.pending_handle s.world,
    abort-Spares r s.pending_handle s.world k,
    canceled-Spares r s.pending_handle s.world k,
  )

  pub Keeps-trans : (s t u : Server H W) → Keeps s t → Keeps t u → Keeps s u
  Keeps-trans s t u p q k a = let (b, f) = q k a in let (c, e) = p k b in (c, λ h. f (e h))

  pub terminate_goals-Keeps : (r : R) (s : Server H W) → Keeps s (terminate_goals g r s)
  unfolding terminate_goals
  terminate_goals-Keeps r s =
      Keeps-trans s (terminate_current g r s) (terminate_pending g r (terminate_current g r s))
        (terminate_current-Keeps r s) (terminate_pending-Keeps r (terminate_current g r s))

  unfoldable pub succeed_first : R → Server H W → Server H W
  succeed_first r s =
      if is_active g s.current_handle s.world
      then record s { world = succeed g r s.current_handle s.world; current_handle = none }
      else s

  pub succeed_first-Keeps : (r : R) (s : Server H W) → Keeps s (succeed_first r s)
  unfolding succeed_first
  succeed_first-Keeps r s k a =
      ground
        (arith, is_active-ne s.current_handle s.world, succeed-Spares r s.current_handle s.world k)

  pub succeeded_current_lem :
      (r : R) (s : Server H W) → succeeded_current g r s ≡ drop_pending g (succeed_first r s)
  unfolding succeeded_current drop_pending succeed_first
  succeeded_current_lem r s = refl

  pub succeeded_current-Keeps : (r : R) (s : Server H W) → Keeps s (succeeded_current g r s)
  succeeded_current-Keeps r s = rw (succeeded_current_lem r s) (
      Keeps-trans s (succeed_first r s) (drop_pending g (succeed_first r s))
        (succeed_first-Keeps r s) (drop_pending-Keeps (succeed_first r s)))

  pub same_handle-eq : (o p : Option H) → same_handle g o p ≡ true → o ≡ p
  same_handle-eq none none q = refl
  same_handle-eq none (some h) q = cc
  same_handle-eq (some h) none q = cc
  same_handle-eq (some h) (some j) q = ground (arith, laws.same_iff h j)

  -- An active goal that was current and not pending is aborted by a preemption.
  pub accept_pending_goal-Keeps : (s : Server H W) → Keeps s (accept_pending_goal g s).0
  unfolding accept_pending_goal preempt_current
  accept_pending_goal-Keeps s k a = ground (
    arith,
    is_active-ne s.current_handle s.world,
    abort-Spares g.empty_result s.current_handle s.world k,
    same_handle-eq s.current_handle s.pending_handle,
    active_slot s.current_handle s.world k,
  )

  pub handle_accepted-Keeps : (h : H) (s : Server H W) → Keeps s (handle_accepted g h s)
  unfolding handle_accepted drop_pending
  handle_accepted-Keeps h s k a = ground (
    arith,
    is_active-ne s.pending_handle s.world,
    abort-Spares g.empty_result s.pending_handle s.world k,
    active_slot s.pending_handle s.world k,
    active_slot s.current_handle s.world k,
  )

  pub handle_accepted-Held : (h : H) (s : Server H W) → Held (handle_accepted g h s) h
  unfolding handle_accepted drop_pending
  handle_accepted-Held h s = ground arith
