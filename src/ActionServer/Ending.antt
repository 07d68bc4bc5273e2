-- ===== src/ActionServer/Ending.antt =====
-- The methods that end goals leave no active goal in a slot.
use navigation_learning.Prelude.{
  ◌≡◌, refl, sym, ◌∙◌, inl, inr, true, false, Option, none, some, arith, Bool-cases,
}
use navigation_learning.ActionServer.Handles.{GoalHandles, TerminalLaws}
use navigation_learning.ActionServer.Slots.{
  active_slot, drop_pending-Keeps, terminate_pending-Keeps, succeed_first, succeeded_current_lem,
}
use navigation_learning.ActionServer.{
  Server, is_active, drop_pending, terminate_current, terminate_pending, terminate_goals,
  deactivate, succeeded_current,
}

module _ {H W G R F : Type 0} (g : GoalHandles H W G R F) (laws : TerminalLaws g) where
  -- No slot of the server holds an active goal.
  abbrev pub IsIdle : Server H W → Type 0
  IsIdle s =
      (is_active g s.current_handle s.world ≡ false)
      × (is_active g s.pending_handle s.world ≡ false)

  ended :
      (o : Option H) (w : W)
      → ((k : H) → o ≡ some k → g.is_active k w ≡ true → ⊥)
      → is_active g o w ≡ false
  ended none w f = refl
  ended (some h) w f = elim (Bool-cases (g.is_active h w)) [
    | inl a ↦ absurd (f h refl a)
    | inr e ↦ e
  ]

  pub drop_pending-ends :
      (s : Server H W) (k : H)
      → (drop_pending g s).pending_handle ≡ some k
      → g.is_active k (drop_pending g s).world ≡ true
      → ⊥
  unfolding drop_pending
  drop_pending-ends s k e a = ground (arith, active_slot g laws s.pending_handle s.world k)

  succeed_first-ends :
      (r : R) (s : Server H W) (k : H)
      → (succeed_first g laws r s).current_handle ≡ some k
      → g.is_active k (succeed_first g laws r s).world ≡ true
      → ⊥
  unfolding succeed_first
  succeed_first-ends r s k e a = ground (arith, active_slot g laws s.current_handle s.world k)

  terminate_current-ends :
      (r : R) (s : Server H W) (k : H)
      → (terminate_current g r s).current_handle ≡ some k
      → g.is_active k (terminate_current g r s).world ≡ true
      → ⊥
  unfolding terminate_current
  terminate_current-ends r s k e a = ground (arith, active_slot g laws s.current_handle s.world k)

  terminate_pending-ends :
      (r : R) (s : Server H W) (k : H)
      → (terminate_pending g r s).pending_handle ≡ some k
      → g.is_active k (terminate_pending g r s).world ≡ true
      → ⊥
  unfolding terminate_pending
  terminate_pending-ends r s k e a = ground (arith, active_slot g laws s.pending_handle s.world k)

  pub drop_pending-current : (s : Server H W) → (drop_pending g s).current_handle ≡ s.current_handle
  unfolding drop_pending
  drop_pending-current s = ground arith

  terminate_pending-current :
      (r : R) (s : Server H W) → (terminate_pending g r s).current_handle ≡ s.current_handle
  unfolding terminate_pending
  terminate_pending-current r s = ground arith

  terminate_goals-IsIdle : (r : R) (s : Server H W) → IsIdle (terminate_goals g r s)
  unfolding terminate_goals
  terminate_goals-IsIdle r s =
      let t = terminate_current g r s in
      (
        ended _ _ λ k e a.
            terminate_current-ends r s k (sym (terminate_pending-current r t) ∙ e)
              (terminate_pending-Keeps g laws r t k a).0,
        ended _ _ (terminate_pending-ends r t),
      )

  succeeded_current-IsIdle : (r : R) (s : Server H W) → IsIdle (succeeded_current g r s)
  succeeded_current-IsIdle r s =
      let t = succeed_first g laws r s in
      rw (succeeded_current_lem g laws r s) (
        ended _ _ λ k e a.
            succeed_first-ends r s k (sym (drop_pending-current t) ∙ e)
              (drop_pending-Keeps g laws t k a).0,
        ended _ _ (drop_pending-ends t),
      )

  -- After `terminate_goals`, `deactivate` and `succeeded_current`, whatever the slots held before,
  -- no slot holds an active goal, and `deactivate` leaves the server inactive.
  pub ending-IsIdle :
      (r : R) (s : Server H W)
      → IsIdle (terminate_goals g r s)
        × IsIdle (succeeded_current g r s)
        × IsIdle (deactivate g s)
        × ((deactivate g s).server_active ≡ false)
  unfolding deactivate terminate_goals terminate_current terminate_pending
  ending-IsIdle r s = (
    terminate_goals-IsIdle r s,
    succeeded_current-IsIdle r s,
    terminate_goals-IsIdle g.empty_result (record s { server_active = false }),
    ground arith,
  )
