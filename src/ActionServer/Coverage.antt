-- ===== src/ActionServer/Coverage.antt =====
-- Every interleaving of the server's methods with arriving goals and with the world keeps hold of
-- the active goals.
use navigation_learning.Prelude.{
  ◌≡◌, refl, ◌⊎◌, Bool, true, false, Option, none, some, arith, if◌then◌else◌,
}
use navigation_learning.ActionServer.Handles.{GoalHandles, TerminalLaws}
use navigation_learning.ActionServer.Slots.{
  Held, terminate_goals-Keeps, succeeded_current-Keeps, accept_pending_goal-Keeps,
  handle_accepted-Keeps, handle_accepted-Held,
}
use navigation_learning.ActionServer.{
  Server, new, drop_pending, handle_accepted, activate, terminate_current, terminate_pending,
  terminate_goals, deactivate, preempt_current, accept_pending_goal, succeeded_current,
}

-- The server, and the goals that rclcpp_action has accepted but not yet handed to it.
pub record System (H W : Type 0) : Type 0 where
  pub server : Server H W
  pub arriving : H → Bool

module _ {H W G R F : Type 0} (g : GoalHandles H W G R F) where
  abbrev pub mark : H → Bool → (H → Bool) → H → Bool
  mark h b f k = if g.same h k then b else f k

  abbrev with_world : System H W → W → System H W
  with_world y w = record y { server = record y.server { world = w } }

  -- `arrive` makes at most the new goal active, `change` (a cancel request, feedback, time) none.
  pub data Step (y : System H W) : System H W → Type 0 where
    arrive :
        (h : H) (w : W)
        → ((k : H)
            → g.is_active k w ≡ true
            → (g.same h k ≡ true) ⊎ (g.is_active k y.server.world ≡ true))
        → Step y (record (with_world y w) { arriving = mark h true y.arriving })
    change :
        (w : W)
        → ((k : H) → g.is_active k w ≡ true → g.is_active k y.server.world ≡ true)
        → Step y (with_world y w)
    deliver :
        (h : H)
        → y.arriving h ≡ true
        → Step y
            (record { server = handle_accepted g h y.server; arriving = mark h false y.arriving })
    preempt : Step y (record y { server = (accept_pending_goal g y.server).0 })
    succeed : (r : R) → Step y (record y { server = succeeded_current g r y.server })
    terminate : (r : R) → Step y (record y { server = terminate_goals g r y.server })
    deactivated : Step y (record y { server = deactivate g y.server })
    activated : Step y (record y { server = activate g y.server })

  pub data Reach (y : System H W) : System H W → Type 0 where
    here : Reach y y
    next : {t u : System H W} → Reach y t → Step t u → Reach y u

  abbrev is_some : Option H → Bool
  is_some none = false
  is_some (some h) = true

  -- The flag says whether the pending slot is filled, and no active goal is lost.
  pub record Inv (y : System H W) : Type 0 where
    pub flag : y.server.preempt_requested ≡ is_some y.server.pending_handle
    pub covered :
        (k : H)
        → g.is_active k y.server.world ≡ true
        → (y.server.current_handle ≡ some k)
          ⊎ (y.server.pending_handle ≡ some k)
          ⊎ (y.arriving k ≡ true)

  HasFlag : Server H W → Type 0
  HasFlag s = s.preempt_requested ≡ is_some s.pending_handle

  drop_pending-flag : (s : Server H W) → HasFlag s → HasFlag (drop_pending g s)
  unfolding HasFlag drop_pending
  drop_pending-flag s f = ground arith

  handle_accepted-flag : (h : H) (s : Server H W) → HasFlag s → HasFlag (handle_accepted g h s)
  unfolding HasFlag handle_accepted drop_pending
  handle_accepted-flag h s f = ground arith

  terminate_goals-flag : (r : R) (s : Server H W) → HasFlag s → HasFlag (terminate_goals g r s)
  unfolding HasFlag terminate_goals terminate_current terminate_pending
  terminate_goals-flag r s f = ground arith

  succeeded_current-flag : (r : R) (s : Server H W) → HasFlag s → HasFlag (succeeded_current g r s)
  unfolding HasFlag succeeded_current
  succeeded_current-flag r s f = ground arith

  accept_pending_goal-flag : (s : Server H W) → HasFlag s → HasFlag (accept_pending_goal g s).0
  unfolding HasFlag accept_pending_goal preempt_current
  accept_pending_goal-flag s f = ground arith

  module _ (laws : TerminalLaws g) where
    -- A method that keeps hold of what is active keeps the invariant.
    Keeps-Inv :
        (y : System H W) (t : Server H W)
        → Inv y
        → HasFlag t
        → ((k : H)
            → g.is_active k t.world ≡ true
            → (g.is_active k y.server.world ≡ true) × (Held g laws y.server k → Held g laws t k))
        → Inv (record y { server = t })
    unfolding HasFlag
    Keeps-Inv y t i f keeps = record {
      flag = f;
      covered = λ k a. ground (arith, keeps k a, i.covered k);
    }

    deliver-Inv :
        (y : System H W) (h : H)
        → Inv y
        → Inv (record { server = handle_accepted g h y.server; arriving = mark h false y.arriving })
    deliver-Inv y h i = record {
      flag = unfold HasFlag in handle_accepted-flag h y.server i.flag;
      covered = λ k a. ground (
        arith,
        handle_accepted-Keeps g laws h y.server k a,
        handle_accepted-Held g laws h y.server,
        laws.same_iff h k,
        i.covered k,
      );
    }

    pub Step-Inv : {y z : System H W} → Step y z → Inv y → Inv z
    unfolding HasFlag
    Step-Inv {y} (arrive h w only) i = record {
      flag = i.flag;
      covered = λ k a. ground (arith, only k a, i.covered k);
    }
    Step-Inv {y} (change w fewer) i = record {
      flag = i.flag;
      covered = λ k a. i.covered k (fewer k a);
    }
    Step-Inv {y} (deliver h m) i = deliver-Inv y h i
    Step-Inv {y} preempt i =
        Keeps-Inv y _ i (accept_pending_goal-flag y.server i.flag)
          (accept_pending_goal-Keeps g laws y.server)
    Step-Inv {y} (succeed r) i =
        Keeps-Inv y _ i (succeeded_current-flag r y.server i.flag)
          (succeeded_current-Keeps g laws r y.server)
    Step-Inv {y} (terminate r) i =
        Keeps-Inv y _ i (terminate_goals-flag r y.server i.flag)
          (terminate_goals-Keeps g laws r y.server)
    Step-Inv {y} deactivated i =
        unfold deactivate in
        Keeps-Inv y _ i
          (terminate_goals-flag g.empty_result (record y.server { server_active = false }) i.flag)
          (terminate_goals-Keeps g laws g.empty_result (record y.server { server_active = false }))
    Step-Inv {y} activated i = unfold activate in record { flag = i.flag; covered = i.covered }

    abbrev pub start : Bool → W → System H W
    start autostart w = record { server = new autostart w; arriving = λ h. false }

    Reach-Inv_from : {y z : System H W} → Inv y → Reach y z → Inv z
    Reach-Inv_from i here = i
    Reach-Inv_from i (next r s) = Step-Inv s (Reach-Inv_from i r)

    -- Start with no active goal. In any interleaving of the methods with arriving goals and changes
    -- of the goals, every active goal is held in a slot or is still to be handed to the server, and
    -- a preemption is requested exactly when the pending slot is filled.
    pub Reach-Inv :
        (autostart : Bool) (w : W) {y : System H W}
        → ((k : H) → g.is_active k w ≡ false)
        → Reach (start autostart w) y
        → Inv y
    Reach-Inv autostart w none_active r =
        Reach-Inv_from {y = start autostart w}
          (unfold new in record { flag = refl; covered = λ k a. ground (arith, none_active k) }) r
