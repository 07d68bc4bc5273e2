-- ===== src/ActionServer/Tests.antt =====
-- Runs of the action server over goals that are numbers, and the theorems at concrete inputs.
use navigation_learning.Prelude.{
  ℕ, ◌+◌, ◌≡◌, refl, ◌⊎◌, Bool, true, false, none, some, arith, ltb, ◌==◌, if◌then◌else◌, ==_iff,
}
use navigation_learning.ActionServer.Handles.{GoalHandles, TerminalLaws}
use navigation_learning.ActionServer.Ending.{IsIdle, ending-IsIdle}
use navigation_learning.ActionServer.Coverage.{System, Reach, arrive, deliver, mark, Inv, Reach-Inv}
use navigation_learning.ActionServer.Races.{newest_goal_wins, late_goal_starts}
use navigation_learning.ActionServer.{
  Server, new, handle_accepted, deactivate, terminate_goals, accept_pending_goal, succeeded_current,
}

-- The world says of each goal whether it is active; no cancel was requested.
abbrev World : Type 0
World = ℕ → Bool

abbrev stop : ℕ → World → World
stop h w k = if h == k then false else w k

abbrev handles : GoalHandles ℕ World ℕ (Unit {0}) (Unit {0})
handles = record {
  same = λ h k. h == k;
  is_active = λ h w. w h;
  is_canceling = λ h w. false;
  get_goal = λ h. h + 100;
  empty_result = tt;
  abort = λ r. stop;
  canceled = λ r. stop;
  succeed = λ r. stop;
  publish_feedback = λ f h w. w;
}

handles-laws : TerminalLaws handles
handles-laws = record {
  same_iff = ==_iff;
  abort_active = λ r h k w. refl;
  canceled_active = λ r h k w. refl;
  succeed_active = λ r h k w. refl;
}

-- Goals 1, 2 and 3 are active; 1 runs and 2 is pending.
abbrev busy : Server ℕ World
busy = record {
  server_active = true;
  preempt_requested = true;
  current_handle = some 1;
  pending_handle = some 2;
  threads = 1;
  world = λ k. ltb k 4;
}

handover : (accept_pending_goal handles (handle_accepted handles 3 busy)).1 ≡ some 103
unfolding accept_pending_goal handle_accepted
handover = refl

newest_goal_wins_example :
    let (u, goal) = accept_pending_goal handles (handle_accepted handles 3 busy) in
    (goal ≡ some 103)
    × (u.current_handle ≡ some 3)
    × (u.pending_handle ≡ none)
    × (u.preempt_requested ≡ false)
    × (u.threads ≡ 1)
    × (u.world 3 ≡ true)
    × ((k : ℕ) → (some 1 ≡ some k) ⊎ (some 2 ≡ some k) → u.world k ≡ false)
newest_goal_wins_example =
    newest_goal_wins handles handles-laws busy 1 3 refl (λ e. cc) (λ e. omega arith) refl refl

ending-IsIdle_example :
    IsIdle handles handles-laws (terminate_goals handles tt busy)
    × IsIdle handles handles-laws (succeeded_current handles tt busy)
    × IsIdle handles handles-laws (deactivate handles busy)
    × ((deactivate handles busy).server_active ≡ false)
ending-IsIdle_example = ending-IsIdle handles handles-laws tt busy

abbrev quiet : World
quiet k = false

-- Goal 5 arrives and is handed to the server.
Reach-Inv_example : Inv handles (record {
  server = handle_accepted handles 5 (record (new true quiet) { world = λ k. k == 5 });
  arriving = mark handles 5 false (mark handles 5 true (λ k. false));
})
Reach-Inv_example =
    Reach-Inv handles handles-laws true quiet (λ k. refl)
      (Reach.next (Reach.next Reach.here (arrive 5 (λ k. k == 5) (λ k a. ground arith)))
        (deliver 5 refl))

late_goal_starts_example :
    (z : System ℕ World) × Reach handles (record { server = busy; arriving = λ k. k == 3 }) z
    × (z.server.server_active ≡ false)
    × (z.server.current_handle ≡ some 3)
    × (z.server.threads ≡ 2)
late_goal_starts_example =
    late_goal_starts handles handles-laws (record { server = busy; arriving = λ k. k == 3 }) 3 refl
