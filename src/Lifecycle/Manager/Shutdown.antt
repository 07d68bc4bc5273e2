-- ===== src/Lifecycle/Manager/Shutdown.antt =====
-- What `shutdown` leaves behind.
use navigation_learning.Prelude.{
  ◌≡◌, refl, ap, ◌∙◌, ◌≢◌, Bool, true, false, List, [], ◌∷◌, ◌++◌, reverse,
}
use Prim.Native.String.{String}
use mathlib.Core.List.{reverse-append}
use mathlib.Core.Path.{subst}
use navigation_learning.Lifecycle.Manager.Clients.{
  Services, ServiceLaws, Transition, configure, cleanup, activate, deactivate,
  unconfigured_shutdown,
}
use navigation_learning.Lifecycle.Manager.Sweep.{IsConnected}
use navigation_learning.Lifecycle.Manager.Commands.{change_state_for_all-Swept}
use navigation_learning.Lifecycle.Manager.{
  Manager, done, null_client, Command, startup_command, reset_command, shutdown_command,
  pause_command, resume_command, other, destroy_clients, check_state, change_state_for_node,
  change_state_for_each, change_state_for_all, startup, reset, pause, resume, shutdown,
  shutdown_all_nodes, manager_callback,
}

module _ {W : Type 0} (v : Services W) where
  -- A name at which every request to change the state is refused.
  abbrev pub IsStuck : String → Type 0
  IsStuck n = (t : Transition) (w : W) → (v.change_state n t w).0 ≡ false

  each_null :
      (m : Manager) (t : Transition) (n : String) (ns : List String) (w : W)
      → m.node_map n ≡ false
      → change_state_for_each v m t (n ∷ ns) w ≡ null_client
  unfolding change_state_for_each change_state_for_node
  each_null m t n ns w e = rw e refl

  append_null :
      (m : Manager) (t : Transition) (xs : List String) (n : String) (w : W)
      → ((k : String) → m.node_map k ≡ false)
      → change_state_for_each v m t (xs ++ n ∷ []) w ≡ null_client
  append_null m t [] n w e = each_null m t n [] w (e n)
  append_null m t (x ∷ xs) n w e = each_null m t x (xs ++ n ∷ []) w (e x)

  all_null :
      (m : Manager) (t : Transition) (b : Bool) (n : String) (ns : List String) (w : W)
      → m.node_names ≡ n ∷ ns
      → ((k : String) → m.node_map k ≡ false)
      → change_state_for_all v m t b w ≡ null_client
  unfolding change_state_for_all
  all_null m t true n ns w e h =
      ap (λ l. change_state_for_each v m t l w) (ap reverse e ∙ reverse-append (n ∷ []) ns)
      ∙ append_null m t (reverse ns) n w h
  all_null m t false n ns w e h =
      ap (λ l. change_state_for_each v m t l w) e ∙ each_null m t n ns w (h n)

  -- With all clients gone, every command that the manager knows calls through a null client.
  commands_null :
      (m : Manager) (c : Command) (n : String) (ns : List String) (w : W)
      → c ≢ other
      → m.node_names ≡ n ∷ ns
      → ((k : String) → m.node_map k ≡ false)
      → manager_callback v c m w ≡ null_client
  unfolding manager_callback startup reset pause resume shutdown shutdown_all_nodes
  commands_null m startup_command n ns w q e h = rw (all_null m configure false n ns w e h) refl
  commands_null m reset_command n ns w q e h = rw (all_null m deactivate false n ns w e h) refl
  commands_null m shutdown_command n ns w q e h = rw (all_null m deactivate true n ns w e h) refl
  commands_null m pause_command n ns w q e h = rw (all_null m deactivate false n ns w e h) refl
  commands_null m resume_command n ns w q e h = rw (all_null m activate false n ns w e h) refl
  commands_null m other n ns w q e h = absurd (q refl)

  module _ (laws : ServiceLaws v) (m : Manager)
      (connected : IsConnected v laws m m.node_names) where
    -- The three sweeps of a shutdown, one after the other.
    three_sweeps :
        (w : W)
        → (p q r : Bool × W) × (change_state_for_all v m deactivate true w ≡ done p)
          × (change_state_for_all v m cleanup true p.1 ≡ done q)
          × (change_state_for_all v m unconfigured_shutdown true q.1 ≡ done r)
    three_sweeps w =
        let (p, ep, _) = change_state_for_all-Swept v laws m connected deactivate true w in
        let (q, eq, _) = change_state_for_all-Swept v laws m connected cleanup true p.1 in
        let (r, er, _) =
          change_state_for_all-Swept v laws m connected unconfigured_shutdown true q.1 in
        (p, q, r, ep, eq, er)

    shutdown_lem :
        (w : W) (p q r : Bool × W)
        → change_state_for_all v m deactivate true w ≡ done p
        → change_state_for_all v m cleanup true p.1 ≡ done q
        → change_state_for_all v m unconfigured_shutdown true q.1 ≡ done r
        → manager_callback v shutdown_command m w ≡ done (true, (destroy_clients m, r.1))
    unfolding manager_callback shutdown shutdown_all_nodes
    shutdown_lem w p q r ep eq er = rw ep (rw eq (rw er refl))

    -- On a connected manager with at least one node, the command shutdown returns success, and
    -- after it every command that the manager knows, another shutdown included, calls through a
    -- null client, whatever the nodes do.
    pub shutdown_ends_service :
        (n : String) (ns : List String) (w : W)
        → m.node_names ≡ n ∷ ns
        → (w' : W) × (manager_callback v shutdown_command m w
            ≡ done (true, (destroy_clients m, w')))
          × ((c : Command) (u : W)
              → c ≢ other
              → manager_callback v c (destroy_clients m) u ≡ null_client)
    unfolding destroy_clients
    shutdown_ends_service n ns w e =
        let (p, q, r, ep, eq, er) = three_sweeps w in
        (
          r.1,
          unfold destroy_clients in shutdown_lem w p q r ep eq er,
          λ c u k. commands_null (destroy_clients m) c n ns u k e (λ j. refl),
        )

    refused :
        (t : Transition) (n : String) (w : W) (p : Bool × W)
        → v.change_state n t w ≡ p
        → p.0 ≡ false
        → check_state v n t (v.change_state n t w) ≡ (false, p.1)
    unfolding check_state
    refused t n w (false, w') e f = ap (check_state v n t) e
    refused t n w (true, w') e f = cc

    last_connected :
        {n : String} (xs : List String) → IsConnected v laws m (xs ++ n ∷ []) → m.node_map n ≡ true
    last_connected [] c = c.0
    last_connected (x ∷ xs) c = last_connected xs c.1

    first_refused :
        (t : Transition) (n : String) (ns : List String) (w : W)
        → m.node_map n ≡ true
        → IsStuck n
        → change_state_for_each v m t (n ∷ ns) w ≡ done (false, (v.change_state n t w).1)
    unfolding change_state_for_each change_state_for_node
    first_refused t n ns w c stuck =
        rw c (rw (refused t n w (v.change_state n t w) refl (stuck t w)) refl)

    stuck_sweep :
        (t : Transition) (n : String) (ns : List String) (w : W)
        → m.node_names ≡ ns ++ n ∷ []
        → IsStuck n
        → change_state_for_all v m t true w ≡ done (false, (v.change_state n t w).1)
    unfolding change_state_for_all
    stuck_sweep t n ns w e stuck =
        ap (λ l. change_state_for_each v m t l w) (ap reverse e ∙ reverse-append ns (n ∷ []))
        ∙ first_refused t n (reverse ns) w
            (last_connected ns (subst (IsConnected v laws m) e connected)) stuck

    -- Let the last node of a connected manager refuse every request. Then the command shutdown
    -- reports success all the same, and every other node is in the state that it was in before.
    pub shutdown_may_do_nothing :
        (n : String) (ns : List String) (w : W)
        → m.node_names ≡ ns ++ n ∷ []
        → IsStuck n
        → (w' : W) × (manager_callback v shutdown_command m w
            ≡ done (true, (destroy_clients m, w')))
          × ((k : String) → n ≢ k → laws.state_of k w' ≡ laws.state_of k w)
    shutdown_may_do_nothing n ns w e stuck =
        let w1 = (v.change_state n deactivate w).1 in
        let w2 = (v.change_state n cleanup w1).1 in
        let w3 = (v.change_state n unconfigured_shutdown w2).1 in
        (
          w3,
          shutdown_lem w (false, w1) (false, w2) (false, w3) (stuck_sweep deactivate n ns w e stuck)
              (stuck_sweep cleanup n ns w1 e stuck)
              (stuck_sweep unconfigured_shutdown n ns w2 e stuck),
          λ k ne.
              laws.change_state_other n k unconfigured_shutdown w2 ne
              ∙ laws.change_state_other n k cleanup w1 ne
              ∙ laws.change_state_other n k deactivate w ne,
        )
