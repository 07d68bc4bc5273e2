-- ===== src/Lifecycle/Manager/Tests.antt =====
-- Runs of the manager over two nodes, and the theorems at concrete inputs.
use navigation_learning.Prelude.{
  ◌≡◌, refl, ◌≢◌, inl, inr, Bool, true, false, [], ◌∷◌, arith, if◌then◌else◌, Bool-cases,
}
use Prim.Native.String.{String}
use text.Mathlib.Text.{◌==◌ as str_eq}
use text.Mathlib.TextEquality.{eq_iff}
use navigation_learning.Lifecycle.Manager.Clients.{
  Services, ServiceLaws, Transition, State, unconfigured, active,
}
use navigation_learning.Lifecycle.Manager.Sweep.{All, Absent}
use navigation_learning.Lifecycle.Manager.Commands.{manager_callback-promised}
use navigation_learning.Lifecycle.Manager.Shutdown.{shutdown_ends_service, shutdown_may_do_nothing}
use navigation_learning.Lifecycle.Manager.{
  Manager, Outcome, done, null_client, Command, startup_command, shutdown_command, other, target,
  change_state_for_each, change_state_for_all, change_state_for_node, startup, destroy_clients,
  manager_callback,
}

abbrev World : Type 0
World = String → State

-- Every node but "amcl" accepts every transition.
abbrev nodes : Services World
nodes = record {
  change_state = λ n t w.
      if str_eq n "amcl" then (false, w) else (true, λ k. if str_eq n k then target t else w k);
  get_state = λ n w. (w n, w);
}

kept : (n k : String) (t : Transition) (w : World) → n ≢ k → (nodes.change_state n t w).1 k ≡ w k
kept n k t w ne = elim (Bool-cases (str_eq n "amcl")) [
  | inl e ↦ rw e refl
  | inr e ↦ rw e (ground (arith, eq_iff n k))
]

abbrev nodes-laws : ServiceLaws nodes
nodes-laws = record {
  state_of = λ n w. w n;
  get_state_lem = λ n w. refl;
  get_state_pure = λ n k w. refl;
  change_state_other = kept;
}

abbrev servers : Manager
servers = record { node_names = "map_server" ∷ "planner" ∷ []; node_map = λ k. true }

abbrev with_amcl : Manager
with_amcl = record { node_names = "map_server" ∷ "amcl" ∷ []; node_map = λ k. true }

abbrev fresh : World
fresh k = unconfigured

succeeded : Outcome (Bool × (Manager × World)) → Bool
succeeded (done p) = p.0
succeeded null_client = false

starts : succeeded (manager_callback nodes startup_command servers fresh) ≡ true
unfolding succeeded manager_callback startup change_state_for_all change_state_for_each
    change_state_for_node
starts = refl

starts_not : succeeded (manager_callback nodes startup_command with_amcl fresh) ≡ false
unfolding succeeded manager_callback startup change_state_for_all change_state_for_each
    change_state_for_node
starts_not = refl

manager_callback-promised_example :
    (p : Bool × World) × (manager_callback nodes startup_command servers fresh
      ≡ done (p.0, (servers, p.1)))
    × (p.0 ≡ true → All (λ n. p.1 n ≡ active) servers.node_names)
    × ((k : String) → Absent k servers.node_names → p.1 k ≡ fresh k)
manager_callback-promised_example =
    manager_callback-promised nodes nodes-laws servers (refl, (refl, tt)) startup_command active
      fresh refl

shutdown_ends_service_example :
    (w' : World) × (manager_callback nodes shutdown_command servers fresh
      ≡ done (true, (destroy_clients servers, w')))
    × ((c : Command) (u : World)
        → c ≢ other
        → manager_callback nodes c (destroy_clients servers) u ≡ null_client)
shutdown_ends_service_example =
    shutdown_ends_service nodes nodes-laws servers (refl, (refl, tt)) "map_server" ("planner" ∷ [])
      fresh refl

abbrev running : World
running k = active

shutdown_may_do_nothing_example :
    (w' : World) × (manager_callback nodes shutdown_command with_amcl running
      ≡ done (true, (destroy_clients with_amcl, w')))
    × ((k : String) → "amcl" ≢ k → w' k ≡ active)
shutdown_may_do_nothing_example =
    shutdown_may_do_nothing nodes nodes-laws with_amcl (refl, (refl, tt)) "amcl" ("map_server" ∷ [])
      running refl (λ t w. refl)
