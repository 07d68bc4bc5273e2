-- ===== src/Lifecycle/Manager.antt =====
-- `LifecycleManager` of navigation2/nav2_lifecycle_manager/src/lifecycle_manager.cpp. The lifecycle
-- nodes are behind service calls: `change_state` and `get_state` of the service clients act on a
-- world `W` and are parameters. Log messages are left out.
pub mod Clients
pub mod Sweep
pub mod Commands
pub mod Shutdown
mod Tests
use package.navigation_learning.Prelude.{
  ◌-◌, ◌/◌, ap, Bool, true, false, not, ◌||◌, List, [], ◌∷◌, map, reverse, ◌==◌, if◌then◌else◌, set,
}
use Prim.Native.String.{String}
use text.Mathlib.Text.{◌==◌ as str_eq}
use Clients.{Services, Transition, State}
use Clients.{configure, cleanup, activate, deactivate, unconfigured_shutdown}
use Clients.{unknown, unconfigured, inactive, active, finalized}

-- `ManageLifecycleNodes::Request`; `other` is a command that the `switch` does not name.
pub data Command : Type 0 where
  startup_command reset_command shutdown_command pause_command resume_command other : Command

-- `transition_state_map_`.
abbrev pub target : Transition → State
target configure = inactive
target cleanup = unconfigured
target activate = active
target deactivate = inactive
target unconfigured_shutdown = finalized

abbrev pub same_state : State → State → Bool
same_state unknown unknown = true
same_state unconfigured unconfigured = true
same_state inactive inactive = true
same_state active active = true
same_state finalized finalized = true
same_state _ _ = false

-- `node_map` says for which names the map holds a client; `node_map_[name]` is null for the others.
pub record Manager : Type 0 where
  pub node_names : List String
  pub node_map : String → Bool

-- `null_client` is a call through a null client.
pub data Outcome (A : Type 0) : Type 0 where
  done : A → Outcome A
  null_client : Outcome A

infixl 5 ◌>>=◌
abbrev pub ◌>>=◌ : {A B : Type 0} → Outcome A → (A → Outcome B) → Outcome B
done a >>= f = f a
null_client >>= f = null_client

abbrev pub contains : List String → String → Bool
contains [] k = false
contains (n ∷ ns) k = str_eq n k || contains ns k

unfoldable pub create_clients : Manager → Manager
create_clients m = record m { node_map = λ k. contains m.node_names k || m.node_map k }

unfoldable pub destroy_clients : Manager → Manager
destroy_clients m = record m { node_map = λ k. false }

module _ {W : Type 0} (v : Services W) where
  -- The test after the two calls of `changeStateForNode`; `||` does not ask for the state of a node
  -- that refused the transition.
  unfoldable pub check_state : String → Transition → Bool × W → Bool × W
  check_state n t (false, w) = (false, w)
  check_state n t (true, w) = let (st, w') = v.get_state n w in (same_state st (target t), w')

  unfoldable pub change_state_for_node : Manager → Transition → String → W → Outcome (Bool × W)
  unfolding check_state
  change_state_for_node m t n w =
      if m.node_map n then done (check_state n t (v.change_state n t w)) else null_client

  -- The loop over the names, in the order given; it stops at the first failure.
  unfoldable pub change_state_for_each : Manager → Transition → List String → W → Outcome (Bool × W)
  change_state_for_each m t [] w = done (true, w)
  change_state_for_each m t (n ∷ ns) w = change_state_for_node m t n w >>= λ p. elim (p.0) [
    | true ↦ change_state_for_each m t ns p.1
    | false ↦ done (false, p.1)
  ]

  unfoldable pub change_state_for_all : Manager → Transition → Bool → W → Outcome (Bool × W)
  change_state_for_all m t reverse_order w =
      change_state_for_each m t (if reverse_order then reverse m.node_names else m.node_names) w

  -- `!first || !second` of `startup` and `reset`.
  abbrev pub both : (W → Outcome (Bool × W)) → (W → Outcome (Bool × W)) → W → Outcome (Bool × W)
  both first second w =
      first w >>= λ p. elim (p.0) [ true ↦ second p.1 | false ↦ done (false, p.1) ]

  unfoldable pub startup : Manager → W → Outcome (Bool × W)
  startup m = both (change_state_for_all m configure false) (change_state_for_all m activate false)

  unfoldable pub reset : Manager → W → Outcome (Bool × W)
  reset m = both (change_state_for_all m deactivate false) (change_state_for_all m cleanup false)

  unfoldable pub pause : Manager → W → Outcome (Bool × W)
  pause m w = change_state_for_all m deactivate false w

  unfoldable pub resume : Manager → W → Outcome (Bool × W)
  resume m w = change_state_for_all m activate false w

  -- The results of the three sweeps are ignored.
  unfoldable pub shutdown_all_nodes : Manager → W → Outcome W
  shutdown_all_nodes m w = change_state_for_all m deactivate true w >>= λ p.
      change_state_for_all m cleanup true p.1 >>= λ q.
      change_state_for_all m unconfigured_shutdown true q.1 >>= λ r. done r.1

  unfoldable pub shutdown : Manager → W → Outcome (Bool × (Manager × W))
  shutdown m w = shutdown_all_nodes m w >>= λ w'. done (true, (destroy_clients m, w'))

  abbrev pub with_manager : Manager → Outcome (Bool × W) → Outcome (Bool × (Manager × W))
  with_manager m o = o >>= λ p. done (p.0, (m, p.1))

  -- `managerCallback`; the response starts with the message's default, false.
  unfoldable pub manager_callback : Command → Manager → W → Outcome (Bool × (Manager × W))
  manager_callback startup_command m w = with_manager m (startup m w)
  manager_callback reset_command m w = with_manager m (reset m w)
  manager_callback shutdown_command m w = shutdown m w
  manager_callback pause_command m w = with_manager m (pause m w)
  manager_callback resume_command m w = with_manager m (resume m w)
  manager_callback other m w = done (false, (m, w))

  -- The constructor: create the clients, and start up under `autostart`.
  unfoldable pub new : List String → Bool → W → Outcome (Manager × W)
  new names autostart w =
      let m = create_clients (record { node_names = names; node_map = λ k. false }) in
      if autostart then (startup m w >>= λ p. done (m, p.1)) else done (m, w)
