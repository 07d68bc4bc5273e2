-- ===== src/Lifecycle/Manager/Clients.antt =====
-- The lifecycle messages, and the service clients that the manager calls.
use navigation_learning.Prelude.{◌≡◌, ◌≢◌, Bool}
use Prim.Native.String.{String}

-- `lifecycle_msgs::msg::Transition`, the five that the manager uses.
pub data Transition : Type 0 where
  configure cleanup activate deactivate unconfigured_shutdown : Transition

-- `lifecycle_msgs::msg::State`, the primary states.
pub data State : Type 0 where
  unknown unconfigured inactive active finalized : State

-- `change_state(transition)` and `get_state()` of the client of a node.
pub record Services (W : Type 0) : Type 0 where
  pub change_state : String → Transition → W → Bool × W
  pub get_state : String → W → State × W

-- What the services document: `get_state` reports a node's state and changes none, and
-- `change_state`, whether it succeeds or not, is a request to one node.
pub record ServiceLaws {W : Type 0} (v : Services W) : Type 0 where
  pub state_of : String → W → State
  pub get_state_lem : (n : String) (w : W) → (v.get_state n w).0 ≡ state_of n w
  pub get_state_pure : (n k : String) (w : W) → state_of k (v.get_state n w).1 ≡ state_of k w
  pub change_state_other :
      (n k : String) (t : Transition) (w : W)
      → n ≢ k
      → state_of k (v.change_state n t w).1 ≡ state_of k w
