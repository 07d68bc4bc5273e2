-- ===== src/Lifecycle/Manager/Commands.antt =====
-- What the commands of the manager promise when they report success.
use navigation_learning.Prelude.{
  ◌≡◌, refl, ap, ◌∙◌, Bool, true, false, ◌||◌, Option, none, some, List, [], ◌∷◌, ◌++◌, reverse,
  arith, if◌then◌else◌,
}
use Prim.Native.String.{String}
use mathlib.Core.List.{reverse-append}
use mathlib.Core.Path.{subst}
use text.Mathlib.TextPositions.{eq_refl}
use navigation_learning.Lifecycle.Manager.Clients.{
  Services, ServiceLaws, Transition, State, configure, cleanup, activate, deactivate, unconfigured,
  inactive, active,
}
use navigation_learning.Lifecycle.Manager.Sweep.{
  All, Absent, Swept, IsConnected, change_state_for_each-Swept,
}
use navigation_learning.Lifecycle.Manager.{
  Manager, Outcome, done, Command, startup_command, reset_command, shutdown_command, pause_command,
  resume_command, other, target, contains, create_clients, change_state_for_all, both, with_manager,
  startup, reset, pause, resume, manager_callback,
}

All-append : (P : String → Type 0) (xs ys : List String) → All P xs → All P ys → All P (xs ++ ys)
All-append P [] ys h k = k
All-append P (x ∷ xs) ys h k = (h.0, All-append P xs ys h.1 k)

All-reverse : (P : String → Type 0) (xs : List String) → All P xs → All P (reverse xs)
All-reverse P [] h = h
All-reverse P (x ∷ xs) h =
    rw (reverse-append (x ∷ []) xs)
      (All-append P (reverse xs) (x ∷ []) (All-reverse P xs h.1) (h.0, tt))

-- The order in which a sweep takes the names.
abbrev pub order : Bool → List String → List String
order reverse_order ns = if reverse_order then reverse ns else ns

All-order : (P : String → Type 0) (b : Bool) (xs : List String) → All P xs → All P (order b xs)
All-order P true xs h = All-reverse P xs h
All-order P false xs h = h

contains-All :
    (all ns : List String)
    → ((k : String) → contains ns k ≡ true → contains all k ≡ true)
    → All (λ n. contains all n ≡ true) ns
contains-All all [] h = tt
contains-All all (n ∷ ns) h =
    (h n (ground (arith, eq_refl n)), contains-All all ns (λ k q. h k (ground arith)))

same_promise : {a b : State} → some a ≡ some b → a ≡ b
same_promise e = ground arith

module _ {W : Type 0} (v : Services W) where
  -- A manager made by `create_clients` has a client for each of its names.
  pub create_clients-IsConnected :
      (m : Manager) → All (λ n. (create_clients m).node_map n ≡ true) m.node_names
  unfolding create_clients
  create_clients-IsConnected m = go m.node_names (contains-All m.node_names m.node_names (λ k q. q))
    where
      go :
          (ns : List String)
          → All (λ n. contains m.node_names n ≡ true) ns
          → All (λ n. (contains m.node_names n || m.node_map n) ≡ true) ns
      go [] h = tt
      go (n ∷ ns) h = (ground arith, go ns h.1)

  module _ (laws : ServiceLaws v) (m : Manager)
      (connected : IsConnected v laws m m.node_names) where
    pub change_state_for_all-Swept :
        (t : Transition) (b : Bool) (w : W)
        → (p : Bool × W) × (change_state_for_all v m t b w ≡ done p)
          × Swept v laws t (order b m.node_names) w p
    unfolding change_state_for_all
    change_state_for_all-Swept t b w =
        change_state_for_each-Swept v laws m t (order b m.node_names) w
          (All-order (λ n. m.node_map n ≡ true) b m.node_names connected)

    -- A command that brings each listed node to a state and touches no other node.
    pub record Brings (st : State) (w : W) (o : Outcome (Bool × W)) : Type 0 where
      pub result : Bool × W
      pub returns : o ≡ done result
      pub reached : result.0 ≡ true → All (λ n. laws.state_of n result.1 ≡ st) m.node_names
      pub unlisted :
          (k : String) → Absent k m.node_names → laws.state_of k result.1 ≡ laws.state_of k w

    one-Brings : (t : Transition) (w : W) → Brings (target t) w (change_state_for_all v m t false w)
    one-Brings t w =
        let (p, e, s) = change_state_for_all-Swept t false w in
        record { result = p; returns = e; reached = s.reached; unlisted = s.unlisted }

    both-Brings :
        (t u : Transition) (w : W)
        → Brings
            (target u)
            w
            (both v (change_state_for_all v m t false) (change_state_for_all v m u false) w)
    both-Brings t u w = let b = one-Brings t w in go b.result b.returns b.unlisted
      where
        go :
            (p : Bool × W)
            → change_state_for_all v m t false w ≡ done p
            → ((k : String) → Absent k m.node_names → laws.state_of k p.1 ≡ laws.state_of k w)
            → Brings
                (target u)
                w
                (both v (change_state_for_all v m t false) (change_state_for_all v m u false) w)
        go (false, w1) e un = record {
          result = (false, w1);
          returns = rw e refl;
          reached = λ q. cc;
          unlisted = un;
        }
        go (true, w1) e un =
            let b = one-Brings u w1 in
            record {
              result = b.result;
              returns = rw e b.returns;
              reached = b.reached;
              unlisted = λ k a. b.unlisted k a ∙ un k a;
            }

    -- The state that a command promises.
    abbrev pub promised : Command → Option State
    promised startup_command = some active
    promised reset_command = some unconfigured
    promised pause_command = some inactive
    promised resume_command = some active
    promised _ = none

    fulfilled :
        {a : State} {st : State} {w : W} {o : Outcome (Bool × W)}
        → a ≡ st
        → Brings a w o
        → (p : Bool × W) × (with_manager v m o ≡ done (p.0, (m, p.1)))
          × (p.0 ≡ true → All (λ n. laws.state_of n p.1 ≡ st) m.node_names)
          × ((k : String) → Absent k m.node_names → laws.state_of k p.1 ≡ laws.state_of k w)
    fulfilled same b = (
      b.result,
      ap (with_manager v m) b.returns,
      λ q. subst (λ s. All (λ n. laws.state_of n b.result.1 ≡ s) m.node_names) same (b.reached q),
      b.unlisted,
    )

    -- On a connected manager the commands startup, reset, pause and resume return and keep the
    -- manager. If the response is success, every listed node is in the state that the command
    -- promises, and whatever the response, nodes that are not listed keep their state.
    pub manager_callback-promised :
        (c : Command) (st : State) (w : W)
        → promised c ≡ some st
        → (p : Bool × W) × (manager_callback v c m w ≡ done (p.0, (m, p.1)))
          × (p.0 ≡ true → All (λ n. laws.state_of n p.1 ≡ st) m.node_names)
          × ((k : String) → Absent k m.node_names → laws.state_of k p.1 ≡ laws.state_of k w)
    unfolding manager_callback startup reset pause resume
    manager_callback-promised startup_command st w e =
        fulfilled (same_promise e) (both-Brings configure activate w)
    manager_callback-promised reset_command st w e =
        fulfilled (same_promise e) (both-Brings deactivate cleanup w)
    manager_callback-promised pause_command st w e =
        fulfilled (same_promise e) (one-Brings deactivate w)
    manager_callback-promised resume_command st w e =
        fulfilled (same_promise e) (one-Brings activate w)
    manager_callback-promised shutdown_command st w e = cc
    manager_callback-promised other st w e = cc
