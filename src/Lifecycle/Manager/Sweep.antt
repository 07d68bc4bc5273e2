-- ===== src/Lifecycle/Manager/Sweep.antt =====
-- One transition over a list of nodes.
use navigation_learning.Prelude.{
  ◌≡◌, refl, sym, ap, ◌∙◌, ◌≢◌, ◌⊎◌, inl, inr, Bool, true, false, List, [], ◌∷◌, ◌++◌, arith,
  Bool-cases,
}
use Prim.Native.String.{String}
use text.Mathlib.Text.{◌==◌ as str_eq}
use text.Mathlib.TextEquality.{eq_iff}
use mathlib.Core.Path.{subst}
use mathlib.Core.Bool.{false≢true}
use navigation_learning.Lifecycle.Manager.Clients.{Services, ServiceLaws, Transition, State}
use navigation_learning.Lifecycle.Manager.{
  Manager, Outcome, done, target, same_state, check_state, change_state_for_node,
  change_state_for_each,
}

abbrev pub All : (String → Type 0) → List String → Type 0
All P [] = Unit
All P (x ∷ xs) = P x × All P xs

abbrev pub Absent : String → List String → Type 0
Absent k xs = All (λ n. n ≢ k) xs

same_state-eq : (a b : State) → same_state a b ≡ true → a ≡ b
same_state-eq a b e = ground arith

module _ {W : Type 0} (v : Services W) (laws : ServiceLaws v) where
  -- One node: other nodes keep their state, and success means that the target is reached.
  pub record Changed (t : Transition) (n : String) (w : W) (p : Bool × W) : Type 0 where
    pub others : (k : String) → n ≢ k → laws.state_of k p.1 ≡ laws.state_of k w
    pub reached : p.0 ≡ true → laws.state_of n p.1 ≡ target t

  check_state-Changed :
      (t : Transition) (n : String) (w : W) (p : Bool × W)
      → v.change_state n t w ≡ p
      → Changed t n w (check_state v n t p)
  unfolding check_state
  check_state-Changed t n w (false, w') e = record {
    others = λ k q. ground (arith, laws.change_state_other n k t w);
    reached = λ q. cc;
  }
  check_state-Changed t n w (true, w') e = record {
    others = λ k q. ground (arith, laws.change_state_other n k t w, laws.get_state_pure n k w');
    reached = λ q. laws.get_state_pure n n w' ∙ sym (laws.get_state_lem n w') ∙ same_state-eq _ _ q;
  }

  -- A sweep over `ns`: names that are not listed keep their state. If it succeeds every listed node
  -- is in the target state. If it fails, it stopped at one node: the nodes before it were brought to
  -- the target state, and the nodes after it keep their state.
  pub record Swept (t : Transition) (ns : List String) (w : W) (p : Bool × W) : Type 0 where
    pub unlisted : (k : String) → Absent k ns → laws.state_of k p.1 ≡ laws.state_of k w
    pub reached : p.0 ≡ true → All (λ n. laws.state_of n p.1 ≡ target t) ns
    pub stopped :
        p.0 ≡ false
        → (before : List String) × (n : String) × (after : List String) × (ns ≡ before ++ n ∷ after)
          × All (λ j. n ≢ j → laws.state_of j p.1 ≡ target t) before
          × ((k : String) → Absent k before → n ≢ k → laws.state_of k p.1 ≡ laws.state_of k w)

  Absent-cases :
      (P : String → Type 0) (k : String) (ns : List String) → Absent k ns ⊎ (All P ns → P k)
  Absent-cases P k [] = inl tt
  Absent-cases P k (n ∷ ns) = elim (Bool-cases (str_eq n k)) [
    | inl e ↦ inr (λ h. subst P ((eq_iff n k).0 e) h.0)
    | inr e ↦ elim (Absent-cases P k ns) [
      | inl a ↦ inl ((λ q. false≢true (sym e ∙ (eq_iff n k).1 q)), a)
      | inr f ↦ inr (λ h. f h.1)
    ]
  ]

  Swept-nil : (t : Transition) (w : W) → Swept t [] w (true, w)
  Swept-nil t w = record { unlisted = λ k a. refl; reached = λ q. tt; stopped = λ q. cc }

  -- The sweep stops at its first node.
  Swept-stop :
      (t : Transition) (n : String) (ns : List String) (w w1 : W)
      → Changed t n w (false, w1)
      → Swept t (n ∷ ns) w (false, w1)
  Swept-stop t n ns w w1 c = record {
    unlisted = λ k a. c.others k a.0;
    reached = λ q. cc;
    stopped = λ q. ([], n, ns, refl, tt, λ k a ne. c.others k ne);
  }

  Swept-step :
      (t : Transition) (n : String) (ns : List String) (w w1 : W) (p : Bool × W)
      → Changed t n w (true, w1)
      → Swept t ns w1 p
      → Swept t (n ∷ ns) w p
  Swept-step t n ns w w1 p c s = record {
    unlisted = λ k a. s.unlisted k a.1 ∙ c.others k a.0;
    reached = λ q. (head (Absent-cases (λ j. laws.state_of j p.1 ≡ target t) n ns) q, s.reached q);
    stopped = λ q.
        let (before, j, after, e, done_before, kept) = s.stopped q in
        (
          n ∷ before,
          j,
          after,
          ap (λ l. n ∷ l) e,
          (
            λ ne. elim (Absent-cases (λ i. j ≢ i → laws.state_of i p.1 ≡ target t) n before) [
              | inl a ↦ kept n a ne ∙ c.reached refl
              | inr f ↦ f done_before ne
            ],
            done_before,
          ),
          λ k a ne. kept k a.1 ne ∙ c.others k a.0,
        );
  }
    where
      head :
          Absent n ns
            ⊎ (All (λ j. laws.state_of j p.1 ≡ target t) ns → laws.state_of n p.1 ≡ target t)
          → p.0 ≡ true
          → laws.state_of n p.1 ≡ target t
      head (inl a) q = s.unlisted n a ∙ c.reached refl
      head (inr f) q = f (s.reached q)

  -- A manager that has a client for each of the names.
  abbrev pub IsConnected : Manager → List String → Type 0
  IsConnected m ns = All (λ n. m.node_map n ≡ true) ns

  abbrev after_node : Manager → Transition → List String → Bool × W → Outcome (Bool × W)
  after_node m t ns p = elim (p.0) [
    | true ↦ change_state_for_each v m t ns p.1
    | false ↦ done (false, p.1)
  ]

  for_each-cons :
      (m : Manager) (t : Transition) (n : String) (ns : List String) (w : W)
      → m.node_map n ≡ true
      → change_state_for_each v m t (n ∷ ns) w
        ≡ after_node m t ns (check_state v n t (v.change_state n t w))
  unfolding change_state_for_each change_state_for_node
  for_each-cons m t n ns w c = rw c refl

  -- A sweep over connected nodes returns. Nodes that are not listed keep their state. On success every
  -- listed node is in the target state. On failure it stopped at one node: those listed before it are
  -- in the target state, and every node that is neither this one nor listed before it keeps its state.
  pub change_state_for_each-Swept :
      (m : Manager) (t : Transition) (ns : List String) (w : W)
      → IsConnected m ns
      → (p : Bool × W) × (change_state_for_each v m t ns w ≡ done p) × Swept t ns w p
  change_state_for_each-Swept m t [] w c =
      ((true, w), unfold change_state_for_each in refl, Swept-nil t w)
  change_state_for_each-Swept m t (n ∷ ns) w c =
      go (check_state v n t (v.change_state n t w))
        (check_state-Changed t n w (v.change_state n t w) refl) (for_each-cons m t n ns w c.0)
        (λ w'. change_state_for_each-Swept m t ns w' c.1)
    where
      go :
          (q : Bool × W)
          → Changed t n w q
          → change_state_for_each v m t (n ∷ ns) w ≡ after_node m t ns q
          → ((w' : W)
              → (p : Bool × W) × (change_state_for_each v m t ns w' ≡ done p) × Swept t ns w' p)
          → (p : Bool × W) × (change_state_for_each v m t (n ∷ ns) w ≡ done p)
            × Swept t (n ∷ ns) w p
      go (false, w1) ch e rec = ((false, w1), e, Swept-stop t n ns w w1 ch)
      go (true, w1) ch e rec = let (p, ep, s) = rec w1 in (p, e ∙ ep, Swept-step t n ns w w1 p ch s)
