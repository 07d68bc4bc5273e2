-- ===== src/Amcl/KdTree/Cluster/Places.antt =====
-- The places of the leaves in the array `nodes` of pf_kdtree.c.
use navigation_learning.Prelude.{
  ℕ, ◌<◌, ◌≡◌, sym, ◌∙◌, ◌≢◌, ◌⊎◌, inl, inr, true, false, none, some, arith, if◌then◌else◌,
  Bool-cases, Option-cases,
}
use navigation_learning.Prelude.Int.{ℤ}
use package.navigation_learning.Amcl.KdTree.{Key, Leaf, Node, leaf, branch, below, find_node}
use package.navigation_learning.Amcl.KdTree.Pivot.{key_equal_refl, key_equal-eq}
use package.navigation_learning.Amcl.KdTree.Cluster.{leaf_at}
use package.navigation_learning.Amcl.KdTree.Cluster.Labels.{place, key_at}

module _ {D : Type 0} where
  -- The keys lie where the pivots lead, and no two leaves have the same place.
  abbrev pub Tidy : ℕ → Node D → Type 0
  Tidy n (leaf l) = l.index < n
  Tidy n (branch index depth dim pivot low high) =
      Tidy n low
      × Tidy n high
      × ((i : ℕ) (k : Key) → key_at low i ≡ some k → below dim pivot k ≡ true)
      × ((i : ℕ) (k : Key) → key_at high i ≡ some k → below dim pivot k ≡ false)
      × ((i : ℕ) (a b : Key) → key_at low i ≡ some a → key_at high i ≢ some b)

  -- pf_kdtree_find_node and the array agree on the leaves.
  pub record Located (n : ℕ) (t : Node D) : Type 0 where
    pub at_place : (q : Key) (i : ℕ) → place t q ≡ some i → key_at t i ≡ some q
    pub at_key : (i : ℕ) (q : Key) → key_at t i ≡ some q → place t q ≡ some i
    pub bound : (i : ℕ) (q : Key) → key_at t i ≡ some q → i < n

  pub key_at-low :
      (index depth dim : ℕ) (pivot : ℤ) (low high : Node D) (i : ℕ) (k : Key)
      → key_at low i ≡ some k
      → key_at (branch index depth dim pivot low high) i ≡ some k
  unfolding leaf_at
  key_at-low index depth dim pivot low high i k e = ground arith

  pub key_at-high :
      (index depth dim : ℕ) (pivot : ℤ) (low high : Node D) (i : ℕ)
      → key_at low i ≡ none
      → key_at (branch index depth dim pivot low high) i ≡ key_at high i
  unfolding leaf_at
  key_at-high index depth dim pivot low high i e = ground arith

  pub key_at-cases :
      (index depth dim : ℕ) (pivot : ℤ) (low high : Node D) (i : ℕ) (k : Key)
      → key_at (branch index depth dim pivot low high) i ≡ some k
      → (key_at low i ≡ some k) ⊎ (key_at high i ≡ some k)
  key_at-cases index depth dim pivot low high i k e = elim (Option-cases (key_at low i)) [
    | inl n ↦ inr (sym (key_at-high index depth dim pivot low high i n) ∙ e)
    | inr (a, s) ↦ inl (s ∙ sym (key_at-low index depth dim pivot low high i a s) ∙ e)
  ]

  place-branch :
      (index depth dim : ℕ) (pivot : ℤ) (low high : Node D) (q : Key)
      → place (branch index depth dim pivot low high) q
        ≡ (if below dim pivot q then place low q else place high q)
  unfolding find_node
  place-branch index depth dim pivot low high q = ground arith

  leaf-Located : (n : ℕ) (l : Leaf D) → l.index < n → Located n (leaf l)
  unfolding leaf_at find_node
  leaf-Located n l h = record {
    at_place = λ q i e. ground (arith, key_equal-eq q l.key);
    at_key = λ i q e. ground (arith, key_equal_refl q);
    bound = λ i q e. ground arith;
  }

  pub Tidy-Located : (n : ℕ) (t : Node D) → Tidy n t → Located n t
  Tidy-Located n (leaf l) h = leaf-Located n l h
  Tidy-Located n (branch index depth dim pivot low high) (tl, th, ol, oh, apart) =
      let a = Tidy-Located n low tl in
      let b = Tidy-Located n high th in
      record {
        at_place = λ q i e. elim (Bool-cases (below dim pivot q)) [
          | inl s ↦
              key_at-low index depth dim pivot low high i q
                (a.at_place q i (rw s at (sym (place-branch index depth dim pivot low high q) ∙ e)))
          | inr s ↦
              let there =
                b.at_place q i
                  (rw s at (sym (place-branch index depth dim pivot low high q) ∙ e)) in
              elim (Option-cases (key_at low i)) [
                | inl n ↦ key_at-high index depth dim pivot low high i n ∙ there
                | inr (k, f) ↦ absurd (apart i k q f there)
              ]
        ];
        at_key = λ i q e.
            place-branch index depth dim pivot low high q
            ∙ elim (key_at-cases index depth dim pivot low high i q e) [
              | inl s ↦ rw (ol i q s) (a.at_key i q s)
              | inr s ↦ rw (oh i q s) (b.at_key i q s)
            ];
        bound = λ i q e. elim (key_at-cases index depth dim pivot low high i q e) [
          | inl s ↦ a.bound i q s
          | inr s ↦ b.bound i q s
        ];
      }
