-- ===== src/Amcl/KdTree/Cluster/Labels.antt =====
-- The labels of the leaves in pf_kdtree.c, and what writing one of them changes.
use navigation_learning.Prelude.{
  ℕ, ◌+◌, ◌-◌, ◌/◌, ◌%◌, ◌≤◌, ◌<◌, ◌≡◌, ap, true, false, Option, none, some, arith, if◌then◌else◌,
}
use navigation_learning.Prelude.Int.{ℤ, pos, ◌+ℤ◌, ◌-ℤ◌, +ℤ_parts, -ℤ_parts, eq_of_parts}
use package.navigation_learning.Amcl.KdTree.{
  Key, Leaf, Node, leaf, branch, key_equal, below, find_node,
}
use package.navigation_learning.Amcl.KdTree.Pivot.{key_equal-eq}
use package.navigation_learning.Amcl.KdTree.Lookup.{bin}
use package.navigation_learning.Amcl.KdTree.Cluster.{
  neighbour, labelled, set_cluster, leaf_at, leaves,
}

abbrev relabel : Option ℤ → ℤ → Option ℤ
relabel none c = none
relabel (some old) c = some c

abbrev one_if_unlabelled : ℤ → ℕ
one_if_unlabelled c = if labelled c then 0 else 1

step-back : (a : ℤ) (p q : ℕ) → p + q ≡ 2 → (((a +ℤ pos p) -ℤ pos 1) +ℤ pos q) -ℤ pos 1 ≡ a
step-back a p q h = eq_of_parts _ a (
    omega (
      arith,
      h,
      +ℤ_parts a (pos p),
      -ℤ_parts (a +ℤ pos p) (pos 1),
      +ℤ_parts ((a +ℤ pos p) -ℤ pos 1) (pos q),
      -ℤ_parts (((a +ℤ pos p) -ℤ pos 1) +ℤ pos q) (pos 1),
    ))

-- Turn 26 - i leads back.
pub neighbour-back : (key : Key) (i : ℕ) → i < 27 → neighbour (neighbour key i) (26 - i) ≡ key
unfolding neighbour
neighbour-back key i h = rw (
  neighbour,
  step-back key.x (i / 9) ((26 - i) / 9) (omega arith),
  step-back key.y (i % 9 / 3) ((26 - i) % 9 / 3) (omega arith),
  step-back key.theta (i % 9 % 3) ((26 - i) % 9 % 3) (omega arith),
)

module _ {D : Type 0} where
  abbrev pub cluster_of : Option (Leaf D) → Option ℤ
  cluster_of none = none
  cluster_of (some l) = some l.cluster

  -- The label of the leaf of a key.
  abbrev pub label : Node D → Key → Option ℤ
  label t key = cluster_of (find_node t key)

  abbrev pub index_of : Option (Leaf D) → Option ℕ
  index_of none = none
  index_of (some l) = some l.index

  abbrev pub key_of : Option (Leaf D) → Option Key
  key_of none = none
  key_of (some l) = some l.key

  -- Where the leaf of a key is in the array, and the key of the leaf at a place.
  abbrev pub place : Node D → Key → Option ℕ
  place t key = index_of (find_node t key)

  abbrev pub key_at : Node D → ℕ → Option Key
  key_at t i = key_of (leaf_at i t)

  pub label-set_cluster :
      (t : Node D) (key q : Key) (c : ℤ)
      → label (set_cluster key c t) q
        ≡ (if key_equal q key then relabel (label t key) c else label t q)
  unfolding set_cluster find_node
  label-set_cluster (leaf l) key q c =
      ground (arith, key_equal-eq q key, key_equal-eq q l.key, key_equal-eq key l.key)
  label-set_cluster (branch i depth dim pivot low high) key q c = ground (
    arith,
    label-set_cluster low key q c,
    label-set_cluster high key q c,
    key_equal-eq q key,
    ap (below dim pivot) {x = q} {y = key},
  )

  pub place-set_cluster :
      (t : Node D) (key q : Key) (c : ℤ) → place (set_cluster key c t) q ≡ place t q
  unfolding set_cluster find_node
  place-set_cluster (leaf l) key q c = ground arith
  place-set_cluster (branch i depth dim pivot low high) key q c =
      ground (arith, place-set_cluster low key q c, place-set_cluster high key q c)

  pub bin-set_cluster : (t : Node D) (key q : Key) (c : ℤ) → bin (set_cluster key c t) q ≡ bin t q
  unfolding set_cluster find_node
  bin-set_cluster (leaf l) key q c = ground arith
  bin-set_cluster (branch i depth dim pivot low high) key q c =
      ground (arith, bin-set_cluster low key q c, bin-set_cluster high key q c)

  pub key_at-set_cluster :
      (t : Node D) (key : Key) (i : ℕ) (c : ℤ) → key_at (set_cluster key c t) i ≡ key_at t i
  unfolding set_cluster leaf_at
  key_at-set_cluster (leaf l) key i c = ground arith
  key_at-set_cluster (branch j depth dim pivot low high) key i c =
      ground (arith, key_at-set_cluster low key i c, key_at-set_cluster high key i c)

  -- How many leaves have no label yet.
  unfoldable pub unlabelled : Node D → ℕ
  unlabelled (leaf l) = one_if_unlabelled l.cluster
  unlabelled (branch i depth dim pivot low high) = unlabelled low + unlabelled high

  pub unlabelled-le : (t : Node D) → unlabelled t ≤ leaves t
  unfolding unlabelled leaves
  unlabelled-le (leaf l) = ground arith
  unlabelled-le (branch i depth dim pivot low high) =
      omega (arith, unlabelled-le low, unlabelled-le high)

  pub unlabelled-set_cluster :
      (t : Node D) (key : Key) (c old : ℤ)
      → label t key ≡ some old
      → labelled old ≡ false
      → labelled c ≡ true
      → unlabelled (set_cluster key c t) + 1 ≡ unlabelled t
  unfolding set_cluster find_node unlabelled
  unlabelled-set_cluster (leaf l) key c old e p q = ground arith
  unlabelled-set_cluster (branch i depth dim pivot low high) key c old e p q =
      ground (arith, unlabelled-set_cluster low key c old, unlabelled-set_cluster high key c old)

  pub leaves-set_cluster :
      (t : Node D) (key : Key) (c : ℤ) → leaves (set_cluster key c t) ≡ leaves t
  unfolding set_cluster leaves
  leaves-set_cluster (leaf l) key c = ground arith
  leaves-set_cluster (branch i depth dim pivot low high) key c =
      ground (arith, leaves-set_cluster low key c, leaves-set_cluster high key c)
