-- ===== src/Amcl/KdTree/Tests.antt =====
-- Runs of the tree of pf_kdtree.c.
use navigation_learning.Prelude.{ℕ, ◌+◌, ◌/◌, ◌≡◌, refl, Option, none, some, List, [], ◌∷◌, arith}
use navigation_learning.Prelude.Int.{ℤ, pos, negsuc, ◌+ℤ◌, ◌-ℤ◌}
use navigation_learning.Amcl.KdTree.{
  Scalars, Pose, KdTree, alloc, clear, key_of, key_equal, pivot_dim, below, new_leaf, split_leaf,
  insert_node, insert_root, insert_key, insert, find_node, find_key, get_prob, get_cluster,
}
use navigation_learning.Amcl.KdTree.Histogram.{insert_all, Histogram, insert_all-Histogram}
use navigation_learning.Amcl.KdTree.Cluster.{
  neighbour, set_cluster, visit, visit_all, cluster_node, leaf_at, leaves, queue_leaf, queue_leaves,
  label_queue, cluster_root, cluster,
}
use navigation_learning.Amcl.KdTree.Cluster.Samples.{Together, start, cluster-neighbours}

-- Numbers in which a bin is one wide.
abbrev pub numbers : Scalars ℕ
numbers = record {
  add = λ a b. a + b;
  div = λ a b. a / b;
  floor = λ a. a;
  to_int = λ a. pos a;
  zero = 0;
  half = 1;
  ten_degrees = 1;
}

abbrev pose : ℕ → ℕ → ℕ → Pose ℕ
pose x y theta = record { x = x; y = y; theta = theta }

-- Two samples in a bin, one in the bin beside it, and one far away.
abbrev samples : List (Pose ℕ × ℕ)
samples = (pose 1 1 0, 5) ∷ (pose 2 1 0, 7) ∷ (pose 9 9 3, 1) ∷ (pose 1 1 0, 2) ∷ []

insert_all-Histogram_example : Histogram numbers 4 samples
insert_all-Histogram_example = insert_all-Histogram numbers 4 samples (omega arith) (omega arith)

cluster-neighbours_example : Together numbers 4 samples (pose 1 1 0) (pose 2 1 0)
unfolding neighbour key_of clear alloc ◌+ℤ◌ ◌-ℤ◌
cluster-neighbours_example =
    cluster-neighbours numbers 4 samples 0 1 22 (pose 1 1 0, 5) (pose 2 1 0, 7) (omega arith) refl
      refl (omega arith) refl

-- The weights of two bins, of one that has no sample, and the clusters of the three poses.
abbrev readings : KdTree ℕ → List (Option ℕ) × List (Option ℤ)
unfolding get_prob get_cluster find_key find_node key_of key_equal below ◌+ℤ◌
readings t = (
  get_prob numbers t (pose 1 1 0)
      ∷ get_prob numbers t (pose 9 9 3)
      ∷ get_prob numbers t (pose 4 4 4)
      ∷ [],
  get_cluster numbers t (pose 1 1 0)
      ∷ get_cluster numbers t (pose 2 1 0)
      ∷ get_cluster numbers t (pose 9 9 3)
      ∷ get_cluster numbers t (pose 4 4 4)
      ∷ [],
)

abbrev run : Option (List (Option ℕ) × List (Option ℤ))
unfolding insert_all insert insert_key insert_root insert_node split_leaf new_leaf key_of key_equal
    pivot_dim below clear alloc cluster cluster_root label_queue queue_leaves queue_leaf leaves
    leaf_at cluster_node visit_all visit set_cluster neighbour find_node get_prob get_cluster
    find_key ◌+ℤ◌ ◌-ℤ◌
run = elim (insert_all numbers (start numbers 4) samples) [
  | none ↦ none
  | some t ↦ elim (cluster t) [ none ↦ none | some u ↦ some (readings u) ]
]

run_test :
    run
    ≡ some (
      some 7 ∷ some 1 ∷ some 0 ∷ [],
      some (pos 1) ∷ some (pos 1) ∷ some (pos 0) ∷ some (negsuc 0) ∷ [],
    )
unfolding run
run_test = refl
