-- ===== src/Amcl/KdTree/Cluster.antt =====
-- pf_kdtree_cluster and pf_kdtree_cluster_node of navigation2/nav2_amcl/src/pf/pf_kdtree.c. A pointer
-- to a leaf is the leaf's key, which the source asserts that pf_kdtree_find_node leads back to it.
-- `none` is an assertion that fails, a NULL pointer that is read, or fuel that ran out.
mod Labels
mod Visit
mod Recursion
mod Components
mod Places
mod Splitting
mod Insertion
mod Queue
pub mod Samples
use navigation_learning.Prelude.{
  ℕ, zero, suc, ◌+◌, ◌-◌, ◌/◌, ◌%◌, ap, Bool, true, false, Option, none, some, List, [], ◌∷◌, map,
  ltb, leb, ◌==◌, if◌then◌else◌, length, set,
}
use navigation_learning.Prelude.Int.{ℤ, pos, negsuc, ◌+ℤ◌, ◌-ℤ◌, leb_ℤ}
use navigation_learning.Costmap.Grid.{◌>>=◌}
use package.navigation_learning.Amcl.KdTree.{
  Key, Leaf, Node, leaf, branch, KdTree, key_equal, below, find_node, eqb_ℤ,
}

-- nkey of turn i.
unfoldable pub neighbour : Key → ℕ → Key
neighbour key i = record {
  x = (key.x +ℤ pos (i / 9)) -ℤ pos 1;
  y = (key.y +ℤ pos (i % 9 / 3)) -ℤ pos 1;
  theta = (key.theta +ℤ pos (i % 9 % 3)) -ℤ pos 1;
}

abbrev pub labelled : ℤ → Bool
labelled c = leb_ℤ (pos 0) c

module _ {D : Type 0} where
  -- node->cluster = c, for the leaf that has the key.
  unfoldable pub set_cluster : Key → ℤ → Node D → Node D
  set_cluster key c (leaf l) =
      if key_equal key l.key then leaf (record l { cluster = c }) else leaf l
  set_cluster key c (branch i depth dim pivot low high) = elim (below dim pivot key) [
    | true ↦ branch i depth dim pivot (set_cluster key c low) high
    | false ↦ branch i depth dim pivot low (set_cluster key c high)
  ]

  -- One turn of the loop of pf_kdtree_cluster_node; `recurse` is the recursive call.
  unfoldable pub visit : (Key → Node D → Option (Node D)) → Key → Key → Node D → Option (Node D)
  visit recurse key nkey t = elim (find_node t nkey) [
    | none ↦ some t
    | some nnode ↦ find_node t key >>= λ node.
        if labelled nnode.cluster
        then (if eqb_ℤ nnode.cluster node.cluster then some t else none)
        else recurse nkey (set_cluster nkey node.cluster t)
  ]

  -- The turns that are left: turn i has 26 - i after it.
  unfoldable pub visit_all : (Key → Node D → Option (Node D)) → Key → ℕ → Node D → Option (Node D)
  visit_all recurse key zero t = some t
  visit_all recurse key (suc left) t =
      visit recurse key (neighbour key (26 - left)) t >>= λ after. visit_all recurse key left after

  -- The fuel bounds the depth of the recursion.
  unfoldable pub cluster_node : ℕ → Key → Node D → Option (Node D)
  cluster_node zero key t = none
  cluster_node (suc fuel) key t = visit_all (cluster_node fuel) key 27 t

  -- nodes[i], when it is a leaf.
  unfoldable pub leaf_at : ℕ → Node D → Option (Leaf D)
  leaf_at i (leaf l) = if l.index == i then some l else none
  leaf_at i (branch index depth dim pivot low high) = elim (leaf_at i low) [
    | none ↦ leaf_at i high
    | some l ↦ some l
  ]

  unfoldable pub leaves : Node D → ℕ
  leaves (leaf l) = 1
  leaves (branch i depth dim pivot low high) = leaves low + leaves high

  -- One turn of the loop that puts the leaves in the queue, whose last entry is first here.
  unfoldable pub queue_leaf : ℕ → ℕ → Node D → List Key → Option (Node D × List Key)
  queue_leaf node_count i t queue = elim (leaf_at i t) [
    | none ↦ some (t, queue)
    | some node ↦
        let after = set_cluster node.key (negsuc 0) t in
        if ltb (length queue) node_count
        then (find_node after node.key >>= λ found.
            if found.index == i then some (after, node.key ∷ queue) else none)
        else none
  ]

  -- With the turns that are left.
  unfoldable pub queue_leaves : ℕ → ℕ → Node D → List Key → Option (Node D × List Key)
  queue_leaves node_count zero t queue = some (t, queue)
  queue_leaves node_count (suc left) t queue =
      queue_leaf node_count (node_count - suc left) t queue >>= λ r.
      queue_leaves node_count left (r.0) (r.1)

  -- The loop over the queue, with the number of clusters so far.
  unfoldable pub label_queue : ℕ → List Key → ℕ → Node D → Option (Node D)
  label_queue fuel [] cluster_count t = some t
  label_queue fuel (key ∷ queue) cluster_count t = find_node t key >>= λ node.
      elim (labelled node.cluster) [
        | true ↦ label_queue fuel queue cluster_count t
        | false ↦ cluster_node fuel key (set_cluster key (pos cluster_count) t) >>= λ after.
            label_queue fuel queue (cluster_count + 1) after
      ]

  unfoldable pub cluster_root : ℕ → Node D → Option (Node D)
  cluster_root node_count t =
      queue_leaves node_count node_count t [] >>= λ r. label_queue (leaves t + 1) (r.1) 0 (r.0)

  -- An empty tree has no nodes to put in the queue.
  unfoldable pub cluster : KdTree D → Option (KdTree D)
  cluster self = elim self.root [
    | none ↦ some self
    | some t ↦ cluster_root self.node_count t >>= λ root. some (record self { root = some root })
  ]
