-- ===== src/Amcl/KdTree.antt =====
-- The histogram of the particles' poses, navigation2/nav2_amcl/src/pf/pf_kdtree.c: a tree whose
-- leaves hold the bins that were hit. A node's place in the array `nodes` is its `index`.
-- `none` is an assertion that fails, or a NULL pointer that is read.
mod Pivot
mod Lookup
pub mod Cluster
pub mod Histogram
pub mod Tests
use navigation_learning.Prelude.{
  ℕ, zero, suc, ◌+◌, ◌-◌, ◌*◌, ◌/◌, ◌<◌, max, ap, Bool, true, false, not, Option, none, some, map,
  ltb, ◌==◌, if◌then◌else◌,
}
use navigation_learning.Costmap.Grid.{◌>>=◌}
use navigation_learning.Prelude.Int.{ℤ, pos, negsuc, pos_part, neg_part, ◌+ℤ◌, ◌-ℤ◌, ltb_ℤ, abs_ℤ}

-- The operations on doubles that the tree uses.
pub record Scalars (D : Type 0) : Type 0 where
  pub add : D → D → D
  pub div : D → D → D
  pub floor : D → D
  pub to_int : D → ℤ
  pub zero : D
  pub half : D  -- 0.50
  pub ten_degrees : D  -- 10 * M_PI / 180

pub record Key : Type 0 where
  pub x : ℤ
  pub y : ℤ
  pub theta : ℤ

pub record Pose (D : Type 0) : Type 0 where
  pub x : D
  pub y : D
  pub theta : D

pub record Leaf (D : Type 0) : Type 0 where
  pub index : ℕ
  pub depth : ℕ
  pub key : Key
  pub value : D
  pub cluster : ℤ

-- A branch has its index, depth, pivot_dim and twice its pivot_value, which is an integer. The key,
-- value and cluster that it had as a leaf are not read again.
pub data Node (D : Type 0) : Type 0 where
  leaf : Leaf D → Node D
  branch : ℕ → ℕ → ℕ → ℤ → Node D → Node D → Node D

pub record KdTree (D : Type 0) : Type 0 where
  pub size : Pose D
  pub root : Option (Node D)
  pub node_count : ℕ
  pub node_max_count : ℕ
  pub leaf_count : ℕ

unfoldable pub alloc : {D : Type 0} → Scalars D → ℕ → KdTree D
alloc s max_size = record {
  size = record { x = s.half; y = s.half; theta = s.ten_degrees };
  root = none;
  node_count = 0;
  node_max_count = max_size;
  leaf_count = 0;
}

unfoldable pub clear : {D : Type 0} → KdTree D → KdTree D
clear self = record self { root = none; leaf_count = 0; node_count = 0 }

unfoldable pub key_of : {D : Type 0} → Scalars D → KdTree D → Pose D → Key
key_of s self pose = record {
  x = s.to_int (s.floor (s.div pose.x self.size.x));
  y = s.to_int (s.floor (s.div pose.y self.size.y));
  theta = s.to_int (s.floor (s.div pose.theta self.size.theta));
}

abbrev pub eqb_ℤ : ℤ → ℤ → Bool
eqb_ℤ a b = (pos_part a + neg_part b) == (pos_part b + neg_part a)

unfoldable pub key_equal : Key → Key → Bool
key_equal a b =
    if not (eqb_ℤ a.x b.x)
    then false
    else if not (eqb_ℤ a.y b.y)
    then false
    else if not (eqb_ℤ a.theta b.theta)
    then false
    else true

-- key[i]
abbrev pub component : ℕ → Key → ℤ
component zero k = k.x
component (suc zero) k = k.y
component (suc (suc i)) k = k.theta

-- One turn of the loop that looks for the dimension in which two keys differ most: the largest
-- difference so far and its dimension, `none` for -1. Keys are taken to be so small that their
-- differences and sums are `int`s.
abbrev pub widest_step : Key → Key → ℕ → ℕ × Option ℕ → ℕ × Option ℕ
widest_step key other i (max_split, pivot_dim) =
    let split = abs_ℤ (component i key -ℤ component i other) in
    if ltb max_split split then (split, some i) else (max_split, pivot_dim)

unfoldable pub pivot_dim : Key → Key → Option ℕ
pivot_dim key other =
    (widest_step key other 2 (widest_step key other 1 (widest_step key other 0 (0, none)))).1

-- key[pivot_dim] < pivot_value, both doubled.
unfoldable pub below : ℕ → ℤ → Key → Bool
below dim pivot key = ltb_ℤ (component dim key +ℤ component dim key) pivot

-- The array `nodes` as far as the recursion changes it: what the tree does not hold.
pub record Counts : Type 0 where
  pub node_count : ℕ
  pub node_max_count : ℕ
  pub leaf_count : ℕ

-- pf_kdtree_insert_node on NULL, with the depth that the parent gives.
unfoldable pub new_leaf : {D : Type 0} → ℕ → Key → D → Counts → Option (Node D × Counts)
new_leaf depth key value self =
    if ltb self.node_count self.node_max_count
    then some (
      leaf (record {
        index = self.node_count;
        depth = depth;
        key = key;
        value = value;
        cluster = pos 0;
      }),
      record self { node_count = self.node_count + 1; leaf_count = self.leaf_count + 1 },
    )
    else none

-- A leaf whose key is new becomes a branch over two leaves.
unfoldable pub split_leaf : {D : Type 0} → Leaf D → Key → D → Counts → Option (Node D × Counts)
split_leaf node key value self = pivot_dim key node.key >>= λ dim.
    let pivot = component dim key +ℤ component dim node.key in
    if below dim pivot key
    then (do
      low ← new_leaf (node.depth + 1) key value self
      high ← new_leaf (node.depth + 1) node.key node.value (low.1)
      some (
        branch node.index node.depth dim pivot (low.0) (high.0),
        record (high.1) { leaf_count = high.1.leaf_count - 1 },
      ))
    else do
      low ← new_leaf (node.depth + 1) node.key node.value self
      high ← new_leaf (node.depth + 1) key value (low.1)
      some (
        branch node.index node.depth dim pivot (low.0) (high.0),
        record (high.1) { leaf_count = high.1.leaf_count - 1 },
      )

-- pf_kdtree_insert_node on a node that exists.
unfoldable pub insert_node :
    {D : Type 0} → Scalars D → Node D → Key → D → Counts → Option (Node D × Counts)
insert_node s (leaf node) key value self =
    if key_equal key node.key
    then some (leaf (record node { value = s.add node.value value }), self)
    else split_leaf node key value self
insert_node s (branch index depth dim pivot low high) key value self = elim (below dim pivot key) [
  | true ↦ do
    child ← insert_node s low key value self
    some (branch index depth dim pivot (child.0) high, child.1)
  | false ↦ do
    child ← insert_node s high key value self
    some (branch index depth dim pivot low (child.0), child.1)
]

-- pf_kdtree_insert_node on the root.
unfoldable pub insert_root :
    {D : Type 0} → Scalars D → Option (Node D) → Key → D → Counts → Option (Node D × Counts)
insert_root s none key value self = new_leaf 0 key value self
insert_root s (some node) key value self = insert_node s node key value self

abbrev pub counts : {D : Type 0} → KdTree D → Counts
counts self = record {
  node_count = self.node_count;
  node_max_count = self.node_max_count;
  leaf_count = self.leaf_count;
}

-- pf_kdtree_insert on the key.
unfoldable pub insert_key : {D : Type 0} → Scalars D → KdTree D → Key → D → Option (KdTree D)
insert_key s self key value = do
  r ← insert_root s self.root key value (counts self)
  some (record self { root = some (r.0); node_count = r.1.node_count; leaf_count = r.1.leaf_count })

unfoldable pub insert : {D : Type 0} → Scalars D → KdTree D → Pose D → D → Option (KdTree D)
insert s self pose value = insert_key s self (key_of s self pose) value

-- `none` for a NULL result.
unfoldable pub find_node : {D : Type 0} → Node D → Key → Option (Leaf D)
find_node (leaf node) key = if key_equal key node.key then some node else none
find_node (branch index depth dim pivot low high) key = elim (below dim pivot key) [
  | true ↦ find_node low key
  | false ↦ find_node high key
]

-- The node of a key; an empty tree's root is a NULL pointer, which find_node reads.
unfoldable pub find_key : {D : Type 0} → KdTree D → Key → Option (Option (Leaf D))
find_key self key = do root ← self.root; some (find_node root key)

unfoldable pub get_prob : {D : Type 0} → Scalars D → KdTree D → Pose D → Option D
get_prob s self pose = do
  node ← find_key self (key_of s self pose)
  some (elim node [ none ↦ s.zero | some l ↦ l.value ])

unfoldable pub get_cluster : {D : Type 0} → Scalars D → KdTree D → Pose D → Option ℤ
get_cluster s self pose = do
  node ← find_key self (key_of s self pose)
  some (elim node [ none ↦ negsuc 0 | some l ↦ l.cluster ])
