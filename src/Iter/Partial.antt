-- ===== src/Iter/Partial.antt =====
-- `NodeInfo` and `PreOrderPartialIterRef` of src/iter.rs: the nodes that a set of ranges meets, in pre
-- order. The head of the stack is its last element; an unwrap that fails is a panic.
use bao_tree.Base.{
  ℕ, ltb, ◌==◌, if◌then◌else◌, Bool, true, false, not, ◌&&◌, ◌||◌, Option, none, some, List, [],
  ◌∷◌,
}
use bao_tree.Outcome.{Outcome, ok, ◌>>=◌, unwrap}
use bao_tree.Node.{TreeNode, level, mid, left_child, right_descendant, subtract_block_size}
use bao_tree.Node
use bao_tree.Hashing.{RangeSets, split}
use bao_tree.Tree.{BaoTree, shifted, is_persisted}

pub record NodeInfo (R : Type 0) : Type 0 where
  pub node : TreeNode
  pub is_root : Bool
  pub ranges : R
  pub l_ranges : R
  pub r_ranges : R
  pub full : Bool
  pub query_leaf : Bool
  pub is_half_leaf : Bool

pub record PreOrderPartialIterRef (R : Type 0) : Type 0 where
  pub tree : BaoTree
  pub min_level : ℕ
  pub stack : List (TreeNode × R)
  pub shifted_filled_size : TreeNode
  pub shifted_root : TreeNode

unfoldable pub new : {R : Type 0} → BaoTree → R → ℕ → PreOrderPartialIterRef R
new t ranges min_level =
    let (shifted_root, shifted_filled_size) = shifted t in
    record {
      tree = t;
      min_level = min_level;
      stack = (shifted_root, ranges) ∷ [];
      shifted_filled_size = shifted_filled_size;
      shifted_root = shifted_root;
    }

module _ {R : Type 0} (s : RangeSets R) where
  -- What `next` makes of a node whose ranges are not empty.
  unfoldable pub info : PreOrderPartialIterRef R → TreeNode → R → NodeInfo R
  info it shifted_node ranges =
      let node = subtract_block_size shifted_node it.tree.block_size in
      let is_half_leaf = not (is_persisted it.tree node) in
      let halves = if not is_half_leaf then split s ranges (mid node) else (ranges, ranges) in
      let full = s.is_all ranges in
      record {
        node = node;
        is_root = shifted_node == it.shifted_root;
        ranges = ranges;
        l_ranges = halves.0;
        r_ranges = halves.1;
        full = full;
        query_leaf = Node.is_leaf shifted_node || (full && ltb (level node) it.min_level);
        is_half_leaf = is_half_leaf;
      }

  unfoldable pub push_children :
      {E : Type 0}
      → PreOrderPartialIterRef R
      → TreeNode
      → NodeInfo R
      → List (TreeNode × R)
      → Outcome E (List (TreeNode × R))
  push_children it shifted_node found stack = elim (found.query_leaf) [
    | true ↦ ok stack
    | false ↦ do
      l ← unwrap (left_child shifted_node)
      r ← unwrap (right_descendant shifted_node it.shifted_filled_size)
      ok ((l, found.l_ranges) ∷ ((r, found.r_ranges) ∷ stack))
  ]

  -- The loop of `next`, which pops a node in each round.
  unfoldable pub next_from :
      {E : Type 0}
      → PreOrderPartialIterRef R
      → List (TreeNode × R)
      → Outcome E (Option (NodeInfo R) × PreOrderPartialIterRef R)
  next_from it [] = ok (none, record it { stack = [] })
  next_from it ((shifted_node, ranges) ∷ stack) = elim (s.is_empty ranges) [
    | true ↦ next_from it stack
    | false ↦ do
      let found = info it shifted_node ranges
      stack ← push_children it shifted_node found stack
      ok (some found, record it { stack = stack })
  ]

  unfoldable pub next :
      {E : Type 0}
      → PreOrderPartialIterRef R
      → Outcome E (Option (NodeInfo R) × PreOrderPartialIterRef R)
  next it = next_from it it.stack
