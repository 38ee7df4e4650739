-- ===== src/Chunks/Partial.antt =====
-- The iterators of src/iter.rs over the part of a tree that a set of ranges selects, in pre order:
-- `PreOrderPartialChunkIterRef`. A `SmallVec` is a list whose
-- head is the last element. range_collections is a parameter.
pub mod Select
pub mod Walk
use bao_tree.Base.{
  ℕ, zero, suc, ltb, leb, ◌==◌, if◌then◌else◌, Bool, true, false, not, ◌&&◌, ◌||◌, Option, none,
  some, List, [], ◌∷◌,
}
use mathlib.Core.Option
use bao_tree.Word.{u64_sub}
use bao_tree.Sizes.{chunks_to_bytes}
use bao_tree.Outcome.{Outcome, ok, err, panic, ◌>>=◌, unwrap}
use bao_tree.Node.{
  TreeNode, level, mid, chunk_range, left_child, right_descendant, subtract_block_size,
}
use bao_tree.Node
use bao_tree.Hashing.{RangeSets, split}
use bao_tree.Tree.{BaoTree, shifted, is_persisted}
use bao_tree.Tree
use bao_tree.Chunks.{BaoChunk, parent, leaf, without_ranges}

pub record PreOrderPartialChunkIterRef (R : Type 0) : Type 0 where
  pub tree : BaoTree
  pub min_full_level : ℕ
  pub stack : List (TreeNode × R)
  pub shifted_filled_size : TreeNode
  pub shifted_root : TreeNode
  pub buffer : List (BaoChunk R)

unfoldable pub new : {R : Type 0} → BaoTree → R → ℕ → PreOrderPartialChunkIterRef R
new t ranges min_full_level =
    let (shifted_root, shifted_filled_size) = shifted t in
    record {
      tree = t;
      min_full_level = min_full_level;
      stack = (shifted_root, ranges) ∷ [];
      shifted_filled_size = shifted_filled_size;
      shifted_root = shifted_root;
      buffer = [];
    }

module _ {R : Type 0} (s : RangeSets R) where
  -- `if !ranges.is_empty() { stack.push((child.unwrap(), ranges)) }`
  unfoldable pub push_child :
      {E : Type 0} → Option TreeNode → R → List (TreeNode × R) → Outcome E (List (TreeNode × R))
  push_child child ranges stack = elim (s.is_empty ranges) [
    | true ↦ ok stack
    | false ↦ do c ← unwrap child; ok ((c, ranges) ∷ stack)
  ]

  unfoldable pub push_leaf : BaoChunk R → R → List (BaoChunk R) → List (BaoChunk R)
  push_leaf chunk ranges buffer = if s.is_empty ranges then buffer else chunk ∷ buffer

  -- `next` behind the two `pop`.
  unfoldable pub visit :
      {E : Type 0}
      → PreOrderPartialChunkIterRef R
      → TreeNode
      → R
      → Outcome E (Option (BaoChunk R) × PreOrderPartialChunkIterRef R)
  visit it shifted_node ranges =
      let t = it.tree in
      let node = subtract_block_size shifted_node t.block_size in
      let query_leaf = s.is_all ranges && ltb (level node) it.min_full_level in
      let is_root = shifted_node == it.shifted_root in
      let chunks = chunk_range node in
      let bytes = Tree.byte_range t node in
      let size = u64_sub bytes.end bytes.start in
      let mid_bytes = chunks_to_bytes (mid node) in
      let halves = split s ranges (mid node) in
      let pair =
        parent node is_root (not (s.is_empty halves.0)) (not (s.is_empty halves.1)) ranges in
      elim query_leaf [
        | true ↦ ok (some (leaf chunks.start size is_root ranges), it)
        | false ↦ elim (Node.is_leaf shifted_node) [
          | false ↦ do
            stack ←
                push_child (right_descendant shifted_node it.shifted_filled_size) halves.1 it.stack
            stack ← push_child (left_child shifted_node) halves.0 stack
            ok (some pair, record it { stack = stack })
          | true ↦
              if leb t.size mid_bytes
              then ok (some (leaf chunks.start size is_root ranges), it)
              else let right = leaf (mid node) (u64_sub bytes.end mid_bytes) false halves.1 in
                let left = leaf chunks.start (u64_sub mid_bytes bytes.start) false halves.0 in
                ok (
                  some pair,
                  record it {
                    buffer = push_leaf left halves.0 (push_leaf right halves.1 it.buffer);
                  },
                )
        ]
      ]

  unfoldable pub next :
      {E : Type 0}
      → PreOrderPartialChunkIterRef R
      → Outcome E (Option (BaoChunk R) × PreOrderPartialChunkIterRef R)
  next it = elim it.buffer [
    | item ∷ rest ↦ ok (some item, record it { buffer = rest })
    | [] ↦ elim it.stack [
      | [] ↦ ok (none, it)
      | (shifted_node, ranges) ∷ rest ↦ visit (record it { stack = rest }) shifted_node ranges
    ]
  ]

  -- The items up to the first `None`, in at most `items` calls.
  unfoldable pub yields :
      {E : Type 0} → ℕ → PreOrderPartialChunkIterRef R → Outcome E (List (BaoChunk R))
  yields zero it = panic
  yields (suc items) it = do
    (item, it) ← next it
    elim item [ none ↦ ok [] | some c ↦ do cs ← yields items it; ok (c ∷ cs) ]
