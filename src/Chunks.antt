-- ===== src/Chunks.antt =====
-- `BaoChunk` and `PostOrderChunkIter` of src/iter.rs: the hash pairs and the pieces of data of a
-- blob in post order.
pub mod Order
pub mod Partial
pub mod Response
use bao_tree.Base.{
  ℕ, zero, suc, Bool, true, false, not, if◌then◌else◌, ◌&&◌, ◌==◌, Option, none, some, List, [],
  ◌∷◌,
}
use bao_tree.Word.{u64_add, u64_sub}
use bao_tree.Sizes.{ChunkNum}
use bao_tree.Node.{TreeNode, chunk_range, subtract_block_size}
use bao_tree.Node
use bao_tree.Iter.{NodeIter}
use bao_tree.Iter
use bao_tree.Iter.PostOrder
use bao_tree.Tree.{BaoTree, shifted, leaf_byte_ranges3, chunk_group_chunks}

-- `parent node is_root left right ranges` and `leaf start_chunk size is_root ranges`.
pub data BaoChunk (R : Type 0) : Type 0 where
  parent : TreeNode → Bool → Bool → Bool → R → BaoChunk R
  leaf : ChunkNum → ℕ → Bool → R → BaoChunk R

unfoldable pub without_ranges : {R : Type 0} → BaoChunk R → BaoChunk Unit
without_ranges (parent node is_root left right ranges) = parent node is_root left right tt
without_ranges (leaf start_chunk size is_root ranges) = leaf start_chunk size is_root tt

pub record PostOrderChunkIter : Type 0 where
  pub tree : BaoTree
  pub inner : NodeIter
  pub stack : List (BaoChunk Unit)
  pub shifted_root : TreeNode

unfoldable pub new : BaoTree → PostOrderChunkIter
new tree =
    let (shifted_root, shifted_len) = shifted tree in
    record {
      tree = tree;
      inner = Iter.new shifted_root shifted_len;
      stack = [];
      shifted_root = shifted_root;
    }

-- The state after `inner` has returned a node, and the chunk that the round breaks with, if it does.
unfoldable pub take_node :
    PostOrderChunkIter → TreeNode → Option (BaoChunk Unit) × PostOrderChunkIter
take_node it shifted_node =
    let is_root = shifted_node == it.shifted_root in
    let node = subtract_block_size shifted_node (it.tree.block_size) in
    elim (Node.is_leaf shifted_node) [
      | true ↦
          let (s, m, e) = leaf_byte_ranges3 it.tree node in
          let l_start_chunk = (chunk_range node).start in
          let r_start_chunk = u64_add l_start_chunk (chunk_group_chunks it.tree) in
          let is_half_leaf = m == e in
          let pushed : List (BaoChunk Unit) =
            if not is_half_leaf
            then leaf r_start_chunk (u64_sub e m) false tt
              ∷ (parent node is_root true true tt ∷ it.stack)
            else it.stack in
          (
            some (leaf l_start_chunk (u64_sub m s) (is_root && is_half_leaf) tt),
            record it { stack = pushed },
          )
      | false ↦ (none, record it { stack = parent node is_root true true tt ∷ it.stack })
    ]

-- The `loop` of `next` for `rounds` rounds, with `fuel` for the loop in each call of `inner`.
unfoldable pub next :
    ℕ → ℕ → PostOrderChunkIter → Option (Option (BaoChunk Unit) × PostOrderChunkIter)
next zero fuel it = none
next (suc rounds) fuel it = elim (it.stack) [
  | item ∷ rest ↦ some (some item, record it { stack = rest })
  | [] ↦ elim (PostOrder.next fuel it.inner) [
    | none ↦ none
    | some (none, inner) ↦ some (none, record it { inner = inner })
    | some (some node, inner) ↦
        let (item, it) = take_node (record it { inner = inner }) node in
        elim item [ some item ↦ some (some item, it) | none ↦ next rounds fuel it ]
  ]
]

-- The items up to the first `None`: two rounds are enough for each.
unfoldable pub yields : ℕ → ℕ → PostOrderChunkIter → Option (List (BaoChunk Unit))
yields zero fuel it = none
yields (suc items) fuel it = elim (next 2 fuel it) [
  | none ↦ none
  | some (none, it) ↦ some []
  | some (some c, it) ↦ elim (yields items fuel it) [ none ↦ none | some cs ↦ some (c ∷ cs) ]
]

-- `post_order_chunks_iter`, run to its end.
unfoldable pub post_order_chunks : BaoTree → ℕ → ℕ → Option (List (BaoChunk Unit))
post_order_chunks t items fuel = yields items fuel (new t)
