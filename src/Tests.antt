-- ===== src/Tests.antt =====
-- The theorems at small inputs.
mod Toy
mod Hashes
mod Faults
mod Stored
mod Files
mod Streams
mod Tampered
mod Ranges
mod Valid
mod References
use bao_tree.Tests.Toy.{tree, tree-IsValid, inside, last_inside}
use bao_tree.Base.{ℕ, ◌*◌, ◌≤◌, ◌<◌, ◌≡◌, refl, arith, length, get_elem?, some, not, ◌==◌, ◌⊎◌}
use bao_tree.Word.{
  shr, shl, next_power_of_two, power_from, trailing_ones, low_ones, count_ones, ones,
  trailing_zeros,
}
use bao_tree.Sizes.{open_part, chunks, blocks, bytes, from_bytes}
use bao_tree.Sizes.Rounding.{Covers, chunks-Covers, blocks-Covers}
use bao_tree.Sizes.BlockSizes.{from_bytes-bytes, bytes-from_bytes}
use bao_tree.Node.{
  level, post_order_offset, pre_order_offset_loop, node_range, half_span, chunk_range,
  subtract_block_size,
}
use bao_tree.Node.Family.{HasChildren, branch-HasChildren}
use bao_tree.Traversal.{pre_order, post_order, below}
use bao_tree.Traversal.PreOffsets.{pre_order_offset_loop_lem}
use bao_tree.Traversal.PostOffsets.{post_order_offset_lem}
use bao_tree.Tree.{
  BaoTree, shifted, outboard_hash_pairs, post_order_nodes, pre_order_nodes, is_persisted,
  is_relevant_for_outboard,
}
use bao_tree.Tree
use bao_tree.Chunks.{post_order_chunks}
use bao_tree.Chunks.Order.{chunks_of_all, post_order_chunks_lem}
use bao_tree.Tree.Shape.{IsValid}
use bao_tree.Tree.Offsets.{
  PreResult, persisted_pre, persisted_post, pre_order_offset_lem, length-persisted_pre,
  length-persisted_post,
}
use bao_tree.Tree.PostOffsets.{PostResult, post_order_offset_tree}
use bao_tree.Tree.Traversals.{all_post, all_pre, post_order_nodes_lem, pre_order_nodes_lem}
use bao_tree.Tree.Persisted.{persisted_unless_last, root-covers}

pre_order_offset_lem_example : PreResult tree 1
pre_order_offset_lem_example = pre_order_offset_lem tree 1 tree-IsValid inside

post_order_offset_tree_example : PostResult tree 1
post_order_offset_tree_example = post_order_offset_tree tree 1 tree-IsValid inside

post_order_nodes_lem_example : (fuel : ℕ) × (post_order_nodes tree fuel ≡ some (all_post tree))
post_order_nodes_lem_example = post_order_nodes_lem tree tree-IsValid

pre_order_nodes_lem_example : (fuel : ℕ) × (pre_order_nodes tree fuel ≡ some (all_pre tree))
pre_order_nodes_lem_example = pre_order_nodes_lem tree tree-IsValid

pre_order_offset_loop_lem_example :
    (i : ℕ) × (pre_order_offset_loop 4 5 ≡ some i)
    × (get_elem? (below 5 (pre_order 2 0)) i ≡ some 4)
pre_order_offset_loop_lem_example =
    pre_order_offset_loop_lem 5 2 4 (omega arith) (omega arith) (omega arith)

five_range : (node_range 5).end ≤ 11
unfolding node_range half_span level trailing_ones low_ones shl
five_range = omega arith

post_order_offset_lem_example : get_elem? (below 11 (post_order 3 0)) (post_order_offset 5) ≡ some 5
post_order_offset_lem_example =
    post_order_offset_lem 11 3 5 (omega arith) (omega arith) (omega arith) five_range

five_branch : 0 < level 5
unfolding level trailing_ones low_ones
five_branch = omega arith

branch-HasChildren_example : HasChildren 5
branch-HasChildren_example = branch-HasChildren 5 (omega arith) five_branch

persisted_unless_last_example :
    (is_persisted tree (subtract_block_size 2 1) ≡ not (3 == Tree.blocks tree))
    × (is_relevant_for_outboard tree (subtract_block_size 2 1)
        ≡ is_persisted tree (subtract_block_size 2 1))
persisted_unless_last_example = persisted_unless_last tree 2 tree-IsValid last_inside

root-covers_example :
    ((chunk_range (Tree.root tree)).start ≡ 0)
    × (Tree.chunks tree ≤ (chunk_range (Tree.root tree)).end)
    × (((chunk_range (Tree.root tree)).end ≡ 2)
        ⊎ ((chunk_range (Tree.root tree)).end < 2 * Tree.chunks tree))
root-covers_example = root-covers tree tree-IsValid

from_bytes-bytes_example : from_bytes (bytes 4) ≡ some 4
from_bytes-bytes_example = from_bytes-bytes 4 (omega arith)

accepts : from_bytes 16384 ≡ some 4
unfolding from_bytes count_ones ones trailing_zeros low_ones
accepts = refl

bytes-from_bytes_example : bytes 4 ≡ 16384
bytes-from_bytes_example = bytes-from_bytes 16384 4 (omega arith) accepts

post_order_chunks_lem_example :
    (items : ℕ) × (fuel : ℕ) × (post_order_chunks tree items fuel
      ≡ some (
          chunks_of_all tree
            (shifted tree).0
            (below (shifted tree).1 (post_order (level (shifted tree).0) 0))))
post_order_chunks_lem_example = post_order_chunks_lem tree tree-IsValid
