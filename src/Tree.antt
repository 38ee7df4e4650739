-- ===== src/Tree.antt =====
-- `BaoTree` of src/lib.rs: the geometry of the tree over a blob of `size` bytes in blocks of
-- `1024 * 2 ^ block_size` bytes. A node of the tree is numbered in chunks; the node without its
-- `block_size` low ones is called shifted.
pub mod Shape
pub mod Nodes
pub mod Offsets
pub mod PostOffsets
pub mod Traversals
pub mod Persisted
use bao_tree.Base.{
  ℕ, ◌+◌, ◌-◌, ◌*◌, ◌/◌, min, max, bit_and, ltb, leb, ◌==◌, if◌then◌else◌, Bool, true,
}
use bao_tree.Base.{false, not, ◌&&◌, ◌||◌, Option, none, some, List, map}
use bao_tree.Word.{
  u64_add, u64_sub, u64_mul, shl, shr, checked_sub, saturating_sub, next_power_of_two,
}
use bao_tree.Sizes.{ByteNum, ChunkNum, BlockNum, BlockSize, chunks_to_bytes}
use bao_tree.Sizes.{open_part}
use bao_tree.Sizes
use bao_tree.Node.{TreeNode, Range, mid, level, add_block_size, subtract_block_size, right_count}
use bao_tree.Node.{pre_order_offset_loop}
use bao_tree.Node
use bao_tree.Iter
use bao_tree.Iter.PostOrder
use bao_tree.Iter.PreOrder

pub record BaoTree : Type 0 where
  pub size : ByteNum
  pub block_size : BlockSize

pub data PostOrderOffset : Type 0 where
  stable unstable : ℕ → PostOrderOffset

unfoldable pub value : PostOrderOffset → ℕ
value (stable n) = n
value (unstable n) = n

unfoldable pub shifted : BaoTree → TreeNode × TreeNode
unfolding open_part
shifted t =
    let shift = 10 + t.block_size in
    let full_blocks = shr t.size shift in
    let open_block = open_part t.size shift in
    let blocks = max (u64_add full_blocks open_block) 1 in
    let n = u64_add blocks 1 / 2 in
    let root = u64_sub (next_power_of_two n) 1 in
    let filled_size = u64_add n (saturating_sub n 1) in (root, filled_size)

unfoldable pub byte_range : BaoTree → TreeNode → Range
byte_range t node =
    let start = chunks_to_bytes (Node.chunk_range node).start in
    let end = chunks_to_bytes (Node.chunk_range node).end in
    record { start = start; end = min end t.size }

-- `(start, mid, end)`
unfoldable pub leaf_byte_ranges3 : BaoTree → TreeNode → ByteNum × ByteNum × ByteNum
leaf_byte_ranges3 t leaf =
    let range = Node.byte_range leaf in
    let mid_bytes = chunks_to_bytes (mid leaf) in
    (range.start, min mid_bytes t.size, min range.end t.size)

unfoldable pub root : BaoTree → TreeNode
unfolding open_part
root t =
    let full_blocks = shr t.size 10 in
    let open_block = open_part t.size 10 in
    let blocks = max (u64_add full_blocks open_block) 1 in Node.root blocks

-- Even a tree of size 0 has a single block.
unfoldable pub blocks : BaoTree → BlockNum
blocks t = max (Sizes.blocks t.size t.block_size) 1

unfoldable pub chunks : BaoTree → ChunkNum
chunks t = Sizes.chunks t.size

unfoldable pub outboard_hash_pairs : BaoTree → ℕ
outboard_hash_pairs t = u64_sub (blocks t) 1

unfoldable pub outboard_size : ByteNum → BlockSize → ByteNum
outboard_size size block_size =
    let tree : BaoTree = record { size = size; block_size = block_size } in
    u64_add (u64_mul (outboard_hash_pairs tree) 64) 8

unfoldable pub filled_size : BaoTree → TreeNode
filled_size t = let n = u64_add (chunks t) 1 / 2 in u64_add n (saturating_sub n 1)

unfoldable pub is_leaf : BaoTree → TreeNode → Bool
is_leaf t node = level node == t.block_size

unfoldable pub is_persisted : BaoTree → TreeNode → Bool
unfolding is_leaf
is_persisted t node = not (is_leaf t node) || ltb (chunks_to_bytes (mid node)) t.size

unfoldable pub is_relevant_for_outboard : BaoTree → TreeNode → Bool
is_relevant_for_outboard t node =
    let level = level node in
    if ltb level t.block_size
    then false
    else if ltb t.block_size level
    then true
    else ltb (chunks_to_bytes (mid node)) t.size

-- The outer `none` is a loop that does not end.
unfoldable pub pre_order_offset : BaoTree → TreeNode → Option (Option ℕ)
pre_order_offset t node = elim (add_block_size node t.block_size) [
  | none ↦ some none
  | some s ↦
      let is_half_leaf = Node.is_leaf s && leb t.size (chunks_to_bytes (mid node)) in
      if not is_half_leaf
      then elim (pre_order_offset_loop s (shifted t).1) [ none ↦ none | some o ↦ some (some o) ]
      else some none
]

unfoldable pub post_order_offset : BaoTree → TreeNode → Option PostOrderOffset
post_order_offset t node = elim (add_block_size node t.block_size) [
  | none ↦ none
  | some s ↦
      if leb (Node.byte_range node).end t.size
      then some (stable (Node.post_order_offset s))
      else if Node.is_leaf s && leb t.size (chunks_to_bytes (mid node))
      then none
      else elim (checked_sub (outboard_hash_pairs t) (u64_add (right_count node) 1)) [
        | none ↦ none
        | some o ↦ some (unstable o)
      ]
]

unfoldable pub chunk_group_chunks : BaoTree → ChunkNum
chunk_group_chunks t = shl 1 t.block_size

unfoldable pub chunk_group_bytes : BaoTree → ByteNum
unfolding chunk_group_chunks
chunk_group_bytes t = chunks_to_bytes (chunk_group_chunks t)

-- All that the iterators over the tree yield; `none` is a panic or too little fuel.
unfoldable pub post_order_nodes : BaoTree → ℕ → Option (List TreeNode)
post_order_nodes t fuel =
    let (root, len) = shifted t in
    elim (PostOrder.yields fuel (Iter.new root len)) [
      | none ↦ none
      | some ns ↦ some (map (λ x. subtract_block_size x t.block_size) ns)
    ]

unfoldable pub pre_order_nodes : BaoTree → ℕ → Option (List TreeNode)
pre_order_nodes t fuel =
    let (root, len) = shifted t in
    elim (PreOrder.yields fuel (Iter.new root len)) [
      | none ↦ none
      | some ns ↦ some (map (λ x. subtract_block_size x t.block_size) ns)
    ]
