-- ===== src/Node.antt =====
-- `TreeNode` of src/lib.rs: a node of the tree, numbered by an in-order traversal. A node whose
-- number ends in `l` ones stands at level `l`. The newtype over `u64` is a number here.
pub mod Place
pub mod Family
pub mod Climb
pub mod Blocks
use bao_tree.Base.{ℕ, zero, suc, ◌+◌, ◌-◌, ◌/◌, ◌^◌, bit_and, ltb, leb, ◌==◌, if◌then◌else◌}
use bao_tree.Base.{Bool, true, false, Option, none, some}
use bao_tree.Word.{u64_add, u64_sub, u64_mul, bit_not, shl, shr, checked_sub}
use bao_tree.Word.{count_ones, trailing_ones, trailing_zeros, next_power_of_two}
use bao_tree.Sizes.{ChunkNum, ByteNum, chunks_to_bytes}

abbrev pub TreeNode : Type 0
TreeNode = ℕ

-- `a..b`
pub record Range : Type 0 where
  pub start : ℕ
  pub end : ℕ

unfoldable pub root : ChunkNum → TreeNode
root chunks = u64_sub (next_power_of_two (u64_add chunks 1 / 2)) 1

unfoldable pub mid : TreeNode → ChunkNum
mid n = u64_add n 1

unfoldable pub level : TreeNode → ℕ
level n = trailing_ones n

unfoldable pub half_span : TreeNode → ℕ
half_span n = shl 1 (level n)

unfoldable pub is_leaf : TreeNode → Bool
is_leaf n = bit_and n 1 == 0

unfoldable pub subtract_block_size : TreeNode → ℕ → TreeNode
subtract_block_size n b = bit_not (shl (bit_not n) b)

unfoldable pub add_block_size : TreeNode → ℕ → Option TreeNode
add_block_size n b =
    let mask = u64_sub (shl 1 b) 1 in if bit_and n mask == mask then some (shr n b) else none

unfoldable pub chunk_range : TreeNode → Range
chunk_range n =
    let span = shl 1 (level n) in
    let mid = u64_add n 1 in record { start = u64_sub mid span; end = u64_add mid span }

unfoldable pub byte_range : TreeNode → Range
byte_range n =
    let range = chunk_range n in
    record { start = chunks_to_bytes range.start; end = chunks_to_bytes range.end }

unfoldable pub node_range : TreeNode → Range
node_range n =
    let half_span = half_span n in
    record { start = u64_sub (u64_add n 1) half_span; end = u64_add n half_span }

unfoldable pub count_below : TreeNode → ℕ
count_below n =
    let x = u64_add n 1 in
    let lowest_bit = bit_and x (u64_sub 0 x) in u64_sub (u64_mul lowest_bit 2) 2

unfoldable pub next_left_ancestor0 : TreeNode → Option ℕ
next_left_ancestor0 n =
    let x = u64_add n 1 in
    let without_lowest_bit = bit_and x (u64_sub x 1) in checked_sub without_lowest_bit 1

unfoldable pub next_left_ancestor : TreeNode → Option TreeNode
unfolding next_left_ancestor0
next_left_ancestor n = next_left_ancestor0 n

unfoldable pub left_child : TreeNode → Option TreeNode
left_child n = elim (checked_sub (level n) 1) [ none ↦ none | some l ↦ some (u64_sub n (shl 1 l)) ]

unfoldable pub right_child : TreeNode → Option TreeNode
right_child n = elim (checked_sub (level n) 1) [ none ↦ none | some l ↦ some (u64_add n (shl 1 l)) ]

unfoldable pub parent : TreeNode → Option TreeNode
parent n =
    let l = level n in
    let span = shl 1 l in
    if l == 63
    then none
    else some (if bit_and n (u64_mul span 2) == 0 then u64_add n span else u64_sub n span)

-- The loop climbs until a parent is below `len`. Each round but one from `u64::MAX` raises the
-- level, and at level 63 there is no parent, so it makes fewer rounds than the fuel given.
unfoldable pub restricted_parent_loop : ℕ → TreeNode → TreeNode → Option TreeNode
restricted_parent_loop zero curr len = none
restricted_parent_loop (suc fuel) curr len = elim (parent curr) [
  | none ↦ none
  | some p ↦ elim (ltb p len) [ true ↦ some p | false ↦ restricted_parent_loop fuel p len ]
]

unfoldable pub restricted_parent : TreeNode → TreeNode → Option TreeNode
restricted_parent n len = restricted_parent_loop 66 n len

-- Each round goes down one level, and at level 0 there is no child.
unfoldable pub descend_loop : ℕ → TreeNode → TreeNode → Option TreeNode
descend_loop zero node len = none
descend_loop (suc fuel) node len = elim (leb len node) [
  | true ↦ elim (left_child node) [ none ↦ none | some c ↦ descend_loop fuel c len ]
  | false ↦ some node
]

unfoldable pub right_descendant : TreeNode → TreeNode → Option TreeNode
right_descendant n len = elim (right_child n) [ none ↦ none | some node ↦ descend_loop 66 node len ]

unfoldable pub right_count : TreeNode → ℕ
right_count n = let ones = count_ones (u64_add n 1) in if ones == 0 then 2 ^ 32 - 1 else ones - 1

unfoldable pub post_order_offset : TreeNode → ℕ
post_order_offset n = elim (next_left_ancestor0 n) [
  | some nla ↦ u64_sub (u64_add (u64_add (count_below n) nla) 1) (count_ones (u64_add nla 1))
  | none ↦ count_below n
]

unfoldable pub post_order_range : TreeNode → Range
post_order_range n =
    let offset = post_order_offset n in
    record { start = u64_sub offset (count_below n); end = u64_add offset 1 }

-- One round of the loop after another; `none` is a loop that has not ended in `fuel` rounds.
unfoldable pub count_parents : ℕ → ℕ → ℕ → ℕ → ℕ → Option ℕ
count_parents zero offset span parent_count len = none
count_parents (suc fuel) offset span parent_count len =
    let pspan = u64_mul span 2 in
    let up = if bit_and offset pspan == 0 then u64_add offset span else u64_sub offset span in
    let count = if ltb up len then parent_count + 1 else parent_count in
    elim (leb len pspan) [ true ↦ some count | false ↦ count_parents fuel up pspan count len ]

unfoldable pub pre_order_offset_loop : ℕ → ℕ → Option ℕ
pre_order_offset_loop node len =
    let level = trailing_zeros (bit_not node) in
    let span = shl 1 level in
    let left = u64_sub (u64_add node 1) span in
    elim (count_parents 66 node span 0 len) [
      | none ↦ none
      | some parent_count ↦ some (u64_add (u64_sub left (count_ones left)) parent_count)
    ]
