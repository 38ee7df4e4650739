-- ===== src/Reference.antt =====
-- The recursive reference of src/rec.rs for the chunk iterators: `select_nodes_rec`,
-- `partial_chunk_iter_reference` and `response_iter_reference`, and
-- `TreeNode::from_start_chunk_and_level` of src/lib.rs, which it calls. What `emit` is called with is
-- a list; `none` is a panic of an assertion.
pub mod Levels
pub mod Places
pub mod Steps
pub mod Halves
pub mod Leaves
pub mod Agreement
use bao_tree.Base.{
  ℕ, zero, suc, ◌+◌, bit_and, ◌-◌, ◌/◌, ◌%◌, bit_or, leb, ltb, ◌==◌, Bool, true, false, not, ◌&&◌,
  ◌||◌, Option, none, some, List, [], ◌∷◌, ◌++◌, map,
}
use bao_tree.Word.{u64_add, u64_sub, shl, trailing_zeros}
use bao_tree.Sizes.{ChunkNum, blake3_chunk_size}
use bao_tree.Hashing.{RangeSets, chunk_count, mid_bytes, split}
use bao_tree.Node.{TreeNode}
use bao_tree.Tree.{BaoTree}
use bao_tree.Chunks.{BaoChunk, parent, leaf, without_ranges}

-- The level of a subtree over more than one chunk.
unfoldable pub level_of : ℕ → ℕ
level_of size = trailing_zeros (chunk_count size) - 1

-- With its debug assertion, since it is compiled for tests only.
unfoldable pub from_start_chunk_and_level : ChunkNum → ℕ → Option TreeNode
from_start_chunk_and_level start_chunk level =
    let check_mask = u64_sub (shl 1 (level + 1)) 1 in
    elim (bit_and start_chunk check_mask == 0) [
      | false ↦ none
      | true ↦ some (bit_or start_chunk (u64_sub (shl 1 level) 1))
    ]

module _ {R : Type 0} (s : RangeSets R) where
  unfoldable pub select_nodes_rec : ℕ → ChunkNum → ℕ → Bool → R → ℕ → ℕ → Option (List (BaoChunk R))
  unfolding level_of
  select_nodes_rec zero start_chunk size is_root ranges tree_level min_full_level = none
  select_nodes_rec (suc fuel) start_chunk size is_root ranges tree_level min_full_level =
      elim (s.is_empty ranges) [
        | true ↦ some []
        | false ↦ elim (leb size blake3_chunk_size) [
          | true ↦ some (leaf start_chunk size is_root ranges ∷ [])
          | false ↦
              let chunks = chunk_count size in
              let level = level_of size in
              let full = s.is_all ranges in
              elim (ltb level tree_level || (full && ltb level min_full_level)) [
                | true ↦ some (leaf start_chunk size is_root ranges ∷ [])
                | false ↦ elim (start_chunk % 2 == 0) [
                  | false ↦ none
                  | true ↦
                      let mid_chunk = u64_add start_chunk (chunks / 2) in
                      let halves = split s ranges mid_chunk in
                      elim (from_start_chunk_and_level start_chunk level) [
                        | none ↦ none
                        | some node ↦
                            let pair =
                              parent node is_root (not (s.is_empty halves.0))
                                (not (s.is_empty halves.1)) ranges in
                            elim (select_nodes_rec fuel start_chunk (mid_bytes chunks) false
                              halves.0 tree_level min_full_level) [
                                | none ↦ none
                                | some ls ↦
                                    elim (select_nodes_rec fuel mid_chunk
                                      (u64_sub size (mid_bytes chunks)) false halves.1 tree_level
                                      min_full_level) [
                                        | none ↦ none
                                        | some rs ↦ some (pair ∷ (ls ++ rs))
                                      ]
                              ]
                      ]
                ]
              ]
        ]
      ]

  -- On fuel for 64 halvings of the size.
  unfoldable pub partial_chunk_iter_reference : BaoTree → R → ℕ → Option (List (BaoChunk R))
  partial_chunk_iter_reference t ranges min_full_level =
      select_nodes_rec 64 0 t.size true ranges t.block_size min_full_level

  unfoldable pub response_iter_reference : BaoTree → R → Option (List (BaoChunk Unit))
  response_iter_reference t ranges =
      elim (select_nodes_rec 64 0 t.size true ranges 0 t.block_size) [
        | none ↦ none
        | some cs ↦ some (map without_ranges cs)
      ]
