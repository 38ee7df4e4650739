-- ===== src/Reference/Steps.antt =====
-- The branches of `select_nodes_rec`.
use bao_tree.Base.{
  ℕ, suc, ◌*◌, ◌/◌, ◌%◌, ◌^◌, ◌≤◌, ◌<◌, ◌≡◌, refl, arith, inl, inr, Bool, true, false, not, ◌&&◌,
  ◌||◌, ltb, le→leb, gt→leb, lt→ltb, eq→==, lt-cases, Bool-cases, some, List, [], ◌∷◌, ◌++◌,
  two-pow-le, lt_of_two-pow-lt,
}
use bao_tree.Word.{u64_add, u64_sub}
use bao_tree.Sizes.{ChunkNum}
use bao_tree.Hashing.{RangeSets, split, chunk_count, mid_bytes}
use bao_tree.Chunks.{BaoChunk, parent, leaf}
use bao_tree.Chunks.Partial.{push_leaf}
use bao_tree.Node.{TreeNode}
use bao_tree.Reference.{level_of, from_start_chunk_and_level, select_nodes_rec}
use bao_tree.Reference.Levels.{some_level, level_of_lem}

module _ {R : Type 0} (s : RangeSets R) (tree_level min_full_level : ℕ) where
  -- The test for data that is not taken apart.
  abbrev pub stops : ℕ → R → Bool
  stops size r =
      ltb (level_of size) tree_level || (s.is_all r && ltb (level_of size) min_full_level)

  module _ (fuel : ℕ) (start : ChunkNum) (size : ℕ) (is_root : Bool) (r : R) where
    pub rec-empty :
        s.is_empty r ≡ true
        → select_nodes_rec s (suc fuel) start size is_root r tree_level min_full_level ≡ some []
    unfolding select_nodes_rec
    rec-empty e = rw (select_nodes_rec, e) refl

    pub rec-chunk :
        s.is_empty r ≡ false
        → size ≤ 1024
        → select_nodes_rec s (suc fuel) start size is_root r tree_level min_full_level
          ≡ some (leaf start size is_root r ∷ [])
    unfolding select_nodes_rec
    rec-chunk e small = rw (select_nodes_rec, e, le→leb size 1024 small) refl

    pub rec-stops :
        s.is_empty r ≡ false
        → stops size r ≡ true
        → select_nodes_rec s (suc fuel) start size is_root r tree_level min_full_level
          ≡ some (leaf start size is_root r ∷ [])
    unfolding select_nodes_rec
    rec-stops e stop = elim (lt-cases 1024 size) [
      | inl large ↦ rw (select_nodes_rec, e, gt→leb size 1024 large, stop) refl
      | inr small ↦ rw (select_nodes_rec, e, le→leb size 1024 small) refl
    ]

    pub rec-pair :
        (node : TreeNode) (ls rs : List (BaoChunk R))
        → s.is_empty r ≡ false
        → 1024 < size
        → stops size r ≡ false
        → start % 2 ≡ 0
        → from_start_chunk_and_level start (level_of size) ≡ some node
        → select_nodes_rec s fuel start
            (mid_bytes (chunk_count size))
            false
            (split s r (u64_add start (chunk_count size / 2))).0
            tree_level
            min_full_level
          ≡ some ls
        → select_nodes_rec s fuel
            (u64_add start (chunk_count size / 2))
            (u64_sub size (mid_bytes (chunk_count size)))
            false
            (split s r (u64_add start (chunk_count size / 2))).1
            tree_level
            min_full_level
          ≡ some rs
        → select_nodes_rec s (suc fuel) start size is_root r tree_level min_full_level
          ≡ some (
              parent node is_root
                (not (s.is_empty (split s r (u64_add start (chunk_count size / 2))).0))
                (not (s.is_empty (split s r (u64_add start (chunk_count size / 2))).1))
                r
              ∷ (ls ++ rs))
    unfolding select_nodes_rec
    rec-pair node ls rs e large go even numbered left right =
        rw
          (
            select_nodes_rec,
            e,
            gt→leb size 1024 large,
            go,
            eq→== (start % 2) 0 even,
            numbered,
            left,
            right,
          )
          refl

    -- Data of at most one block.
    pub rec-block :
        s.is_empty r ≡ false
        → size ≤ 2 ^ tree_level * 1024
        → tree_level ≤ 50
        → select_nodes_rec s (suc fuel) start size is_root r tree_level min_full_level
          ≡ some (leaf start size is_root r ∷ [])
    rec-block e fits low = elim (lt-cases 1024 size) [
      | inr small ↦ rec-chunk e small
      | inl large ↦
          let bound = two-pow-le {m = tree_level} {n = 50} low in
          let (j, h) = some_level size large (omega (arith, fits, bound)) in
          let less : j < tree_level =
            lt_of_two-pow-lt j tree_level (omega (arith, h.above, fits)) in
          rec-stops e (rw (level_of_lem size j h, lt→ltb j tree_level less) refl)
    ]

    pub rec-piece :
        size ≤ 2 ^ tree_level * 1024
        → tree_level ≤ 50
        → select_nodes_rec s (suc fuel) start size is_root r tree_level min_full_level
          ≡ some (push_leaf s (leaf start size is_root r) r [])
    unfolding push_leaf
    rec-piece fits low = elim (Bool-cases (s.is_empty r)) [
      | inl e ↦ rw e (rec-empty e)
      | inr e ↦ rw e (rec-block e fits low)
    ]
