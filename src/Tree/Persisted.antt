-- ===== src/Tree/Persisted.antt =====
-- Which nodes of a tree hold a hash pair, and what its root covers.
use bao_tree.Base.{
  ℕ, zero, suc, ◌+◌, ◌*◌, ◌^◌, ◌≤◌, ◌<◌, ◌≡◌, refl, arith, ◌∙◌, ◌⊎◌, inl, inr, lt-cases,
}
use bao_tree.Base.{two-pow-suc, two-pow-pos, two-pow-le, ◌==◌, not}
use bao_tree.Node.{TreeNode, level, subtract_block_size, chunk_range}
use bao_tree.Node
use bao_tree.Sizes
use bao_tree.Node.Place.{node_at, suc-node_at, chunk_range-node_at}
use bao_tree.Tree.{
  BaoTree, shifted, root, blocks, chunks, is_leaf, is_persisted, is_relevant_for_outboard,
}
use bao_tree.Tree.Shape.{IsValid, shape}
use bao_tree.Tree.Nodes.{block_count, raise_lem, leaf_level, persisted_lem}
use bao_tree.Tree.Offsets.{at_place}

-- Every node but the one of the last block, where the last leaf holds no second block, whether it is
-- exactly half full or less, is persisted, for each node `n` of the shifted tree of a valid tree;
-- and `is_relevant_for_outboard` says the same of it as `is_persisted`.
pub persisted_unless_last :
    (t : BaoTree) (n : TreeNode)
    → IsValid t
    → n < (shifted t).1
    → (is_persisted t (subtract_block_size n t.block_size) ≡ not (n + 1 == blocks t))
      × (is_relevant_for_outboard t (subtract_block_size n t.block_size)
          ≡ is_persisted t (subtract_block_size n t.block_size))
unfolding is_relevant_for_outboard is_persisted is_leaf
persisted_unless_last t n v h =
    let (height, m, s) = shape t v in
    at_place t n
      (λ n.
        (is_persisted t (subtract_block_size n t.block_size) ≡ not (n + 1 == blocks t))
        × (is_relevant_for_outboard t (subtract_block_size n t.block_size)
            ≡ is_persisted t (subtract_block_size n t.block_size)))
      (λ l k e.
        let here : node_at l k < 2 * m + 1 = omega (arith, e, s.len_lem) in
        rw (raise_lem t v height m s l k here) (
          persisted_lem t v height m s l k here,
          ground (arith, leaf_level t v height m s l k here),
        ))

in_chunks : BaoTree → BaoTree
in_chunks t = record t { block_size = 0 }

root_lem : (t : BaoTree) → root t ≡ (shifted (in_chunks t)).0
unfolding root shifted in_chunks Node.root
root_lem t = refl

in_chunks-IsValid : (t : BaoTree) → IsValid t → IsValid (in_chunks t)
unfolding in_chunks
in_chunks-IsValid t v = record { size_fits = v.size_fits; block_fits = omega arith }

blocks-in_chunks :
    (t : BaoTree) → (blocks (in_chunks t) ≡ chunks t) ⊎ (blocks (in_chunks t) ≡ 1) × (chunks t ≡ 0)
unfolding blocks chunks Sizes.blocks Sizes.chunks in_chunks
blocks-in_chunks t = elim (lt-cases 0 (chunks t)) [
  | inl some_chunk ↦ inl (omega (arith, some_chunk))
  | inr empty ↦ inr (omega (arith, empty), omega (arith, empty))
]

-- For a valid tree: the root covers all chunks from chunk 0, and less than twice as many as there
-- are, unless it covers two.
pub root-covers :
    (t : BaoTree)
    → IsValid t
    → ((chunk_range (root t)).start ≡ 0)
      × (chunks t ≤ (chunk_range (root t)).end)
      × (((chunk_range (root t)).end ≡ 2) ⊎ ((chunk_range (root t)).end < 2 * chunks t))
root-covers t v =
    let u = in_chunks t in
    let w = in_chunks-IsValid t v in
    let (height, m, s) = shape u w in
    let r : root t ≡ node_at height 0 = root_lem t ∙ s.root_lem in
    let bound = two-pow-le {m = height} {n = 60} (s.low) in
    let range =
      chunk_range-node_at height 0 (omega (arith, suc-node_at height 0, bound))
        (omega (arith, s.low)) in
    let end : (chunk_range (node_at height 0)).end ≡ 2 * 2 ^ height =
      omega (arith, range.1, two-pow-suc height) in
    let count = block_count u w height m s in
    rw r (
      omega (arith, range.0),
      ground (arith, end, count, s.wide, blocks-in_chunks t),
      rw end (tight height m (chunks t) (s.tight) (ground (arith, count, blocks-in_chunks t))),
    )
  where
    tight :
        (h m c : ℕ)
        → 2 ^ h < 2 * (m + 1)
        → ((c ≡ 2 * m + 1) ⊎ (c ≡ 2 * m + 2) ⊎ (m ≡ 0))
        → (2 * 2 ^ h ≡ 2) ⊎ (2 * 2 ^ h < 2 * c)
    tight zero m c p q = inl refl
    tight (suc h) m c p q = inr (ground (arith, two-pow-suc h, two-pow-pos h))
