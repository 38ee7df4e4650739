-- ===== src/Tree/Offsets.antt =====
-- `pre_order_offset` and `post_order_offset` are the positions of a node among the persisted nodes
-- in pre order and in post order.
use bao_tree.Base.{ℕ, ◌+◌, ◌*◌, ◌^◌, ◌<◌, ◌≡◌, arith, ap, ◌∙◌, ◌⊎◌, inl, inr}
use bao_tree.Base.{two-pow-suc, two-pow-le, some, none}
use bao_tree.Base.{true, false, get_elem?, length, List, Bool-cases}
use bao_tree.Node.{TreeNode, level, subtract_block_size, pre_order_offset_loop}
use bao_tree.Node.Place.{node_at, suc-node_at, place, level_lem, is_leaf-node_at}
use bao_tree.Traversal.{pre_order, post_order, below}
use bao_tree.Traversal.Lengths.{length-post_order, length-pre_order}
use bao_tree.Traversal.PreOffsets.{pre_order_offset_loop_lem}
use bao_tree.Traversal.LastLeaf.{last_leaf, get_elem?-init}
use bao_tree.Tree.{
  BaoTree, PostOrderOffset, value, shifted, blocks, is_leaf, is_persisted, outboard_hash_pairs,
  pre_order_offset, post_order_offset,
}
use bao_tree.Tree.Shape.{IsValid, HasShape, shape, blocks-bound}
use bao_tree.Tree.Nodes.{block_count, raise_lem, lower_lem, leaf_level, persisted_lem}

-- The persisted nodes, shifted, in either order: the nodes below the number of hash pairs.
abbrev pub persisted_pre : BaoTree → List TreeNode
persisted_pre t = below (outboard_hash_pairs t) (pre_order (level (shifted t).0) 0)

abbrev pub persisted_post : BaoTree → List TreeNode
persisted_post t = below (outboard_hash_pairs t) (post_order (level (shifted t).0) 0)

-- What the offset of a persisted node is: its index in the list of persisted nodes.
abbrev pub PreOffset : BaoTree → TreeNode → Type 0
PreOffset t n =
    (i : ℕ) × (pre_order_offset t (subtract_block_size n t.block_size) ≡ some (some i))
    × (get_elem? (persisted_pre t) i ≡ some n)

abbrev pub PostOffset : BaoTree → TreeNode → Type 0
PostOffset t n =
    (o : PostOrderOffset) × (post_order_offset t (subtract_block_size n t.block_size) ≡ some o)
    × (get_elem? (persisted_post t) (value o) ≡ some n)

module _ (t : BaoTree) (v : IsValid t) (height m : ℕ) (s : HasShape t height m) where
  pub pairs_lem : outboard_hash_pairs t + 1 ≡ blocks t
  unfolding outboard_hash_pairs
  pairs_lem = omega (arith, blocks-bound t v)

  pub height_lem : level (shifted t).0 ≡ height
  height_lem =
      ap level (s.root_lem)
      ∙ level_lem height 0
          (omega (arith, suc-node_at height 0, two-pow-le {m = height} {n = 60} (s.low)))

  pub small : outboard_hash_pairs t < 2 * 2 ^ height
  small = ground (arith, pairs_lem, block_count t v height m s, s.wide)

  module _ (l k : ℕ) (here : node_at l k < 2 * m + 1) where
    abbrev pub node : TreeNode
    node = node_at (l + t.block_size) k

    -- A persisted node is below the number of pairs, and the last leaf, when it is not persisted,
    -- is that number.
    pub below_pairs : is_persisted t node ≡ true → node_at l k < outboard_hash_pairs t
    below_pairs p =
        ground (arith, persisted_lem t v height m s l k here, pairs_lem, block_count t v height m s)

    -- The loop runs over all shifted nodes. Without the last leaf, which comes last in pre order,
    -- they are the persisted ones.
    loop_offset :
        is_persisted t node ≡ true
        → (i : ℕ) × (pre_order_offset_loop (node_at l k) (shifted t).1 ≡ some i)
          × (get_elem? (persisted_pre t) i ≡ some (node_at l k))
    loop_offset p =
        let (i, e, at) =
          pre_order_offset_loop_lem (2 * m + 1) height (node_at l k) here (omega (arith, s.low))
            (omega (arith, s.wide)) in
        (i, rw (s.len_lem) e, rw height_lem (restrict i at))
      where
        restrict :
            (i : ℕ)
            → get_elem? (below (2 * m + 1) (pre_order height 0)) i ≡ some (node_at l k)
            → get_elem? (below (outboard_hash_pairs t) (pre_order height 0)) i ≡ some (node_at l k)
        restrict i at = elim (block_count t v height m s) [
          | inl odd ↦
              let pairs : outboard_hash_pairs t ≡ 2 * m = omega (arith, pairs_lem) in
              let last =
                last_leaf m height 0 (omega arith) (omega (arith, s.wide, two-pow-suc height)) in
              rw pairs (
                get_elem?-init (below (2 * m) (pre_order height 0)) i (node_at l k) (2 * m)
                  (rw last at at) (omega (arith, below_pairs p, pairs)))
          | inr even ↦
              let pairs : outboard_hash_pairs t ≡ 2 * m + 1 = omega (arith, pairs_lem) in
              rw pairs at
        ]

    pre_at_place : is_persisted t node ≡ true → PreOffset t (node_at l k)
    unfolding pre_order_offset is_persisted is_leaf
    pre_at_place p =
        let (i, e, at) = loop_offset p in
        (
          i,
          ground (
            arith,
            raise_lem t v height m s l k here,
            lower_lem t v height m s l k here,
            leaf_level t v height m s l k here,
            is_leaf-node_at l k,
            e,
          ),
          at,
        )

    pre_none : is_persisted t node ≡ false → pre_order_offset t node ≡ some none
    unfolding pre_order_offset is_persisted is_leaf
    pre_none p = ground (
      arith,
      lower_lem t v height m s l k here,
      leaf_level t v height m s l k here,
      is_leaf-node_at l k,
    )

pub at_place :
    (t : BaoTree) (n : TreeNode) (P : TreeNode → Type 0)
    → ((l k : ℕ) → n ≡ node_at l k → P (node_at l k))
    → P n
at_place t n P f = let (l, k, e) = place n in rw e (f l k e)

-- Either the node is persisted and has its place, or it is not and has no offset.
abbrev pub PreResult : BaoTree → TreeNode → Type 0
PreResult t n =
    ((is_persisted t (subtract_block_size n t.block_size) ≡ true) × PreOffset t n)
    ⊎ ((is_persisted t (subtract_block_size n t.block_size) ≡ false)
        × (pre_order_offset t (subtract_block_size n t.block_size) ≡ some none))

-- For every shifted node `n` of a valid tree: either its node is persisted and `pre_order_offset`
-- returns its index in the list of the persisted nodes in pre order, or it is not persisted and
-- `pre_order_offset` returns none. In both cases the loop ends.
pub pre_order_offset_lem :
    (t : BaoTree) (n : TreeNode) → IsValid t → n < (shifted t).1 → PreResult t n
pre_order_offset_lem t n v h =
    let (height, m, s) = shape t v in
    at_place t n (PreResult t) (λ l k e.
      let here : node_at l k < 2 * m + 1 = omega (arith, e, s.len_lem) in
      let up = raise_lem t v height m s l k here in
      elim (Bool-cases (is_persisted t (node t v height m s l k here))) [
        | inl p ↦ inl (rw up p, pre_at_place t v height m s l k here p)
        | inr p ↦ inr (rw up p, rw up (pre_none t v height m s l k here p))
      ])

-- The list of persisted nodes in pre order of a valid tree has as many nodes as there are hash pairs.
pub length-persisted_pre :
    (t : BaoTree) → IsValid t → length (persisted_pre t) ≡ outboard_hash_pairs t
length-persisted_pre t v =
    let (height, m, s) = shape t v in
    omega (
      arith,
      length-pre_order (outboard_hash_pairs t) (level (shifted t).0) 0,
      ap (λ (h : ℕ). 2 ^ h) (height_lem t v height m s),
      small t v height m s,
      two-pow-suc (level (shifted t).0),
    )

-- The list of persisted nodes in post order of a valid tree has as many nodes as there are hash pairs.
pub length-persisted_post :
    (t : BaoTree) → IsValid t → length (persisted_post t) ≡ outboard_hash_pairs t
length-persisted_post t v =
    let (height, m, s) = shape t v in
    omega (
      arith,
      length-post_order (outboard_hash_pairs t) (level (shifted t).0) 0,
      ap (λ (h : ℕ). 2 ^ h) (height_lem t v height m s),
      small t v height m s,
      two-pow-suc (level (shifted t).0),
    )
