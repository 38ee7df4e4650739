-- ===== src/Tree/PostOffsets.antt =====
-- `post_order_offset` is the position of a node among the persisted nodes in post order. An offset
-- of a stable node depends on the node alone; the others are counted from the end.
use bao_tree.Base.{ℕ, suc, ◌+◌, ◌-◌, ◌*◌, ◌^◌, ◌≤◌, ◌<◌, ◌≡◌, arith, ap, ◌∙◌, ◌⊎◌, inl, inr}
use bao_tree.Base.{
  two-pow-suc, two-pow-pos, two-pow-le, two-pow-add, mul-two-pow-suc, mul-le, le_of_mul-lt,
  le_of_mul-le, lt-cases, some, none,
}
use bao_tree.Base.{true, false, get_elem?, Bool-cases}
use bao_tree.Word.{count_ones, u64_add}
use bao_tree.Word.Shifts.{shl_exact}
use bao_tree.Word.Counts.{count_ones-le, count_ones-shift, count_ones-double_add_one}
use bao_tree.Sizes.{chunks_to_bytes}
use bao_tree.Node.{
  TreeNode, level, mid, byte_range, right_count, subtract_block_size, pre_order_offset_loop,
  node_range,
}
use bao_tree.Node
use bao_tree.Node.Place.{node_at, suc-node_at, is_leaf-node_at, chunk_range-node_at, level-bound}
use bao_tree.Node.Blocks.{raised}
use bao_tree.Traversal.PostOffsets.{post_order_offset_lem, post_index, node_range-end}
use bao_tree.Tree.{
  BaoTree, stable, unstable, value, shifted, blocks, is_leaf, is_persisted, outboard_hash_pairs,
  post_order_offset,
}
use bao_tree.Tree.Shape.{IsValid, HasShape, shape, blocks-bound}
use bao_tree.Tree.Nodes.{
  unit, cover, fits, raise_lem, lower_lem, leaf_level, persisted_lem, few, units,
}
use bao_tree.Tree.Offsets.{
  persisted_post, PostOffset, pairs_lem, height_lem, small, node, below_pairs, at_place,
}

module _ (t : BaoTree) (v : IsValid t) (height m : ℕ) (s : HasShape t height m) (l k : ℕ)
    (here : node_at l k < 2 * m + 1) where
  -- The chunk behind a node's last one, as a place.
  slot_end : ℕ
  slot_end = (k + 1) * 2 ^ suc l

  number : slot_end ≡ node_at l k + 1 + 2 ^ l
  unfolding slot_end
  number = omega (arith, suc-node_at l k, mul-two-pow-suc k l, two-pow-suc l)

  byte_end : (byte_range (node t v height m s l k here)).end ≡ slot_end * unit t
  unfolding byte_range chunks_to_bytes
  byte_end =
      let b = t.block_size in
      let low : l + b < 63 =
        omega (arith, level-bound (l + b) k 51 (fits t v height m s l k here)) in
      let range = chunk_range-node_at (l + b) k (omega (arith, fits t v height m s l k here)) low in
      let width : (k + 1) * 2 ^ suc (l + b) ≡ slot_end * 2 ^ b =
        unfold slot_end in
        omega (
          arith,
          ap (λ (x : ℕ). (k + 1) * x) (two-pow-suc (l + b)),
          ap (λ (x : ℕ). (k + 1) * x) (two-pow-add l b),
          ap (λ (x : ℕ). (k + 1) * x * 2 ^ b) (two-pow-suc l),
        ) in
      let bytes = units t v height m s l k here slot_end in
      let most : slot_end * unit t ≤ 2 ^ 62 = omega (
        arith,
        mul-le slot_end (2 * (node_at l k + 1)) (unit t) (omega (arith, number, suc-node_at l k)),
        few t v height m s l k here,
      ) in
      rw (range.1) (
        shl_exact ((k + 1) * 2 ^ suc (l + b)) 10 (omega arith) (omega (arith, width, bytes, most))
        ∙ omega (arith, width, bytes))

  ones_lem : right_count (node t v height m s l k here) ≡ count_ones k
  unfolding right_count
  ones_lem =
      let b = t.block_size in
      let small_node = fits t v height m s l k here in
      let number' = suc-node_at (l + b) k in
      let plus : u64_add (node_at (l + b) k) 1 ≡ (2 * k + 1) * 2 ^ (l + b) =
        omega (arith, number', small_node) in
      let shift = count_ones-shift (l + b) (2 * k + 1) (omega (arith, number', small_node)) in
      let bound : k ≤ k * 2 ^ (l + b) = grind (arith, two-pow-pos (l + b)) in
      let one_more = count_ones-double_add_one k (omega (arith, number', small_node, bound)) in
      rw (plus, shift, one_more) (ground arith)

  module _ (p : is_persisted t (node t v height m s l k here) ≡ true) where
    n_lt : node_at l k < outboard_hash_pairs t
    n_lt = below_pairs t v height m s l k here p

    -- Where the node's bytes end inside the blob, its subtree is whole.
    stable_whole : slot_end * unit t ≤ t.size → slot_end ≤ blocks t
    stable_whole h =
        le_of_mul-le slot_end (blocks t) (unit t) (two-pow-pos (t.block_size + 10))
          (omega (arith, h, (cover t v).0))

    stable_case :
        slot_end * unit t ≤ t.size
        → get_elem? (persisted_post t) (Node.post_order_offset (node_at l k)) ≡ some (node_at l k)
    stable_case h = rw (height_lem t v height m s) (
        post_order_offset_lem (outboard_hash_pairs t) height (node_at l k)
          (omega (
            arith,
            raised l k t.block_size,
            fits t v height m s l k here,
            two-pow-pos t.block_size,
            n_small,
          ))
          (omega (arith, s.low)) (small t v height m s)
          (omega
            (arith, node_range-end l k n_small, number, pairs_lem t v height m s, stable_whole h)))
      where
        n_small : node_at l k < 2 ^ 63
        n_small = omega (arith, here, s.wide, two-pow-le {m = height} {n = 60} (s.low))

    unstable_case :
        t.size < slot_end * unit t
        → get_elem? (persisted_post t) (outboard_hash_pairs t - (count_ones k + 1))
          ≡ some (node_at l k)
    unstable_case h =
        let reach : blocks t ≤ slot_end = elim ((cover t v).1) [
          | inl less ↦ le_of_mul-lt (blocks t) slot_end (unit t) (omega (arith, less, h))
          | inr one ↦ absurd (omega (arith, n_lt, pairs_lem t v height m s, one))
        ] in
        let (j, e, at) =
          post_index (outboard_hash_pairs t) l k height n_lt (omega (arith, s.low))
            (small t v height m s) in
        let same : j ≡ outboard_hash_pairs t - (count_ones k + 1) =
          unfold slot_end in
          omega (
            arith,
            e,
            reach,
            pairs_lem t v height m s,
            n_lt,
            suc-node_at l k,
            mul-two-pow-suc k l,
            two-pow-suc l,
            two-pow-pos l,
          ) in
        rw (height_lem t v height m s) (rw same at at)

    few_ones : count_ones k < outboard_hash_pairs t
    few_ones =
        let many : k * 1 ≤ k * 2 ^ l = omega (arith, mul-le 1 (2 ^ l) k (two-pow-pos l)) in
        omega (arith, count_ones-le k, n_lt, suc-node_at l k, two-pow-pos l, many)

    post_at_place : PostOffset t (node_at l k)
    unfolding post_order_offset is_persisted is_leaf value
    post_at_place = elim (lt-cases t.size (slot_end * unit t)) [
      | inl more ↦ (
        unstable (outboard_hash_pairs t - (count_ones k + 1)),
        ground (
          arith,
          p,
          raise_lem t v height m s l k here,
          lower_lem t v height m s l k here,
          leaf_level t v height m s l k here,
          is_leaf-node_at l k,
          byte_end,
          more,
          ones_lem,
          few_ones,
          pairs_lem t v height m s,
          blocks-bound t v,
        ),
        unstable_case more,
      )
      | inr less ↦ (
        stable (Node.post_order_offset (node_at l k)),
        ground (
          arith,
          raise_lem t v height m s l k here,
          lower_lem t v height m s l k here,
          byte_end,
          less,
        ),
        stable_case less,
      )
    ]

  post_none :
      is_persisted t (node t v height m s l k here) ≡ false
      → post_order_offset t (node t v height m s l k here) ≡ none
  unfolding post_order_offset is_persisted is_leaf
  post_none p = ground (
    arith,
    p,
    lower_lem t v height m s l k here,
    leaf_level t v height m s l k here,
    is_leaf-node_at l k,
    byte_end,
    open_end,
  )
    where
      last : node_at l k + 1 ≡ blocks t
      last = ground (arith, p, persisted_lem t v height m s l k here)

      open_end : t.size < slot_end * unit t
      open_end = omega (
        arith,
        (cover t v).0,
        mul-le (suc (blocks t)) slot_end (unit t) (omega (arith, number, last, two-pow-pos l)),
        two-pow-pos (t.block_size + 10),
      )

-- Either the node is persisted and has its place, or it is not and has no offset.
abbrev pub PostResult : BaoTree → TreeNode → Type 0
PostResult t n =
    ((is_persisted t (subtract_block_size n t.block_size) ≡ true) × PostOffset t n)
    ⊎ ((is_persisted t (subtract_block_size n t.block_size) ≡ false)
        × (post_order_offset t (subtract_block_size n t.block_size) ≡ none))

-- For every shifted node `n` of a valid tree: either its node is persisted and
-- `post_order_offset` returns an offset, stable or unstable, whose value is its index in the list
-- of the persisted nodes in post order, or it is not persisted and `post_order_offset` returns
-- none.
pub post_order_offset_tree :
    (t : BaoTree) (n : TreeNode) → IsValid t → n < (shifted t).1 → PostResult t n
post_order_offset_tree t n v h =
    let (height, m, s) = shape t v in
    at_place t n (PostResult t) (λ l k e.
      let here : node_at l k < 2 * m + 1 = omega (arith, e, s.len_lem) in
      let up = raise_lem t v height m s l k here in
      elim (Bool-cases (is_persisted t (node t v height m s l k here))) [
        | inl p ↦ inl (rw up p, post_at_place t v height m s l k here p)
        | inr p ↦ inr (rw up p, rw up (post_none t v height m s l k here p))
      ])
