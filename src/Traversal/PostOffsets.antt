-- ===== src/Traversal/PostOffsets.antt =====
-- `TreeNode::post_order_offset` gives the index of a node in the post order traversal.
use bao_tree.Base.{ℕ, zero, suc, ◌+◌, ◌-◌, ◌*◌, ◌^◌, ◌≤◌, ◌<◌, ◌≡◌, refl, arith, [], ◌∷◌, ◌++◌}
use bao_tree.Base.{length, get_elem?, get_elem?-append_right, some, ap}
use bao_tree.Base.{two-pow-suc, two-pow-pos, mul-two-pow-suc, lt_of_two-pow-lt}
use bao_tree.Word.{count_ones, u64_add}
use bao_tree.Word.Counts.{count_ones-shift, count_ones-le}
use bao_tree.Node.{TreeNode, node_range, half_span}
use bao_tree.Node.{post_order_offset}
use bao_tree.Node.Place.{
  node_at, suc-node_at, place, span_lem, count_below-node_at, next_left_ancestor0-first,
  next_left_ancestor0-later,
}
use bao_tree.Node.Climb.{index-bound}
use bao_tree.Traversal.{post_order, below}
use bao_tree.Traversal.Lengths.{part, length-post_order}
use bao_tree.Traversal.Parts.{post_order-leaf_in, post_order-branch_in}
use bao_tree.Traversal.Index.{PostAt, post_climb}

pub node_range-end :
    (l k : ℕ) → node_at l k < 2 ^ 63 → (node_range (node_at l k)).end ≡ node_at l k + 2 ^ l
unfolding node_range half_span
node_range-end l k h = omega (arith, span_lem l k h, suc-node_at l k)

pub left_count : (l k : ℕ) → node_at l k < 2 ^ 63 → count_ones (k * 2 ^ suc l) ≡ count_ones k
left_count l k h = count_ones-shift (suc l) k (omega (arith, suc-node_at l k, mul-two-pow-suc k l))

-- The offset counts the nodes left of the subtree, less the ancestors among them, and the nodes
-- below.
offset_parts :
    (l k : ℕ)
    → node_at l k < 2 ^ 63
    → post_order_offset (node_at l k) + count_ones k ≡ k * 2 ^ suc l + (2 * 2 ^ l - 2)
unfolding post_order_offset
offset_parts l zero h =
    rw (next_left_ancestor0-first l h, post_order_offset)
      (omega (arith, count_below-node_at l 0 h, count_ones-le 0))
offset_parts l (suc k) h =
    let many : suc k ≤ suc k * 2 ^ suc l = grind (arith, two-pow-pos (suc l)) in
    rw (next_left_ancestor0-later l k h, post_order_offset)
      (omega (
        arith,
        count_below-node_at l (suc k) h,
        left_count l (suc k) h,
        ap count_ones plus,
        count_ones-le (suc k),
        many,
        suc-node_at l (suc k),
        mul-two-pow-suc (suc k) l,
        two-pow-pos l,
      ))
  where
    plus : u64_add (suc k * 2 ^ suc l - 1) 1 ≡ suc k * 2 ^ suc l
    plus = omega (arith, suc-node_at l (suc k), mul-two-pow-suc (suc k) l, two-pow-pos l)

module _ (len : ℕ) where
  -- A node closes the traversal of its subtree.
  post_own : (l k : ℕ) → node_at l k < len → PostAt len l k (part len l k - 1) (node_at l k)
  post_own zero k h =
      let first : part len 0 k - 1 ≡ 0 = omega (arith, suc-node_at 0 k) in
      rw (first, post_order-leaf_in len k h) refl
  post_own (suc l) k h =
      let n = node_at (suc l) k in
      let left = below len (post_order l (2 * k)) in
      let right = below len (post_order l (2 * k + 1)) in
      let numbers = suc-node_at (suc l) k in
      let two = mul-two-pow-suc k (suc l) in
      let two' = two-pow-suc (suc l) in
      let pos = two-pow-pos (suc l) in
      let full = length-post_order len l (2 * k) in
      let rest = length-post_order len l (2 * k + 1) in
      rw
        (
          post_order-branch_in len l k h,
          get_elem?-append_right left (right ++ (n ∷ [])) (part len (suc l) k - 1) (length right)
              (omega (arith, full, rest, numbers, two, two', pos)),
          get_elem?-append_right right (n ∷ []) (length right) 0 (omega arith),
        )
        refl

  -- Where the tree of height `top` holds all nodes, it has a place for `n` under its root.
  pub under_root :
      (l k top : ℕ) → node_at l k < len → len < 2 * 2 ^ top → (r : ℕ) × (l + r ≡ top) × (k < 2 ^ r)
  under_root l k top h small =
      let low : l ≤ top =
        omega
          (arith, lt_of_two-pow-lt l (suc top) (omega (arith, suc-node_at l k, two-pow-suc top))) in
      let e : l + (top - l) ≡ top = omega arith in
      (top - l, e, index-bound l k (top - l) (rw e (omega (arith, two-pow-suc top))))

  -- The index of every node: what is left of its subtree, less the ancestors there, and the part
  -- of its subtree before it.
  pub post_index :
      (l k top : ℕ)
      → node_at l k < len
      → top ≤ 62
      → len < 2 * 2 ^ top
      → (j : ℕ) × (j + count_ones k ≡ k * 2 ^ suc l + (part len l k - 1))
        × (get_elem? (below len (post_order top 0)) j ≡ some (node_at l k))
  post_index l k top here low small =
      let (r, e, k_small) = under_root l k top here small in
      post_climb len r l k (part len l k - 1) (node_at l k) top e k_small (omega arith)
        (omega (arith, suc-node_at l k, mul-two-pow-suc k l, two-pow-pos l)) here
        (post_own l k here)

  pub post_place :
      (l k top : ℕ)
      → node_at l k < 2 ^ 63
      → top ≤ 62
      → len < 2 * 2 ^ top
      → (node_range (node_at l k)).end ≤ len
      → get_elem? (below len (post_order top 0)) (post_order_offset (node_at l k))
        ≡ some (node_at l k)
  post_place l k top h low small stable =
      let full : node_at l k + 2 ^ l ≤ len = omega (arith, node_range-end l k h) in
      let (j, p, at) = post_index l k top (omega (arith, two-pow-pos l)) low small in
      let numbers = suc-node_at l k in
      let same : j ≡ post_order_offset (node_at l k) = omega (
        arith,
        p,
        offset_parts l k h,
        numbers,
        mul-two-pow-suc k l,
        two-pow-suc l,
        two-pow-pos l,
      ) in
      rw same at at

-- Where `node_range` ends inside the tree, the post order offset of a node is its index among the
-- nodes below `len` in post order.
pub post_order_offset_lem :
    (len top : ℕ) (n : TreeNode)
    → n < 2 ^ 63
    → top ≤ 62
    → len < 2 * 2 ^ top
    → (node_range n).end ≤ len
    → get_elem? (below len (post_order top 0)) (post_order_offset n) ≡ some n
post_order_offset_lem len top n h low small stable =
    let (l, k, e) = place n in rw e (post_place len l k top (rw e at h) low small (rw e at stable))
