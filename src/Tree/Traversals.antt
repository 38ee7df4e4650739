-- ===== src/Tree/Traversals.antt =====
-- The node iterators of a tree, from its shifted root.
use bao_tree.Base.{ℕ, ◌+◌, ◌*◌, ◌^◌, ◌≤◌, ◌<◌, ◌≡◌, refl, arith, some, map, List, ap, ap₂, ◌∙◌, sym}
use bao_tree.Node.{TreeNode, level, subtract_block_size}
use bao_tree.Node.Place.{node_at, suc-node_at}
use bao_tree.Traversal.{pre_order, post_order, below}
use bao_tree.Iter
use bao_tree.Iter.{NodeIter}
use bao_tree.Iter.Driver.{Runs-Collects}
use bao_tree.Iter.PostOrder
use bao_tree.Iter.PostOrder.Walk.{Runs-root}
use bao_tree.Iter.PreOrder
use bao_tree.Iter.PreOrder.Walk.{Runs-root as Runs-pre_root}
use bao_tree.Tree.{BaoTree, shifted, post_order_nodes, pre_order_nodes}
use bao_tree.Tree.Shape.{IsValid, shape}
use bao_tree.Tree.Offsets.{height_lem}

-- All nodes of a tree, in chunks.
abbrev pub all_post : BaoTree → List TreeNode
all_post t =
    let (root, len) = shifted t in
    map (λ x. subtract_block_size x t.block_size) (below len (post_order (level root) 0))

abbrev pub all_pre : BaoTree → List TreeNode
all_pre t =
    let (root, len) = shifted t in
    map (λ x. subtract_block_size x t.block_size) (below len (pre_order (level root) 0))

-- With a root at level `l` below `len`, an odd number of nodes that the tree holds, and enough
-- fuel, `PostOrderNodeIter` yields the nodes below `len` in post order and ends.
pub post_order-yields :
    (len m l : ℕ)
    → len ≡ 2 * m + 1
    → l < 63
    → node_at l 0 < len
    → len < 2 * 2 ^ l
    → (f : ℕ) × ((fuel : ℕ)
        → f ≤ fuel
        → PostOrder.yields fuel (Iter.new (node_at l 0) len) ≡ some (below len (post_order l 0)))
unfolding PostOrder.yields
post_order-yields len m l odd low valid small =
    Runs-Collects PostOrder.round (Runs-root len m odd l low valid small)

-- The same of `PreOrderNodeIter`, in pre order.
pub pre_order-yields :
    (len m l : ℕ)
    → len ≡ 2 * m + 1
    → l < 63
    → node_at l 0 < len
    → len < 2 * 2 ^ l
    → (f : ℕ) × ((fuel : ℕ)
        → f ≤ fuel
        → PreOrder.yields fuel (Iter.new (node_at l 0) len) ≡ some (below len (pre_order l 0)))
unfolding PreOrder.yields
pre_order-yields len m l odd low valid small =
    Runs-Collects PreOrder.round (Runs-pre_root len m odd l low valid small)

post_order_from :
    (t : BaoTree) (fuel : ℕ) (root len : TreeNode) (ns : List TreeNode)
    → (shifted t).0 ≡ root
    → (shifted t).1 ≡ len
    → PostOrder.yields fuel (Iter.new root len) ≡ some ns
    → post_order_nodes t fuel ≡ some (map (λ x. subtract_block_size x t.block_size) ns)
unfolding post_order_nodes
post_order_from t fuel root len ns e h y = ground (arith, e, h, y)

pre_order_from :
    (t : BaoTree) (fuel : ℕ) (root len : TreeNode) (ns : List TreeNode)
    → (shifted t).0 ≡ root
    → (shifted t).1 ≡ len
    → PreOrder.yields fuel (Iter.new root len) ≡ some ns
    → pre_order_nodes t fuel ≡ some (map (λ x. subtract_block_size x t.block_size) ns)
unfolding pre_order_nodes
pre_order_from t fuel root len ns e h y = ground (arith, e, h, y)

-- For a valid tree, `post_order_nodes_iter` ends, without a panic, and yields every node of the tree
-- once, in post order.
pub post_order_nodes_lem :
    (t : BaoTree) → IsValid t → (fuel : ℕ) × (post_order_nodes t fuel ≡ some (all_post t))
post_order_nodes_lem t v =
    let (height, m, s) = shape t v in
    let (f, enough) =
      post_order-yields (2 * m + 1) m height refl (omega (arith, s.low))
        (omega (arith, s.tight, suc-node_at height 0)) (omega (arith, s.wide)) in
    let same =
      ap₂ (λ l n. map (λ x. subtract_block_size x t.block_size) (below n (post_order l 0)))
        (height_lem t v height m s) (s.len_lem) in
    (
      f,
      post_order_from t f (node_at height 0) (2 * m + 1) (below (2 * m + 1) (post_order height 0))
            s.root_lem s.len_lem (enough f (omega arith))
          ∙ ap some (sym same),
    )

-- For a valid tree, `pre_order_nodes_iter` ends, without a panic, and yields every node of the tree
-- once, in pre order.
pub pre_order_nodes_lem :
    (t : BaoTree) → IsValid t → (fuel : ℕ) × (pre_order_nodes t fuel ≡ some (all_pre t))
pre_order_nodes_lem t v =
    let (height, m, s) = shape t v in
    let (f, enough) =
      pre_order-yields (2 * m + 1) m height refl (omega (arith, s.low))
        (omega (arith, s.tight, suc-node_at height 0)) (omega (arith, s.wide)) in
    let same =
      ap₂ (λ l n. map (λ x. subtract_block_size x t.block_size) (below n (pre_order l 0)))
        (height_lem t v height m s) (s.len_lem) in
    (
      f,
      pre_order_from t f (node_at height 0) (2 * m + 1) (below (2 * m + 1) (pre_order height 0))
            s.root_lem s.len_lem (enough f (omega arith))
          ∙ ap some (sym same),
    )
