-- ===== src/Chunks/Order.antt =====
-- `PostOrderChunkIter` yields the chunks of one node after the other, in the nodes' post order.
use bao_tree.Base.{
  ℕ, zero, suc, ◌+◌, ◌*◌, ◌≡◌, refl, arith, Bool, true, false, not, if◌then◌else◌, ◌==◌, Option,
  none, some, List, [], ◌∷◌, ◌++◌, Bool-cases, Option-cases, inl, inr,
}
use bao_tree.Word.{u64_add, u64_sub}
use bao_tree.Node.{TreeNode, level, chunk_range, subtract_block_size}
use bao_tree.Node
use bao_tree.Iter.{NodeIter, collect, run_loop}
use bao_tree.Iter.PostOrder
use bao_tree.Iter
use bao_tree.Chunks
use bao_tree.Node.Place.{suc-node_at}
use bao_tree.Traversal.{post_order, below}
use bao_tree.Tree.Shape.{IsValid, shape}
use bao_tree.Tree.Offsets.{height_lem}
use bao_tree.Tree.Traversals.{post_order-yields}
use bao_tree.Tree.{BaoTree, shifted, leaf_byte_ranges3, chunk_group_chunks}
use bao_tree.Chunks.{
  BaoChunk, parent, leaf, PostOrderChunkIter, take_node, next, yields, post_order_chunks,
}

abbrev is_half : BaoTree → TreeNode → Bool
is_half t n = let (s, m, e) = leaf_byte_ranges3 t (subtract_block_size n t.block_size) in m == e

-- The chunks of a node: of a branch its hash pair, of a leaf its two pieces of data and then its
-- hash pair, and of a leaf with one piece of data only that piece.
unfoldable pub chunks_of : BaoTree → TreeNode → TreeNode → List (BaoChunk Unit)
chunks_of t root n =
    let node = subtract_block_size n t.block_size in
    let (s, m, e) = leaf_byte_ranges3 t node in
    let l = (chunk_range node).start in
    let pair : BaoChunk Unit = parent node (n == root) true true tt in
    if not (Node.is_leaf n)
    then pair ∷ []
    else if m == e
    then leaf l (u64_sub m s) (n == root) tt ∷ []
    else leaf l (u64_sub m s) false tt
      ∷ (leaf (u64_add l (chunk_group_chunks t)) (u64_sub e m) false tt ∷ (pair ∷ []))

abbrev pub chunks_of_all : BaoTree → TreeNode → List TreeNode → List (BaoChunk Unit)
chunks_of_all t root [] = []
chunks_of_all t root (n ∷ ns) = chunks_of t root n ++ chunks_of_all t root ns

module _ (t : BaoTree) (root : TreeNode) (fuel : ℕ) where
  abbrev at : NodeIter → List (BaoChunk Unit) → PostOrderChunkIter
  at inner stack = record { tree = t; inner = inner; stack = stack; shifted_root = root }

  pops :
      (m : ℕ) (inner : NodeIter) (c : BaoChunk Unit) (rest cs : List (BaoChunk Unit))
      → yields m fuel (at inner rest) ≡ some cs
      → yields (suc m) fuel (at inner (c ∷ rest)) ≡ some (c ∷ cs)
  unfolding yields next
  pops m inner c rest cs e = ground (arith, e)

  ends :
      (m : ℕ) (inner inner' : NodeIter)
      → run_loop PostOrder.round fuel inner ≡ some (none, inner')
      → yields (suc m) fuel (at inner []) ≡ some []
  unfolding yields next PostOrder.next
  ends m inner inner' e = ground (arith, e)

  branch :
      (m : ℕ) (inner inner' : NodeIter) (n : TreeNode) (cs : List (BaoChunk Unit))
      → run_loop PostOrder.round fuel inner ≡ some (some n, inner')
      → Node.is_leaf n ≡ false
      → yields m fuel (at inner' []) ≡ some cs
      → yields (suc m) fuel (at inner []) ≡ some (chunks_of t root n ++ cs)
  unfolding yields next PostOrder.next take_node chunks_of
  branch m inner inner' n cs e b h = ground (arith, e, b, h)

  half_leaf :
      (m : ℕ) (inner inner' : NodeIter) (n : TreeNode) (cs : List (BaoChunk Unit))
      → run_loop PostOrder.round fuel inner ≡ some (some n, inner')
      → Node.is_leaf n ≡ true
      → is_half t n ≡ true
      → yields m fuel (at inner' []) ≡ some cs
      → yields (suc m) fuel (at inner []) ≡ some (chunks_of t root n ++ cs)
  unfolding yields next PostOrder.next take_node chunks_of
  half_leaf m inner inner' n cs e b half h = ground (arith, e, b, half, h)

  whole_leaf :
      (m : ℕ) (inner inner' : NodeIter) (n : TreeNode) (cs : List (BaoChunk Unit))
      → run_loop PostOrder.round fuel inner ≡ some (some n, inner')
      → Node.is_leaf n ≡ true
      → is_half t n ≡ false
      → yields m fuel (at inner' []) ≡ some cs
      → yields (suc (suc (suc m))) fuel (at inner []) ≡ some (chunks_of t root n ++ cs)
  unfolding yields next PostOrder.next take_node chunks_of
  whole_leaf m inner inner' n cs e b whole h =
      let node = subtract_block_size n t.block_size in
      let r =
        leaf (u64_add (chunk_range node).start (chunk_group_chunks t))
          (u64_sub (leaf_byte_ranges3 t node).2 (leaf_byte_ranges3 t node).1) false tt in
      let pair = parent node (n == root) true true tt in
      ground (
        arith,
        e,
        b,
        whole,
        pops (suc m) inner' r (pair ∷ []) (pair ∷ cs) (pops m inner' pair [] cs h),
      )

  node_lem :
      (m : ℕ) (inner inner' : NodeIter) (n : TreeNode) (cs : List (BaoChunk Unit))
      → run_loop PostOrder.round fuel inner ≡ some (some n, inner')
      → ((k : ℕ) → yields (k + m) fuel (at inner' []) ≡ some cs)
      → yields (suc (suc (suc m))) fuel (at inner []) ≡ some (chunks_of t root n ++ cs)
  node_lem m inner inner' n cs e h =
      let two : 2 + m ≡ suc (suc m) = omega arith in
      let same : 0 + m ≡ m = omega arith in
      elim (Bool-cases (Node.is_leaf n)) [
        | inl b ↦ elim (Bool-cases (is_half t n)) [
          | inl half ↦ half_leaf (suc (suc m)) inner inner' n cs e b half (rw two at (h 2))
          | inr whole ↦ whole_leaf m inner inner' n cs e b whole (rw same at (h 0))
        ]
        | inr b ↦ branch (suc (suc m)) inner inner' n cs e b (rw two at (h 2))
      ]

  -- What `yields` makes of the nodes that the inner iterator yields.
  pub chunk_lem :
      (items more : ℕ) (inner : NodeIter) (ns : List TreeNode)
      → collect PostOrder.round items fuel inner ≡ some ns
      → yields (3 * items + more) fuel (at inner []) ≡ some (chunks_of_all t root ns)
  unfolding collect
  chunk_lem zero more inner ns e = absurd (cc)
  chunk_lem (suc items) more inner ns e =
      from (λ k it ns h. chunk_lem items k it ns h) (run_loop PostOrder.round fuel inner) refl
    where
      count : (k : ℕ) → k + (3 * items + more) ≡ 3 * items + (k + more)
      count k = omega arith

      from :
          ((k : ℕ) (it : NodeIter) (ns : List TreeNode)
            → collect PostOrder.round items fuel it ≡ some ns
            → yields (3 * items + k) fuel (at it []) ≡ some (chunks_of_all t root ns))
          → (r : Option (Option TreeNode × NodeIter)) → run_loop PostOrder.round fuel inner ≡ r
          → yields (3 * suc items + more) fuel (at inner []) ≡ some (chunks_of_all t root ns)
      from ih none p = absurd (ground (arith, e, p))
      from ih (some (none, inner')) p =
          let nothing : ns ≡ [] = ground (arith, e, p) in
          let n : 3 * suc items + more ≡ suc (3 * items + more + 2) = omega arith in
          rw (n, nothing) (ends (3 * items + more + 2) inner inner' p)
      from ih (some (some node, inner')) p =
          elim (Option-cases (collect PostOrder.round items fuel inner')) [
            | inl fails ↦ absurd (ground (arith, e, p, fails))
            | inr (rest, returns) ↦
                let both : ns ≡ node ∷ rest = ground (arith, e, p, returns) in
                let n : 3 * suc items + more ≡ suc (suc (suc (3 * items + more))) = omega arith in
                rw (n, both)
                  (node_lem (3 * items + more) inner inner' node (chunks_of_all t root rest) p
                    (λ k. rw (count k) (ih (k + more) inner' rest returns)))
          ]

-- The nodes that the inner iterator of a tree yields.
tree_nodes :
    (t : BaoTree)
    → IsValid t
    → (f : ℕ) × (PostOrder.yields f (Iter.new (shifted t).0 (shifted t).1)
        ≡ some (below (shifted t).1 (post_order (level (shifted t).0) 0)))
tree_nodes t v =
    let (height, m, s) = shape t v in
    let (f, enough) =
      post_order-yields (2 * m + 1) m height refl (omega (arith, s.low))
        (omega (arith, s.tight, suc-node_at height 0)) (omega (arith, s.wide)) in
    (f, rw (height_lem t v height m s, s.root_lem, s.len_lem) (enough f (omega arith)))

-- For a valid tree, `PostOrderChunkIter` ends, without a panic, and yields the chunks of the nodes
-- of the tree one node after the other, in post order: of a branch its hash pair, of a leaf its two
-- pieces of data and then its hash pair, or the one piece of data of a leaf with nothing behind its
-- middle.
pub post_order_chunks_lem :
    (t : BaoTree)
    → IsValid t
    → (items : ℕ) × (fuel : ℕ) × (post_order_chunks t items fuel
        ≡ some (
            chunks_of_all t
              (shifted t).0
              (below (shifted t).1 (post_order (level (shifted t).0) 0))))
unfolding post_order_chunks Chunks.new PostOrder.yields
post_order_chunks_lem t v =
    let (fuel, e) = tree_nodes t v in
    (
      3 * fuel + 0,
      fuel,
      chunk_lem t (shifted t).0 fuel fuel 0 (Iter.new (shifted t).0 (shifted t).1)
          (below (shifted t).1 (post_order (level (shifted t).0) 0)) e,
    )
