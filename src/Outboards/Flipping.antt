-- ===== src/Outboards/Flipping.antt =====
-- `flip` of the outboards in memory: the loop over the nodes, then the outboards.
use bao_tree.Base.{
  ℕ, zero, suc, ◌+◌, ◌*◌, ◌<◌, ◌≡◌, refl, arith, ◌∙◌, sym, inl, inr, List, [], ◌∷◌, map, length,
  get_elem?, some, Option, replicate, length-replicate, eq-cases, some-inj, ltb, ltb→lt,
  get_elem?-filter,
}
use bao_tree.Outcome.{ok}
use bao_tree.Errors.{IoError}
use bao_tree.Hashing.{Blake3}
use bao_tree.Node.{TreeNode, level}
use bao_tree.Node.Place.{place}
use bao_tree.Traversal.{post_order, below}
use bao_tree.Tree.{BaoTree, shifted, outboard_hash_pairs}
use bao_tree.Tree.Shape.{IsValid, shape}
use bao_tree.Outboards.{
  PostOrderMemOutboard, PreOrderMemOutboard, load_at, load_raw_post_mem, load_raw_pre_mem,
  load_post, load_pre, flip_loop, flip_post, flip_pre, parse_hash_pair, pre_place, post_place,
}
use bao_tree.Outboards.Slots.{HasBytes, cell}
use bao_tree.Outboards.Layout.{raise, Layout, pre_layout, post_layout}
use bao_tree.Outboards.Saving.{load-slot, put-loads, load-none}
use bao_tree.Traversal.PostOffsets.{post_index}
use bao_tree.Tree.Offsets.{height_lem}
use bao_tree.Tree.Traversals.{post_order_nodes_lem}
use bao_tree.Outboards.Post
use bao_tree.Outboards.Pre

module _ {Hash : Type 0} (b : Blake3 Hash) (h : HasBytes b) (t : BaoTree) (v : IsValid t)
    (from to : TreeNode → Option (Option ℕ)) (y : Layout t from) (z : Layout t to) (bytes : List ℕ)
    (size : length bytes ≡ outboard_hash_pairs t * 64) where
  -- What is copied of a node so far.
  abbrev Copied : TreeNode → List ℕ → Type 0
  Copied m out = load_at b {E = IoError} (to (raise t m)) out ≡ load_at b (from (raise t m)) bytes

  -- One round of the loop copies its node and keeps what is copied.
  abbrev Round : TreeNode → List ℕ → List TreeNode → Type 0
  Round n out ns =
      (out' : List ℕ) × (flip_loop b {E = IoError} from to bytes (raise t n ∷ ns) out
        ≡ flip_loop b from to bytes ns out')
      × (length out' ≡ outboard_hash_pairs t * 64)
      × Copied n out'
      × ((m : TreeNode) → m < (shifted t).1 → Copied m out → Copied m out')

  round :
      (n : TreeNode) (ns : List TreeNode) (out : List ℕ)
      → n < (shifted t).1
      → length out ≡ outboard_hash_pairs t * 64
      → Round n out ns
  unfolding flip_loop
  round n ns out inside len = elim (y.each n inside) [
    | inl (i, p, e, at) ↦ elim (z.each n inside) [
      | inl (j, q, f, at') ↦
          let pair = parse_hash_pair b (cell i bytes) in
          let (out', put, len', here, others) =
            put-loads b h t v to z {E = IoError} j n pair out len f at' in
          let loaded = load-slot b h t v from y {E = IoError} i n bytes size e at in
          (
            out',
            rw (loaded, f, put) refl,
            len',
            here ∙ sym loaded,
            λ m inside' copied. elim (eq-cases n m) [
              | inl same ↦ rw (sym same) (here ∙ sym loaded)
              | inr other ↦ others m inside' other ∙ copied
            ],
          )
      | inr (q, f) ↦ absurd (cc (p, q))
    ]
    | inr (p, e) ↦ elim (z.each n inside) [
      | inl (j, q, f, at') ↦ absurd (cc (p, q))
      | inr (q, f) ↦
          let nothing = load-none b h t v from y {E = IoError} bytes in
          (
            out,
            rw (e, nothing) refl,
            len,
            rw (e, f) (load-none b h t v to z out ∙ sym nothing),
            λ m inside' copied. copied,
          )
    ]
  ]

  -- All of the nodes of a list are copied.
  abbrev Rounds : List TreeNode → List ℕ → Type 0
  Rounds ns out =
      (out' : List ℕ) × (flip_loop b {E = IoError} from to bytes (map (raise t) ns) out ≡ ok out')
      × (length out' ≡ outboard_hash_pairs t * 64)
      × ((k : ℕ) (m : TreeNode) → get_elem? ns k ≡ some m → Copied m out')
      × ((m : TreeNode) → m < (shifted t).1 → Copied m out → Copied m out')

  rounds :
      (ns : List TreeNode) (out : List ℕ)
      → ((k : ℕ) (m : TreeNode) → get_elem? ns k ≡ some m → m < (shifted t).1)
      → length out ≡ outboard_hash_pairs t * 64
      → Rounds ns out
  unfolding flip_loop
  rounds [] out all len = (out, refl, len, λ k m e. absurd (cc e), λ m inside copied. copied)
  rounds (n ∷ ns) out all len =
      let (out1, step, len1, here, keeps) = round n (map (raise t) ns) out (all 0 n refl) len in
      let (out2, loop, len2, others, keeps2) = rounds ns out1 (λ k m e. all (suc k) m e) len1 in
      (
        out2,
        step ∙ loop,
        len2,
        λ k m e. copied k m e out1 out2 here others keeps2,
        λ m inside c. keeps2 m inside (keeps m inside c),
      )
    where
      copied :
          (k : ℕ) (m : TreeNode)
          → get_elem? (n ∷ ns) k ≡ some m
          → (out1 out2 : List ℕ) → Copied n out1
          → ((k : ℕ) (m : TreeNode) → get_elem? ns k ≡ some m → Copied m out2)
          → ((m : TreeNode) → m < (shifted t).1 → Copied m out1 → Copied m out2)
          → Copied m out2
      copied zero m e out1 out2 here others keeps =
          rw (sym (some-inj e)) (keeps n (all 0 n refl) here)
      copied (suc k) m e out1 out2 here others keeps = others k m e

-- The nodes that the loops run over: each is a node of the tree, and every node is among them.
module _ (t : BaoTree) (v : IsValid t) where
  abbrev nodes : List TreeNode
  nodes = below (shifted t).1 (post_order (level (shifted t).0) 0)

  nodes_inside : (k : ℕ) (m : TreeNode) → get_elem? nodes k ≡ some m → m < (shifted t).1
  nodes_inside k m e =
      ltb→lt m (shifted t).1
        (get_elem?-filter (λ n. ltb n (shifted t).1) (post_order (level (shifted t).0) 0) k e)

  nodes_all : (m : TreeNode) → m < (shifted t).1 → (k : ℕ) × (get_elem? nodes k ≡ some m)
  nodes_all m inside =
      let (height, c, s) = shape t v in
      let (l, i, e) = place m in
      let (k, p, at) =
        post_index (2 * c + 1) l i height (omega (arith, sym e, inside, s.len_lem))
          (omega (arith, s.low)) (omega (arith, s.wide)) in
      (k, rw (height_lem t v height c s, s.len_lem, e) at)

module _ {Hash : Type 0} (b : Blake3 Hash) (h : HasBytes b) where
  -- The whole loop, for any two layouts.
  flip-loads :
      (t : BaoTree) (v : IsValid t) (from to : TreeNode → Option (Option ℕ)) (y : Layout t from)
      (z : Layout t to) (bytes : List ℕ)
      → length bytes ≡ outboard_hash_pairs t * 64
      → (out : List ℕ) × (flip_loop b {E = IoError} from to bytes
            (map (raise t) (nodes t v))
            (replicate (length bytes) 0)
          ≡ ok out)
        × (length out ≡ outboard_hash_pairs t * 64)
        × ((m : TreeNode)
            → m < (shifted t).1
            → load_at b {E = IoError} (to (raise t m)) out ≡ load_at b (from (raise t m)) bytes)
  flip-loads t v from to y z bytes size =
      let (out, e, len, copied, keeps) =
        rounds b h t v from to y z bytes size (nodes t v) (replicate (length bytes) 0)
          (nodes_inside t v) (length-replicate (length bytes) 0 ∙ size) in
      (out, e, len, λ m inside. let (k, at) = nodes_all t v m inside in copied k m at)

  abbrev pub FlippedPost : PostOrderMemOutboard Hash → TreeNode → Type 0
  FlippedPost o n =
      (fuel : ℕ) × (o' : PreOrderMemOutboard Hash) × (Post.flip b fuel o ≡ ok o')
      × (o'.tree ≡ o.tree)
      × (o'.root ≡ o.root)
      × (length o'.bytes ≡ length o.bytes)
      × (Pre.load b o' (raise o.tree n) ≡ Post.load b o (raise o.tree n))

  -- For a post order outboard of a valid tree, of the right size: `flip` ends without a panic, and
  -- the pre order outboard has the tree, the root and as many bytes, and loads for every node of the
  -- tree what the post order outboard loads.
  pub post_flip-load :
      (o : PostOrderMemOutboard Hash) (n : TreeNode)
      → IsValid o.tree
      → length o.bytes ≡ outboard_hash_pairs o.tree * 64
      → n < (shifted o.tree).1
      → FlippedPost o n
  unfolding Post.flip flip_post Pre.load Post.load load_pre load_post load_raw_pre_mem
      load_raw_post_mem load_at
  post_flip-load o n v size inside =
      let t = o.tree in
      let (fuel, ns) = post_order_nodes_lem t v in
      let (out, loop, len, same) =
        flip-loads t v (post_place t) (pre_place t) (post_layout t v) (pre_layout t v) o.bytes
          size in
      (
        fuel,
        record { root = o.root; tree = t; bytes = out },
        rw (ns, loop) refl,
        refl,
        refl,
        len ∙ sym size,
        same n inside,
      )

  abbrev pub FlippedPre : PreOrderMemOutboard Hash → TreeNode → Type 0
  FlippedPre o n =
      (fuel : ℕ) × (o' : PostOrderMemOutboard Hash) × (Pre.flip b fuel o ≡ ok o')
      × (o'.tree ≡ o.tree)
      × (o'.root ≡ o.root)
      × (length o'.bytes ≡ length o.bytes)
      × (Post.load b o' (raise o.tree n) ≡ Pre.load b o (raise o.tree n))

  -- For a pre order outboard of a valid tree, of the right size: `flip` ends without a panic, and the
  -- post order outboard has the tree, the root and as many bytes, and loads for every node of the
  -- tree what the pre order outboard loads.
  pub pre_flip-load :
      (o : PreOrderMemOutboard Hash) (n : TreeNode)
      → IsValid o.tree
      → length o.bytes ≡ outboard_hash_pairs o.tree * 64
      → n < (shifted o.tree).1
      → FlippedPre o n
  unfolding Pre.flip flip_pre Post.load Pre.load load_pre load_post load_raw_pre_mem
      load_raw_post_mem load_at
  pre_flip-load o n v size inside =
      let t = o.tree in
      let (fuel, ns) = post_order_nodes_lem t v in
      let (out, loop, len, same) =
        flip-loads t v (pre_place t) (post_place t) (pre_layout t v) (post_layout t v) o.bytes
          size in
      (
        fuel,
        record { root = o.root; tree = t; bytes = out },
        rw (ns, loop) refl,
        refl,
        refl,
        len ∙ sym size,
        same n inside,
      )

  abbrev pub FlippedTwice : PostOrderMemOutboard Hash → TreeNode → Type 0
  FlippedTwice o n =
      (fuel : ℕ) × (o' : PreOrderMemOutboard Hash) × (fuel' : ℕ) × (o'' : PostOrderMemOutboard Hash)
      × (Post.flip b fuel o ≡ ok o')
      × (Pre.flip b fuel' o' ≡ ok o'')
      × (o''.tree ≡ o.tree)
      × (o''.root ≡ o.root)
      × (length o''.bytes ≡ length o.bytes)
      × (Post.load b o'' (raise o.tree n) ≡ Post.load b o (raise o.tree n))

  -- Flipping a post order outboard of a valid tree, of the right size, to pre order and back ends
  -- without a panic, keeps the tree, the root and the number of bytes, and every node of the tree
  -- loads what it loaded before.
  pub flip-flip :
      (o : PostOrderMemOutboard Hash) (n : TreeNode)
      → IsValid o.tree
      → length o.bytes ≡ outboard_hash_pairs o.tree * 64
      → n < (shifted o.tree).1
      → FlippedTwice o n
  unfolding Post.flip flip_post Pre.flip flip_pre Pre.load Post.load load_pre load_post
      load_raw_pre_mem load_raw_post_mem load_at
  flip-flip o n v size inside =
      let t = o.tree in
      let (fuel, ns) = post_order_nodes_lem t v in
      let (out, loop, len, same) =
        flip-loads t v (post_place t) (pre_place t) (post_layout t v) (pre_layout t v) o.bytes
          size in
      let (out2, loop2, len2, same2) =
        flip-loads t v (pre_place t) (post_place t) (pre_layout t v) (post_layout t v) out len in
      (
        fuel,
        record { root = o.root; tree = t; bytes = out },
        fuel,
        record { root = o.root; tree = t; bytes = out2 },
        rw (ns, loop) refl,
        rw (ns, loop2) refl,
        refl,
        refl,
        len2 ∙ sym size,
        same2 n inside ∙ same n inside,
      )
