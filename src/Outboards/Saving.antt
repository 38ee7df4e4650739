-- ===== src/Outboards/Saving.antt =====
-- `save` and `load` of the outboards in memory.
use bao_tree.Base.{
  ℕ, ◌*◌, ◌<◌, ◌≡◌, ◌≢◌, ◌⊎◌, refl, arith, ap, ◌∙◌, sym, inl, inr, List, length, get_elem?, some,
  none, Option, true, false,
}
use bao_tree.Word.{u64_mul}
use bao_tree.Outcome.{ok, err}
use bao_tree.Errors.{IoError}
use bao_tree.Hashing.{Blake3}
use bao_tree.Node.{TreeNode}
use bao_tree.Tree.{BaoTree, shifted, outboard_hash_pairs, is_persisted}
use bao_tree.Tree.Shape.{IsValid}
use bao_tree.Outboards.{
  PostOrderMemOutboard, PreOrderMemOutboard, invalid_node, load_at, load_raw, load_raw_post_mem,
  load_raw_pre_mem, load_post, load_pre, save_at, put_pair, parse_hash_pair, pre_place, post_place,
}
use bao_tree.Outboards.Slots.{HasBytes, cell, parse-pair_bytes, put-pair, load_at-cell}
use bao_tree.Outboards.Layout.{
  raise, Layout, few_pairs, pre_layout, post_layout, slot-lt, slots_differ,
}
use bao_tree.Outboards.Post
use bao_tree.Outboards.Pre

module _ {Hash : Type 0} (b : Blake3 Hash) (h : HasBytes b) (t : BaoTree) (v : IsValid t)
    (place : TreeNode → Option (Option ℕ)) (y : Layout t place) where
  -- A load from any bytes of the right size.
  pub load-slot :
      {E : Type 0} (i : ℕ) (n : TreeNode) (bytes : List ℕ)
      → length bytes ≡ outboard_hash_pairs t * 64
      → place (raise t n) ≡ some (some i)
      → get_elem? y.order i ≡ some n
      → load_at b {E = E} (place (raise t n)) bytes ≡ ok (some (parse_hash_pair b (cell i bytes)))
  load-slot i n bytes size e at =
      let less = slot-lt t place y i n at in
      rw e
        (load_at-cell b h i bytes (omega (arith, less, size)) (omega (arith, less, few_pairs t v)))

  pub load-none : {E : Type 0} (bytes : List ℕ) → load_at b {E = E} (some none) bytes ≡ ok none
  unfolding load_at load_raw
  load-none bytes = refl

  -- What putting the pair of a node into its slot does to the loads of all nodes.
  pub put-loads :
      {E : Type 0} (i : ℕ) (n : TreeNode) (pair : Hash × Hash) (bytes : List ℕ)
      → length bytes ≡ outboard_hash_pairs t * 64
      → place (raise t n) ≡ some (some i)
      → get_elem? y.order i ≡ some n
      → (out : List ℕ) × (put_pair b {E = E} (u64_mul i 64) pair bytes ≡ ok out)
        × (length out ≡ outboard_hash_pairs t * 64)
        × (load_at b {E = IoError} (place (raise t n)) out ≡ ok (some pair))
        × ((m : TreeNode)
            → m < (shifted t).1
            → n ≢ m
            → load_at b {E = IoError} (place (raise t m)) out ≡ load_at b (place (raise t m)) bytes)
  put-loads i n pair bytes size e at =
      let less = slot-lt t place y i n at in
      let (out, put, len, here, others) =
        put-pair b h i pair bytes (omega (arith, less, size))
          (omega (arith, less, few_pairs t v)) in
      let size' : length out ≡ outboard_hash_pairs t * 64 = len ∙ size in
      (
        out,
        put,
        size',
        load-slot i n out size' e at
            ∙ ap (λ (c : List ℕ). ok (some (parse_hash_pair b c))) here
            ∙ ap (λ (p : Hash × Hash). ok (some p)) (parse-pair_bytes b h pair),
        λ m inside other. elim (y.each m inside) [
          | inl (j, p, f, at') ↦
              load-slot j m out size' f at'
              ∙ ap (λ (c : List ℕ). ok (some (parse_hash_pair b c)))
                  (others j (slots_differ t place y i j n m at at' other))
              ∙ sym (load-slot j m bytes size f at')
          | inr (p, f) ↦ rw f (load-none out ∙ sym (load-none bytes))
        ],
      )

  -- The result of a save, for a node and for another one.
  abbrev pub Saved : TreeNode → TreeNode → Hash × Hash → List ℕ → Type 0
  Saved n m pair bytes =
      ((is_persisted t (raise t n) ≡ true)
        × ((out : List ℕ) × (save_at b (place (raise t n)) pair bytes ≡ ok out)
            × (length out ≡ length bytes)
            × (load_at b {E = IoError} (place (raise t n)) out ≡ ok (some pair))
            × (load_at b {E = IoError} (place (raise t m)) out
                ≡ load_at b (place (raise t m)) bytes)))
      ⊎ ((is_persisted t (raise t n) ≡ false)
          × (save_at b (place (raise t n)) pair bytes ≡ err invalid_node)
          × (load_at b {E = IoError} (place (raise t n)) bytes ≡ ok none))

  pub save-load :
      (n m : TreeNode) (pair : Hash × Hash) (bytes : List ℕ)
      → length bytes ≡ outboard_hash_pairs t * 64
      → n < (shifted t).1
      → m < (shifted t).1
      → n ≢ m
      → Saved n m pair bytes
  unfolding save_at
  save-load n m pair bytes size hn hm other = elim (y.each n hn) [
    | inl (i, p, e, at) ↦
        let (out, put, size', here, others) = put-loads {E = IoError} i n pair bytes size e at in
        inl (p, (out, rw e put, size' ∙ sym size, here, others m hm other))
    | inr (p, e) ↦ inr (p, rw e refl, rw e (load-none bytes))
  ]

module _ {Hash : Type 0} (b : Blake3 Hash) (h : HasBytes b) where
  abbrev pub SavedPost : PostOrderMemOutboard Hash → TreeNode → TreeNode → Hash × Hash → Type 0
  SavedPost o n m pair =
      let node = raise o.tree n in
      let other = raise o.tree m in
      ((is_persisted o.tree node ≡ true)
        × ((o' : PostOrderMemOutboard Hash) × (Post.save b o node pair ≡ ok o')
            × (length o'.bytes ≡ length o.bytes)
            × (Post.load b o' node ≡ ok (some pair))
            × (Post.load b o' other ≡ Post.load b o other)))
      ⊎ ((is_persisted o.tree node ≡ false)
          × (Post.save b o node pair ≡ err invalid_node)
          × (Post.load b o node ≡ ok none))

  abbrev pub SavedPre : PreOrderMemOutboard Hash → TreeNode → TreeNode → Hash × Hash → Type 0
  SavedPre o n m pair =
      let node = raise o.tree n in
      let other = raise o.tree m in
      ((is_persisted o.tree node ≡ true)
        × ((o' : PreOrderMemOutboard Hash) × (Pre.save b o node pair ≡ ok o')
            × (length o'.bytes ≡ length o.bytes)
            × (Pre.load b o' node ≡ ok (some pair))
            × (Pre.load b o' other ≡ Pre.load b o other)))
      ⊎ ((is_persisted o.tree node ≡ false)
          × (Pre.save b o node pair ≡ err invalid_node)
          × (Pre.load b o node ≡ ok none))

  -- For two different nodes of a valid tree and a post order outboard of the right size: either the
  -- first is persisted, and saving a pair for it succeeds, keeps the number of bytes, has `load`
  -- return that pair for it and what it returned before for the other; or it is not persisted,
  -- saving is refused as an invalid node, and `load` returns none.
  pub post_save-load :
      (o : PostOrderMemOutboard Hash) (n m : TreeNode) (pair : Hash × Hash)
      → IsValid o.tree
      → length o.bytes ≡ outboard_hash_pairs o.tree * 64
      → n < (shifted o.tree).1
      → m < (shifted o.tree).1
      → n ≢ m
      → SavedPost o n m pair
  unfolding Post.save Post.load load_post load_raw_post_mem load_at
  post_save-load o n m pair v size hn hm other =
      elim (save-load b h o.tree v (post_place o.tree) (post_layout o.tree v) n m pair o.bytes size
        hn hm other) [
          | inl (p, (out, save, len, here, rest)) ↦
              inl (p, (record o { bytes = out }, rw save refl, len, here, rest))
          | inr (p, save, none_here) ↦ inr (p, rw save refl, none_here)
        ]

  -- The same of a pre order outboard.
  pre_save-load :
      (o : PreOrderMemOutboard Hash) (n m : TreeNode) (pair : Hash × Hash)
      → IsValid o.tree
      → length o.bytes ≡ outboard_hash_pairs o.tree * 64
      → n < (shifted o.tree).1
      → m < (shifted o.tree).1
      → n ≢ m
      → SavedPre o n m pair
  unfolding Pre.save Pre.load load_pre load_raw_pre_mem load_at
  pre_save-load o n m pair v size hn hm other =
      elim (save-load b h o.tree v (pre_place o.tree) (pre_layout o.tree v) n m pair o.bytes size hn
        hm other) [
          | inl (p, (out, save, len, here, rest)) ↦
              inl (p, (record o { bytes = out }, rw save refl, len, here, rest))
          | inr (p, save, none_here) ↦ inr (p, rw save refl, none_here)
        ]
