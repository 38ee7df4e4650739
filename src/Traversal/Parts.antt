-- ===== src/Traversal/Parts.antt =====
-- The part of a traversal that is below `len`.
use bao_tree.Base.{ℕ, zero, suc, ◌+◌, ◌*◌, ◌^◌, ◌≤◌, ◌<◌, ◌≡◌, refl, arith, [], ◌∷◌, ◌++◌}
use bao_tree.Base.{filter-append, two-pow-pos, mul-two-pow-suc, ltb, append-nil, ◌∙◌, ap}
use bao_tree.Node.Place.{node_at, suc-node_at}
use bao_tree.Traversal.{pre_order, post_order, below}

module _ (len : ℕ) where
  below-leaf_in : (n : ℕ) → n < len → below len (n ∷ []) ≡ n ∷ []
  below-leaf_in n h = ground arith

  below-leaf_out : (n : ℕ) → len ≤ n → below len (n ∷ []) ≡ []
  below-leaf_out n h = ground arith

  pub post_order-leaf_in :
      (k : ℕ) → node_at 0 k < len → below len (post_order 0 k) ≡ node_at 0 k ∷ []
  unfolding post_order
  post_order-leaf_in k h = below-leaf_in (node_at 0 k) h

  pub pre_order-leaf_in : (k : ℕ) → node_at 0 k < len → below len (pre_order 0 k) ≡ node_at 0 k ∷ []
  unfolding pre_order
  pre_order-leaf_in k h = below-leaf_in (node_at 0 k) h

  post_order_parts :
      (l k : ℕ)
      → below len (post_order (suc l) k)
        ≡ below len (post_order l (2 * k))
          ++ (below len (post_order l (2 * k + 1)) ++ below len (node_at (suc l) k ∷ []))
  unfolding post_order
  post_order_parts l k = simp filter-append

  -- A subtree that begins at or beyond `len` contributes nothing.
  pub below-post_order-nil : (l k : ℕ) → len ≤ k * 2 ^ suc l → below len (post_order l k) ≡ []
  below-post_order-nil zero k h =
      unfold post_order in below-leaf_out (node_at 0 k) (omega (arith, suc-node_at 0 k))
  below-post_order-nil (suc l) k h =
      let two = mul-two-pow-suc k (suc l) in
      rw
        (
          post_order_parts l k,
          below-post_order-nil l (2 * k) (omega arith),
          below-post_order-nil l (2 * k + 1) (omega arith),
        )
        (below-leaf_out (node_at (suc l) k)
          (omega (arith, suc-node_at (suc l) k, two-pow-pos (suc l))))

  -- A branch below `len` stands behind what is below `len` of its subtrees.
  pub post_order-branch_in :
      (l k : ℕ)
      → node_at (suc l) k < len
      → below len (post_order (suc l) k)
        ≡ below len (post_order l (2 * k))
          ++ (below len (post_order l (2 * k + 1)) ++ (node_at (suc l) k ∷ []))
  post_order-branch_in l k h = rw (post_order_parts l k, below-leaf_in (node_at (suc l) k) h)

  -- A branch at or beyond `len` leaves only its left subtree.
  pub post_order-branch_out :
      (l k : ℕ)
      → len ≤ node_at (suc l) k
      → below len (post_order (suc l) k) ≡ below len (post_order l (2 * k))
  post_order-branch_out l k h =
      rw
        (
          post_order_parts l k,
          below-leaf_out (node_at (suc l) k) h,
          below-post_order-nil l (2 * k + 1)
              (omega (arith, suc-node_at (suc l) k, mul-two-pow-suc k (suc l))),
        )
        (append-nil _)

  pre_order_parts :
      (l k : ℕ)
      → below len (pre_order (suc l) k)
        ≡ below len (node_at (suc l) k ∷ [])
          ++ (below len (pre_order l (2 * k)) ++ below len (pre_order l (2 * k + 1)))
  unfolding pre_order
  pre_order_parts l k =
      filter-append (λ n. ltb n len) (node_at (suc l) k ∷ [])
        (pre_order l (2 * k) ++ pre_order l (2 * k + 1))
      ∙ ap (λ ns. below len (node_at (suc l) k ∷ []) ++ ns)
          (filter-append (λ n. ltb n len) (pre_order l (2 * k)) (pre_order l (2 * k + 1)))

  pub below-pre_order-nil : (l k : ℕ) → len ≤ k * 2 ^ suc l → below len (pre_order l k) ≡ []
  below-pre_order-nil zero k h =
      unfold pre_order in below-leaf_out (node_at 0 k) (omega (arith, suc-node_at 0 k))
  below-pre_order-nil (suc l) k h =
      let two = mul-two-pow-suc k (suc l) in
      rw
        (
          pre_order_parts l k,
          below-pre_order-nil l (2 * k) (omega arith),
          below-pre_order-nil l (2 * k + 1) (omega arith),
          below-leaf_out (node_at (suc l) k)
              (omega (arith, suc-node_at (suc l) k, two-pow-pos (suc l))),
        )
        refl

  pub pre_order-branch_in :
      (l k : ℕ)
      → node_at (suc l) k < len
      → below len (pre_order (suc l) k)
        ≡ node_at (suc l) k
          ∷ (below len (pre_order l (2 * k)) ++ below len (pre_order l (2 * k + 1)))
  pre_order-branch_in l k h = rw (pre_order_parts l k, below-leaf_in (node_at (suc l) k) h) refl

  pub pre_order-branch_out :
      (l k : ℕ)
      → len ≤ node_at (suc l) k
      → below len (pre_order (suc l) k) ≡ below len (pre_order l (2 * k))
  pre_order-branch_out l k h =
      rw
        (
          pre_order_parts l k,
          below-leaf_out (node_at (suc l) k) h,
          below-pre_order-nil l (2 * k + 1)
              (omega (arith, suc-node_at (suc l) k, mul-two-pow-suc k (suc l))),
        )
        (append-nil _)
