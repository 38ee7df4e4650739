-- ===== src/Traversal/Lengths.antt =====
-- How many nodes of a subtree are below `len`.
use bao_tree.Base.{ℕ, zero, suc, ◌+◌, ◌-◌, ◌*◌, ◌^◌, ◌≡◌, arith, length, min}
use bao_tree.Base.{length-append, two-pow-suc, two-pow-pos, mul-two-pow-suc, lt-cases, inl, inr}
use bao_tree.Node.Place.{node_at, suc-node_at}
use bao_tree.Traversal.{pre_order, post_order, below}
use bao_tree.Traversal.Parts.{
  post_order-leaf_in, pre_order-leaf_in, below-post_order-nil, below-pre_order-nil,
  post_order-branch_in, post_order-branch_out, pre_order-branch_in, pre_order-branch_out,
}

module _ (len : ℕ) where
  -- The subtree at a place holds the numbers from `k * 2 ^ suc l` up to the next multiple less two.
  abbrev pub part : ℕ → ℕ → ℕ
  part l k = min len ((k + 1) * 2 ^ suc l - 1) - k * 2 ^ suc l

  pub length-post_order : (l k : ℕ) → length (below len (post_order l k)) ≡ part l k
  length-post_order zero k = elim (lt-cases (node_at 0 k) len) [
    | inl here ↦ rw (post_order-leaf_in len k here) (omega (arith, suc-node_at 0 k))
    | inr out ↦
        rw (below-post_order-nil len 0 k (omega (arith, suc-node_at 0 k)))
          (omega (arith, suc-node_at 0 k))
  ]
  length-post_order (suc l) k =
      let numbers = suc-node_at (suc l) k in
      let two = mul-two-pow-suc k (suc l) in
      let two' = two-pow-suc (suc l) in
      let pos = two-pow-pos (suc l) in
      elim (lt-cases (node_at (suc l) k) len) [
        | inl here ↦
            rw (post_order-branch_in len l k here, length-append, length-append)
              (omega (
                arith,
                length-post_order l (2 * k),
                length-post_order l (2 * k + 1),
                numbers,
                two,
                two',
                pos,
              ))
        | inr out ↦
            rw (post_order-branch_out len l k out)
              (omega (arith, length-post_order l (2 * k), numbers, two, two', pos))
      ]

  pub length-pre_order : (l k : ℕ) → length (below len (pre_order l k)) ≡ part l k
  length-pre_order zero k = elim (lt-cases (node_at 0 k) len) [
    | inl here ↦ rw (pre_order-leaf_in len k here) (omega (arith, suc-node_at 0 k))
    | inr out ↦
        rw (below-pre_order-nil len 0 k (omega (arith, suc-node_at 0 k)))
          (omega (arith, suc-node_at 0 k))
  ]
  length-pre_order (suc l) k =
      let numbers = suc-node_at (suc l) k in
      let two = mul-two-pow-suc k (suc l) in
      let two' = two-pow-suc (suc l) in
      let pos = two-pow-pos (suc l) in
      elim (lt-cases (node_at (suc l) k) len) [
        | inl here ↦
            rw (pre_order-branch_in len l k here, length-append)
              (omega (
                arith,
                length-append (below len (pre_order l (2 * k)))
                    (below len (pre_order l (2 * k + 1))),
                length-pre_order l (2 * k),
                length-pre_order l (2 * k + 1),
                numbers,
                two,
                two',
                pos,
              ))
        | inr out ↦
            rw (pre_order-branch_out len l k out)
              (omega (arith, length-pre_order l (2 * k), numbers, two, two', pos))
      ]
