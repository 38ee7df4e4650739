-- ===== src/Iter/PostOrder/Walk.antt =====
-- The rounds of `PostOrderNodeIter`: from the first node of a subtree they emit the subtree's
-- part below `len` in post order, and then go on from where `go_up` leads.
use bao_tree.Base.{
  ℕ, zero, suc, ◌+◌, ◌-◌, ◌*◌, ◌^◌, ◌≤◌, ◌<◌, ◌≡◌, refl, arith, some, none, List, [], ◌∷◌, ◌++◌,
}
use bao_tree.Base.{
  two-pow-suc, two-pow-pos, mul-two-pow-suc, lt-cases, inl, inr, append_assoc, ◌∙◌, sym, subst,
  le_of_two-pow-le, some-inj, two-pow-le, append-nil,
}
use bao_tree.Base.{if◌then◌else◌, ltb, lt→ltb, le→ltb}
use bao_tree.Node.{TreeNode, restricted_parent, descend_loop, right_descendant}
use bao_tree.Node.Place.{
  node_at, suc-node_at, node_at-left, node_at-right, left_child-node_at, left_child-leaf,
}
use bao_tree.Node.Climb.{
  restricted_parent-here, restricted_parent-above, restricted_parent-none, descend_loop-here,
  descend_loop-left, right_descendant_lem,
}
use bao_tree.Traversal.{post_order, below}
use bao_tree.Traversal.Parts.{post_order-leaf_in, post_order-branch_in, post_order-branch_out}
use bao_tree.Iter.{Prev, NodeIter, again, emit, finish, go_up, new}
use bao_tree.Iter.Driver.{Runs, runs_again, runs_emit, runs_finish}
use bao_tree.Iter.PostOrder.{round}

module _ (len m : ℕ) (odd : len ≡ 2 * m + 1) where
  abbrev at : TreeNode → Prev → NodeIter
  at n p = record { len = len; curr = n; prev = p }

  -- The rounds at a node, by where the iterator came from.
  round-leaf :
      (k : ℕ)
      → node_at 0 k < 2 ^ 63
      → round (at (node_at 0 k) Prev.parent)
        ≡ emit (node_at 0 k) (go_up (at (node_at 0 k) Prev.parent) (node_at 0 k))
  unfolding round
  round-leaf k h = ground (arith, left_child-leaf k h)

  round-down :
      (l k : ℕ)
      → node_at (suc l) k < 2 ^ 63
      → round (at (node_at (suc l) k) Prev.parent) ≡ again (at (node_at l (2 * k)) Prev.parent)
  unfolding round
  round-down l k h = ground (arith, left_child-node_at l k h)

  round-across :
      (n d : TreeNode)
      → right_descendant n len ≡ some d
      → round (at n Prev.left) ≡ again (at d Prev.parent)
  unfolding round
  round-across n d e = ground arith

  round-up : (n : TreeNode) → round (at n Prev.right) ≡ emit n (go_up (at n Prev.right) n)
  unfolding round
  round-up n = refl

  round-done : (d : TreeNode) → round (at d Prev.done) ≡ finish (at d Prev.done)
  unfolding round
  round-done d = refl

  go_up-none :
      (d : TreeNode) (q : Prev) → restricted_parent d len ≡ none → go_up (at d q) d ≡ at d Prev.done
  unfolding go_up
  go_up-none d q e = ground arith

  go_up_lem :
      (d p : TreeNode) (q : Prev)
      → restricted_parent d len ≡ some p
      → go_up (at d q) d ≡ at p (if ltb d p then Prev.left else Prev.right)
  unfolding go_up
  go_up_lem d p q e = ground arith

  -- From every node of a subtree that `go_up` leaves as it leaves the root, the rounds emit `ys`.
  abbrev Exits : ℕ → ℕ → List TreeNode → Type 0
  Exits l k ys =
      (d : TreeNode) (q : Prev)
      → k * 2 ^ suc l ≤ d
      → d + 1 < (k + 1) * 2 ^ suc l
      → restricted_parent d len ≡ restricted_parent (node_at l k) len
      → Runs round (go_up (at d q) d) ys

  abbrev Visits : ℕ → ℕ → ℕ → List TreeNode → Type 0
  Visits f l k ys =
      (d : TreeNode) × (descend_loop f (node_at l k) len ≡ some d)
      × Runs round (at d Prev.parent) (below len (post_order l k) ++ ys)

  -- An exit that every node of a subtree shares with its parent `p`.
  exit_to :
      (l k : ℕ) (p : TreeNode) (side : Prev) (ys : List TreeNode)
      → restricted_parent (node_at l k) len ≡ some p
      → ((d : ℕ)
          → k * 2 ^ suc l ≤ d
          → d + 1 < (k + 1) * 2 ^ suc l
          → (if ltb d p then Prev.left else Prev.right) ≡ side)
      → Runs round (at p side) ys
      → Exits l k ys
  exit_to l k p side ys up turn rest d q lo hi e = rw (go_up_lem d p q (e ∙ up), turn d lo hi) rest

  visit_leaf :
      (k f : ℕ) (ys : List TreeNode)
      → (k + 1) * 2 ^ 1 ≤ 2 ^ 63
      → k * 2 ^ 1 < len
      → Exits 0 k ys
      → Visits (suc f) 0 k ys
  visit_leaf k f ys fits first exit =
      let n = node_at 0 k in
      let number = suc-node_at 0 k in
      let here : n < len = omega arith in
      (
        n,
        descend_loop-here len f n here,
        rw (post_order-leaf_in len k here) (
            runs_emit (round-leaf k (omega arith))
              (exit n Prev.parent (omega arith) (omega arith) refl)),
      )

  -- The subtrees of a branch, for every exit.
  abbrev Subtrees : ℕ → Type 0
  Subtrees l =
      (k f : ℕ) (ys : List TreeNode)
      → (k + 1) * 2 ^ suc l ≤ 2 ^ 63
      → l < f
      → k * 2 ^ suc l < len
      → Exits l k ys
      → Visits f l k ys

  module _ (l k : ℕ) (fits : (k + 1) * 2 ^ suc (suc l) ≤ 2 ^ 63) where
    abbrev n : TreeNode
    n = node_at (suc l) k

    n-number : n + 1 ≡ 2 * (k * 2 ^ suc l) + 2 ^ suc l
    n-number = suc-node_at (suc l) k

    slot : (k + 1) * 2 ^ suc (suc l) ≡ 2 * (k * 2 ^ suc l) + 2 * 2 ^ suc l
    slot = omega (arith, mul-two-pow-suc (k + 1) (suc l))

    low : l < 62
    low =
        omega (arith, le_of_two-pow-le (suc (suc l)) 63 (omega (arith, two-pow-suc (suc l), slot)))

    n-fits : n < 2 ^ 63
    n-fits = omega (arith, n-number, slot)

    left-fits : node_at l (2 * k) < 2 ^ 63
    left-fits = omega (arith, node_at-left l k, n-fits)

    right-fits : node_at l (2 * k + 1) < 2 ^ 63
    right-fits = omega (arith, node_at-right l k, n-number, slot, two-pow-suc l, two-pow-pos l)

    module _ (sub : Subtrees l) (first : k * 2 ^ suc (suc l) < len) where
      -- A node beyond `len` hands over to its left subtree, which leaves as the node does.
      visit_out :
          (f : ℕ) (ys : List TreeNode)
          → l < f
          → len ≤ n
          → Exits (suc l) k ys
          → Visits (suc f) (suc l) k ys
      visit_out f ys fuel out exit =
          let above =
            restricted_parent-above len l (2 * k) k 0 (omega (arith, low)) (omega arith)
              (omega arith) left-fits out in
          let (d, down, runs) =
            sub (2 * k) f ys (omega (arith, slot)) fuel (omega (arith, mul-two-pow-suc k (suc l)))
              (λ d q lo hi e.
                exit d q (omega (arith, mul-two-pow-suc k (suc l)))
                  (omega (arith, slot, two-pow-pos (suc l))) (e ∙ above)) in
          (
            d,
            descend_loop-left len f l k n-fits out ∙ down,
            rw (post_order-branch_out len l k out) runs,
          )

      module _ (here : n < len) where
        abbrev right_part : List TreeNode
        right_part = below len (post_order l (2 * k + 1))

        -- The right subtree, entered when its sibling has been left.
        across :
            (ys : List TreeNode)
            → Runs round (at n Prev.right) ys
            → Runs round (at n Prev.left) (right_part ++ ys)
        across ys rest =
            let up =
              restricted_parent-here len l (2 * k + 1) k 1 (omega (arith, low)) refl (omega arith)
                right-fits here in
            let (d, down, runs) =
              sub (2 * k + 1) 66 ys (omega (arith, slot)) (omega (arith, low))
                (omega (arith, n-number, two-pow-suc l))
                (exit_to l (2 * k + 1) n Prev.right ys up
                  (λ d lo hi. rw (le→ltb d n (omega (arith, n-number))) refl) rest) in
            runs_again (round-across n d (right_descendant_lem len l k n-fits right-fits down)) runs

        -- The left subtree, entered first.
        down_left :
            (ys : List TreeNode)
            → Runs round (at n Prev.left) ys
            → Runs round (at n Prev.parent) (below len (post_order l (2 * k)) ++ ys)
        down_left ys rest =
            let up =
              restricted_parent-here len l (2 * k) k 0 (omega (arith, low)) (omega arith)
                (omega arith) left-fits here in
            let (d, down, runs) =
              sub (2 * k) 66 ys (omega (arith, slot)) (omega (arith, low))
                (omega (arith, mul-two-pow-suc k (suc l)))
                (exit_to l (2 * k) n Prev.left ys up
                  (λ d lo hi. rw (lt→ltb d n (omega (arith, n-number))) refl) rest) in
            let same = some-inj (
              sym down
              ∙ descend_loop-here len 65 (node_at l (2 * k)) (omega (arith, node_at-left l k))) in
            runs_again (round-down l k n-fits) (
              subst (λ d. Runs round (at d Prev.parent) (below len (post_order l (2 * k)) ++ ys))
                same runs)

        visit_here : (f : ℕ) (ys : List TreeNode) → Exits (suc l) k ys → Visits (suc f) (suc l) k ys
        visit_here f ys exit =
            let leave =
              exit n Prev.right
                (omega (arith, n-number, mul-two-pow-suc k (suc l), two-pow-pos (suc l)))
                (omega (arith, n-number, slot, two-pow-pos (suc l))) refl in
            let runs =
              down_left (right_part ++ (n ∷ ys)) (across (n ∷ ys) (runs_emit (round-up n) leave)) in
            (
              n,
              descend_loop-here len f n here,
              rw (post_order-branch_in len l k here) (simp append_assoc runs),
            )

  visit : (l : ℕ) → Subtrees l
  visit l k zero ys fits fuel first exit = absurd (omega arith)
  visit zero k (suc f) ys fits fuel first exit = visit_leaf k f ys fits first exit
  visit (suc l) k (suc f) ys fits fuel first exit = elim (lt-cases (node_at (suc l) k) len) [
    | inl here ↦ visit_here l k fits (visit l) first here f ys exit
    | inr out ↦ visit_out l k fits (visit l) first f ys (omega arith) out exit
  ]

  -- Nothing is above the root, so its exit ends the iteration.
  root_exit : (l : ℕ) → l ≤ 63 → len < 2 * 2 ^ l → Exits l 0 []
  root_exit l h small d q lo hi e =
      rw (go_up-none d q (e ∙ restricted_parent-none len (63 - l) l (omega arith) small))
        (runs_finish (round-done d))

  pub Runs-root :
      (l : ℕ)
      → l < 63
      → node_at l 0 < len
      → len < 2 * 2 ^ l
      → Runs round (new (node_at l 0) len) (below len (post_order l 0))
  unfolding new
  Runs-root l low valid small =
      let (d, down, runs) =
        visit l 0 66 [] (omega (arith, two-pow-le {m = suc l} {n = 63} (omega arith))) (omega arith)
          (omega arith) (root_exit l (omega arith) small) in
      let same = some-inj (sym down ∙ descend_loop-here len 65 (node_at l 0) valid) in
      rw append-nil at
        (subst (λ d. Runs round (at d Prev.parent) (below len (post_order l 0) ++ [])) same runs)
