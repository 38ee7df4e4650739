-- ===== src/Node/Family.antt =====
-- Parents, children and the ranges that they cover.
use bao_tree.Base.{ℕ, zero, suc, ◌+◌, ◌*◌, ◌^◌, ◌<◌, ◌≡◌, arith}
use bao_tree.Base.{some, ap, two-pow-suc, two-pow-le, mul-two-pow-suc}
use bao_tree.Node.{TreeNode, left_child, right_child, parent, level, chunk_range, mid}
use bao_tree.Node.{subtract_block_size, add_block_size}
use bao_tree.Node.Place.{
  node_at, suc-node_at, place, level-bound, level_lem, left_child-node_at, right_child-node_at,
  node_at-left, node_at-right, parent-left, parent-right, chunk_range-node_at, mid-node_at,
}

-- What `HasChildren n` says of a branch `n` and its two children.
pub record HasChildren (n : TreeNode) : Type 0 where
  pub left : TreeNode
  pub right : TreeNode
  pub left_lem : left_child n ≡ some left
  pub right_lem : right_child n ≡ some right
  pub parent-left : parent left ≡ some n
  pub parent-right : parent right ≡ some n
  pub level-left : level left + 1 ≡ level n
  pub level-right : level right + 1 ≡ level n
  pub start-left : (chunk_range left).start ≡ (chunk_range n).start
  pub end-left : (chunk_range left).end ≡ mid n
  pub start-right : (chunk_range right).start ≡ mid n
  pub end-right : (chunk_range right).end ≡ (chunk_range n).end

module _ (l k : ℕ) (fits : node_at (suc l) k < 2 ^ 62) where
  low : l < 62
  low = omega (arith, level-bound (suc l) k 62 fits)

  left-fits : node_at l (2 * k) < 2 ^ 62
  left-fits = omega (arith, node_at-left l k)

  right-fits : node_at l (2 * k + 1) < 2 ^ 63
  right-fits = omega (arith, node_at-right l k, two-pow-le {m = l} {n = 62} (omega (arith, low)))

  place-HasChildren : HasChildren (node_at (suc l) k)
  place-HasChildren =
      let here = chunk_range-node_at (suc l) k (omega arith) (omega (arith, low)) in
      let below_left =
        chunk_range-node_at l (2 * k) (omega (arith, left-fits)) (omega (arith, low)) in
      let below_right = chunk_range-node_at l (2 * k + 1) right-fits (omega (arith, low)) in
      let middle = mid-node_at (suc l) k (omega arith) in
      let number = suc-node_at (suc l) k in
      let two = mul-two-pow-suc k (suc l) in
      let two' = two-pow-suc (suc l) in
      let level_n = level_lem (suc l) k (omega arith) in
      record {
        left = node_at l (2 * k);
        right = node_at l (2 * k + 1);
        left_lem = left_child-node_at l k (omega arith);
        right_lem = right_child-node_at l k (omega arith) (omega (arith, right-fits));
        parent-left = parent-left l k (omega arith);
        parent-right = parent-right l k right-fits;
        level-left = omega (arith, level_n, level_lem l (2 * k) (omega (arith, left-fits)));
        level-right = omega (arith, level_n, level_lem l (2 * k + 1) right-fits);
        start-left = omega (arith, here, below_left, two);
        end-left = omega (arith, middle, below_left, number, two);
        start-right = omega (arith, middle, below_right, number, two);
        end-right = omega (arith, here, below_right, two, two');
      }

-- Every branch below 2 ^ 62 has a left and a right child one level down, with the branch for
-- their parent: the left child covers the chunks from the branch's start to its middle, the right
-- child those from its middle to its end.
pub branch-HasChildren : (n : TreeNode) → n < 2 ^ 62 → 0 < level n → HasChildren n
branch-HasChildren n h branch = let (l, k, e) = place n in at l k e
  where
    at : (l k : ℕ) → n ≡ node_at l k → HasChildren n
    at zero k e = absurd (omega (arith, ap level e, level_lem 0 k (omega (arith, e))))
    at (suc l) k e = rw e (place-HasChildren l k (omega (arith, e)))

abbrev pub Raises : ℕ → TreeNode → Type 0
Raises b n =
    (add_block_size (subtract_block_size n b) b ≡ some n)
    × (level (subtract_block_size n b) ≡ level n + b)
    × ((chunk_range (subtract_block_size n b)).start ≡ (chunk_range n).start * 2 ^ b)
    × ((chunk_range (subtract_block_size n b)).end ≡ (chunk_range n).end * 2 ^ b)
