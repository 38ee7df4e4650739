-- ===== src/Traversal.antt =====
-- The traversals that the iterators of src/iter.rs are to make, and their orders that the offsets
-- of src/lib.rs are to give: plain recursions over the places of a perfect tree, restricted to
-- the nodes below `len`.
pub mod Parts
pub mod Lengths
pub mod Index
pub mod PostOffsets
pub mod LastLeaf
pub mod PreOffsets
use bao_tree.Base.{ℕ, zero, suc, ◌+◌, ◌*◌, List, [], ◌∷◌, ◌++◌, filter, ltb}
use bao_tree.Node.{TreeNode}
use bao_tree.Node.Place.{node_at}

unfoldable pub pre_order : ℕ → ℕ → List TreeNode
pre_order zero k = node_at 0 k ∷ []
pre_order (suc l) k = node_at (suc l) k ∷ (pre_order l (2 * k) ++ pre_order l (2 * k + 1))

unfoldable pub post_order : ℕ → ℕ → List TreeNode
post_order zero k = node_at 0 k ∷ []
post_order (suc l) k =
    post_order l (2 * k) ++ (post_order l (2 * k + 1) ++ (node_at (suc l) k ∷ []))

abbrev pub below : ℕ → List TreeNode → List TreeNode
below len ns = filter (λ n. ltb n len) ns
