-- ===== src/Iter.antt =====
-- The iterators of src/iter.rs over the nodes of a tree. `PostOrderNodeIter` and
-- `PreOrderNodeIter` hold the same three fields and share `go_up`; each has its own `next`.
pub mod PostOrder
pub mod PreOrder
pub mod Driver
pub mod Partial
use bao_tree.Base.{ℕ, zero, suc, ltb, if◌then◌else◌, Option, none, some, List, [], ◌∷◌}
use bao_tree.Node.{TreeNode, restricted_parent}

pub data Prev : Type 0 where
  parent left right done : Prev

pub record NodeIter : Type 0 where
  pub len : TreeNode
  pub curr : TreeNode
  pub prev : Prev

unfoldable pub new : TreeNode → TreeNode → NodeIter
new root len = record { len = len; curr = root; prev = Prev.parent }

unfoldable pub go_up : NodeIter → TreeNode → NodeIter
go_up it curr = elim (restricted_parent curr it.len) [
  | some p ↦ record it { curr = p; prev = if ltb curr p then Prev.left else Prev.right }
  | none ↦ record it { curr = curr; prev = Prev.done }
]

-- What one round of the `loop` in `next` comes to: the next round, `break`, or a panic of
-- `unwrap`.
pub data Round : Type 0 where
  again : NodeIter → Round
  emit : TreeNode → NodeIter → Round
  finish : NodeIter → Round
  panic : Round

-- The `loop` of `next` over its rounds. `none` is a panic, or a loop that has not ended in `fuel`
-- rounds.
unfoldable pub run_loop : (NodeIter → Round) → ℕ → NodeIter → Option (Option TreeNode × NodeIter)
run_loop round zero it = none
run_loop round (suc fuel) it = elim (round it) [
  | again it' ↦ run_loop round fuel it'
  | emit n it' ↦ some (some n, it')
  | finish it' ↦ some (none, it')
  | panic ↦ none
]

-- The items up to the first `None`, as a `for` loop takes them.
unfoldable pub collect : (NodeIter → Round) → ℕ → ℕ → NodeIter → Option (List TreeNode)
collect round zero fuel it = none
collect round (suc items) fuel it = elim (run_loop round fuel it) [
  | none ↦ none
  | some (none, it') ↦ some []
  | some (some n, it') ↦ elim (collect round items fuel it') [
    | none ↦ none
    | some ns ↦ some (n ∷ ns)
  ]
]
