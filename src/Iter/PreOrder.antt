-- ===== src/Iter/PreOrder.antt =====
-- `PreOrderNodeIter::next`, and all that the iterator yields.
pub mod Walk
use bao_tree.Base.{ℕ, Option, none, some, List}
use bao_tree.Node.{TreeNode, left_child, right_descendant}
use bao_tree.Iter.{Prev, NodeIter, Round, again, emit, finish, panic, go_up, run_loop, collect}

round_at : NodeIter → Prev → Round
round_at it Prev.parent = elim (left_child it.curr) [
  | some child ↦ emit it.curr (record it { curr = child; prev = Prev.parent })
  | none ↦ emit it.curr (go_up it it.curr)
]
round_at it Prev.left = elim (right_descendant it.curr it.len) [
  | some node ↦ again (record it { curr = node; prev = Prev.parent })
  | none ↦ panic
]
round_at it Prev.right = again (go_up it it.curr)
round_at it Prev.done = finish it

unfoldable pub round : NodeIter → Round
unfolding round_at
round it = round_at it it.prev

unfoldable pub next : ℕ → NodeIter → Option (Option TreeNode × NodeIter)
next fuel it = run_loop round fuel it

-- All that the iterator yields.
unfoldable pub yields : ℕ → NodeIter → Option (List TreeNode)
yields fuel it = collect round fuel fuel it
