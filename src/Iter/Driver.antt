-- ===== src/Iter/Driver.antt =====
-- From rounds to what a `for` loop sees: a derivation that the rounds from `it` emit `ns` gives
-- the fuel with which `collect` returns `ns`.
use bao_tree.Base.{ℕ, zero, suc, ◌≤◌, ◌≡◌, refl, arith, Option, some, List, [], ◌∷◌}
use bao_tree.Base.{Option-cases, inl, inr}
use bao_tree.Node.{TreeNode}
use bao_tree.Iter.{NodeIter, Round, again, emit, finish, panic, run_loop, collect}

module _ (round : NodeIter → Round) where
  pub data Runs : NodeIter → List TreeNode → Type 0 where
    runs_again :
        {it it' : NodeIter} {ns : List TreeNode} → round it ≡ again it' → Runs it' ns → Runs it ns
    runs_emit :
        {it it' : NodeIter} {n : TreeNode} {ns : List TreeNode}
        → round it ≡ emit n it'
        → Runs it' ns
        → Runs it (n ∷ ns)
    runs_finish : {it it' : NodeIter} → round it ≡ finish it' → Runs it []

  abbrev Grows : ℕ → NodeIter → Type 0
  Grows f it =
      (r : Option TreeNode × NodeIter)
      → run_loop round f it ≡ some r
      → run_loop round (suc f) it ≡ some r

  grow_step :
      (f : ℕ) (it : NodeIter) (s : Round)
      → round it ≡ s
      → ((it' : NodeIter) → Grows f it')
      → Grows (suc f) it
  unfolding run_loop
  grow_step f it (again it') e ih r h = ground (arith, e, ih it' r)
  grow_step f it (emit n it') e ih r h = ground (arith, e)
  grow_step f it (finish it') e ih r h = ground (arith, e)
  grow_step f it panic e ih r h = ground (arith, e)

  -- More fuel changes no result.
  run_loop_mono : (f : ℕ) (it : NodeIter) → Grows f it
  unfolding run_loop
  run_loop_mono zero it r e = cc
  run_loop_mono (suc f) it r e = grow_step f it (round it) refl (run_loop_mono f) r e

  run_loop-again :
      (f : ℕ) (it it' : NodeIter)
      → round it ≡ again it'
      → run_loop round (suc f) it ≡ run_loop round f it'
  unfolding run_loop
  run_loop-again f it it' e = ground arith

  abbrev Collects : ℕ → NodeIter → List TreeNode → Type 0
  Collects f it ns = (items fuel : ℕ) → f ≤ items → f ≤ fuel → collect round items fuel it ≡ some ns

  Collects-again :
      (f : ℕ) (it it' : NodeIter) (ns : List TreeNode)
      → round it ≡ again it'
      → Collects f it' ns
      → Collects (suc f) it ns
  unfolding collect
  Collects-again f it it' ns e h zero fuel p q = absurd (omega arith)
  Collects-again f it it' ns e h (suc items) zero p q = absurd (omega arith)
  Collects-again f it it' ns e h (suc items) (suc fuel) p q =
      elim (Option-cases (run_loop round fuel it')) [
        | inl fails ↦ ground (arith, fails, h (suc items) fuel (omega arith) (omega arith))
        | inr (r, returns) ↦ ground (
          arith,
          run_loop-again fuel it it' e,
          returns,
          run_loop_mono fuel it' r returns,
          h (suc items) (suc fuel) (omega arith) (omega arith),
        )
      ]

  Collects-emit :
      (f : ℕ) (it it' : NodeIter) (n : TreeNode) (ns : List TreeNode)
      → round it ≡ emit n it'
      → Collects f it' ns
      → Collects (suc f) it (n ∷ ns)
  unfolding collect run_loop
  Collects-emit f it it' n ns e h zero fuel p q = absurd (omega arith)
  Collects-emit f it it' n ns e h (suc items) zero p q = absurd (omega arith)
  Collects-emit f it it' n ns e h (suc items) (suc fuel) p q =
      ground (arith, h items (suc fuel) (omega arith) (omega arith))

  Collects-finish : (it it' : NodeIter) → round it ≡ finish it' → Collects 1 it []
  unfolding collect run_loop
  Collects-finish it it' e zero fuel p q = absurd (omega arith)
  Collects-finish it it' e (suc items) zero p q = absurd (omega arith)
  Collects-finish it it' e (suc items) (suc fuel) p q = ground arith

  pub Runs-Collects :
      {it : NodeIter} {ns : List TreeNode}
      → Runs it ns
      → (f : ℕ) × ((fuel : ℕ) → f ≤ fuel → collect round fuel fuel it ≡ some ns)
  Runs-Collects r = let (f, h) = bound r in (f, λ fuel p. h fuel fuel p p)
    where
      bound : {it : NodeIter} {ns : List TreeNode} → Runs it ns → (f : ℕ) × Collects f it ns
      bound (runs_again {it} {it'} {ns} e r) =
          let (f, h) = bound r in (suc f, Collects-again f it it' ns e h)
      bound (runs_emit {it} {it'} {n} {ns} e r) =
          let (f, h) = bound r in (suc f, Collects-emit f it it' n ns e h)
      bound (runs_finish {it} {it'} e) = (1, Collects-finish it it' e)
