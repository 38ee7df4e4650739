-- ===== src/Chunks/Response.antt =====
-- `ResponseIterRef` and `ResponseIter` of src/iter.rs: the chunks of a response, those of the
-- tree with blocks of 1024 bytes, where the block size is the least level of a full subtree.
-- `ResponseIter` owns the ranges of the `ResponseIterRef` that it hands every call on to.
use bao_tree.Base.{ℕ, zero, suc, Option, none, some, List, [], ◌∷◌}
use mathlib.Core.Option
use bao_tree.Outcome.{Outcome, ok, panic, ◌>>=◌}
use bao_tree.Hashing.{RangeSets}
use bao_tree.Tree.{BaoTree}
use bao_tree.Chunks.{BaoChunk, without_ranges}
use bao_tree.Chunks.Partial.{PreOrderPartialChunkIterRef}
use bao_tree.Chunks.Partial

pub record ResponseIterRef (R : Type 0) : Type 0 where
  pub inner : PreOrderPartialChunkIterRef R

module _ {R : Type 0} where
  unfoldable pub new : BaoTree → R → ResponseIterRef R
  new t ranges =
      let tree1 : BaoTree = record { size = t.size; block_size = 0 } in
      record { inner = Partial.new tree1 ranges t.block_size }

  -- The tree with the block size that `new` was given.
  unfoldable pub tree : ResponseIterRef R → BaoTree
  tree it = record { size = it.inner.tree.size; block_size = it.inner.min_full_level }

  unfoldable pub next :
      {E : Type 0}
      → RangeSets R
      → ResponseIterRef R
      → Outcome E (Option (BaoChunk Unit) × ResponseIterRef R)
  next s it = do
    (item, inner) ← Partial.next s it.inner
    ok (Option.map without_ranges item, record { inner = inner })

  -- All that the iterator yields, in up to `items` calls.
  unfoldable pub yields :
      {E : Type 0} → RangeSets R → ℕ → ResponseIterRef R → Outcome E (List (BaoChunk Unit))
  yields s zero it = panic
  yields s (suc items) it = do
    (item, it) ← next s it
    elim item [ none ↦ ok [] | some c ↦ do cs ← yields s items it; ok (c ∷ cs) ]
