-- ===== src/Outboards/Pre.antt =====
-- `PreOrderMemOutboard` of src/io/outboard.rs over a list of bytes. The synchronous and the
-- asynchronous trait have the same `load` and `save`.
use bao_tree.Base.{ℕ, ◌==◌, if◌then◌else◌, Option, List, ◌++◌, length}
use bao_tree.Word.{to_le_bytes}
use bao_tree.Outcome.{Outcome, ok, err, ◌>>=◌}
use bao_tree.Errors.{IoError}
use bao_tree.Hashing.{Blake3}
use bao_tree.Node.{TreeNode}
use bao_tree.Tree.{BaoTree}
use bao_tree.Outboards.{
  PreOrderMemOutboard, PostOrderMemOutboard, SizeError, invalid_outboard_data_size, has_size,
  pre_place, load_pre, save_at, flip_pre,
}

module _ {Hash : Type 0} where
  unfoldable pub new : Hash → BaoTree → List ℕ → Outcome SizeError (PreOrderMemOutboard Hash)
  new root t bytes =
      if has_size t bytes
      then ok (record { root = root; tree = t; bytes = bytes })
      else err invalid_outboard_data_size

  unfoldable pub map_data :
      PreOrderMemOutboard Hash → (List ℕ → List ℕ) → Outcome SizeError (PreOrderMemOutboard Hash)
  map_data o f =
      let mapped = f o.bytes in
      if length mapped == length o.bytes
      then ok (record { root = o.root; tree = o.tree; bytes = mapped })
      else err invalid_outboard_data_size

  -- The bytes, with the length in front of them.
  unfoldable pub into_inner_with_prefix : PreOrderMemOutboard Hash → List ℕ
  into_inner_with_prefix o = to_le_bytes o.tree.size ++ o.bytes

module _ {Hash : Type 0} (b : Blake3 Hash) where
  unfoldable pub load : PreOrderMemOutboard Hash → TreeNode → Outcome IoError (Option (Hash × Hash))
  load o node = load_pre b o.tree o.bytes node

  unfoldable pub save :
      PreOrderMemOutboard Hash → TreeNode → Hash × Hash → Outcome IoError (PreOrderMemOutboard Hash)
  save o node pair = do
    bytes ← save_at b (pre_place o.tree node) pair o.bytes
    ok (record o { bytes = bytes })

  unfoldable pub flip : ℕ → PreOrderMemOutboard Hash → Outcome IoError (PostOrderMemOutboard Hash)
  flip fuel o = flip_pre b fuel o.root o.tree o.bytes
