-- ===== src/Outboards/Empty.antt =====
-- `EmptyOutboard` of src/io/outboard.rs: no hashes, and writes that are thrown away.
use bao_tree.Base.{if◌then◌else◌, Option, none, some, replicate}
use bao_tree.Outcome.{Outcome, ok, err}
use bao_tree.Errors.{IoError}
use bao_tree.Hashing.{Blake3}
use bao_tree.Node.{TreeNode}
use bao_tree.Tree.{BaoTree, is_relevant_for_outboard}
use bao_tree.Outboards.{EmptyOutboard, invalid_node}

module _ {Hash : Type 0} where
  unfoldable pub new : BaoTree → Hash → EmptyOutboard Hash
  new t root = record { tree = t; root = root }

  unfoldable pub save :
      EmptyOutboard Hash → TreeNode → Hash × Hash → Outcome IoError (EmptyOutboard Hash)
  save o node pair = if is_relevant_for_outboard o.tree node then ok o else err invalid_node

module _ {Hash : Type 0} (b : Blake3 Hash) where
  unfoldable pub load : EmptyOutboard Hash → TreeNode → Outcome IoError (Option (Hash × Hash))
  load o node =
      let zeros = b.from_bytes (replicate 32 0) in
      if is_relevant_for_outboard o.tree node then ok (some (zeros, zeros)) else ok none
