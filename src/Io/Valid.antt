-- ===== src/Io/Valid.antt =====
-- Which ranges an outboard and a file vouch for: `valid_ranges` and `valid_file_ranges` of
-- src/io/sync.rs; in Awaiting `valid_ranges` of src/io/fsm.rs. The recursions run on fuel; without fuel
-- they come to a panic. The outboard is read only, so the result is the state that is passed on.
pub mod Calls
pub mod Vouched
pub mod Complete
pub mod Awaiting
use bao_tree.Base.{
  ℕ, zero, suc, min, Bool, true, false, leb, Option, none, some, List, length, replicate,
}
use bao_tree.Word.{u64_add, u64_sub, u64_mul}
use bao_tree.Sizes.{ByteNum}
use bao_tree.Sizes
use bao_tree.Outcome.{Outcome, ok, panic, ◌>>=◌, unwrap}
use bao_tree.Errors.{IoError}
use bao_tree.Hashing.{Blake3, hash_subtree}
use bao_tree.Node.{
  TreeNode, is_leaf, left_child, right_descendant, chunk_range, subtract_block_size,
}
use bao_tree.Tree.{
  BaoTree, shifted, chunks, chunk_group_chunks, filled_size, root, leaf_byte_ranges3,
}
use bao_tree.Io.{Outboard, ReadAt}
use bao_tree.Io.Ranges.{RangeSums}

module _ {Hash : Type 0} (b : Blake3 Hash) where
  -- The hashes of the two halves, or `none` for a pair that does not match.
  unfoldable pub matched : Hash → Bool → Option (Hash × Hash) → Option (Hash × Hash)
  matched parent_hash is_root none = some (parent_hash, b.from_bytes (replicate 32 0))
  matched parent_hash is_root (some (l_hash, r_hash)) =
      elim (b.hash_eq (b.parent_cv l_hash r_hash is_root) parent_hash) [
        | true ↦ some (l_hash, r_hash)
        | false ↦ none
      ]

-- The range of a shifted leaf.
unfoldable pub leaf_range : {R : Type 0} → RangeSums R → BaoTree → TreeNode → R
leaf_range u t node =
    let start = (chunk_range node).start in
    u.from_to start (min (u64_add start (u64_mul (chunk_group_chunks t) 2)) (chunks t))

module _ {R Hash O : Type 0} (u : RangeSums R) (b : Blake3 Hash) (ob : Outboard Hash O)
    (o : O) where
  unfoldable pub validate_rec : ℕ → BaoTree → R → Hash → TreeNode → Bool → Outcome IoError R
  validate_rec zero t res parent_hash s is_root = panic
  validate_rec (suc fuel) t res parent_hash s is_root = do
    let node = subtract_block_size s t.block_size
    loaded ← ob.load o node
    elim (matched b parent_hash is_root loaded) [
      | none ↦ ok res
      | some (l_hash, r_hash) ↦ elim (is_leaf s) [
        | true ↦ ok (u.union res (leaf_range u t node))
        | false ↦ do
          left ← unwrap (left_child s)
          res ← validate_rec fuel t res l_hash left false
          right ← unwrap (right_descendant s (shifted t).1)
          validate_rec fuel t res r_hash right false
      ]
    ]

  unfoldable pub valid_ranges : ℕ → Outcome IoError R
  valid_ranges fuel =
      let t = ob.tree o in validate_rec fuel t u.empty (ob.root o) (shifted t).0 true

  module _ {D : Type 0} (at : ReadAt D) (reader : D) where
    -- A slice of the buffer of one block, read from the file.
    unfoldable pub read_range : BaoTree → ByteNum → ByteNum → Outcome IoError (List ℕ)
    read_range t start end = do
      let len = u64_sub end start
      elim (leb len (Sizes.bytes t.block_size)) [
        | false ↦ panic
        | true ↦ at.read_exact_at reader start len
      ]

    -- One half of a leaf: its bytes are read, and its chunks added if the hash is the given one.
    unfoldable pub validate_half : BaoTree → R → Hash → ByteNum → ByteNum → Bool → Outcome IoError R
    validate_half t res expected start end is_root = do
      bytes ← read_range t start end
      actual ← unwrap (hash_subtree b (suc (length bytes)) (Sizes.chunks start) bytes is_root)
      elim (b.hash_eq actual expected) [
        | true ↦ ok (u.union res (u.from_to (Sizes.chunks start) (Sizes.chunks end)))
        | false ↦ ok res
      ]

    unfoldable pub file_validate_rec : ℕ → BaoTree → R → Hash → TreeNode → Bool → Outcome IoError R
    file_validate_rec zero t res parent_hash node is_root = panic
    file_validate_rec (suc fuel) t res parent_hash node is_root = do
      loaded ← ob.load o node
      let (start, mid, end) = leaf_byte_ranges3 t node
      elim loaded [
        | some (l_hash, r_hash) ↦ elim (b.hash_eq (b.parent_cv l_hash r_hash is_root) parent_hash) [
          | false ↦ ok res
          | true ↦ elim (is_leaf node) [
            | true ↦ do
              res ← validate_half t res l_hash start mid false
              validate_half t res r_hash mid end false
            | false ↦ do
              left ← unwrap (left_child node)
              res ← file_validate_rec fuel t res l_hash left false
              right ← unwrap (right_descendant node (filled_size t))
              file_validate_rec fuel t res r_hash right false
          ]
        ]
        | none ↦ elim (is_leaf node) [
          | true ↦ validate_half t res parent_hash start mid is_root
          | false ↦ ok res
        ]
      ]

    unfoldable pub valid_file_ranges : ℕ → Outcome IoError R
    valid_file_ranges fuel =
        let t = ob.tree o in file_validate_rec fuel t u.empty (ob.root o) (root t) true
