-- ===== src/Io/Files.antt =====
-- The outboards in files: `PreOrderOutboard` and `PostOrderOutboard` of src/io/outboard.rs with the
-- implementations of src/io/sync.rs and, for the post order `load`, src/io/fsm.rs; and `load` of the
-- outboards in memory, which reads a whole file.
use bao_tree.Base.{
  ℕ, ◌-◌, ltb, ◌==◌, if◌then◌else◌, not, Option, none, some, List, ◌++◌, length, take, drop,
  replicate, Bool, false,
}
use bao_tree.Word.{u64_add, u64_mul, from_le_bytes}
use bao_tree.Sizes.{BlockSize}
use bao_tree.Outcome.{Outcome, ok, err, ◌>>=◌, unwrap}
use bao_tree.Errors.{IoError, ErrorKind, Payload}
use bao_tree.Hashing.{Blake3}
use bao_tree.Node.{TreeNode}
use bao_tree.Tree.{BaoTree, value, pre_order_offset}
use bao_tree.Tree
use bao_tree.Outboards.{PreOrderMemOutboard, PostOrderMemOutboard, parse_hash_pair}
use bao_tree.Io.{ReadAt, WriteAt, outboard_size}

pub record PreOrderOutboard (Hash D : Type 0) : Type 0 where
  pub root : Hash
  pub tree : BaoTree
  pub file : D

pub record PostOrderOutboard (Hash D : Type 0) : Type 0 where
  pub root : Hash
  pub tree : BaoTree
  pub file : D

-- `io_error!`
abbrev pub io_error : {A : Type 0} → Payload → Outcome IoError A
io_error payload = err (record { kind = ErrorKind.invalid_input; payload = payload })

module _ {Hash D : Type 0} (at : ReadAt D) where
  unfoldable pub new_pre : Hash → BlockSize → D → Outcome IoError (PreOrderOutboard Hash D)
  new_pre root block_size file = do
    content ← at.read_exact_at file 0 8
    let len = from_le_bytes content
    let expected = outboard_size len block_size
    size ← at.size file
    if same size expected
        then ok (record {
          root = root;
          tree = record { size = len; block_size = block_size };
          file = file;
        })
        else io_error (Payload.text_outboard_size expected size)
    where
      same : Option ℕ → ℕ → Bool
      same none n = false
      same (some m) n = m == n

  unfoldable pub new_post : Hash → BlockSize → D → Outcome IoError (PostOrderOutboard Hash D)
  new_post root block_size file = do
    size ← at.size file
    elim size [
      | none ↦ io_error Payload.text_unknown_size
      | some size ↦ if ltb size 8 then io_error Payload.text_too_short else do
        suffix ← at.read_exact_at file (size - 8) 8
        let len = from_le_bytes suffix
        let expected = outboard_size len block_size
        if size == expected
            then ok (record {
              root = root;
              tree = record { size = len; block_size = block_size };
              file = file;
            })
            else io_error (Payload.text_outboard_size expected (some size))
    ]

module _ {Hash D : Type 0} (b : Blake3 Hash) (at : ReadAt D) where
  unfoldable pub load_pre_file :
      PreOrderOutboard Hash D → TreeNode → Outcome IoError (Option (Hash × Hash))
  load_pre_file o node = do
    offset ← unwrap (pre_order_offset o.tree node)
    elim offset [
      | none ↦ ok none
      | some i ↦ do
        content ← at.read_exact_at o.file (u64_add (u64_mul i 64) 8) 64
        ok (some (parse_hash_pair b content))
    ]

  unfoldable pub load_post_file :
      PostOrderOutboard Hash D → TreeNode → Outcome IoError (Option (Hash × Hash))
  load_post_file o node = elim (Tree.post_order_offset o.tree node) [
    | none ↦ ok none
    | some offset ↦ do
      content ← at.read_exact_at o.file (u64_add (u64_mul (value offset) 64) 8) 64
      ok (some (parse_hash_pair b content))
  ]

  unfoldable pub save_pre_file :
      WriteAt D
      → PreOrderOutboard Hash D
      → TreeNode
      → Hash × Hash
      → Outcome IoError (PreOrderOutboard Hash D)
  save_pre_file to o node pair = do
    offset ← unwrap (pre_order_offset o.tree node)
    elim offset [
      | none ↦ ok o
      | some i ↦ do
        file ←
            to.write_all_at o.file (u64_add (u64_mul i 64) 8)
              (b.as_bytes pair.0 ++ b.as_bytes pair.1)
        ok (record o { file = file })
    ]

module _ {Hash D : Type 0} (b : Blake3 Hash) where
  -- `load` of the asynchronous trait; a read that ends early gives fewer bytes, and zero hashes.
  unfoldable pub load_pre_async :
      (D → ℕ → ℕ → Outcome IoError (List ℕ))
      → PreOrderOutboard Hash D
      → TreeNode
      → Outcome IoError (Option (Hash × Hash))
  load_pre_async read_at o node = do
    offset ← unwrap (pre_order_offset o.tree node)
    elim offset [
      | none ↦ ok none
      | some i ↦ do
        content ← read_at o.file (u64_add (u64_mul i 64) 8) 64
        if not (length content == 64)
            then ok (some (b.from_bytes (replicate 32 0), b.from_bytes (replicate 32 0)))
            else ok (some (parse_hash_pair b content))
    ]

  -- `save` of the asynchronous trait, with `write_at` of a writer.
  unfoldable pub save_pre_async :
      (D → ℕ → List ℕ → Outcome IoError D)
      → PreOrderOutboard Hash D
      → TreeNode
      → Hash × Hash
      → Outcome IoError (PreOrderOutboard Hash D)
  save_pre_async write_at o node pair = do
    offset ← unwrap (pre_order_offset o.tree node)
    elim offset [
      | none ↦ ok o
      | some i ↦ do
        file ← write_at o.file (u64_add (u64_mul i 64) 8) (b.as_bytes pair.0 ++ b.as_bytes pair.1)
        ok (record o { file = file })
    ]

  unfoldable pub load_post_async :
      (D → ℕ → ℕ → Outcome IoError (List ℕ))
      → PostOrderOutboard Hash D
      → TreeNode
      → Outcome IoError (Option (Hash × Hash))
  load_post_async read_at o node = elim (Tree.post_order_offset o.tree node) [
    | none ↦ ok none
    | some offset ↦ do
      content ← read_at o.file (u64_mul (value offset) 64) 64
      if not (length content == 64)
          then ok (some (b.from_bytes (replicate 32 0), b.from_bytes (replicate 32 0)))
          else ok (some (parse_hash_pair b content))
  ]

module _ {D : Type 0} (at : ReadAt D) where
  -- The whole file, of at least eight bytes.
  unfoldable pub read_file : D → Outcome IoError (List ℕ)
  read_file file = do
    size ← at.size file
    elim size [
      | none ↦ io_error Payload.text_unknown_size
      | some size ↦ do
        bytes ← at.read_exact_at file 0 size
        if ltb (length bytes) 8 then io_error Payload.text_at_least_8 else ok bytes
    ]

module _ {Hash D : Type 0} (at : ReadAt D) where
  unfoldable pub load_pre_mem : Hash → D → BlockSize → Outcome IoError (PreOrderMemOutboard Hash)
  load_pre_mem root file block_size = do
    bytes ← read_file at file
    let len = from_le_bytes (take 8 bytes)
    let expected = outboard_size len block_size
    if not (length bytes == expected)
        then io_error (Payload.text_outboard_length (length bytes) expected)
        else ok (record {
          root = root;
          tree = record { size = len; block_size = block_size };
          bytes = drop 8 bytes;
        })

  unfoldable pub load_post_mem : Hash → D → BlockSize → Outcome IoError (PostOrderMemOutboard Hash)
  load_post_mem root file block_size = do
    bytes ← read_file at file
    let len = from_le_bytes (drop (length bytes - 8) bytes)
    let expected = outboard_size len block_size
    if not (length bytes == expected)
        then io_error (Payload.text_outboard_length (length bytes) expected)
        else ok (record {
          root = root;
          tree = record { size = len; block_size = block_size };
          bytes = take (length bytes - 8) bytes;
        })
