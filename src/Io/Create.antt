-- ===== src/Io/Create.antt =====
-- How outboards are made from data: `outboard_post_order`, `outboard_post_order_impl` and
-- `write_outboard_from_mem` of src/io/sync.rs, and `create` of the outboards in memory. The chunks of
-- the iterator are collected first; its calls neither read nor write.
use bao_tree.Base.{
  ℕ, suc, ◌+◌, leb, ◌==◌, not, if◌then◌else◌, List, [], ◌∷◌, length, take, drop, replicate,
}
use bao_tree.Word.{u64_mul, to_le_bytes}
use bao_tree.Sizes.{BlockSize, chunks_to_bytes}
use bao_tree.Outcome.{Outcome, ok, panic, ◌>>=◌, unwrap, must}
use bao_tree.Errors.{IoError, Payload}
use bao_tree.Hashing.{Blake3, hash_subtree}
use bao_tree.Tree.{BaoTree, outboard_hash_pairs, chunk_group_bytes}
use bao_tree.Chunks.{BaoChunk, parent, leaf, post_order_chunks}
use bao_tree.Outboards.{PostOrderMemOutboard, PreOrderMemOutboard}
use bao_tree.Outboards.Post
use bao_tree.Outboards.Pre
use bao_tree.Io.{Read, Write, Outboard, OutboardMut}
use bao_tree.Io.Encode.{pop}
use bao_tree.Io.Files.{io_error}

module _ {Hash : Type 0} (b : Blake3 Hash) where
  -- The loop of `outboard_post_order_impl`; the buffer holds one block.
  unfoldable pub write_items :
      {S W : Type 0}
      → Read S
      → Write W
      → BaoTree
      → List (BaoChunk Unit)
      → List Hash
      → S
      → W
      → Outcome IoError (List Hash × W)
  write_items rd wr t [] stack from to = ok (stack, to)
  write_items rd wr t (parent node is_root left right ranges ∷ items) stack from to = do
    (right_hash, stack) ← pop stack
    (left_hash, stack) ← pop stack
    to ← wr.write_all to (b.as_bytes left_hash)
    to ← wr.write_all to (b.as_bytes right_hash)
    write_items rd wr t items (b.parent_cv left_hash right_hash is_root ∷ stack) from to
  write_items rd wr t (leaf start_chunk size is_root ranges ∷ items) stack from to =
      if not (leb size (chunk_group_bytes t)) then panic else do
        (buf, from) ← rd.read_exact from size
        hash ← unwrap (hash_subtree b (suc (length buf)) start_chunk buf is_root)
        write_items rd wr t items (hash ∷ stack) from to

  unfoldable pub outboard_post_order_impl :
      {S W : Type 0} → Read S → Write W → ℕ → ℕ → BaoTree → S → W → Outcome IoError (Hash × W)
  outboard_post_order_impl rd wr n fuel t from to = do
    items ← unwrap (post_order_chunks t n fuel)
    (stack, to) ← write_items rd wr t items [] from to
    (hash, stack) ← pop stack
    ok (hash, to)

  unfoldable pub outboard_post_order :
      {S W : Type 0} → Read S → Write W → ℕ → ℕ → S → ℕ → BlockSize → W → Outcome IoError (Hash × W)
  outboard_post_order rd wr n fuel from size block_size to = do
    (hash, to) ←
        outboard_post_order_impl rd wr n fuel (record { size = size; block_size = block_size }) from
          to
    to ← wr.write_all to (to_le_bytes size)
    ok (hash, to)

  -- The loop of `write_outboard_from_mem`.
  unfoldable pub save_items :
      {O : Type 0}
      → OutboardMut Hash O
      → List ℕ
      → List (BaoChunk Unit)
      → List Hash
      → O
      → Outcome IoError (List Hash × O)
  save_items om content [] stack o = ok (stack, o)
  save_items om content (parent node is_root left right ranges ∷ items) stack o = do
    (right_hash, stack) ← pop stack
    (left_hash, stack) ← pop stack
    o ← om.save o node (left_hash, right_hash)
    save_items om content items (b.parent_cv left_hash right_hash is_root ∷ stack) o
  save_items om content (leaf start_chunk size is_root ranges ∷ items) stack o =
      let start = chunks_to_bytes start_chunk in
      if not (leb (start + size) (length content)) then panic else do
        let buf = take size (drop start content)
        hash ← unwrap (hash_subtree b (suc (length buf)) start_chunk buf is_root)
        save_items om content items (hash ∷ stack) o

  unfoldable pub write_outboard_from_mem :
      {O : Type 0}
      → Outboard Hash O
      → OutboardMut Hash O
      → ℕ
      → ℕ
      → List ℕ
      → O
      → Outcome IoError (Hash × O)
  write_outboard_from_mem ob om n fuel content o = do
    let t = ob.tree o
    if not (t.size == length content)
        then io_error (Payload.text_data_size (length content) t.size)
        else do
          items ← unwrap (post_order_chunks t n fuel)
          (stack, o) ← save_items om content items [] o
          (hash, stack) ← pop stack
          ok (hash, o)

  abbrev pub post_outboard : Outboard Hash (PostOrderMemOutboard Hash)
  post_outboard = record { root = λ o. o.root; tree = λ o. o.tree; load = Post.load b }

  abbrev pub post_outboard_mut : OutboardMut Hash (PostOrderMemOutboard Hash)
  post_outboard_mut = record { save = Post.save b }

  abbrev pub pre_outboard : Outboard Hash (PreOrderMemOutboard Hash)
  pre_outboard = record { root = λ o. o.root; tree = λ o. o.tree; load = Pre.load b }

  abbrev pub pre_outboard_mut : OutboardMut Hash (PreOrderMemOutboard Hash)
  pre_outboard_mut = record { save = Pre.save b }

  -- `create`, with `unwrap` of both results.
  unfoldable pub create_post :
      ℕ → ℕ → List ℕ → BlockSize → Outcome IoError (PostOrderMemOutboard Hash)
  create_post n fuel content block_size = do
    let t : BaoTree = record { size = length content; block_size = block_size }
    o ← must (
        Post.new (b.from_bytes (replicate 32 0)) t
          (replicate (u64_mul (outboard_hash_pairs t) 64) 0))
    (root, o) ← must (write_outboard_from_mem post_outboard post_outboard_mut n fuel content o)
    ok (record o { root = root })

  unfoldable pub create_pre :
      ℕ → ℕ → List ℕ → BlockSize → Outcome IoError (PreOrderMemOutboard Hash)
  create_pre n fuel content block_size = do
    let t : BaoTree = record { size = length content; block_size = block_size }
    o ← must (
        Pre.new (b.from_bytes (replicate 32 0)) t
          (replicate (u64_mul (outboard_hash_pairs t) 64) 0))
    (root, o) ← must (write_outboard_from_mem pre_outboard pre_outboard_mut n fuel content o)
    ok (record o { root = root })

  -- `outboard` of src/io/mod.rs: flipped to pre order, with the length in front.
  unfoldable pub outboard : ℕ → ℕ → List ℕ → BlockSize → Outcome IoError (List ℕ × Hash)
  outboard n fuel input block_size = do
    post ← create_post n fuel input block_size
    pre ← Post.flip b fuel post
    ok (Pre.into_inner_with_prefix pre, pre.root)
