-- ===== src/Io/Encode.antt =====
-- `encode_ranges` and `encode_ranges_validated` of src/io/sync.rs. The chunks of the iterator are
-- collected first; its calls neither read nor write.
use bao_tree.Base.{ℕ, suc, leb, if◌then◌else◌, Bool, true, false, not, List, [], ◌∷◌, length}
use bao_tree.Word.{to_le_bytes}
use bao_tree.Sizes.{ChunkNum, chunks_to_bytes}
use bao_tree.Outcome.{Outcome, ok, err, panic, ◌>>=◌, unwrap, map_err}
use bao_tree.Errors.{IoError, EncodeError}
use bao_tree.Hashing.{Blake3, RangeSets, hash_subtree, encode_selected_rec}
use bao_tree.Tree.{BaoTree, chunk_group_bytes}
use bao_tree.Truncate.{truncate_ranges}
use bao_tree.Chunks.{BaoChunk, parent, leaf}
use bao_tree.Chunks.Partial
use bao_tree.Io.{Write, ReadAt, Outboard, combine_hash_pair}

-- `stack.pop().unwrap()`
abbrev pub pop : {E A : Type 0} → List A → Outcome E (A × List A)
pop [] = panic
pop (x ∷ xs) = ok (x, xs)

-- `if cond { stack.push(x) }`
abbrev pub push_if : {A : Type 0} → Bool → A → List A → List A
push_if true x xs = x ∷ xs
push_if false x xs = xs

-- `?` on an `io::Result`.
abbrev pub encode_io : {A : Type 0} → Outcome IoError A → Outcome EncodeError A
encode_io m = map_err EncodeError.io m

module _ {R Hash : Type 0} (s : RangeSets R) (b : Blake3 Hash) where
  -- The hash of a block and what is written of it: all of it, or what the ranges select.
  unfoldable pub hash_block :
      BaoTree → ChunkNum → List ℕ → Bool → R → Outcome EncodeError (Hash × List ℕ)
  hash_block t start_chunk buf is_root ranges =
      if not (s.is_all ranges)
      then unwrap (
          encode_selected_rec s b (suc (length buf)) start_chunk buf is_root ranges t.block_size
            true [])
      else do
        actual ← unwrap (hash_subtree b (suc (length buf)) start_chunk buf is_root)
        ok (actual, buf)

module _ {R Hash O D W : Type 0} (s : RangeSets R) (b : Blake3 Hash) (ob : Outboard Hash O)
    (at : ReadAt D) (wr : Write W) (file : D) (o : O) where
  -- `&mut buffer[..size]`, filled from the data: the buffer holds one block.
  unfoldable pub read_block : ChunkNum → ℕ → Outcome EncodeError (List ℕ)
  read_block start_chunk size =
      if leb size (chunk_group_bytes (ob.tree o))
      then encode_io (at.read_exact_at file (chunks_to_bytes start_chunk) size)
      else panic

  -- The loop of `encode_ranges`.
  unfoldable pub encode_items : List (BaoChunk R) → W → Outcome EncodeError W
  encode_items [] encoded = ok encoded
  encode_items (parent node is_root left right ranges ∷ items) encoded = do
    loaded ← encode_io (ob.load o node)
    (l_hash, r_hash) ← unwrap loaded
    encoded ← encode_io (wr.write_all encoded (combine_hash_pair b l_hash r_hash))
    encode_items items encoded
  encode_items (leaf start_chunk size is_root ranges ∷ items) encoded = do
    buf ← read_block start_chunk size
    encoded ← encode_io (wr.write_all encoded buf)
    encode_items items encoded

  unfoldable pub encode_ranges : ℕ → R → W → Outcome EncodeError W
  encode_ranges fuel ranges encoded = do
    let t = ob.tree o
    encoded ← encode_io (wr.write_all encoded (to_le_bytes t.size))
    items ← Partial.yields s fuel (Partial.new t ranges 0)
    encode_items items encoded

  -- The loop of `encode_ranges_validated`.
  unfoldable pub encode_validated_items : List (BaoChunk R) → List Hash → W → Outcome EncodeError W
  encode_validated_items [] stack encoded = ok encoded
  encode_validated_items (parent node is_root left right ranges ∷ items) stack encoded = do
    loaded ← encode_io (ob.load o node)
    (l_hash, r_hash) ← unwrap loaded
    let actual = b.parent_cv l_hash r_hash is_root
    (expected, stack) ← pop stack
    elim (b.hash_eq actual expected) [
      | false ↦ err (EncodeError.parent_hash_mismatch node)
      | true ↦ do
        encoded ← encode_io (wr.write_all encoded (combine_hash_pair b l_hash r_hash))
        encode_validated_items items (push_if left l_hash (push_if right r_hash stack)) encoded
    ]
  encode_validated_items (leaf start_chunk size is_root ranges ∷ items) stack encoded = do
    (expected, stack) ← pop stack
    buf ← read_block start_chunk size
    (actual, to_write) ← hash_block s b (ob.tree o) start_chunk buf is_root ranges
    elim (b.hash_eq actual expected) [
      | false ↦ err (EncodeError.leaf_hash_mismatch start_chunk)
      | true ↦ do
        encoded ← encode_io (wr.write_all encoded to_write)
        encode_validated_items items stack encoded
    ]

  unfoldable pub encode_ranges_validated : ℕ → R → W → Outcome EncodeError W
  encode_ranges_validated fuel ranges encoded = do
    let t = ob.tree o
    let ranges = truncate_ranges s ranges t.size
    encoded ← encode_io (wr.write_all encoded (to_le_bytes t.size))
    items ← Partial.yields s fuel (Partial.new t ranges 0)
    encode_validated_items items (ob.root o ∷ []) encoded
