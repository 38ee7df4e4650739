-- ===== src/Io/EncodeAsync.antt =====
-- `encode_ranges` and `encode_ranges_validated` of src/io/fsm.rs, where an await is a call; `read_at` of
-- an `AsyncSliceReader` may return fewer bytes than asked for. A failed write names the chunk it was
-- for, which the encoders of src/io/sync.rs leave out.
use bao_tree.Base.{ℕ, true, false, List, [], ◌∷◌}
use bao_tree.Word.{to_le_bytes}
use bao_tree.Sizes.{chunks_to_bytes}
use bao_tree.Outcome.{Outcome, ok, err, ◌>>=◌, unwrap, map_err}
use bao_tree.Errors.{IoError, EncodeError, maybe_parent_write, maybe_leaf_write}
use bao_tree.Hashing.{Blake3, RangeSets}
use bao_tree.Truncate.{truncate_ranges}
use bao_tree.Chunks.{BaoChunk, parent, leaf}
use bao_tree.Chunks.Partial
use bao_tree.Io.{Write, Outboard, combine_hash_pair}
use bao_tree.Io.Encode.{pop, push_if, encode_io, hash_block}

module _ {R Hash O D W : Type 0} (s : RangeSets R) (b : Blake3 Hash) (ob : Outboard Hash O)
    (read_at : D → ℕ → ℕ → Outcome IoError (List ℕ)) (wr : Write W) (file : D) (o : O) where
  -- The loop of `encode_ranges`.
  unfoldable pub async_items : List (BaoChunk R) → W → Outcome EncodeError W
  async_items [] encoded = ok encoded
  async_items (parent node is_root left right ranges ∷ items) encoded = do
    loaded ← encode_io (ob.load o node)
    (l_hash, r_hash) ← unwrap loaded
    encoded ←
        map_err (λ e. maybe_parent_write e node)
          (wr.write_all encoded (combine_hash_pair b l_hash r_hash))
    async_items items encoded
  async_items (leaf start_chunk size is_root ranges ∷ items) encoded = do
    bytes ← encode_io (read_at file (chunks_to_bytes start_chunk) size)
    encoded ← map_err (λ e. maybe_leaf_write e start_chunk) (wr.write_all encoded bytes)
    async_items items encoded

  unfoldable pub encode_ranges_async : ℕ → R → W → Outcome EncodeError W
  encode_ranges_async fuel ranges encoded = do
    let t = ob.tree o
    encoded ← encode_io (wr.write_all encoded (to_le_bytes t.size))
    items ← Partial.yields s fuel (Partial.new t ranges 0)
    async_items items encoded

  -- The loop of `encode_ranges_validated`.
  unfoldable pub async_validated_items : List (BaoChunk R) → List Hash → W → Outcome EncodeError W
  async_validated_items [] stack encoded = ok encoded
  async_validated_items (parent node is_root left right ranges ∷ items) stack encoded = do
    loaded ← encode_io (ob.load o node)
    (l_hash, r_hash) ← unwrap loaded
    let actual = b.parent_cv l_hash r_hash is_root
    (expected, stack) ← pop stack
    elim (b.hash_eq actual expected) [
      | false ↦ err (EncodeError.parent_hash_mismatch node)
      | true ↦ do
        encoded ←
            map_err (λ e. maybe_parent_write e node)
              (wr.write_all encoded (combine_hash_pair b l_hash r_hash))
        async_validated_items items (push_if left l_hash (push_if right r_hash stack)) encoded
    ]
  async_validated_items (leaf start_chunk size is_root ranges ∷ items) stack encoded = do
    (expected, stack) ← pop stack
    bytes ← encode_io (read_at file (chunks_to_bytes start_chunk) size)
    (actual, to_write) ← hash_block s b (ob.tree o) start_chunk bytes is_root ranges
    elim (b.hash_eq actual expected) [
      | false ↦ err (EncodeError.leaf_hash_mismatch start_chunk)
      | true ↦ do
        encoded ← map_err (λ e. maybe_leaf_write e start_chunk) (wr.write_all encoded to_write)
        async_validated_items items stack encoded
    ]

  unfoldable pub encode_ranges_validated_async : ℕ → R → W → Outcome EncodeError W
  encode_ranges_validated_async fuel ranges encoded = do
    let t = ob.tree o
    let ranges = truncate_ranges s ranges t.size
    encoded ← encode_io (wr.write_all encoded (to_le_bytes t.size))
    items ← Partial.yields s fuel (Partial.new t ranges 0)
    async_validated_items items (ob.root o ∷ []) encoded
