-- ===== src/Io/DecodeInto.antt =====
-- `decode_response_into` of src/io/sync.rs and src/io/fsm.rs: the items of a decoder go into an
-- outboard, created at the first hash pair, and a file.
use bao_tree.Base.{ℕ, zero, suc, Option, none, some}
use bao_tree.Sizes.{BlockSize}
use bao_tree.Outcome.{Outcome, ok, panic, ◌>>=◌, unwrap, map_err}
use bao_tree.Errors.{IoError, io_from_any, io_from_start, io_from_decode}
use bao_tree.Hashing.{Blake3, RangeSets}
use bao_tree.Tree.{BaoTree}
use bao_tree.Chunks.Response
use bao_tree.Io.{Read, WriteAt, OutboardMut}
use bao_tree.Io.Decode.{
  BaoContentItem, parent_item, leaf_item, DecodeResponseItem, header_item, content_item,
  DecodeResponseIter, next0, ResponseDecoderStart, ResponseDecoderReading, start, reading_next,
}
use bao_tree.Io.Decode

module _ {R Hash S O D : Type 0} (s : RangeSets R) (b : Blake3 Hash) (rd : Read S)
    (om : OutboardMut Hash O) (wa : WriteAt D) (create : BaoTree → Hash → Outcome IoError O)
    (root : Hash) where
  -- The outboard that is there, or a new one.
  unfoldable pub get_outboard : Option O → Option BaoTree → Outcome IoError O
  get_outboard (some o) t = ok o
  get_outboard none t = do t ← unwrap t; create t root

  -- The `for` loop of the synchronous function, for up to `fuel` items.
  unfoldable pub sync_loop :
      ℕ
      → BlockSize
      → DecodeResponseIter R Hash S
      → Option O
      → Option BaoTree
      → D
      → Outcome IoError (Option O × D)
  sync_loop zero block_size it outboard t target = panic
  sync_loop (suc fuel) block_size it outboard t target = do
    (item, it) ← map_err io_from_any (next0 s b rd it)
    elim item [
      | none ↦ ok (outboard, target)
      | some (header_item size) ↦
          sync_loop fuel block_size it outboard
            (some (record { size = size; block_size = block_size })) target
      | some (content_item (parent_item node pair)) ↦ do
        o ← get_outboard outboard t
        o ← om.save o node pair
        sync_loop fuel block_size it (some o) none target
      | some (content_item (leaf_item offset bytes)) ↦ do
        target ← wa.write_all_at target offset bytes
        sync_loop fuel block_size it outboard t target
    ]

  unfoldable pub decode_response_into : ℕ → BlockSize → R → S → D → Outcome IoError (Option O × D)
  decode_response_into fuel block_size ranges encoded target =
      sync_loop fuel block_size (Decode.new root block_size encoded ranges) none none target

  -- The loop of the asynchronous function.
  unfoldable pub async_loop :
      ℕ → ResponseDecoderReading R Hash S → Option O → D → Outcome IoError (Option O × D)
  async_loop zero reading outboard target = panic
  async_loop (suc fuel) reading outboard target = do
    (item, reading) ← map_err io_from_decode (reading_next s b rd reading)
    elim item [
      | none ↦ ok (outboard, target)
      | some (parent_item node pair) ↦ do
        o ← get_outboard outboard (some (Response.tree reading.iter))
        o ← om.save o node pair
        async_loop fuel reading (some o) target
      | some (leaf_item offset bytes) ↦ do
        target ← wa.write_all_at target offset bytes
        async_loop fuel reading outboard target
    ]

  unfoldable pub decode_response_into_async :
      ℕ → BlockSize → R → S → D → Outcome IoError (Option O × D)
  decode_response_into_async fuel block_size ranges encoded target = do
    (reading, size) ← map_err io_from_start (
        start s b rd
          (record { ranges = ranges; block_size = block_size; hash = root; encoded = encoded }))
    async_loop fuel reading none target
