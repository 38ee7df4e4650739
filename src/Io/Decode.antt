-- ===== src/Io/Decode.antt =====
-- The decoder of src/io/sync.rs, `DecodeResponseIter`, and `decode_response_into`; and the decoder of
-- src/io/fsm.rs, a state machine that reads the size and then one chunk after the other. The state
-- behind an error is left out. Every chunk fills the buffer anew and takes its bytes out, so the
-- buffer is empty between calls. The iterators have no errors of their own.
use bao_tree.Base.{ℕ, suc, if◌then◌else◌, not, Option, none, some, List, [], ◌∷◌, length}
use bao_tree.Sizes.{ByteNum, BlockSize, chunks_to_bytes}
use bao_tree.Outcome.{Outcome, ok, err, ◌>>=◌, unwrap, must, map_err}
use bao_tree.Errors.{
  IoError, AnyDecodeError, DecodeError, StartDecodeError, any_from_start, any_from_decode,
  maybe_not_found, maybe_parent_not_found, maybe_leaf_not_found,
}
use bao_tree.Hashing.{Blake3, RangeSets, hash_subtree}
use bao_tree.Node.{TreeNode}
use bao_tree.Tree.{BaoTree}
use bao_tree.Truncate.{truncate_ranges}
use bao_tree.Chunks.{BaoChunk, parent, leaf}
use bao_tree.Chunks.Response.{ResponseIterRef}
use bao_tree.Chunks.Response
use bao_tree.Io.{Read, read_len, read_parent}
use bao_tree.Io.Encode.{pop, push_if}

-- `BaoContentItem`: a hash pair for the outboard, or data for the file at its offset.
pub data BaoContentItem (Hash : Type 0) : Type 0 where
  parent_item : TreeNode → Hash × Hash → BaoContentItem Hash
  leaf_item : ByteNum → List ℕ → BaoContentItem Hash

-- `DecodeResponseItem` has a header as well.
pub data DecodeResponseItem (Hash : Type 0) : Type 0 where
  header_item : ByteNum → DecodeResponseItem Hash
  content_item : BaoContentItem Hash → DecodeResponseItem Hash

pub data Position (R : Type 0) : Type 0 where
  header : R → BlockSize → Position R
  content : ResponseIterRef R → Position R

pub record DecodeResponseIter (R Hash S : Type 0) : Type 0 where
  pub inner : Position R
  pub stack : List Hash
  pub encoded : S

pub record ResponseDecoderStart (R Hash S : Type 0) : Type 0 where
  pub ranges : R
  pub block_size : BlockSize
  pub hash : Hash
  pub encoded : S

pub record ResponseDecoderReading (R Hash S : Type 0) : Type 0 where
  pub iter : ResponseIterRef R
  pub stack : List Hash
  pub encoded : S

module _ {R Hash S : Type 0} where
  unfoldable pub new : Hash → BlockSize → S → R → DecodeResponseIter R Hash S
  new root block_size encoded ranges = record {
    inner = header ranges block_size;
    stack = root ∷ [];
    encoded = encoded;
  }

  -- `tree`, known once the header is read.
  unfoldable pub tree : DecodeResponseIter R Hash S → Option BaoTree
  tree it = elim it.inner [
    | header ranges block_size ↦ none
    | content iter ↦ some (Response.tree iter)
  ]

module _ {R Hash S : Type 0} (s : RangeSets R) (b : Blake3 Hash) (rd : Read S) where
  -- What `next0` of `DecodeResponseIter` makes of a chunk.
  unfoldable pub sync_chunk :
      BaoChunk Unit → List Hash → S → Outcome AnyDecodeError (BaoContentItem Hash × (List Hash × S))
  sync_chunk (parent node is_root left right ranges) stack encoded = do
    (pair, encoded) ←
        map_err (λ e. any_from_decode (maybe_parent_not_found e node)) (read_parent b rd encoded)
    (parent_hash, stack) ← pop stack
    let actual = b.parent_cv pair.0 pair.1 is_root
    if not (b.hash_eq parent_hash actual)
        then err (AnyDecodeError.parent_hash_mismatch node)
        else ok (parent_item node pair, (push_if left pair.0 (push_if right pair.1 stack), encoded))
  sync_chunk (leaf start_chunk size is_root ranges) stack encoded = do
    (buf, encoded) ←
        map_err (λ e. any_from_decode (maybe_leaf_not_found e start_chunk))
          (rd.read_exact encoded size)
    actual ← unwrap (hash_subtree b (suc (length buf)) start_chunk buf is_root)
    (leaf_hash, stack) ← pop stack
    if not (b.hash_eq leaf_hash actual)
        then err (AnyDecodeError.leaf_hash_mismatch start_chunk)
        else ok (leaf_item (chunks_to_bytes start_chunk) buf, (stack, encoded))

  unfoldable pub next0 :
      DecodeResponseIter R Hash S
      → Outcome AnyDecodeError (Option (DecodeResponseItem Hash) × DecodeResponseIter R Hash S)
  next0 it = elim it.inner [
    | header ranges block_size ↦ do
      (size, encoded) ← map_err (λ e. any_from_start (maybe_not_found e)) (read_len rd it.encoded)
      let t : BaoTree = record { size = size; block_size = block_size }
      let ranges = truncate_ranges s ranges t.size
      ok (
        some (header_item size),
        record { inner = content (Response.new t ranges); stack = it.stack; encoded = encoded },
      )
    | content iter ↦ do
      (chunk, iter) ← must (Response.next {E = IoError} s iter)
      elim chunk [
        | none ↦ ok (none, record it { inner = content iter })
        | some chunk ↦ do
          (item, (stack, encoded)) ← sync_chunk chunk it.stack it.encoded
          ok (
            some (content_item item),
            record { inner = content iter; stack = stack; encoded = encoded },
          )
      ]
  ]

  -- `next0` of `ResponseDecoderReading`, which pushes the children before it compares the hashes.
  unfoldable pub async_chunk :
      BaoChunk Unit → List Hash → S → Outcome DecodeError (BaoContentItem Hash × (List Hash × S))
  async_chunk (parent node is_root left right ranges) stack encoded = do
    (pair, encoded) ← map_err (λ e. maybe_parent_not_found e node) (read_parent b rd encoded)
    (parent_hash, stack) ← pop stack
    let actual = b.parent_cv pair.0 pair.1 is_root
    let stack = push_if right pair.1 stack
    let stack = push_if left pair.0 stack
    if not (b.hash_eq parent_hash actual)
        then err (DecodeError.parent_hash_mismatch node)
        else ok (parent_item node pair, (stack, encoded))
  async_chunk (leaf start_chunk size is_root ranges) stack encoded = do
    (buf, encoded) ← map_err (λ e. maybe_leaf_not_found e start_chunk) (rd.read_exact encoded size)
    (leaf_hash, stack) ← pop stack
    actual ← unwrap (hash_subtree b (suc (length buf)) start_chunk buf is_root)
    if not (b.hash_eq leaf_hash actual)
        then err (DecodeError.leaf_hash_mismatch start_chunk)
        else ok (leaf_item (chunks_to_bytes start_chunk) buf, (stack, encoded))

  -- `ResponseDecoderStart::next`
  unfoldable pub start :
      ResponseDecoderStart R Hash S → Outcome StartDecodeError (ResponseDecoderReading R Hash S × ℕ)
  start d = do
    (size, encoded) ← map_err maybe_not_found (read_len rd d.encoded)
    let t : BaoTree = record { size = size; block_size = d.block_size }
    let ranges = truncate_ranges s d.ranges t.size
    ok (record { iter = Response.new t ranges; stack = d.hash ∷ []; encoded = encoded }, size)

  -- `ResponseDecoderReading::next`: `none` is `Done`.
  unfoldable pub reading_next :
      ResponseDecoderReading R Hash S
      → Outcome DecodeError (Option (BaoContentItem Hash) × ResponseDecoderReading R Hash S)
  reading_next d = do
    (chunk, iter) ← must (Response.next {E = IoError} s d.iter)
    elim chunk [
      | none ↦ ok (none, record d { iter = iter })
      | some chunk ↦ do
        (item, (stack, encoded)) ← async_chunk chunk d.stack d.encoded
        ok (some item, record { iter = iter; stack = stack; encoded = encoded })
    ]
