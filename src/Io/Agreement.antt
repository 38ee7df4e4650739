-- ===== src/Io/Agreement.antt =====
-- The decoder of src/io/sync.rs compared with that of src/io/fsm.rs.
use bao_tree.Base.{◌≡◌, refl, arith, Option, none, some, List, [], ◌∷◌}
use bao_tree.Outcome.{Outcome, ok, err, panic, map_err}
use bao_tree.Errors.{IoError, DecodeError, AnyDecodeError, any_from_decode}
use bao_tree.Hashing.{Blake3, RangeSets}
use bao_tree.Chunks.{BaoChunk, parent, leaf}
use bao_tree.Chunks.Response.{ResponseIterRef}
use bao_tree.Chunks.Response
use bao_tree.Io.{Read}
use bao_tree.Io.Decode.{
  BaoContentItem, DecodeResponseItem, content_item, DecodeResponseIter, ResponseDecoderReading,
  content, sync_chunk, async_chunk, next0, reading_next,
}

module _ {R Hash S : Type 0} (s : RangeSets R) (b : Blake3 Hash) (rd : Read S) where
  -- On every chunk, hash stack and reader the two decoders come to the same item, stack and reader, or
  -- to the same error, where the errors of the asynchronous one are converted to those of the other.
  chunk_lem :
      (chunk : BaoChunk Unit) (stack : List Hash) (encoded : S)
      → sync_chunk s b rd chunk stack encoded
        ≡ map_err any_from_decode (async_chunk s b rd chunk stack encoded)
  unfolding sync_chunk async_chunk any_from_decode
  chunk_lem (parent node is_root left right ranges) [] encoded = ground arith
  chunk_lem (parent node is_root left right ranges) (h ∷ stack) encoded = ground arith
  chunk_lem (leaf start_chunk size is_root ranges) [] encoded = ground arith
  chunk_lem (leaf start_chunk size is_root ranges) (h ∷ stack) encoded = ground arith

  abbrev Synced : ResponseDecoderReading R Hash S → DecodeResponseIter R Hash S
  Synced d = record { inner = content d.iter; stack = d.stack; encoded = d.encoded }

  -- The result of a call of the asynchronous decoder, as one of the synchronous decoder.
  abbrev pub as_sync :
      Outcome DecodeError (Option (BaoContentItem Hash) × ResponseDecoderReading R Hash S)
      → Outcome AnyDecodeError (Option (DecodeResponseItem Hash) × DecodeResponseIter R Hash S)
  as_sync (ok (none, d)) = ok (none, Synced d)
  as_sync (ok (some item, d)) = ok (some (content_item item), Synced d)
  as_sync (err e) = err (any_from_decode e)
  as_sync panic = panic

  -- Behind the header, a call of the synchronous decoder and one of the asynchronous decoder in the
  -- same state come to the same: the same item and the same next state, the end, the same error, or
  -- a panic.
  pub next0-reading_next :
      (d : ResponseDecoderReading R Hash S)
      → next0 s b rd (Synced d) ≡ as_sync (reading_next s b rd d)
  unfolding next0 reading_next
  next0-reading_next d = at (Response.next {E = IoError} s d.iter) refl
    where
      at :
          (v : Outcome IoError (Option (BaoChunk Unit) × ResponseIterRef R))
          → Response.next {E = IoError} s d.iter ≡ v
          → next0 s b rd (Synced d) ≡ as_sync (reading_next s b rd d)
      at (ok (none, iter)) e = ground (arith, e)
      at (ok (some chunk, iter)) e = ground (arith, e, chunk_lem chunk d.stack d.encoded)
      at (err x) e = ground (arith, e)
      at panic e = ground (arith, e)
