-- ===== src/Tests/Streams.antt =====
-- The chunk iterator, the decoders and the round trip at small inputs.
use bao_tree.Base.{
  ℕ, ◌+◌, ◌≡◌, refl, arith, Bool, true, false, inl, inr, List, [], ◌∷◌, ◌++◌, replicate, some,
  length, take, drop, lt-cases, le→leb, gt→leb, sym, length-take, length-drop,
}
use bao_tree.Word.{shl, count_ones, ones}
use bao_tree.Outcome.{ok}
use bao_tree.Errors.{IoError}
use bao_tree.Hashing.{hash_subtree}
use bao_tree.Tests.Toy.{toy, toy-HasBytes, tree, all_or_nothing, file_at}
use bao_tree.Tree.{chunk_group_bytes, chunk_group_chunks}
use bao_tree.Sizes.{chunks_to_bytes}
use bao_tree.Chunks.{BaoChunk, parent, leaf}
use bao_tree.Chunks.Response
use bao_tree.Io.{Outboard, slice_read, vec_write, combine_hash_pair}
use bao_tree.Io.Encode.{encode_validated_items, read_block, hash_block}
use bao_tree.Io.Decode.{ResponseDecoderReading, content, next0, reading_next}
use bao_tree.Io.Agreement.{as_sync, next0-reading_next}
use bao_tree.Outcome.{Outcome}
use bao_tree.Io.Encoders.{ReadAlike, Agree, validated-Agree}
use bao_tree.Io.RoundTrip.{Whole, Decodes, validated-decode}

-- A decoder behind the header, with one hash pair to read.
abbrev reading : ResponseDecoderReading Bool ℕ (List ℕ)
reading = record {
  iter = Response.new tree true;
  stack = 14 ∷ [];
  encoded = replicate 32 2 ++ replicate 32 3;
}

next0-reading_next_example :
    next0 all_or_nothing toy slice_read (record {
      inner = content (Response.new tree true);
      stack = 14 ∷ [];
      encoded = replicate 32 2 ++ replicate 32 3;
    })
    ≡ as_sync all_or_nothing toy slice_read (reading_next all_or_nothing toy slice_read reading)
next0-reading_next_example = next0-reading_next all_or_nothing toy slice_read reading

-- An outboard with one pair, and a file for two pieces of two bytes.
abbrev pub one_pair : Outboard ℕ Unit
one_pair = record { root = λ o. 14; tree = λ o. tree; load = λ o node. ok (some (2, 3)) }

abbrev pub chunks : List (BaoChunk Bool)
chunks = parent 1 true true true true ∷ (leaf 0 2 false true ∷ (leaf 1 2 false true ∷ []))

abbrev pub file : List ℕ
file = replicate 1026 7

abbrev pub written : List ℕ
written = (replicate 32 2 ++ replicate 32 3) ++ (7 ∷ (7 ∷ (7 ∷ (7 ∷ []))))

pub writes :
    encode_validated_items all_or_nothing toy one_pair file_at vec_write file tt chunks (14 ∷ []) []
    ≡ ok written
unfolding encode_validated_items read_block hash_block vec_write combine_hash_pair chunk_group_bytes
    chunk_group_chunks chunks_to_bytes hash_subtree count_ones ones shl
writes = refl

pub exact : (n m : ℕ) (buf : List ℕ) → file_at.read_exact_at file n m ≡ ok buf → m ≡ length buf
exact n m buf e = elim (lt-cases (length file) (n + m)) [
  | inl over ↦ let no = gt→leb (n + m) (length file) over in absurd (ground (arith, e, no))
  | inr fits ↦
      let yes = le→leb (n + m) (length file) fits in
      let same : take m (drop n file) ≡ buf = ground (arith, e, yes) in
      let long = length-take m (drop n file) (omega (arith, fits, length-drop n file)) in
      rw (sym same) (sym long)
]

symmetric : (x y : ℕ) → toy.hash_eq x y ≡ true → toy.hash_eq y x ≡ true
symmetric x y e = ground (arith, e)

pub chunks-Whole : Whole all_or_nothing chunks
unfolding Whole
chunks-Whole = (refl, (refl, tt))

validated-decode_example :
    Decodes all_or_nothing toy one_pair file_at file tt toy-HasBytes symmetric exact
      (5 ∷ [])
      chunks
      (14 ∷ [])
      []
      written
validated-decode_example =
    validated-decode all_or_nothing toy one_pair file_at file tt toy-HasBytes symmetric exact
      (5 ∷ []) chunks (14 ∷ []) [] written chunks-Whole writes

abbrev read_at : List ℕ → ℕ → ℕ → Outcome IoError (List ℕ)
read_at d offset n = ok (take n (drop offset d))

chunks-ReadAlike : ReadAlike all_or_nothing toy one_pair file_at read_at vec_write file tt chunks
unfolding ReadAlike chunk_group_bytes chunk_group_chunks chunks_to_bytes shl
chunks-ReadAlike = (omega arith, refl, (omega arith, refl, tt))

validated-Agree_example :
    Agree all_or_nothing toy one_pair file_at read_at vec_write file tt chunks (14 ∷ []) []
validated-Agree_example =
    validated-Agree all_or_nothing toy one_pair file_at read_at vec_write file tt chunks (14 ∷ [])
      [] chunks-ReadAlike
