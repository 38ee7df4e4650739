-- ===== src/Tests/References.antt =====
-- The chunk iterators, the recursive reference and the decoder on a tree of three blocks.
use bao_tree.Base.{ℕ, ◌≤◌, ◌^◌, [], ◌∷◌, length, ◌≡◌, refl, Bool, true, some, List}
use bao_tree.Outcome.{ok}
use bao_tree.Errors.{IoError}
use bao_tree.Chunks.{BaoChunk}
use bao_tree.Chunks.Partial
use bao_tree.Chunks.Response
use bao_tree.Reference.{partial_chunk_iter_reference, response_iter_reference}
use bao_tree.Reference.Agreement.{
  yields-partial_chunk_iter_reference, yields-response_iter_reference,
}
use bao_tree.Tests.Toy.{toy, tree, tree-IsValid, all_or_nothing}
use bao_tree.Io.Stream.{decode_all}
use bao_tree.Io.Balanced.Decoding.{Ends, response-decode}

yields-partial_chunk_iter_reference_example :
    (items : ℕ) × (cs : List (BaoChunk Bool)) × (partial_chunk_iter_reference all_or_nothing tree
        true 0
      ≡ some cs)
    × (Partial.yields all_or_nothing {E = IoError} items (Partial.new tree true 0) ≡ ok cs)
yields-partial_chunk_iter_reference_example =
    yields-partial_chunk_iter_reference all_or_nothing tree 0 true tree-IsValid refl

yields-response_iter_reference_example :
    (items : ℕ) × (cs : List (BaoChunk Unit)) × (response_iter_reference all_or_nothing tree true
      ≡ some cs)
    × (Response.yields {E = IoError} all_or_nothing items (Response.new tree true) ≡ ok cs)
yields-response_iter_reference_example =
    yields-response_iter_reference all_or_nothing tree true tree-IsValid refl

response-decode_example :
    (items : ℕ) × (cs : List (BaoChunk Unit)) × (Response.yields {E = IoError} all_or_nothing items
        (Response.new tree true)
      ≡ ok cs)
    × ((root : ℕ) (encoded : List ℕ)
        → length encoded ≤ 2 ^ 60
        → Ends all_or_nothing toy (decode_all all_or_nothing toy cs (root ∷ []) encoded))
response-decode_example = response-decode all_or_nothing toy tree true tree-IsValid refl
