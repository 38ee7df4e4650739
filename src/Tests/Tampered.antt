-- ===== src/Tests/Tampered.antt =====
-- The decoder on inputs of a few bytes, with a toy hash that has collisions.
use bao_tree.Base.{ℕ, ◌≡◌, ◌⊎◌, refl, arith, true, List, [], ◌∷◌, map, some, eq→==}
use bao_tree.Word.{shl, count_ones, ones}
use bao_tree.Sizes.{chunks_to_bytes}
use bao_tree.Outcome.{ok}
use bao_tree.Hashing.{hash_subtree}
use bao_tree.Hashing.Collisions.{Collision, subtree-Collision}
use bao_tree.Chunks.{BaoChunk, leaf, without_ranges}
use bao_tree.Io.{slice_read, read_parent}
use bao_tree.Io.Decode.{BaoContentItem, parent_item, leaf_item, sync_chunk}
use bao_tree.Io.Stream.{decode_all}
use bao_tree.Io.RoundTrip.{contents}
use bao_tree.Io.Authentic.{decoded-Collision, authentic-decode}
use bao_tree.Tests.Toy.{toy, toy-HasBytes, all_or_nothing, file_at}
use bao_tree.Tests.Streams.{one_pair, chunks, file, written, writes, exact, chunks-Whole}

same : (x y : ℕ) → (toy.hash_eq x y ≡ true → x ≡ y) × (x ≡ y → toy.hash_eq x y ≡ true)
same x y = (λ e. ground (arith, e), λ e. eq→== x y e)

abbrev sevens : List ℕ
sevens = 7 ∷ (7 ∷ [])

abbrev eights : List ℕ
eights = 8 ∷ (8 ∷ [])

hashes_sevens : hash_subtree toy 3 0 sevens true ≡ some 2
unfolding hash_subtree count_ones ones
hashes_sevens = refl

hashes_eights : hash_subtree toy 3 0 eights true ≡ some 2
unfolding hash_subtree count_ones ones
hashes_eights = refl

subtree-Collision_example : (sevens ≡ eights) ⊎ Collision toy
subtree-Collision_example =
    subtree-Collision toy same 3 0 sevens eights true 2 refl hashes_sevens hashes_eights

abbrev piece : List (BaoChunk Unit)
piece = leaf 0 2 true tt ∷ []

reads_sevens :
    decode_all all_or_nothing toy piece (2 ∷ []) sevens ≡ ok (leaf_item 0 sevens ∷ [], [])
unfolding decode_all sync_chunk slice_read hash_subtree count_ones ones chunks_to_bytes shl
reads_sevens = refl

reads_eights :
    decode_all all_or_nothing toy piece (2 ∷ []) eights ≡ ok (leaf_item 0 eights ∷ [], [])
unfolding decode_all sync_chunk slice_read hash_subtree count_ones ones chunks_to_bytes shl
reads_eights = refl

abbrev got_sevens : List (BaoContentItem ℕ)
got_sevens = leaf_item 0 sevens ∷ []

abbrev got_eights : List (BaoContentItem ℕ)
got_eights = leaf_item 0 eights ∷ []

decoded-Collision_example : (got_sevens ≡ got_eights) ⊎ Collision toy
decoded-Collision_example =
    decoded-Collision all_or_nothing toy same piece (2 ∷ []) sevens eights [] [] got_sevens
      got_eights reads_sevens reads_eights

abbrev items : List (BaoContentItem ℕ)
items = parent_item 1 (2, 3) ∷ (leaf_item 0 sevens ∷ (leaf_item 1024 sevens ∷ []))

reads : decode_all all_or_nothing toy (map without_ranges chunks) (14 ∷ []) written ≡ ok (items, [])
unfolding decode_all sync_chunk slice_read read_parent hash_subtree count_ones ones chunks_to_bytes
    shl without_ranges
reads = refl

authentic-decode_example :
    (contents all_or_nothing toy one_pair file_at file tt chunks ≡ ok items) ⊎ Collision toy
authentic-decode_example =
    authentic-decode all_or_nothing toy same one_pair file_at file tt toy-HasBytes exact chunks
      (14 ∷ []) [] written written [] items chunks-Whole writes reads
