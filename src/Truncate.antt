-- ===== src/Truncate.antt =====
-- `truncate_ranges` of src/rec.rs: ranges for a tree of a given size, where all that lies behind the
-- last chunk asks for the last chunk. The boundaries of a range set are a sorted list; an even index
-- is a start boundary and an odd one an end boundary.
pub mod Kept
pub mod Parts
pub mod Behind
use bao_tree.Base.{ℕ, suc, ◌+◌, ◌%◌, ltb, ◌==◌, if◌then◌else◌, List, [], ◌∷◌, length, take}
use bao_tree.Word.{saturating_sub}
use bao_tree.Sizes.{ByteNum, ChunkNum}
use bao_tree.Sizes
use bao_tree.Hashing.{RangeSets}

-- `binary_search` of the standard library, on a sorted list without duplicates: the index of the
-- element, or the index where it would stand.
pub data Search : Type 0 where
  found missing : ℕ → Search

unfoldable pub search_from : ℕ → ChunkNum → List ChunkNum → Search
search_from i c [] = missing i
search_from i c (x ∷ xs) =
    let rest = search_from (suc i) c xs in
    if x == c then found i else if ltb c x then missing i else rest

unfoldable pub binary_search : List ChunkNum → ChunkNum → Search
binary_search bs c = search_from 0 c bs

-- The number of boundaries to keep.
unfoldable pub truncated_len : List ChunkNum → ByteNum → ℕ
truncated_len bs size =
    let end = Sizes.chunks size in
    let lc = saturating_sub end 1 in
    elim (binary_search bs lc) [
      | found i ↦ if i % 2 == 0 then i + 1 else if length bs == i + 1 then i + 1 else i
      | missing ip ↦ if ip % 2 == 0 then if length bs == ip then ip else ip + 1 else ip
    ]

unfoldable pub truncate_ranges : {R : Type 0} → RangeSets R → R → ByteNum → R
truncate_ranges s ranges size =
    let bs = s.boundaries ranges in s.new_unchecked (take (truncated_len bs size) bs)

-- The same on a set that is taken apart and put together again.
unfoldable pub truncate_ranges_owned : {R : Type 0} → RangeSets R → R → ByteNum → R
truncate_ranges_owned s ranges size =
    let n = truncated_len (s.boundaries ranges) size in
    let boundaries = take n (s.boundaries ranges) in s.new_unchecked boundaries
