-- ===== src/Tests/Ranges.antt =====
-- Truncated ranges of a blob of seven chunks.
use bao_tree.Base.{
  ℕ, suc, true, false, refl, ◌↔◌, ◌≤◌, ◌<◌, ◌≡◌, arith, List, [], ◌∷◌, length, ◌==◌,
}
use bao_tree.Truncate.{truncated_len, truncate_ranges}
use bao_tree.Sizes.{ChunkNum}
use bao_tree.Hashing.{RangeSets}
use bao_tree.Truncate.Parts.{IsAscending, count_below}
use bao_tree.Truncate.Behind.{Reaches, last_chunk, truncate_ranges_lem}
use bao_tree.Truncate.Kept.{contains, truncated_len-length}

abbrev ranges : List ℕ
ranges = 3 ∷ (6 ∷ (7 ∷ (10 ∷ [])))

truncated_len-length_example :
    (truncated_len ranges 7000 ≤ length ranges)
    × ((truncated_len ranges 7000 == 0) ≡ (length ranges == 0))
truncated_len-length_example = truncated_len-length ranges 7000

-- Range sets as their boundaries.
abbrev lists : RangeSets (List ℕ)
lists = record {
  is_empty = λ r. length r == 0;
  is_all = λ r. false;
  boundaries = λ r. r;
  split_at = λ r mid. (r, r);
  from_zero = 0 ∷ [];
  new_unchecked = λ bs. bs;
}

ranges-IsAscending : IsAscending 0 ranges
unfolding IsAscending
ranges-IsAscending = (omega arith, (omega arith, (omega arith, (omega arith, tt))))

truncate_ranges_lem_example :
    ((c : ChunkNum)
      → c < last_chunk 7000
      → contains (truncate_ranges lists ranges 7000) c ≡ contains ranges c)
    × (Reaches (truncate_ranges lists ranges 7000) (last_chunk 7000)
        ↔ Reaches ranges (last_chunk 7000))
    × ((c d : ChunkNum)
        → last_chunk 7000 ≤ c
        → c ≤ d
        → contains (truncate_ranges lists ranges 7000) c ≡ true
        → contains (truncate_ranges lists ranges 7000) d ≡ true)
    × (length (truncate_ranges lists ranges 7000) ≤ suc (count_below (last_chunk 7000) ranges))
truncate_ranges_lem_example = truncate_ranges_lem lists (λ bs. refl) ranges 7000 ranges-IsAscending
