-- ===== src/Io/Ranges.antt =====
-- Where the code builds sets of ranges: `round_up_to_chunks` of src/io/mod.rs and `write_ranges` of
-- src/io/sync.rs. What they call of range_collections is a parameter, with the chunks of a set as
-- its documentation gives them.
pub mod Rounded
use bao_tree.Base.{
  ℕ, ◌≡◌, Bool, false, ◌&&◌, ◌||◌, leb, ltb, if◌then◌else◌, List, [], ◌∷◌, length, take, drop,
}
use bao_tree.Word.{u64_sub}
use bao_tree.Sizes.{ByteNum, ChunkNum, full_chunks}
use bao_tree.Sizes
use bao_tree.Outcome.{Outcome, ok, panic, ◌>>=◌}
use bao_tree.Errors.{IoError}
use bao_tree.Io.{WriteAt}

-- `ChunkRanges::empty()`, `ChunkRanges::from(a..b)`, `ChunkRanges::from(a..)` and `|=`.
pub record RangeSums (R : Type 0) : Type 0 where
  pub empty : R
  pub from_to : ChunkNum → ChunkNum → R
  pub from_on : ChunkNum → R
  pub union : R → R → R

-- What a set holds.
pub record HasMembers {R : Type 0} (u : RangeSums R) : Type 0 where
  pub contains : R → ChunkNum → Bool
  pub empty_lem : (c : ChunkNum) → contains u.empty c ≡ false
  pub from_to_lem : (a b c : ChunkNum) → contains (u.from_to a b) c ≡ (leb a c && ltb c b)
  pub from_on_lem : (a c : ChunkNum) → contains (u.from_on a) c ≡ leb a c
  pub union_lem :
      (x y : R) (c : ChunkNum) → contains (u.union x y) c ≡ (contains x c || contains y c)

-- `RangeSetRange`: what the iterator over a range set yields.
pub data RangeSetRange : Type 0 where
  range_from : (start : ByteNum) → RangeSetRange
  range : (start end : ByteNum) → RangeSetRange

module _ {R : Type 0} (u : RangeSums R) where
  -- The loop of `round_up_to_chunks` over the items of the set.
  unfoldable pub round_up_items : List RangeSetRange → R → R
  round_up_items [] res = res
  round_up_items (range_from start ∷ items) res =
      round_up_items items (u.union res (u.from_on (full_chunks start)))
  round_up_items (range start end ∷ items) res =
      round_up_items items (u.union res (u.from_to (full_chunks start) (Sizes.chunks end)))

  unfoldable pub round_up_to_chunks : List RangeSetRange → R
  round_up_to_chunks items = round_up_items items u.empty

-- `&from[start..end]`
unfoldable pub slice_of : {E : Type 0} → List ℕ → ℕ → ℕ → Outcome E (List ℕ)
slice_of from start end =
    if leb start end && leb end (length from)
    then ok (take (u64_sub end start) (drop start from))
    else panic

module _ {D : Type 0} (wr : WriteAt D) where
  unfoldable pub write_range : List ℕ → ByteNum → ByteNum → D → Outcome IoError D
  write_range from start end to = do s ← slice_of from start end; wr.write_all_at to start s

  unfoldable pub write_ranges : List ℕ → List RangeSetRange → D → Outcome IoError D
  write_ranges from [] to = ok to
  write_ranges from (range_from start ∷ items) to = do
    to ← write_range from start (length from) to
    write_ranges from items to
  write_ranges from (range start end ∷ items) to = do
    to ← write_range from start end to
    write_ranges from items to
