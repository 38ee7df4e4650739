-- ===== src/Io/Ranges/Rounded.antt =====
-- The chunks that `round_up_to_chunks` of src/io/mod.rs selects.
use bao_tree.Base.{
  ℕ, ◌+◌, ◌*◌, ◌/◌, ◌^◌, ◌<◌, ◌≡◌, arith, Bool, false, ◌&&◌, ◌||◌, leb, ltb, List, [], ◌∷◌, ap, ap₂,
  ◌∙◌,
}
use bao_tree.Word.Shifts.{shr_exact}
use bao_tree.Sizes.{ByteNum, ChunkNum, full_chunks}
use bao_tree.Sizes
use bao_tree.Sizes.Rounding.{chunks-Covers}
use bao_tree.Io.Ranges.{
  RangeSums, HasMembers, RangeSetRange, range_from, range, round_up_items, round_up_to_chunks,
}

-- Whether a byte range begins before the end of a chunk and ends behind its beginning.
unfoldable pub touches : RangeSetRange → ChunkNum → Bool
touches (range_from start) c = ltb start ((c + 1) * 1024)
touches (range start end) c = ltb start ((c + 1) * 1024) && ltb (c * 1024) end

unfoldable pub touched : List RangeSetRange → ChunkNum → Bool
touched [] c = false
touched (item ∷ items) c = touches item c || touched items c

-- Ends within 64 bits.
unfoldable pub HaveEnds : List RangeSetRange → Type 0
HaveEnds [] = Unit
HaveEnds (range_from start ∷ items) = HaveEnds items
HaveEnds (range start end ∷ items) = (end < 2 ^ 64) × HaveEnds items

full_chunks_lem : (n : ByteNum) → full_chunks n ≡ n / 1024
unfolding full_chunks
full_chunks_lem n = shr_exact n 10 (omega arith)

from_lem : (start c : ℕ) → leb (full_chunks start) c ≡ ltb start ((c + 1) * 1024)
from_lem start c = rw (full_chunks_lem start) (ground arith)

to_lem : (end c : ℕ) → end < 2 ^ 64 → ltb c (Sizes.chunks end) ≡ ltb (c * 1024) end
to_lem end c fits = let cover = chunks-Covers end fits in ground (arith, cover)

or_assoc : (x y z : Bool) → ((x || y) || z) ≡ (x || (y || z))
or_assoc x y z = ground arith

module _ {R : Type 0} (u : RangeSums R) (mem : HasMembers u) where
  abbrev Rounds : List RangeSetRange → Type 0
  Rounds items =
      (res : R) (c : ChunkNum)
      → mem.contains (round_up_items u items res) c ≡ (mem.contains res c || touched items c)

  -- One more item, whose chunks are those that it touches.
  joins :
      (items : List RangeSetRange) (item : RangeSetRange) (part res : R) (c : ChunkNum)
      → Rounds items
      → mem.contains part c ≡ touches item c
      → mem.contains (round_up_items u items (u.union res part)) c
        ≡ (mem.contains res c || (touches item c || touched items c))
  joins items item part res c later e =
      later (u.union res part) c
      ∙ ap (λ x. x || touched items c)
          (mem.union_lem res part c ∙ ap (λ x. mem.contains res c || x) e)
      ∙ or_assoc (mem.contains res c) (touches item c) (touched items c)

  rounds : (items : List RangeSetRange) → HaveEnds items → Rounds items
  unfolding round_up_items touched HaveEnds
  rounds [] fine res c = ground arith
  rounds (range_from start ∷ items) fine res c =
      joins items (range_from start) (u.from_on (full_chunks start)) res c (rounds items fine)
        (mem.from_on_lem (full_chunks start) c ∙ unfold touches in from_lem start c)
  rounds (range start end ∷ items) (fits, fine) res c =
      joins items (range start end) (u.from_to (full_chunks start) (Sizes.chunks end)) res c
        (rounds items fine)
        (mem.from_to_lem (full_chunks start) (Sizes.chunks end) c
          ∙ unfold touches in ap₂ (λ x y. x && y) (from_lem start c) (to_lem end c fits))

  -- For byte ranges within 64 bits, a chunk is in the result of `round_up_to_chunks` exactly when one of
  -- the ranges begins before the end of the chunk and ends behind its beginning.
  pub round_up_to_chunks-touched :
      (items : List RangeSetRange)
      → HaveEnds items
      → (c : ChunkNum) → mem.contains (round_up_to_chunks u items) c ≡ touched items c
  unfolding round_up_to_chunks
  round_up_to_chunks-touched items fine c =
      rounds items fine u.empty c ∙ ap (λ x. x || touched items c) (mem.empty_lem c)
