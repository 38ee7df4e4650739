-- ===== src/Tests/Valid.antt =====
-- The validators and the rounding of ranges, with sets that are tests on chunks, and an outboard for
-- three blocks.
use bao_tree.Base.{
  ℕ, suc, ◌≡◌, refl, arith, Bool, true, false, ◌&&◌, ◌||◌, leb, ltb, ◌==◌, if◌then◌else◌, Option,
  none, some, inl, inr, List, [], ◌∷◌,
}
use bao_tree.Word.{shr, shl, next_power_of_two, power_from}
use bao_tree.Sizes.{open_part, ChunkNum}
use bao_tree.Outcome.{Outcome, ok, err, ◌>>=◌}
use bao_tree.Node.{TreeNode, subtract_block_size}
use bao_tree.Errors.{IoError, ErrorKind, Payload}
use bao_tree.Node.Place.{node_at}
use bao_tree.Tree.{BaoTree, shifted, blocks, chunks}
use bao_tree.Sizes
use bao_tree.Tree.Shape.{HasShape}
use bao_tree.Tests.Toy.{toy, tree, tree-IsValid}
use bao_tree.Io.{Outboard}
use bao_tree.Io.Ranges.{RangeSums, HasMembers, RangeSetRange, range_from, range, round_up_to_chunks}
use bao_tree.Io.Ranges.Rounded.{HaveEnds, touched, round_up_to_chunks-touched}
use bao_tree.Io.Valid.{valid_ranges}
use bao_tree.Io.Valid.Vouched.{valid_ranges-vouched}
use bao_tree.Io.Valid.Calls.{vouched}
use bao_tree.Io.Valid.Complete.{Intact, valid_ranges_complete}
use bao_tree.Io.Valid.Awaiting.{
  Passed, async_validate_rec, async_valid_ranges, async_valid_ranges-valid_ranges,
}

abbrev tests : RangeSums (ℕ → Bool)
tests = record {
  empty = λ c. false;
  from_to = λ a e c. leb a c && ltb c e;
  from_on = λ a c. leb a c;
  union = λ x y c. x c || y c;
}

abbrev tests-HasMembers : HasMembers tests
tests-HasMembers = record {
  contains = λ x c. x c;
  empty_lem = λ c. refl;
  from_to_lem = λ a e c. refl;
  from_on_lem = λ a c. refl;
  union_lem = λ x y c. refl;
}

abbrev items : List RangeSetRange
items = range 1 3 ∷ (range 2047 2049 ∷ (range_from 5000 ∷ []))

items-HaveEnds : HaveEnds items
unfolding HaveEnds
items-HaveEnds = (omega arith, (omega arith, tt))

round_up_to_chunks-touched_example :
    tests-HasMembers.contains (round_up_to_chunks tests items) 2 ≡ touched items 2
round_up_to_chunks-touched_example =
    round_up_to_chunks-touched tests tests-HasMembers items items-HaveEnds 2

-- The pair of the root and that of the first leaf; the last leaf holds one block.
abbrev pairs : TreeNode → Option (ℕ × ℕ)
pairs node = if node == 3 then some (5, 7) else if node == 1 then some (1, 1) else none

abbrev three : Outboard ℕ Unit
three = record { root = λ o. 32; tree = λ o. tree; load = λ o node. ok (pairs node) }

tree-HasShape : HasShape tree 1 1
unfolding shifted shr shl next_power_of_two power_from open_part blocks Sizes.blocks node_at
tree-HasShape = record {
  leaf_count = refl;
  root_lem = refl;
  len_lem = refl;
  wide = omega arith;
  tight = omega arith;
  low = omega arith;
}

three-Intact : Intact toy tree pairs 1 0 32 true
unfolding Intact shifted shr shl next_power_of_two power_from open_part node_at
three-Intact = ((5, 7), (refl, refl), inr ((1, 1), (refl, refl)), inl refl)

valid_ranges-vouched_example :
    (res : ℕ → Bool) × (valid_ranges tests toy three tt 61 ≡ ok res)
    × ((c : ChunkNum) → res c ≡ vouched toy tree pairs 1 0 32 true c)
valid_ranges-vouched_example =
    valid_ranges-vouched tests toy three tt tree-IsValid tests-HasMembers pairs (λ n h. refl) 1 1 61
      tree-HasShape (omega arith)

valid_ranges_complete_example :
    (res : ℕ → Bool) × (valid_ranges tests toy three tt 61 ≡ ok res)
    × ((c : ChunkNum) → res c ≡ ltb c (chunks tree))
valid_ranges_complete_example =
    valid_ranges_complete tests toy three tt tree-IsValid tests-HasMembers pairs (λ n h. refl) 1 1
      61 tree-HasShape (omega arith) three-Intact

-- The same, but the pair of the first leaf cannot be read.
abbrev broken : IoError
broken = record { kind = ErrorKind.unexpected_eof; payload = Payload.system 0 }

abbrev damaged : Outboard ℕ Unit
damaged = record {
  root = λ o. 32;
  tree = λ o. tree;
  load = λ o node. if node == 1 then err broken else ok (pairs node);
}

abbrev damaged_load : Unit {0} → TreeNode → Outcome IoError (Option (ℕ × ℕ) × Unit {0})
damaged_load o node = damaged.load o node >>= (λ pair. ok (pair, o))

async_valid_ranges-valid_ranges_example :
    (async_valid_ranges tests toy damaged.root damaged.tree damaged_load 61 tt
      ≡ (valid_ranges tests toy damaged tt 61 >>= (λ res. ok (res, tt))))
    × ((t : BaoTree) (fuel : ℕ) (res : ℕ → Bool) (h : ℕ) (n : TreeNode) (is_root : Bool)
        → Passed tests toy damaged tt (damaged.load tt (subtract_block_size n t.block_size)) (
            async_validate_rec tests toy damaged.root damaged.tree damaged_load
              (suc fuel)
              t
              res
              tt
              h
              n
              is_root))
async_valid_ranges-valid_ranges_example = async_valid_ranges-valid_ranges tests toy damaged tt 61
