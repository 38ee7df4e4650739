-- ===== src/Tests/Toy.antt =====
-- A toy hash, whose bytes are one number again and again, sets that hold all or nothing, a tree
-- of three blocks, and files that are lists.
use bao_tree.Base.{
  ℕ, ◌+◌, ◌*◌, ◌==◌, Bool, true, false, not, List, [], ◌∷◌, length, replicate, if◌then◌else◌,
}
use bao_tree.Hashing.{Blake3, RangeSets}
use bao_tree.Base.{◌<◌, ◌≡◌, refl, arith, leb, le→leb, take, drop, some, length-replicate}
use bao_tree.Word.{shr, shl, next_power_of_two, power_from}
use bao_tree.Sizes.{open_part, blocks}
use bao_tree.Outcome.{ok, err}
use bao_tree.Errors.{ErrorKind, Payload}
use bao_tree.Tree.{BaoTree, shifted, outboard_hash_pairs}
use bao_tree.Tree
use bao_tree.Tree.Shape.{IsValid}
use bao_tree.Outboards.Slots.{HasBytes}
use bao_tree.Io.{ReadAt}
use bao_tree.Io.FileLaws.{Holds}

abbrev first : List ℕ → ℕ
first [] = 0
first (x ∷ xs) = x

abbrev pub toy : Blake3 ℕ
toy = record {
  chunk_hash = λ c d r. c + length d;
  parent_cv = λ x y r. 2 * x + 3 * y + (if r then 1 else 0);
  hash_subtree = λ c d r. c + length d;
  as_bytes = λ x. replicate 32 x;
  from_bytes = first;
  hash_eq = λ x y. x == y;
}

abbrev pub all_or_nothing : RangeSets Bool
all_or_nothing = record {
  is_empty = not;
  is_all = λ r. r;
  boundaries = λ r. if r then 0 ∷ [] else [];
  split_at = λ r mid. (r, r);
  from_zero = true;
  new_unchecked = λ bs. if length bs == 0 then false else true;
}

pub toy-HasBytes : HasBytes toy
toy-HasBytes = record { as_bytes-32 = λ h. length-replicate 32 h; from-as_bytes = λ h. refl }

-- 5000 bytes in blocks of 2048: three blocks, the last of them alone in its leaf.
abbrev pub tree : BaoTree
tree = record { size = 5000; block_size = 1 }

pub tree-IsValid : IsValid tree
tree-IsValid = record { size_fits = omega arith; block_fits = omega arith }

tree_len : (shifted tree).1 ≡ 3
unfolding shifted shr shl next_power_of_two power_from open_part
tree_len = refl

pub inside : 1 < (shifted tree).1
inside = rw tree_len (omega arith)

pub last_inside : 2 < (shifted tree).1
last_inside = rw tree_len (omega arith)

pub pairs : outboard_hash_pairs tree ≡ 2
unfolding outboard_hash_pairs Tree.blocks blocks open_part shr shl
pairs = refl

abbrev pub stored : List ℕ
stored = replicate 128 5

pub stored_size : length stored ≡ outboard_hash_pairs tree * 64
stored_size = rw pairs (length-replicate {A = ℕ} 128 5)

abbrev pub file_at : ReadAt (List ℕ)
file_at = record {
  read_exact_at = λ d offset n.
      if leb (offset + n) (length d)
      then ok (take n (drop offset d))
      else err (record { kind = ErrorKind.unexpected_eof; payload = Payload.system 0 });
  size = λ d. ok (some (length d));
}

pub file-Holds : (content : List ℕ) → Holds file_at content content
file-Holds content = record {
  read_lem = λ offset n fits. rw (le→leb (offset + n) (length content) fits) refl;
  size_lem = refl;
}
