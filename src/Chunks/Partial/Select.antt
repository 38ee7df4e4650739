-- ===== src/Chunks/Partial/Select.antt =====
-- What the pre order chunk iterators are to yield: a recursion over the subtrees that the ranges
-- meet, on places of nodes below the number of nodes of the shifted tree.
use bao_tree.Base.{
  ℕ, zero, suc, ◌+◌, ◌*◌, ltb, leb, ◌==◌, ◌≡◌, refl, if◌then◌else◌, Bool, true, false, not, ◌&&◌,
  ◌||◌, List, [], ◌∷◌, ◌++◌,
}
use bao_tree.Word.{u64_sub}
use bao_tree.Sizes.{chunks_to_bytes}
use bao_tree.Node.{TreeNode, level, mid, chunk_range, subtract_block_size}
use bao_tree.Node.Place.{node_at}
use bao_tree.Hashing.{RangeSets, split}
use bao_tree.Tree.{BaoTree, shifted}
use bao_tree.Tree
use bao_tree.Chunks.{BaoChunk, parent, leaf}
use bao_tree.Chunks.Partial.{push_leaf}

module _ {R : Type 0} (s : RangeSets R) (t : BaoTree) (min_level : ℕ) where
  abbrev pub tree_node : TreeNode → TreeNode
  tree_node n = subtract_block_size n t.block_size

  -- The set meets the subtree in full, and the subtree is below the least level.
  abbrev pub is_query_leaf : TreeNode → R → Bool
  is_query_leaf n ranges = s.is_all ranges && ltb (level (tree_node n)) min_level

  abbrev pub halves : TreeNode → R → R × R
  halves n ranges = split s ranges (mid (tree_node n))

  -- A node's whole subtree as one piece of data, and its hash pair.
  abbrev pub whole : TreeNode → R → BaoChunk R
  whole n ranges =
      let bytes = Tree.byte_range t (tree_node n) in
      leaf (chunk_range (tree_node n)).start (u64_sub bytes.end bytes.start) (n == (shifted t).0)
        ranges

  abbrev pub pair : TreeNode → R → BaoChunk R
  pair n ranges =
      parent (tree_node n) (n == (shifted t).0) (not (s.is_empty (halves n ranges).0))
        (not (s.is_empty (halves n ranges).1)) ranges

  -- The two pieces of data of a leaf.
  abbrev pub pieces : TreeNode → R → List (BaoChunk R)
  pieces n ranges =
      let node = tree_node n in
      let bytes = Tree.byte_range t node in
      let mid_bytes = chunks_to_bytes (mid node) in
      let (l, r) = halves n ranges in
      push_leaf s (leaf (chunk_range node).start (u64_sub mid_bytes bytes.start) false l) l
        (push_leaf s (leaf (mid node) (u64_sub bytes.end mid_bytes) false r) r [])

  -- A subtree that the ranges do not meet has nothing; a node beyond the tree stands for its left
  -- subtree.
  unfoldable pub select : ℕ → ℕ → R → List (BaoChunk R)
  select zero k ranges =
      let n = node_at 0 k in
      elim (s.is_empty ranges) [
        | true ↦ []
        | false ↦
            if is_query_leaf n ranges || leb t.size (chunks_to_bytes (mid (tree_node n)))
            then whole n ranges ∷ []
            else pair n ranges ∷ pieces n ranges
      ]
  select (suc l) k ranges =
      let n = node_at (suc l) k in
      elim (s.is_empty ranges) [
        | true ↦ []
        | false ↦ elim (ltb n (shifted t).1) [
          | false ↦ select l (2 * k) ranges
          | true ↦ elim (is_query_leaf n ranges) [
            | true ↦ whole n ranges ∷ []
            | false ↦
                pair n ranges
                ∷ (select l (2 * k) (halves n ranges).0 ++ select l (2 * k + 1) (halves n ranges).1)
          ]
        ]
      ]

  pub select-empty : (l k : ℕ) (ranges : R) → s.is_empty ranges ≡ true → select l k ranges ≡ []
  unfolding select
  select-empty zero k ranges e = rw (select, e) refl
  select-empty (suc l) k ranges e = rw (select, e) refl

  module _ (k : ℕ) (ranges : R) (meets : s.is_empty ranges ≡ false) where
    pub select-leaf :
        (is_query_leaf (node_at 0 k) ranges
            || leb t.size (chunks_to_bytes (mid (tree_node (node_at 0 k)))))
          ≡ true
        → select 0 k ranges ≡ whole (node_at 0 k) ranges ∷ []
    unfolding select
    select-leaf stop = rw (select, meets, stop) refl

    pub select-pieces :
        (is_query_leaf (node_at 0 k) ranges
            || leb t.size (chunks_to_bytes (mid (tree_node (node_at 0 k)))))
          ≡ false
        → select 0 k ranges ≡ pair (node_at 0 k) ranges ∷ pieces (node_at 0 k) ranges
    unfolding select
    select-pieces go = rw (select, meets, go) refl

  module _ (l k : ℕ) (ranges : R) (meets : s.is_empty ranges ≡ false) where
    pub select-out :
        ltb (node_at (suc l) k) (shifted t).1 ≡ false
        → select (suc l) k ranges ≡ select l (2 * k) ranges
    unfolding select
    select-out out = rw (select, meets, out) refl

    pub select-whole :
        ltb (node_at (suc l) k) (shifted t).1 ≡ true
        → is_query_leaf (node_at (suc l) k) ranges ≡ true
        → select (suc l) k ranges ≡ whole (node_at (suc l) k) ranges ∷ []
    unfolding select
    select-whole inside q = rw (select, meets, inside, q) refl

    pub select-pair :
        ltb (node_at (suc l) k) (shifted t).1 ≡ true
        → is_query_leaf (node_at (suc l) k) ranges ≡ false
        → select (suc l) k ranges
          ≡ pair (node_at (suc l) k) ranges
            ∷ (select l (2 * k) (halves (node_at (suc l) k) ranges).0
                ++ select l (2 * k + 1) (halves (node_at (suc l) k) ranges).1)
    unfolding select
    select-pair inside q = rw (select, meets, inside, q) refl
