-- ===== src/Io/Balanced.antt =====
-- The chunks that the iterators of src/iter.rs yield, as those of a number of subtrees: a parent
-- stands for one subtree and announces those of its children that the ranges meet.
pub mod Decoding
use bao_tree.Base.{
  ℕ, zero, suc, ◌+◌, ◌*◌, ◌^◌, ◌≤◌, ◌<◌, ◌≡◌, ◌⊎◌, refl, arith, ap, ◌∙◌, sym, subst, inl, inr, Bool,
  true, false, not, Bool-cases, lt-cases, leb, ltb, ◌||◌, ◌==◌, le→leb, gt→leb, Option, none, some,
  some-inj, List, [], ◌∷◌, ◌++◌, map, length, take, drop, replicate, length-take, length-drop,
  length-replicate, append_assoc, append-nil,
}
use bao_tree.Sizes.{ChunkNum, chunks_to_bytes}
use bao_tree.Outcome.{Outcome, ok, err, panic, ◌>>=◌}
use bao_tree.Errors.{IoError, ErrorKind, Payload, AnyDecodeError}
use bao_tree.Word.{count_ones}
use bao_tree.Errors.{any_from_decode, maybe_parent_not_found, maybe_leaf_not_found}
use bao_tree.Hashing.{Blake3, RangeSets, hash_subtree, recursive_hash_subtree, split}
use bao_tree.Hashing.Encoding.{encode_selected_rec_lem}
use bao_tree.Node.{TreeNode, mid}
use bao_tree.Node.Place.{node_at}
use bao_tree.Tree.{BaoTree, shifted}
use bao_tree.Tree.Shape.{IsValid, shape}
use bao_tree.Chunks.{BaoChunk, parent, leaf, without_ranges}
use bao_tree.Chunks.Partial.{push_leaf}
use bao_tree.Chunks.Partial.Select.{
  select, select-empty, select-leaf, select-pieces, select-out, select-whole, select-pair, halves,
  is_query_leaf, tree_node, pieces, whole, pair,
}
use bao_tree.Chunks.Response
use bao_tree.Io.{slice_read, read_parent}
use bao_tree.Io.Encode.{push_if}
use bao_tree.Io.Decode.{BaoContentItem, parent_item, leaf_item, sync_chunk}
use bao_tree.Io.Stream.{decode_all}
use bao_tree.Reference.{response_iter_reference, select_nodes_rec, partial_chunk_iter_reference}
use bao_tree.Reference.Agreement.{partial_lem, yields-response_iter_reference}

-- One more subtree to come, if the ranges meet it.
abbrev pub pending : Bool → ℕ → ℕ
pending true d = suc d
pending false d = d

-- The chunks are those of `d` subtrees.
unfoldable pub Balanced : {R : Type 0} → List (BaoChunk R) → ℕ → Type 0
Balanced [] d = d ≡ 0
Balanced (parent node is_root left right ranges ∷ cs) d =
    (e : ℕ) × (d ≡ suc e) × Balanced cs (pending left (pending right e))
Balanced (leaf start size is_root ranges ∷ cs) d = (e : ℕ) × (d ≡ suc e) × Balanced cs e

module _ {R : Type 0} (s : RangeSets R) (t : BaoTree) (min_level : ℕ) where
  abbrev meets : R → Bool
  meets r = not (s.is_empty r)

  -- The chunks of a subtree, in front of those of `d` others.
  abbrev Adds : ℕ → Type 0
  Adds l =
      (k : ℕ) (r : R) (cs : List (BaoChunk R)) (d : ℕ)
      → Balanced cs d
      → Balanced (select s t min_level l k r ++ cs) (pending (meets r) d)

  nothing_in_front :
      (l k : ℕ) (r : R) (cs : List (BaoChunk R)) (d : ℕ)
      → s.is_empty r ≡ true
      → Balanced cs d
      → Balanced (select s t min_level l k r ++ cs) (pending (meets r) d)
  nothing_in_front l k r cs d e rest = rw (select-empty s t min_level l k r e, e) rest

  pieces_in_front :
      (n : TreeNode) (r : R) (cs : List (BaoChunk R)) (d : ℕ)
      → Balanced cs d
      → Balanced (pieces s t min_level n r ++ cs) (
          pending
            (meets (halves s t min_level n r).0)
            (pending (meets (halves s t min_level n r).1) d))
  unfolding Balanced push_leaf
  pieces_in_front n r cs d rest = elim (Bool-cases (s.is_empty (halves s t min_level n r).0)) [
    | inl a ↦ elim (Bool-cases (s.is_empty (halves s t min_level n r).1)) [
      | inl c ↦ rw (a, c) rest
      | inr c ↦ rw (a, c) (d, refl, rest)
    ]
    | inr a ↦ elim (Bool-cases (s.is_empty (halves s t min_level n r).1)) [
      | inl c ↦ rw (a, c) (d, refl, rest)
      | inr c ↦ rw (a, c) (suc d, refl, (d, refl, rest))
    ]
  ]

  module _ (k : ℕ) (r : R) (cs : List (BaoChunk R)) (d : ℕ) (some_range : s.is_empty r ≡ false)
      (rest : Balanced cs d) where
    leaf_in_front : Balanced (select s t min_level 0 k r ++ cs) (suc d)
    unfolding Balanced
    leaf_in_front =
        let n = node_at 0 k in
        elim (Bool-cases (
          is_query_leaf s t min_level n r
          || leb t.size (chunks_to_bytes (mid (tree_node s t min_level n))))) [
            | inl stop ↦ rw (select-leaf s t min_level k r some_range stop) (d, refl, rest)
            | inr go ↦
                rw (select-pieces s t min_level k r some_range go)
                  (d, refl, pieces_in_front n r cs d rest)
          ]

    branch_in_front : (l : ℕ) → Adds l → Balanced (select s t min_level (suc l) k r ++ cs) (suc d)
    unfolding Balanced
    branch_in_front l sub =
        let n = node_at (suc l) k in
        elim (Bool-cases (ltb n (shifted t).1)) [
          | inl here ↦ elim (Bool-cases (is_query_leaf s t min_level n r)) [
            | inl full ↦ rw (select-whole s t min_level l k r some_range here full) (d, refl, rest)
            | inr part ↦
                let (lr, rr) = halves s t min_level n r in
                let right = sub (2 * k + 1) rr cs d rest in
                let both =
                  sub (2 * k) lr (select s t min_level l (2 * k + 1) rr ++ cs)
                    (pending (meets rr) d) right in
                rw (select-pair s t min_level l k r some_range here part) (
                  d,
                  refl,
                  rw
                      (append_assoc (select s t min_level l (2 * k) lr)
                        (select s t min_level l (2 * k + 1) rr) cs)
                      both,
                )
          ]
          | inr out ↦
              rw (select-out s t min_level l k r some_range out)
                (rw some_range at (sub (2 * k) r cs d rest))
        ]

  adds : (l : ℕ) → Adds l
  adds zero k r cs d rest = elim (Bool-cases (s.is_empty r)) [
    | inl nothing ↦ nothing_in_front 0 k r cs d nothing rest
    | inr some_range ↦ rw some_range (leaf_in_front k r cs d some_range rest)
  ]
  adds (suc l) k r cs d rest = elim (Bool-cases (s.is_empty r)) [
    | inl nothing ↦ nothing_in_front (suc l) k r cs d nothing rest
    | inr some_range ↦ rw some_range (branch_in_front k r cs d some_range rest l (adds l))
  ]

plain-Balanced :
    {R : Type 0} (cs : List (BaoChunk R)) (d : ℕ)
    → Balanced cs d
    → Balanced (map without_ranges cs) d
unfolding Balanced without_ranges
plain-Balanced [] d balanced = balanced
plain-Balanced (parent node is_root left right ranges ∷ cs) d (e, same, balanced) =
    (e, same, plain-Balanced cs (pending left (pending right e)) balanced)
plain-Balanced (leaf start size is_root ranges ∷ cs) d (e, same, balanced) =
    (e, same, plain-Balanced cs e balanced)

module _ {R : Type 0} (s : RangeSets R) (t : BaoTree) (ranges : R) (v : IsValid t)
    (some_range : s.is_empty ranges ≡ false) where
  -- The chunks of a response are those of one subtree, the root's.
  pub response-Balanced :
      (cs : List (BaoChunk Unit)) → response_iter_reference s t ranges ≡ some cs → Balanced cs 1
  unfolding response_iter_reference partial_chunk_iter_reference Balanced
  response-Balanced cs e =
      let tree1 : BaoTree = record { size = t.size; block_size = 0 } in
      let v1 : IsValid tree1 = record { size_fits = v.size_fits; block_fits = omega arith } in
      let (height, m, h) = shape tree1 v1 in
      let chosen = select s tree1 t.block_size height 0 ranges in
      let ref : select_nodes_rec s 64 0 t.size true ranges 0 t.block_size ≡ some chosen =
        partial_lem tree1 v1 height m h s t.block_size ranges in
      let same : map without_ranges chosen ≡ cs =
        some-inj (sym (rw (response_iter_reference, ref) refl) ∙ e) in
      let balanced : Balanced chosen 1 =
        rw (append-nil, some_range) at (adds s tree1 t.block_size height 0 ranges [] 0 refl) in
      subst (λ l. Balanced l 1) same (plain-Balanced chosen 1 balanced)
