-- ===== src/Io/Authentic.antt =====
-- The decoder of src/io/sync.rs on inputs that need not come from an encoder.
use bao_tree.Base.{
  ℕ, suc, ◌≡◌, ap, ap₂, ◌∙◌, sym, ◌⊎◌, inl, inr, true, List, [], ◌∷◌, ◌++◌, length, map, some,
}
use bao_tree.Sizes.{chunks_to_bytes}
use bao_tree.Outcome.{ok}
use bao_tree.Hashing.{Blake3, RangeSets, hash_subtree}
use bao_tree.Hashing.Collisions.{Collision, pair-Collision, subtree-Collision}
use bao_tree.Chunks.{BaoChunk, parent, leaf, without_ranges}
use bao_tree.Io.{ReadAt, Outboard, vec_write}
use bao_tree.Io.Encode.{push_if, encode_validated_items}
use bao_tree.Io.Decode.{BaoContentItem, parent_item, leaf_item}
use bao_tree.Outboards.Slots.{HasBytes}
use bao_tree.Io.Stream.{decode_all, Step, first_step, parent-Step, leaf-Step}
use bao_tree.Io.RoundTrip.{Whole, contents, validated-decode}

module _ {R Hash : Type 0} (s : RangeSets R) (b : Blake3 Hash)
    (same : (x y : Hash) → (b.hash_eq x y ≡ true → x ≡ y) × (x ≡ y → b.hash_eq x y ≡ true)) where
  -- Two steps for one chunk, on two inputs.
  Step-Collision :
      (chunk : BaoChunk Unit) (stack s1 s2 : List Hash) (e1 e2 e1' e2' : List ℕ)
      (i1 i2 : BaoContentItem Hash)
      → Step s b chunk stack e1 i1 s1 e1'
      → Step s b chunk stack e2 i2 s2 e2'
      → ((i1 ≡ i2) × (s1 ≡ s2)) ⊎ Collision b
  Step-Collision (parent node is_root left right ranges) stack s1 s2 e1 e2 e1' e2' i1 i2 p q =
      let (p1, h1, below1, st1, eq1, it1, out1) =
        parent-Step s b node is_root left right stack s1 e1 e1' i1 p in
      let (p2, h2, below2, st2, eq2, it2, out2) =
        parent-Step s b node is_root left right stack s2 e2 e2' i2 q in
      let h : h1 ≡ h2 = cc in
      let below : below1 ≡ below2 = cc in
      let one = (same h1 (b.parent_cv p1.0 p1.1 is_root)).0 eq1 in
      let two = (same h2 (b.parent_cv p2.0 p2.1 is_root)).0 eq2 in
      elim (pair-Collision b same p1 p2 is_root (sym one ∙ h ∙ two)) [
        | inr c ↦ inr c
        | inl e ↦ inl (
          it1 ∙ ap (λ (p : Hash × Hash). parent_item node p) e ∙ sym it2,
          out1
              ∙ ap₂ (λ (p : Hash × Hash) (l : List Hash). push_if left p.0 (push_if right p.1 l)) e
                  below
              ∙ sym out2,
        )
      ]
  Step-Collision (leaf start size is_root ranges) stack s1 s2 e1 e2 e1' e2' i1 i2 p q =
      let (b1, a1, h1, len1, hash1, st1, eq1, it1) =
        leaf-Step s b start size is_root stack s1 e1 e1' i1 p in
      let (b2, a2, h2, len2, hash2, st2, eq2, it2) =
        leaf-Step s b start size is_root stack s2 e2 e2' i2 q in
      let h : h1 ≡ h2 = cc in
      let below : s1 ≡ s2 = cc in
      let lens = len1 ∙ sym len2 in
      let actual : a1 ≡ a2 = sym ((same h1 a1).0 eq1) ∙ h ∙ (same h2 a2).0 eq2 in
      let hash2' : hash_subtree b (suc (length b1)) start b2 is_root ≡ some a1 =
        rw (lens, actual) hash2 in
      elim (subtree-Collision b same (suc (length b1)) start b1 b2 is_root a1 lens hash1 hash2') [
        | inr c ↦ inr c
        | inl e ↦
            inl (it1 ∙ ap (λ (l : List ℕ). leaf_item (chunks_to_bytes start) l) e ∙ sym it2, below)
      ]

  -- Two inputs that the decoder accepts for the same chunks with the same stack of hashes hold the same
  -- items, or they show a collision: two different inputs of one function of blake3, of chunks,
  -- of subtrees or of pairs, with one hash. The condition is that the comparison of hashes
  -- decides equality.
  pub decoded-Collision :
      (chunks : List (BaoChunk Unit)) (stack : List Hash) (e1 e2 r1 r2 : List ℕ)
      (is1 is2 : List (BaoContentItem Hash))
      → decode_all s b chunks stack e1 ≡ ok (is1, r1)
      → decode_all s b chunks stack e2 ≡ ok (is2, r2)
      → (is1 ≡ is2) ⊎ Collision b
  unfolding decode_all
  decoded-Collision [] stack e1 e2 r1 r2 is1 is2 p q = inl cc
  decoded-Collision (chunk ∷ chunks) stack e1 e2 r1 r2 is1 is2 p q =
      let (i1, s1, e1', o1, step1, run1, eq1) = first_step s b chunk chunks stack e1 r1 is1 p in
      let (i2, s2, e2', o2, step2, run2, eq2) = first_step s b chunk chunks stack e2 r2 is2 q in
      elim (Step-Collision chunk stack s1 s2 e1 e2 e1' e2' i1 i2 step1 step2) [
        | inr c ↦ inr c
        | inl (i, st) ↦ elim (decoded-Collision chunks s1 e1' e2' r1 r2 o1 o2 run1 (rw st run2)) [
          | inr c ↦ inr c
          | inl o ↦ inl (eq1 ∙ ap₂ (λ (i : BaoContentItem Hash) l. i ∷ l) i o ∙ sym eq2)
        ]
      ]

  module _ {O D : Type 0} (ob : Outboard Hash O) (at : ReadAt D) (file : D) (o : O) (h : HasBytes b)
      (exact : (n m : ℕ) (buf : List ℕ) → at.read_exact_at file n m ≡ ok buf → m ≡ length buf) where
    -- When every block of the chunks is written whole and the loop of `encode_ranges_validated`
    -- succeeds on a stack of hashes, then a decoder with that stack, whatever input it is given and
    -- accepts, returns the hash pairs of the outboard and the data of the file for the chunks, or the
    -- input shows a collision of blake3. The conditions are those of 32-byte hashes, a
    -- comparison of hashes that decides equality, and exact reads of the file.
    pub authentic-decode :
        (items : List (BaoChunk R)) (stack : List Hash) (w w' encoded rest : List ℕ)
        (found : List (BaoContentItem Hash))
        → Whole s items
        → encode_validated_items s b ob at vec_write file o items stack w ≡ ok w'
        → decode_all s b (map without_ranges items) stack encoded ≡ ok (found, rest)
        → (contents s b ob at file o items ≡ ok found) ⊎ Collision b
    authentic-decode items stack w w' encoded rest found whole enc dec =
        let (out, sent, w-eq, holds, decoded) =
          validated-decode s b ob at file o h (λ x y e. (same y x).1 (sym ((same x y).0 e))) exact
            [] items stack w w' whole enc in
        elim (decoded-Collision (map without_ranges items) stack (out ++ []) encoded [] rest sent
          found decoded dec) [
            | inr c ↦ inr c
            | inl e ↦ inl (holds ∙ ap (λ (l : List (BaoContentItem Hash)). ok l) e)
          ]
