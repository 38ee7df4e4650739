-- ===== src/Io/Stream.antt =====
-- The decoder's steps for chunks in turn, on a slice, and what a step that succeeds has checked.
use bao_tree.Base.{
  ℕ, suc, ◌≡◌, refl, arith, ap, inl, inr, Bool, true, Bool-cases, lt-cases, gt→leb, le→leb, leb,
  Option, none, some, List, [], ◌∷◌, length, take, length-take,
}
use bao_tree.Sizes.{ChunkNum, chunks_to_bytes}
use bao_tree.Outcome.{Outcome, ok, err, panic, ◌>>=◌}
use bao_tree.Errors.{IoError, AnyDecodeError}
use bao_tree.Hashing.{Blake3, RangeSets, hash_subtree}
use bao_tree.Node.{TreeNode}
use bao_tree.Chunks.{BaoChunk, parent, leaf}
use bao_tree.Io.{slice_read, read_parent}
use bao_tree.Io.Encode.{push_if}
use bao_tree.Io.Decode.{BaoContentItem, parent_item, leaf_item, sync_chunk}

module _ {R Hash : Type 0} (s : RangeSets R) (b : Blake3 Hash) where
  unfoldable pub decode_all :
      List (BaoChunk Unit)
      → List Hash
      → List ℕ
      → Outcome AnyDecodeError (List (BaoContentItem Hash) × List ℕ)
  decode_all [] stack encoded = ok ([], encoded)
  decode_all (chunk ∷ chunks) stack encoded = do
    (item, (stack, encoded)) ← sync_chunk s b slice_read chunk stack encoded
    (items, encoded) ← decode_all chunks stack encoded
    ok (item ∷ items, encoded)

  abbrev pub Step :
      BaoChunk Unit → List Hash → List ℕ → BaoContentItem Hash → List Hash → List ℕ → Type 0
  Step chunk stack encoded item stack' encoded' =
      sync_chunk s b slice_read chunk stack encoded ≡ ok (item, (stack', encoded'))

  -- The first step of a run, and the rest of it.
  abbrev pub Stepped :
      BaoChunk Unit
      → List (BaoChunk Unit)
      → List Hash
      → List ℕ
      → List ℕ
      → List (BaoContentItem Hash)
      → Type 0
  Stepped chunk chunks stack encoded rest items =
      (item : BaoContentItem Hash) × (stack' : List Hash) × (encoded' : List ℕ) × (others : List
        (BaoContentItem Hash))
      × Step chunk stack encoded item stack' encoded'
      × (decode_all chunks stack' encoded' ≡ ok (others, rest))
      × (items ≡ item ∷ others)

  pub first_step :
      (chunk : BaoChunk Unit) (chunks : List (BaoChunk Unit)) (stack : List Hash)
      (encoded rest : List ℕ) (items : List (BaoContentItem Hash))
      → decode_all (chunk ∷ chunks) stack encoded ≡ ok (items, rest)
      → Stepped chunk chunks stack encoded rest items
  unfolding decode_all
  first_step chunk chunks stack encoded rest items e =
      from (sync_chunk s b slice_read chunk stack encoded) refl
    where
      go :
          (item : BaoContentItem Hash) (stack' : List Hash) (encoded' : List ℕ)
          → Step chunk stack encoded item stack' encoded'
          → (v : Outcome AnyDecodeError (List (BaoContentItem Hash) × List ℕ))
          → decode_all chunks stack' encoded' ≡ v
          → Stepped chunk chunks stack encoded rest items
      go item stack' encoded' p (ok (others, r)) q =
          (item, stack', encoded', others, p, ground (arith, e, p, q), ground (arith, e, p, q))
      go item stack' encoded' p (err x) q = absurd (ground (arith, e, p, q))
      go item stack' encoded' p panic q = absurd (ground (arith, e, p, q))

      from :
          (v : Outcome AnyDecodeError (BaoContentItem Hash × (List Hash × List ℕ)))
          → sync_chunk s b slice_read chunk stack encoded ≡ v
          → Stepped chunk chunks stack encoded rest items
      from (ok (item, (stack', encoded'))) p =
          go item stack' encoded' p (decode_all chunks stack' encoded') refl
      from (err x) p = absurd (ground (arith, e, p))
      from panic p = absurd (ground (arith, e, p))

  -- A hash pair that is returned has the hash on top of the stack.
  abbrev pub CheckedParent :
      TreeNode → Bool → Bool → Bool → List Hash → BaoContentItem Hash → List Hash → Type 0
  CheckedParent node is_root left right stack item stack' =
      (pair : Hash × Hash) × (h : Hash) × (below : List Hash) × (stack ≡ h ∷ below)
      × (b.hash_eq h (b.parent_cv pair.0 pair.1 is_root) ≡ true)
      × (item ≡ parent_item node pair)
      × (stack' ≡ push_if left pair.0 (push_if right pair.1 below))

  pub parent-Step :
      (node : TreeNode) (is_root left right : Bool) (stack stack' : List Hash)
      (encoded encoded' : List ℕ) (item : BaoContentItem Hash)
      → Step (parent node is_root left right tt) stack encoded item stack' encoded'
      → CheckedParent node is_root left right stack item stack'
  unfolding sync_chunk
  parent-Step node is_root left right stack stack' encoded encoded' item e =
      from stack e (read_parent b slice_read encoded) refl
    where
      from :
          (stack : List Hash)
          → Step (parent node is_root left right tt) stack encoded item stack' encoded'
          → (v : Outcome IoError ((Hash × Hash) × List ℕ)) → read_parent b slice_read encoded ≡ v
          → CheckedParent node is_root left right stack item stack'
      from stack e (err x) p = absurd (ground (arith, e, p))
      from stack e panic p = absurd (ground (arith, e, p))
      from [] e (ok (pair, r)) p = absurd (ground (arith, e, p))
      from (h ∷ below) e (ok (pair, r)) p =
          elim (Bool-cases (b.hash_eq h (b.parent_cv pair.0 pair.1 is_root))) [
            | inl same ↦
                (pair, h, below, refl, same, ground (arith, e, p, same), ground (arith, e, p, same))
            | inr differ ↦ absurd (ground (arith, e, p, differ))
          ]

  -- Data that is returned has the size of the chunk and the hash on top of the stack.
  abbrev pub CheckedLeaf :
      ChunkNum → ℕ → Bool → List Hash → BaoContentItem Hash → List Hash → Type 0
  CheckedLeaf start size is_root stack item stack' =
      (buf : List ℕ) × (actual : Hash) × (h : Hash) × (length buf ≡ size)
      × (hash_subtree b (suc (length buf)) start buf is_root ≡ some actual)
      × (stack ≡ h ∷ stack')
      × (b.hash_eq h actual ≡ true)
      × (item ≡ leaf_item (chunks_to_bytes start) buf)

  pub leaf-Step :
      (start : ChunkNum) (size : ℕ) (is_root : Bool) (stack stack' : List Hash)
      (encoded encoded' : List ℕ) (item : BaoContentItem Hash)
      → Step (leaf start size is_root tt) stack encoded item stack' encoded'
      → CheckedLeaf start size is_root stack item stack'
  unfolding sync_chunk slice_read
  leaf-Step start size is_root stack stack' encoded encoded' item e =
      elim (lt-cases (length encoded) size) [
        | inl short ↦ let no = gt→leb size (length encoded) short in absurd (ground (arith, e, no))
        | inr fits ↦
            from stack e (le→leb size (length encoded) fits) (length-take size encoded fits)
              (hash_subtree b (suc (length (take size encoded))) start (take size encoded) is_root)
              refl
      ]
    where
      from :
          (stack : List Hash)
          → Step (leaf start size is_root tt) stack encoded item stack' encoded'
          → leb size (length encoded) ≡ true
          → length (take size encoded) ≡ size
          → (v : Option Hash)
          → hash_subtree b (suc (length (take size encoded))) start (take size encoded) is_root ≡ v
          → CheckedLeaf start size is_root stack item stack'
      from stack e fits len none p = absurd (ground (arith, e, fits, p))
      from [] e fits len (some actual) p = absurd (ground (arith, e, fits, p))
      from (h ∷ below) e fits len (some actual) p = elim (Bool-cases (b.hash_eq h actual)) [
        | inl same ↦
            let rest : below ≡ stack' = ground (arith, e, fits, p, same) in
            (
              take size encoded,
              actual,
              h,
              len,
              p,
              ap (λ (l : List Hash). h ∷ l) rest,
              same,
              ground (arith, e, fits, p, same),
            )
        | inr differ ↦ absurd (ground (arith, e, fits, p, differ))
      ]
