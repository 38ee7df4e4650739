-- ===== src/Io/RoundTrip.antt =====
-- `encode_ranges_validated` of src/io/sync.rs followed by the decoder.
use bao_tree.Base.{
  ℕ, suc, ◌≡◌, refl, arith, ap, ◌∙◌, sym, Option, none, some, List, [], ◌∷◌, ◌++◌, map, length,
  length-append, append_assoc, append-nil, take-append, drop-append, le→leb, leb, Bool, true,
  Bool-cases, inl, inr,
}
use bao_tree.Sizes.{chunks_to_bytes, ChunkNum}
use bao_tree.Outcome.{Outcome, ok, err, panic, ◌>>=◌, unwrap}
use bao_tree.Errors.{IoError, EncodeError}
use bao_tree.Hashing.{Blake3, RangeSets, hash_subtree}
use bao_tree.Node.{TreeNode}
use bao_tree.Chunks.{BaoChunk, parent, leaf, without_ranges}
use bao_tree.Tree.{chunk_group_bytes}
use bao_tree.Outboards.{parse_hash_pair}
use bao_tree.Outboards.Slots.{HasBytes, pair_bytes, length-pair_bytes, parse-pair_bytes}
use bao_tree.Io.{ReadAt, Outboard, read_parent, slice_read, vec_write, combine_hash_pair}
use bao_tree.Io.Encode.{push_if, read_block, hash_block, encode_validated_items}
use bao_tree.Io.Stream.{decode_all}
use bao_tree.Io.Decode.{BaoContentItem, parent_item, leaf_item, sync_chunk}

-- A reader of a slice takes a part off its front.
read_front :
    (n : ℕ) (xs ys : List ℕ) → n ≡ length xs → slice_read.read_exact (xs ++ ys) n ≡ ok (xs, ys)
unfolding slice_read
read_front n xs ys e =
    let fits = le→leb n (length (xs ++ ys)) (omega (arith, e, length-append xs ys)) in
    rw (fits, take-append xs ys n e, drop-append xs ys n 0 (omega (arith, e))) refl

module _ {R Hash : Type 0} (s : RangeSets R) (b : Blake3 Hash) (h : HasBytes b) where
  sync_parent :
      (node : TreeNode) (is_root left right : Bool) (parent_hash : Hash) (pair : Hash × Hash)
      (stack : List Hash) (rest : List ℕ)
      → b.hash_eq parent_hash (b.parent_cv pair.0 pair.1 is_root) ≡ true
      → sync_chunk s b slice_read
          (parent node is_root left right tt)
          (parent_hash ∷ stack)
          (pair_bytes b h pair ++ rest)
        ≡ ok (parent_item node pair, (push_if left pair.0 (push_if right pair.1 stack), rest))
  unfolding sync_chunk read_parent parse_hash_pair
  sync_parent node is_root left right parent_hash pair stack rest e =
      rw
        (
          read_front 64 (pair_bytes b h pair) rest (sym (length-pair_bytes b h pair)),
          ap (λ (p : Hash × Hash). p.0) (parse-pair_bytes b h pair),
          ap (λ (p : Hash × Hash). p.1) (parse-pair_bytes b h pair),
          e,
        )
        refl

  sync_leaf :
      (start : ChunkNum) (buf : List ℕ) (is_root : Bool) (leaf_hash actual : Hash)
      (stack : List Hash) (rest : List ℕ)
      → hash_subtree b (suc (length buf)) start buf is_root ≡ some actual
      → b.hash_eq leaf_hash actual ≡ true
      → sync_chunk s b slice_read
          (leaf start (length buf) is_root tt)
          (leaf_hash ∷ stack)
          (buf ++ rest)
        ≡ ok (leaf_item (chunks_to_bytes start) buf, (stack, rest))
  unfolding sync_chunk
  sync_leaf start buf is_root leaf_hash actual stack rest hashed e =
      rw (read_front (length buf) buf rest refl, hashed, e) refl

module _ {R Hash O D : Type 0} (s : RangeSets R) (b : Blake3 Hash) (ob : Outboard Hash O)
    (at : ReadAt D) (file : D) (o : O) where
  abbrev encode : List (BaoChunk R) → List Hash → List ℕ → Outcome EncodeError (List ℕ)
  encode items stack encoded = encode_validated_items s b ob at vec_write file o items stack encoded

  -- A hash pair that the encoder has written, taken apart.
  abbrev ParentWritten :
      TreeNode → Bool → Bool → Bool → List (BaoChunk R) → List Hash → List ℕ → List ℕ → Type 0
  ParentWritten node is_root left right items stack w w' =
      (pair : Hash × Hash) × (expected : Hash) × (below : List Hash) × (ob.load o node
        ≡ ok (some pair))
      × (stack ≡ expected ∷ below)
      × (b.hash_eq (b.parent_cv pair.0 pair.1 is_root) expected ≡ true)
      × (encode items (push_if left pair.0 (push_if right pair.1 below))
            (w ++ combine_hash_pair b pair.0 pair.1)
          ≡ ok w')

  parent_written :
      (node : TreeNode) (is_root left right : Bool) (r : R) (items : List (BaoChunk R))
      (stack : List Hash) (w w' : List ℕ)
      → encode (parent node is_root left right r ∷ items) stack w ≡ ok w'
      → ParentWritten node is_root left right items stack w w'
  unfolding encode_validated_items vec_write
  parent_written node is_root left right r items stack w w' e = from (ob.load o node) stack refl e
    where
      from :
          (v : Outcome IoError (Option (Hash × Hash))) (stack : List Hash)
          → ob.load o node ≡ v
          → encode (parent node is_root left right r ∷ items) stack w ≡ ok w'
          → ParentWritten node is_root left right items stack w w'
      from (ok none) stack f e = absurd (ground (arith, e, f))
      from (err x) stack f e = absurd (ground (arith, e, f))
      from panic stack f e = absurd (ground (arith, e, f))
      from (ok (some pair)) [] f e = absurd (ground (arith, e, f))
      from (ok (some pair)) (x ∷ xs) f e =
          elim (Bool-cases (b.hash_eq (b.parent_cv pair.0 pair.1 is_root) x)) [
            | inl same ↦ (pair, x, xs, f, refl, same, ground (arith, e, f, same))
            | inr differ ↦ absurd (ground (arith, e, f, differ))
          ]

  -- A block that the encoder has written, taken apart.
  abbrev LeafWritten :
      ChunkNum → ℕ → Bool → List (BaoChunk R) → List Hash → List ℕ → List ℕ → Type 0
  LeafWritten start size is_root items stack w w' =
      (buf : List ℕ) × (actual : Hash) × (expected : Hash) × (below : List Hash) × (at.read_exact_at
          file (chunks_to_bytes start) size
        ≡ ok buf)
      × (hash_subtree b (suc (length buf)) start buf is_root ≡ some actual)
      × (stack ≡ expected ∷ below)
      × (b.hash_eq actual expected ≡ true)
      × (encode items below (w ++ buf) ≡ ok w')

  leaf_written :
      (start : ChunkNum) (size : ℕ) (is_root : Bool) (r : R) (items : List (BaoChunk R))
      (stack : List Hash) (w w' : List ℕ)
      → s.is_all r ≡ true
      → encode (leaf start size is_root r ∷ items) stack w ≡ ok w'
      → LeafWritten start size is_root items stack w w'
  unfolding encode_validated_items vec_write read_block hash_block
  leaf_written start size is_root r items [] w w' whole e = absurd (ground (arith, e))
  leaf_written start size is_root r items (x ∷ xs) w w' whole e =
      elim (Bool-cases (leb size (chunk_group_bytes (ob.tree o)))) [
        | inl fits ↦ from fits (at.read_exact_at file (chunks_to_bytes start) size) refl
        | inr over ↦ absurd (ground (arith, e, over))
      ]
    where
      hashed :
          leb size (chunk_group_bytes (ob.tree o)) ≡ true
          → (buf : List ℕ) → at.read_exact_at file (chunks_to_bytes start) size ≡ ok buf
          → (v : Option Hash) → hash_subtree b (suc (length buf)) start buf is_root ≡ v
          → LeafWritten start size is_root items (x ∷ xs) w w'
      hashed fits buf f none g = absurd (ground (arith, e, fits, f, g, whole))
      hashed fits buf f (some actual) g = elim (Bool-cases (b.hash_eq actual x)) [
        | inl same ↦
            (buf, actual, x, xs, f, g, refl, same, ground (arith, e, fits, f, g, whole, same))
        | inr differ ↦ absurd (ground (arith, e, fits, f, g, whole, differ))
      ]

      from :
          leb size (chunk_group_bytes (ob.tree o)) ≡ true
          → (v : Outcome IoError (List ℕ)) → at.read_exact_at file (chunks_to_bytes start) size ≡ v
          → LeafWritten start size is_root items (x ∷ xs) w w'
      from fits (ok buf) f =
          hashed fits buf f (hash_subtree b (suc (length buf)) start buf is_root) refl
      from fits (err y) f = absurd (ground (arith, e, fits, f))
      from fits panic f = absurd (ground (arith, e, fits, f))

-- Every block of the chunks is written as it is.
unfoldable pub Whole : {R : Type 0} → RangeSets R → List (BaoChunk R) → Type 0
Whole s [] = Unit
Whole s (parent node is_root left right r ∷ items) = Whole s items
Whole s (leaf start size is_root r ∷ items) = (s.is_all r ≡ true) × Whole s items

module _ {R Hash O D : Type 0} (s : RangeSets R) (b : Blake3 Hash) (ob : Outboard Hash O)
    (at : ReadAt D) (file : D) (o : O) where
  -- What the outboard and the file hold for the chunks.
  unfoldable pub contents : List (BaoChunk R) → Outcome IoError (List (BaoContentItem Hash))
  contents [] = ok []
  contents (parent node is_root left right r ∷ items) = do
    loaded ← ob.load o node
    pair ← unwrap loaded
    rest ← contents items
    ok (parent_item node pair ∷ rest)
  contents (leaf start size is_root r ∷ items) = do
    buf ← at.read_exact_at file (chunks_to_bytes start) size
    rest ← contents items
    ok (leaf_item (chunks_to_bytes start) buf ∷ rest)

  module _ (h : HasBytes b) (symmetric : (x y : Hash) → b.hash_eq x y ≡ true → b.hash_eq y x ≡ true)
      (exact : (n m : ℕ) (buf : List ℕ) → at.read_exact_at file n m ≡ ok buf → m ≡ length buf)
      (rest : List ℕ) where
    abbrev pub Decodes : List (BaoChunk R) → List Hash → List ℕ → List ℕ → Type 0
    Decodes items stack w w' =
        (out : List ℕ) × (found : List (BaoContentItem Hash)) × (w' ≡ w ++ out)
        × (contents items ≡ ok found)
        × (decode_all s b (map without_ranges items) stack (out ++ rest) ≡ ok (found, rest))

    -- When every block of the chunks is written whole and the loop of `encode_ranges_validated` succeeds
    -- on a stack of hashes, then it has appended what the decoder takes off the front of its
    -- input, whatever follows there: the decoder, with the same stack, returns every hash pair
    -- of the outboard and every block of the file for these chunks, and no error. The
    -- conditions are those of 32-byte hashes, symmetric comparison, and exact reads of the file.
    pub validated-decode :
        (items : List (BaoChunk R)) (stack : List Hash) (w w' : List ℕ)
        → Whole s items
        → encode s b ob at file o items stack w ≡ ok w'
        → Decodes items stack w w'
    unfolding Whole contents decode_all without_ranges combine_hash_pair encode_validated_items
    validated-decode [] stack w w' whole e =
        ([], [], (let kept : w ≡ w' = cc in sym kept ∙ sym (append-nil w)), refl, refl)
    validated-decode (parent node is_root left right r ∷ items) stack w w' whole e =
        let (pair, expected, below, loaded, st, same, go) =
          parent_written s b ob at file o node is_root left right r items stack w w' e in
        let (out, found, w-eq, holds, decoded) =
          validated-decode items (push_if left pair.0 (push_if right pair.1 below))
            (w ++ combine_hash_pair b pair.0 pair.1) w' whole go in
        (
          combine_hash_pair b pair.0 pair.1 ++ out,
          parent_item node pair ∷ found,
          w-eq ∙ append_assoc w (combine_hash_pair b pair.0 pair.1) out,
          rw (loaded, holds) refl,
          rw
              (
                st,
                append_assoc (combine_hash_pair b pair.0 pair.1) out rest,
                sync_parent s b h node is_root left right expected pair below (out ++ rest)
                    (symmetric (b.parent_cv pair.0 pair.1 is_root) expected same),
                decoded,
              )
              refl,
        )
    validated-decode (leaf start size is_root r ∷ items) stack w w' whole e =
        let (buf, actual, expected, below, got, hashed, st, same, go) =
          leaf_written s b ob at file o start size is_root r items stack w w' whole.0 e in
        let (out, found, w-eq, holds, decoded) =
          validated-decode items below (w ++ buf) w' whole.1 go in
        (
          buf ++ out,
          leaf_item (chunks_to_bytes start) buf ∷ found,
          w-eq ∙ append_assoc w buf out,
          rw (got, holds) refl,
          rw
              (
                st,
                append_assoc buf out rest,
                exact (chunks_to_bytes start) size buf got,
                sync_leaf s b h start buf is_root expected actual below (out ++ rest) hashed
                    (symmetric actual expected same),
                decoded,
              )
              refl,
        )
