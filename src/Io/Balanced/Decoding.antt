-- ===== src/Io/Balanced/Decoding.antt =====
-- The stack of the decoders of src/io/sync.rs and src/io/fsm.rs: one hash for each subtree that is
-- still to come.
use bao_tree.Base.{
  ℕ, suc, ◌^◌, ◌≤◌, ◌≡◌, ◌⊎◌, refl, arith, ap, ◌∙◌, sym, inl, inr, Bool, true, false, Bool-cases,
  lt-cases, ◌==◌, le→leb, gt→leb, some, List, [], ◌∷◌, length, take, drop, replicate, length-take,
  length-drop, length-replicate,
}
use bao_tree.Sizes.{ChunkNum, chunks_to_bytes}
use bao_tree.Outcome.{Outcome, ok, err}
use bao_tree.Errors.{IoError, ErrorKind, Payload, AnyDecodeError}
use bao_tree.Word.{count_ones}
use bao_tree.Errors.{any_from_decode, maybe_parent_not_found, maybe_leaf_not_found}
use bao_tree.Hashing.{Blake3, RangeSets, hash_subtree, recursive_hash_subtree}
use bao_tree.Hashing.Encoding.{encode_selected_rec_lem}
use bao_tree.Node.{TreeNode}
use bao_tree.Tree.{BaoTree}
use bao_tree.Tree.Shape.{IsValid}
use bao_tree.Chunks.{BaoChunk, parent, leaf}
use bao_tree.Chunks.Response
use bao_tree.Io.{slice_read, read_parent}
use bao_tree.Io.Encode.{push_if}
use bao_tree.Io.Decode.{BaoContentItem, parent_item, leaf_item, sync_chunk}
use bao_tree.Io.Stream.{decode_all}
use bao_tree.Reference.Agreement.{yields-response_iter_reference}
use bao_tree.Io.Balanced.{pending, Balanced, response-Balanced}

-- Sets of ranges that select nothing.
abbrev no_sets : RangeSets Unit
no_sets = record {
  is_empty = λ r. true;
  is_all = λ r. false;
  boundaries = λ r. [];
  split_at = λ r mid. (r, r);
  from_zero = tt;
  new_unchecked = λ bs. tt;
}

module _ {Hash : Type 0} (b : Blake3 Hash) where
  -- `recursive_hash_subtree` does not use `as_bytes`.
  abbrev plain : Blake3 Hash
  plain = record b { as_bytes = λ h. replicate 32 0 }

  hash_lem :
      (fuel : ℕ) (start : ChunkNum) (content : List ℕ) (is_root : Bool)
      → recursive_hash_subtree plain fuel start content is_root
        ≡ recursive_hash_subtree b fuel start content is_root
  unfolding recursive_hash_subtree
  hash_lem fuel start content is_root = refl

  -- `hash_subtree` returns.
  hash_subtree-returns :
      (start : ChunkNum) (content : List ℕ) (is_root : Bool)
      → length content ≤ 2 ^ 60
      → (h : Hash) × (hash_subtree b (suc (length content)) start content is_root ≡ some h)
  unfolding hash_subtree
  hash_subtree-returns start content is_root small =
      elim (Bool-cases (count_ones (length content) == 1)) [
        | inl one ↦ (b.hash_subtree start content is_root, ground (arith, one))
        | inr many ↦
            let (h, out, (e, emits)) =
              encode_selected_rec_lem no_sets plain (λ h. length-replicate {A = ℕ} 32 0)
                (suc (length content)) start content is_root tt 0 false small (omega arith) in
            let e' : recursive_hash_subtree b (suc (length content)) start content is_root
                ≡ some h =
              sym (hash_lem (suc (length content)) start content is_root) ∙ e in
            returned many h e'
      ]
    where
      returned :
          (count_ones (length content) == 1) ≡ false
          → (h : Hash)
          → recursive_hash_subtree b (suc (length content)) start content is_root ≡ some h
          → (h : Hash) × (hash_subtree b (suc (length content)) start content is_root ≡ some h)
      returned many h e = (h, rw (hash_subtree, many, e) refl)

module _ {R Hash : Type 0} (s : RangeSets R) (b : Blake3 Hash) where
  -- A result or an error, and no panic.
  abbrev pub Ends : {E A : Type 0} → Outcome E A → Type 0
  Ends {E = E} {A = A} m = ((a : A) × (m ≡ ok a)) ⊎ ((e : E) × (m ≡ err e))

  -- A step leaves `d` hashes on the stack, and no more to read.
  abbrev Steps : BaoChunk Unit → List Hash → List ℕ → ℕ → Type 0
  Steps chunk stack encoded d =
      ((item : BaoContentItem Hash) × (stack' : List Hash) × (encoded' : List ℕ) × (sync_chunk s b
            slice_read chunk stack encoded
          ≡ ok (item, (stack', encoded')))
        × (length stack' ≡ d)
        × (length encoded' ≤ length encoded))
      ⊎ ((e : AnyDecodeError) × (sync_chunk s b slice_read chunk stack encoded ≡ err e))

  length-push_if :
      (p : Bool) (x : Hash) (xs : List Hash) → length (push_if p x xs) ≡ pending p (length xs)
  length-push_if true x xs = refl
  length-push_if false x xs = refl

  pushed :
      (left right : Bool) (l r : Hash) (below : List Hash)
      → length (push_if left l (push_if right r below))
        ≡ pending left (pending right (length below))
  pushed left right l r below =
      length-push_if left l (push_if right r below)
      ∙ ap (λ d. pending left d) (length-push_if right r below)

  abbrev eof : IoError
  eof = record { kind = ErrorKind.unexpected_eof; payload = Payload.system 0 }

  parent_runs :
      (node : TreeNode) (is_root left right : Bool) (h : Hash) (below : List Hash)
      (encoded : List ℕ)
      → Steps
          (parent node is_root left right tt)
          (h ∷ below)
          encoded
          (pending left (pending right (length below)))
  unfolding sync_chunk read_parent slice_read
  parent_runs node is_root left right h below encoded = elim (lt-cases (length encoded) 64) [
    | inl short ↦
        rw (gt→leb 64 (length encoded) short)
          (inr (any_from_decode (maybe_parent_not_found eof node), refl))
    | inr fits ↦
        let full = le→leb 64 (length encoded) fits in
        let bytes = take 64 encoded in
        let l = b.from_bytes (take 32 bytes) in
        let r = b.from_bytes (drop 32 bytes) in
        let less : length (drop 64 encoded) ≤ length encoded =
          omega (arith, length-drop 64 encoded) in
        elim (Bool-cases (b.hash_eq h (b.parent_cv l r is_root))) [
          | inl same ↦
              rw (full, same)
                (inl (
                  parent_item node (l, r),
                  push_if left l (push_if right r below),
                  drop 64 encoded,
                  refl,
                  pushed left right l r below,
                  less,
                ))
          | inr differ ↦ rw (full, differ) (inr (AnyDecodeError.parent_hash_mismatch node, refl))
        ]
  ]

  leaf_runs :
      (start : ChunkNum) (size : ℕ) (is_root : Bool) (h : Hash) (below : List Hash)
      (encoded : List ℕ)
      → length encoded ≤ 2 ^ 60
      → Steps (leaf start size is_root tt) (h ∷ below) encoded (length below)
  unfolding sync_chunk slice_read
  leaf_runs start size is_root h below encoded small = elim (lt-cases (length encoded) size) [
    | inl short ↦
        rw (gt→leb size (length encoded) short)
          (inr (any_from_decode (maybe_leaf_not_found eof start), refl))
    | inr fits ↦
        let full = le→leb size (length encoded) fits in
        let len = length-take size encoded fits in
        let (actual, hashed) =
          hash_subtree-returns b start (take size encoded) is_root
            (omega (arith, len, small, fits)) in
        let less : length (drop size encoded) ≤ length encoded =
          omega (arith, length-drop size encoded) in
        elim (Bool-cases (b.hash_eq h actual)) [
          | inl same ↦
              rw (full, hashed, same)
                (inl (
                  leaf_item (chunks_to_bytes start) (take size encoded),
                  below,
                  drop size encoded,
                  refl,
                  refl,
                  less,
                ))
          | inr differ ↦
              rw (full, hashed, differ) (inr (AnyDecodeError.leaf_hash_mismatch start, refl))
        ]
  ]

  abbrev Decodes : List (BaoChunk Unit) → Type 0
  Decodes cs =
      (stack : List Hash) (encoded : List ℕ)
      → Balanced cs (length stack)
      → length encoded ≤ 2 ^ 60
      → Ends (decode_all s b cs stack encoded)

  -- The chunks behind one whose step is known.
  continues :
      (c : BaoChunk Unit) (cs : List (BaoChunk Unit)) (stack : List Hash) (encoded : List ℕ) (d : ℕ)
      → Decodes cs
      → Balanced cs d
      → length encoded ≤ 2 ^ 60
      → Steps c stack encoded d
      → Ends (decode_all s b (c ∷ cs) stack encoded)
  unfolding decode_all
  continues c cs stack encoded d later balanced small (inr (e, q)) =
      inr (e, rw (decode_all, q) refl)
  continues c cs stack encoded d later balanced small (inl (item, stack', encoded', q, len, less)) =
      elim (later stack' encoded' (rw len balanced) (omega (arith, less, small))) [
        | inl ((items, rest), p) ↦ inl ((item ∷ items, rest), ground (arith, q, p))
        | inr (e, p) ↦ inr (e, ground (arith, q, p))
      ]

  decodes : (cs : List (BaoChunk Unit)) → Decodes cs
  unfolding decode_all Balanced
  decodes [] stack encoded balanced small = inl (([], encoded), refl)
  decodes (parent node is_root left right tt ∷ cs) [] encoded (d, e, balanced) small =
      absurd (omega (arith, e))
  decodes (leaf start size is_root tt ∷ cs) [] encoded (d, e, balanced) small =
      absurd (omega (arith, e))
  decodes (parent node is_root left right tt ∷ cs) (h ∷ below) encoded (d, e, balanced) small =
      let same : d ≡ length below = omega (arith, e) in
      continues (parent node is_root left right tt) cs (h ∷ below) encoded
        (pending left (pending right (length below))) (decodes cs) (rw (sym same) balanced) small
        (parent_runs node is_root left right h below encoded)
  decodes (leaf start size is_root tt ∷ cs) (h ∷ below) encoded (d, e, balanced) small =
      let same : d ≡ length below = omega (arith, e) in
      continues (leaf start size is_root tt) cs (h ∷ below) encoded (length below) (decodes cs)
        (rw (sym same) balanced) small (leaf_runs start size is_root h below encoded small)

-- For a valid tree and ranges that are not empty: `ResponseIterRef` ends without a panic, and on
-- every input of up to 2 ^ 60 bytes and with every root hash, the decoder takes its chunks to the end
-- or to an error; its stack of hashes never runs out, and no hash panics.
pub response-decode :
    {R Hash : Type 0} (s : RangeSets R) (b : Blake3 Hash) (t : BaoTree) (ranges : R)
    → IsValid t
    → s.is_empty ranges ≡ false
    → (items : ℕ) × (cs : List (BaoChunk Unit)) × (Response.yields {E = IoError} s items
          (Response.new t ranges)
        ≡ ok cs)
      × ((root : Hash) (encoded : List ℕ)
          → length encoded ≤ 2 ^ 60
          → Ends s b (decode_all s b cs (root ∷ []) encoded))
response-decode s b t ranges v some_range =
    let (items, cs, ref, run) = yields-response_iter_reference s t ranges v some_range in
    (
      items,
      cs,
      run,
      λ root encoded small.
          decodes s b cs (root ∷ []) encoded (response-Balanced s t ranges v some_range cs ref)
            small,
    )
