-- ===== src/Hashing/Encoding.antt =====
-- `encode_selected_rec` hashes as `recursive_hash_subtree` does, and appends to its buffer.
use bao_tree.Base.{
  ℕ, zero, suc, ◌+◌, ◌-◌, ◌/◌, ◌^◌, ◌≤◌, ◌<◌, ◌≡◌, refl, arith, inl, inr, Bool, true, false, not,
  ◌&&◌, ◌||◌, if◌then◌else◌, leb, ap, ◌∙◌, sym, lt-cases, length, List, [], ◌++◌, some, replicate,
  write_at, write_at-append, append_assoc, append-nil, length-append, Bool-cases,
}
use bao_tree.Sizes.{ChunkNum}
use bao_tree.Word.{u64_add, trailing_zeros}
use bao_tree.Hashing.{
  Blake3, RangeSets, recursive_hash_subtree, encode_selected_rec, chunk_count, split, slices,
  mid_bytes,
}
use bao_tree.Hashing.Halves.{slices_lem}

-- Filling the room for two hashes in front of what the subtrees wrote.
backfill :
    (res left right out : List ℕ)
    → length left ≡ 32
    → length right ≡ 32
    → write_at
        (length res + 32)
        right
        (write_at (length res) left ((res ++ replicate 64 255) ++ out))
      ≡ res ++ (left ++ (right ++ out))
backfill res left right out l r =
    let room : (res ++ replicate 64 255) ++ out
        ≡ res ++ (replicate 32 255 ++ (replicate 32 255 ++ out)) =
      append_assoc res (replicate 64 255) out in
    let first =
      write_at-append res (replicate 32 255) left (replicate 32 255 ++ out) (length res) refl
        (omega (arith, l)) in
    let second =
      write_at-append (res ++ left) (replicate 32 255) right out (length res + 32)
        (omega (arith, length-append res left, l)) (omega (arith, r)) in
    rw (room, first)
      (ap (write_at (length res + 32) right) (sym (append_assoc res left (replicate 32 255 ++ out)))
        ∙ second
        ∙ append_assoc res left (right ++ out))

module _ {R Hash : Type 0} (s : RangeSets R) (b : Blake3 Hash) where
  -- The hash `h` of the content, and the bytes `out` that are appended to every buffer.
  abbrev pub EncodesTo : ℕ → ChunkNum → List ℕ → Bool → R → ℕ → Bool → Hash → List ℕ → Type 0
  EncodesTo fuel start content is_root query min_level emit_data h out =
      (recursive_hash_subtree b fuel start content is_root ≡ some h)
      × ((res : List ℕ)
          → encode_selected_rec s b fuel start content is_root query min_level emit_data res
            ≡ some (h, res ++ out))

  abbrev pub Encodes : ℕ → ChunkNum → List ℕ → Bool → R → ℕ → Bool → Type 0
  Encodes fuel start content is_root query min_level emit_data =
      (h : Hash) × (out : List ℕ) × EncodesTo fuel start content is_root query min_level emit_data h
        out

  module _ (as_bytes-32 : (h : Hash) → length (b.as_bytes h) ≡ 32) where
    -- The three ways to write a subtree.
    pub encode_chunk :
        (fuel : ℕ) (start : ChunkNum) (content : List ℕ) (is_root : Bool) (query : R)
        (min_level : ℕ) (emit_data : Bool)
        → length content ≤ 1024
        → EncodesTo
            (suc fuel)
            start
            content
            is_root
            query
            min_level
            emit_data
            (b.chunk_hash start content is_root)
            (if emit_data && not (s.is_empty query) then content else [])
    unfolding recursive_hash_subtree encode_selected_rec
    encode_chunk fuel start content is_root query min_level emit_data h =
        elim (Bool-cases (emit_data && not (s.is_empty query))) [
          | inl emits ↦ (ground (arith, h), λ res. ground (arith, h, emits))
          | inr silent ↦ (ground (arith, h), λ res. ground (arith, h, silent, append-nil res))
        ]

    -- The hash pair goes in front of what the subtrees write.
    abbrev pub emits_pair : ℕ → ℕ → R → Bool
    emits_pair len min_level query =
        not (s.is_empty query)
        && (not (s.is_all query) || leb min_level (trailing_zeros (chunk_count len) - 1))

    module _ (fuel : ℕ) (start : ChunkNum) (content l r : List ℕ) (is_root : Bool) (query : R)
        (min_level : ℕ) (emit_data : Bool) (large : 1024 < length content)
        (cut : slices (mid_bytes (chunk_count (length content))) content ≡ some (l, r))
        (hl hr : Hash) (outl outr : List ℕ)
        (left : EncodesTo fuel start l false
          (split s query (u64_add start (chunk_count (length content) / 2))).0
          min_level
          emit_data
          hl
          outl)
        (right : EncodesTo fuel
          (u64_add start (chunk_count (length content) / 2))
          r
          false
          (split s query (u64_add start (chunk_count (length content) / 2))).1
          min_level
          emit_data
          hr
          outr) where
      pub encode_pair :
          emits_pair (length content) min_level query ≡ true
          → EncodesTo
              (suc fuel)
              start
              content
              is_root
              query
              min_level
              emit_data
              (b.parent_cv hl hr is_root)
              (b.as_bytes hl ++ (b.as_bytes hr ++ (outl ++ outr)))
      unfolding recursive_hash_subtree encode_selected_rec
      encode_pair parent = (
        ground (arith, large, cut, left.0, right.0),
        λ res. ground (
          arith,
          large,
          cut,
          parent,
          left.1 (res ++ replicate 64 255),
          right.1 ((res ++ replicate 64 255) ++ outl),
          append_assoc (res ++ replicate 64 255) outl outr,
          backfill res (b.as_bytes hl) (b.as_bytes hr) (outl ++ outr) (as_bytes-32 hl)
              (as_bytes-32 hr),
        ),
      )

      pub encode_silent :
          emits_pair (length content) min_level query ≡ false
          → EncodesTo
              (suc fuel)
              start
              content
              is_root
              query
              min_level
              emit_data
              (b.parent_cv hl hr is_root)
              (outl ++ outr)
      unfolding recursive_hash_subtree encode_selected_rec
      encode_silent none_emitted = (
        ground (arith, large, cut, left.0, right.0),
        λ res. ground (
          arith,
          large,
          cut,
          none_emitted,
          left.1 res,
          right.1 (res ++ outl),
          append_assoc res outl outr,
        ),
      )

    encode_large :
        (fuel : ℕ) (start : ChunkNum) (content l r : List ℕ) (is_root : Bool) (query : R)
        (min_level : ℕ) (emit_data : Bool)
        → 1024 < length content
        → slices (mid_bytes (chunk_count (length content))) content ≡ some (l, r)
        → Encodes fuel start l false
            (split s query (u64_add start (chunk_count (length content) / 2))).0
            min_level
            emit_data
        → Encodes fuel
            (u64_add start (chunk_count (length content) / 2))
            r
            false
            (split s query (u64_add start (chunk_count (length content) / 2))).1
            min_level
            emit_data
        → Encodes (suc fuel) start content is_root query min_level emit_data
    encode_large fuel start content l r is_root query min_level emit_data large cut (hl, outl, left)
          (hr, outr, right) =
        elim (Bool-cases (emits_pair (length content) min_level query)) [
          | inl parent ↦ (
            b.parent_cv hl hr is_root,
            b.as_bytes hl ++ (b.as_bytes hr ++ (outl ++ outr)),
            encode_pair fuel start content l r is_root query min_level emit_data large cut hl hr
                outl outr left right parent,
          )
          | inr none_emitted ↦ (
            b.parent_cv hl hr is_root,
            outl ++ outr,
            encode_silent fuel start content l r is_root query min_level emit_data large cut hl hr
                outl outr left right none_emitted,
          )
        ]

    -- For content of up to 2 ^ 60 bytes, with fuel above its length, and hashes of 32 bytes:
    -- `recursive_hash_subtree` and `encode_selected_rec` return without a panic, and for every
    -- query, level and choice of emitting data, `encode_selected_rec` returns the hash that
    -- `recursive_hash_subtree` returns, and leaves its buffer as it was but for bytes appended,
    -- which do not depend on the buffer.
    pub encode_selected_rec_lem :
        (fuel : ℕ) (start : ChunkNum) (content : List ℕ) (is_root : Bool) (query : R)
        (min_level : ℕ) (emit_data : Bool)
        → length content ≤ 2 ^ 60
        → length content < fuel
        → Encodes fuel start content is_root query min_level emit_data
    encode_selected_rec_lem zero start content is_root query min_level emit_data small enough =
        absurd (omega arith)
    encode_selected_rec_lem (suc fuel) start content is_root query min_level emit_data small
          enough =
        elim (lt-cases 1024 (length content)) [
          | inl large ↦
              let (l, r, cut, less_l, less_r) = slices_lem content large small in
              let mid_chunk = u64_add start (chunk_count (length content) / 2) in
              encode_large fuel start content l r is_root query min_level emit_data large cut
                (encode_selected_rec_lem fuel start l false (split s query mid_chunk).0 min_level
                  emit_data (omega arith) (omega arith))
                (encode_selected_rec_lem fuel mid_chunk r false (split s query mid_chunk).1
                  min_level emit_data (omega arith) (omega arith))
          | inr one ↦ (
            b.chunk_hash start content is_root,
            if emit_data && not (s.is_empty query) then content else [],
            encode_chunk fuel start content is_root query min_level emit_data one,
          )
        ]
