-- ===== src/Hashing.antt =====
-- The hash of a subtree: `hash_subtree` and `recursive_hash_subtree` of src/lib.rs, and
-- `encode_selected_rec` of src/rec.rs, which also writes the selected hash pairs and data, with
-- `bao_outboard_reference` and `bao_encode_reference`, which call it. The
-- crates blake3 and range_collections are parameters. Data and buffers are lists of bytes.
pub mod Halves
pub mod Encoding
pub mod Collisions
use bao_tree.Base.{
  ℕ, zero, suc, ◌+◌, ◌-◌, ◌/◌, ◌%◌, Bool, true, false, not, ◌&&◌, ◌||◌, ltb, leb, ◌==◌,
  if◌then◌else◌, Option, none, some, List, [], ◌∷◌, ◌++◌, length, get_elem?, take, drop, replicate,
  write_at,
}
use bao_tree.Word.{
  u64_add, u64_sub, u64_mul, next_power_of_two, trailing_zeros, count_ones, to_le_bytes,
}
use bao_tree.Sizes.{ChunkNum, blake3_chunk_size}

-- What the crate calls of blake3: `chunk_hash c d r` is
-- `ChunkState::new(c)`, `update(d)` and `finalize(r)`. `as_bytes` and `from_bytes` convert a hash to its
-- bytes and back.
pub record Blake3 (Hash : Type 0) : Type 0 where
  pub chunk_hash : ChunkNum → List ℕ → Bool → Hash
  pub parent_cv : Hash → Hash → Bool → Hash
  pub hash_subtree : ChunkNum → List ℕ → Bool → Hash
  pub as_bytes : Hash → List ℕ
  pub from_bytes : List ℕ → Hash
  pub hash_eq : Hash → Hash → Bool

-- What the crate calls of range_collections on a `RangeSetRef<ChunkNum>`; `from_zero` is the set of
-- the one boundary 0.
pub record RangeSets (R : Type 0) : Type 0 where
  pub is_empty : R → Bool
  pub is_all : R → Bool
  pub boundaries : R → List ChunkNum
  pub split_at : R → ChunkNum → R × R
  pub from_zero : R
  pub new_unchecked : List ChunkNum → R

-- `chunks` in the two recursions: the chunks of the data, rounded up to a power of two.
unfoldable pub chunk_count : ℕ → ℕ
chunk_count len =
    let chunks =
      u64_add (len / blake3_chunk_size) (if len % blake3_chunk_size == 0 then 0 else 1) in
    next_power_of_two chunks

unfoldable pub mid_bytes : ℕ → ℕ
mid_bytes chunks = u64_mul (chunks / 2) blake3_chunk_size

-- `(&data[..at], &data[at..])`; `none` is a panic.
unfoldable pub slices : ℕ → List ℕ → Option (List ℕ × List ℕ)
slices at content =
    if leb at (length content) then some (take at content, drop at content) else none

module _ {Hash : Type 0} (b : Blake3 Hash) where
  unfoldable pub recursive_hash_subtree : ℕ → ChunkNum → List ℕ → Bool → Option Hash
  recursive_hash_subtree zero start_chunk content is_root = none
  recursive_hash_subtree (suc fuel) start_chunk content is_root =
      elim (leb (length content) blake3_chunk_size) [
        | true ↦ some (b.chunk_hash start_chunk content is_root)
        | false ↦
            let chunks = chunk_count (length content) in
            elim (slices (mid_bytes chunks) content) [
              | none ↦ none
              | some (l, r) ↦ elim (recursive_hash_subtree fuel start_chunk l false) [
                | none ↦ none
                | some left ↦
                    elim (recursive_hash_subtree fuel (u64_add start_chunk (chunks / 2)) r false) [
                      | none ↦ none
                      | some right ↦ some (b.parent_cv left right is_root)
                    ]
              ]
            ]
      ]

  unfoldable pub hash_subtree : ℕ → ChunkNum → List ℕ → Bool → Option Hash
  hash_subtree fuel start_chunk content is_root = elim (count_ones (length content) == 1) [
    | true ↦ some (b.hash_subtree start_chunk content is_root)
    | false ↦ recursive_hash_subtree fuel start_chunk content is_root
  ]

module _ {R : Type 0} (s : RangeSets R) where
  -- `b.boundaries().len() == 1 && b.boundaries()[0] <= mid`
  unfoldable pub begins_by : ChunkNum → List ChunkNum → Bool
  begins_by mid [] = false
  begins_by mid (first ∷ []) = leb first mid
  begins_by mid (first ∷ (second ∷ rest)) = false

  unfoldable pub split : R → ChunkNum → R × R
  split ranges mid =
      let (a, b) = s.split_at ranges mid in
      (a, if begins_by mid (s.boundaries b) then s.from_zero else b)

  module _ {Hash : Type 0} (b : Blake3 Hash) where
    -- What a call makes of the buffer `res` is returned with the hash.
    unfoldable pub encode_selected_rec :
        ℕ → ChunkNum → List ℕ → Bool → R → ℕ → Bool → List ℕ → Option (Hash × List ℕ)
    encode_selected_rec zero start_chunk content is_root query min_level emit_data res = none
    encode_selected_rec (suc fuel) start_chunk content is_root query min_level emit_data res =
        elim (leb (length content) blake3_chunk_size) [
          | true ↦ some (
            b.chunk_hash start_chunk content is_root,
            if emit_data && not (s.is_empty query) then res ++ content else res,
          )
          | false ↦
              let chunks = chunk_count (length content) in
              let level = trailing_zeros chunks - 1 in
              let mid_chunk = u64_add start_chunk (chunks / 2) in
              let ranges = split query mid_chunk in
              let full = s.is_all query in
              let emit_parent = not (s.is_empty query) && (not full || leb min_level level) in
              let hash_offset = length res in
              let room = if emit_parent then res ++ replicate 64 255 else res in
              elim (slices (mid_bytes chunks) content) [
                | none ↦ none
                | some (l, r) ↦
                    elim (encode_selected_rec fuel start_chunk l false ranges.0 min_level emit_data
                      room) [
                        | none ↦ none
                        | some (left, res) ↦
                            elim (encode_selected_rec fuel mid_chunk r false ranges.1 min_level
                              emit_data res) [
                                | none ↦ none
                                | some (right, res) ↦ some (
                                  b.parent_cv left right is_root,
                                  if emit_parent
                                      then write_at (hash_offset + 32) (b.as_bytes right)
                                          (write_at hash_offset (b.as_bytes left) res)
                                      else res,
                                )
                              ]
                      ]
              ]
        ]

    -- `ChunkRanges::all()` is the set of the one boundary 0. Fuel above the length of the data.
    abbrev encode_all : Bool → List ℕ → Option (List ℕ × Hash)
    encode_all emit_data content =
        elim (encode_selected_rec (suc (length content)) 0 content true s.from_zero 0 emit_data
          (to_le_bytes (length content))) [ none ↦ none | some (hash, res) ↦ some (res, hash) ]

    unfoldable pub bao_outboard_reference : List ℕ → Option (List ℕ × Hash)
    bao_outboard_reference content = encode_all false content

    unfoldable pub bao_encode_reference : List ℕ → Option (List ℕ × Hash)
    bao_encode_reference content = encode_all true content
