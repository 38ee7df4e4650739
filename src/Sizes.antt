-- ===== src/Sizes.antt =====
-- src/tree.rs, and the methods of `ByteNum` and `ChunkNum` in src/lib.rs: sizes in bytes, chunks
-- of 1024 bytes and blocks (chunk groups). The newtypes over `u64` are numbers here.
pub mod Rounding
pub mod BlockSizes
use bao_tree.Base.{ℕ, ◌+◌, ◌-◌, bit_and, ◌==◌, ltb, if◌then◌else◌, Option, none, some, not}
use bao_tree.Word.{u64_add, u64_sub, shl, shr, count_ones, trailing_zeros}

abbrev pub ChunkNum : Type 0
ChunkNum = ℕ

abbrev pub BlockNum : Type 0
BlockNum = ℕ

abbrev pub ByteNum : Type 0
ByteNum = ℕ

-- The log2 of the block size in chunks, a `u8` in the source.
abbrev pub BlockSize : Type 0
BlockSize = ℕ

abbrev pub blake3_chunk_size : ℕ
blake3_chunk_size = 1024

-- `(cond) as u64` for the test "the low `bits` bits of `size` are not all zero".
unfoldable pub open_part : ByteNum → ℕ → ℕ
open_part size bits = if bit_and size (u64_sub (shl 1 bits) 1) == 0 then 0 else 1

unfoldable pub chunks : ByteNum → ChunkNum
unfolding open_part
chunks size = let part = open_part size 10 in let whole = shr size 10 in u64_add whole part

unfoldable pub full_chunks : ByteNum → ChunkNum
full_chunks size = shr size 10

unfoldable pub blocks : ByteNum → BlockSize → BlockNum
unfolding open_part
blocks size block_size =
    let block_bits = block_size + 10 in
    let full_blocks = shr size block_bits in
    let open_block = open_part size block_bits in u64_add full_blocks open_block

unfoldable pub chunks_to_bytes : ChunkNum → ByteNum
chunks_to_bytes c = shl c 10

-- `BlockNum::to_chunks`
unfoldable pub block_to_chunks : BlockNum → BlockSize → ChunkNum
block_to_chunks b block_level = shl b block_level

-- `BlockNum::to_bytes`
unfoldable pub block_to_bytes : BlockNum → BlockSize → ByteNum
block_to_bytes b block_level = shl b (block_level + 10)

-- `BlockSize::bytes`
unfoldable pub bytes : BlockSize → ℕ
bytes b = shl blake3_chunk_size b

-- `BlockSize::from_bytes`
unfoldable pub from_bytes : ℕ → Option BlockSize
from_bytes n =
    if not (count_ones n == 1)
    then none
    else if ltb n 1024
    then none
    else some (trailing_zeros n - 10)
