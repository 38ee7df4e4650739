-- ===== src/Lib.antt =====
-- bao-tree: the tree over a blob of bytes that verified streaming hashes, its nodes numbered in
-- order, and the iterators and offsets that the outboards and the streaming code stand on.
--
-- The parts of the program and the files that model them:
--   Word                the operations of Rust's `u64` that the crate uses (the standard library's,
--                       by their documented meaning)
--   Sizes               src/tree.rs, and `ByteNum` and `ChunkNum` of src/lib.rs: bytes, chunks of
--                       1024 bytes, blocks (chunk groups), block sizes
--   Node                `TreeNode` of src/lib.rs and `pre_order_offset_loop`; each function has the
--                       name of the method it models
--   Iter                `PostOrderNodeIter` and `PreOrderNodeIter` of src/iter.rs; one round of the
--                       loop in `next` is a function from the iterator's state, and the loop runs
--                       the rounds; in Iter/Partial `PreOrderPartialIterRef`, for a set of ranges
--   Tree                `BaoTree` of src/lib.rs: the shifted tree of a blob, which nodes hold a hash
--                       pair, the offsets of those pairs in an outboard, and the node iterators of
--                       a tree
--   Chunks              `BaoChunk` and `PostOrderChunkIter` of src/iter.rs: the hash pairs and pieces
--                       of data of a blob, node by node; in Chunks/Partial and Chunks/Response
--                       `PreOrderPartialChunkIterRef` and `ResponseIterRef`, for a set of ranges
--   Hashing             `hash_subtree`, `recursive_hash_subtree` and `split` of src/lib.rs, and
--                       `encode_selected_rec` of src/rec.rs, over parameters for the crates blake3
--                       and range_collections
--   Truncate            `truncate_ranges` of src/rec.rs; in Truncate/Parts the boundaries, parted at the
--                       last chunk
--   Reference           the recursive reference of src/rec.rs for the chunk iterators, and
--                       `from_start_chunk_and_level` of src/lib.rs; Reference/Places and Steps say what
--                       one call does at a place of the tree
--   Errors              src/io/error.rs
--   Outcome             a result: a value, an error or a panic, with `?`
--   Outboards           src/io/outboard.rs: the outboards in memory, a list of bytes with 64 for each
--                       hash pair
--   Io                  the traits of src/io/sync.rs as records of operations; in Io/Files the
--                       outboards in files, in Io/Encode and Io/EncodeAsync the encoders, in Io/Decode and
--                       Io/DecodeInto the decoders of src/io/sync.rs and src/io/fsm.rs, in Io/Create
--                       the creation of outboards, in Io/Valid the validators, and in Io/Ranges
--                       `round_up_to_chunks` and `write_ranges`; Io/Stream runs a decoder over chunks in
--                       turn; Io/Balanced counts the hashes that the chunks need on its stack
-- An encoder asks the chunk iterator for chunks, loads their hash pairs from an outboard and their
-- data from a file, and writes both; a decoder runs the response iterator, reads pairs and data, and
-- checks each against a hash from its stack. Files, readers and writers are parameters, for which
-- the theorems name what they rely on; a slice and a vector are the standard library's.
-- The proofs stand beside them: Node/Place places a node by its level `l` and its index `k` there,
-- as number `(2 * k + 1) * 2 ^ l - 1`, and says what every method does at a place; Traversal holds
-- the specification of the orders, plain recursions over a perfect tree restricted to the nodes of
-- the blob's tree, and the index of a node in them; Iter/Driver turns runs of an iterator into what
-- it yields; Tests applies the theorems.
--
-- A node of a tree whose blocks hold `2 ^ block_size` chunks is computed on with its low bits taken
-- off (`add_block_size`), as in the code; the tree of those nodes is called shifted.
--
-- A `u64` is a natural number whose operations wrap around at 2 ^ 64, as in the release profile;
-- `shl` and `shr` use their count modulo 64. A `u8`, `u32` or `usize` count is a natural number.
-- The theorems on trees are about blobs of up to 2 ^ 60 bytes and block sizes of up to 50
-- (`IsValid`): there no operation wraps, but those that rely on wrapping. The loops of `TreeNode`
-- and `pre_order_offset_loop` run on fuel 66: each round but one from the largest node raises or
-- lowers the level, of which there are 64. The loops of the iterators run on fuel that the caller
-- gives, and the theorems show fuel with which they end.
--
-- The recursions of Hashing run on fuel above the length of the data, which halves at least.
--
-- The loops of the encoders and decoders run over the chunks that the iterator yields, collected
-- first, since the iterator neither reads nor writes; an await is a call. What a reader or a
-- writer is left as by an error is not modelled.
--
-- The range sets are a parameter (`RangeSets` for those that are looked at, `RangeSums` for those
-- that are built, with `HasMembers` for the chunks of a set). The validators run on fuel: each call
-- goes down a level of the tree, of which there are at most 61. The recursive reference runs on fuel
-- 64, since each call halves the size.
--
-- Not modelled: formatting, `sync` of an outboard, which flushes a file, the macros that define the
-- operators of the newtypes, the tests, and the command line tools, which call the library.
pub mod Base
pub mod Word
pub mod Sizes
pub mod Node
pub mod Traversal
pub mod Iter
pub mod Tree
pub mod Truncate
pub mod Reference
pub mod Io
pub mod Outboards
pub mod Outcome
pub mod Chunks
pub mod Errors
pub mod Hashing
mod Tests
