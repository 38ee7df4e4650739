-- ===== src/Io.antt =====
-- src/io: what the reading and writing code takes as given, and the helpers that it shares. Readers,
-- writers and outboards are interfaces: each a record of the operations that the code calls. After
-- an error the state of a reader or writer is not looked at again.
pub mod Files
pub mod FileLaws
pub mod Encode
pub mod EncodeAsync
pub mod Encoders
pub mod Decode
pub mod DecodeInto
pub mod Create
pub mod Agreement
pub mod Stream
pub mod RoundTrip
pub mod Authentic
pub mod Balanced
pub mod Ranges
pub mod Valid
use bao_tree.Base.{ℕ, Option, none, some, List, ◌++◌, length, take, drop, leb, if◌then◌else◌}
use bao_tree.Word.{u64_add, from_le_bytes}
use bao_tree.Sizes.{ByteNum, BlockSize}
use bao_tree.Outcome.{Outcome, ok, err, ◌>>=◌}
use bao_tree.Errors.{IoError, ErrorKind, Payload}
use bao_tree.Hashing.{Blake3}
use bao_tree.Node.{TreeNode}
use bao_tree.Tree.{BaoTree}
use bao_tree.Tree
use bao_tree.Outboards.{parse_hash_pair}

-- `io::Read` and `AsyncRead`: `read_exact` returns as many bytes as asked for, and the reader
-- behind them.
pub record Read (S : Type 0) : Type 0 where
  pub read_exact : S → ℕ → Outcome IoError (List ℕ × S)

-- `io::Write` and `AsyncStreamWriter`
pub record Write (W : Type 0) : Type 0 where
  pub write_all : W → List ℕ → Outcome IoError W

-- `ReadAt` and `Size` of positioned_io: `read_exact_at d offset n`.
pub record ReadAt (D : Type 0) : Type 0 where
  pub read_exact_at : D → ℕ → ℕ → Outcome IoError (List ℕ)
  pub size : D → Outcome IoError (Option ℕ)

-- `WriteAt` of positioned_io.
pub record WriteAt (D : Type 0) : Type 0 where
  pub write_all_at : D → ℕ → List ℕ → Outcome IoError D

-- The traits `Outboard` and `OutboardMut`.
pub record Outboard (Hash O : Type 0) : Type 0 where
  pub root : O → Hash
  pub tree : O → BaoTree
  pub load : O → TreeNode → Outcome IoError (Option (Hash × Hash))

pub record OutboardMut (Hash O : Type 0) : Type 0 where
  pub save : O → TreeNode → Hash × Hash → Outcome IoError O

-- `Read` of a slice and `Write` of a vector, by the standard library.
unfoldable pub slice_read : Read (List ℕ)
slice_read = record {
  read_exact = λ from n.
      if leb n (length from)
      then ok (take n from, drop n from)
      else err (record { kind = ErrorKind.unexpected_eof; payload = Payload.system 0 });
}

unfoldable pub vec_write : Write (List ℕ)
vec_write = record { write_all = λ to bytes. ok (to ++ bytes) }

unfoldable pub outboard_size : ℕ → BlockSize → ℕ
outboard_size size block_size = Tree.outboard_size size block_size

unfoldable pub encoded_size : ℕ → BlockSize → ℕ
unfolding outboard_size
encoded_size size block_size = u64_add (outboard_size size block_size) size

unfoldable pub read_len : {S : Type 0} → Read S → S → Outcome IoError (ByteNum × S)
read_len rd from = do (buf, from) ← rd.read_exact from 8; ok (from_le_bytes buf, from)

module _ {Hash : Type 0} (b : Blake3 Hash) where
  unfoldable pub combine_hash_pair : Hash → Hash → List ℕ
  combine_hash_pair l r = b.as_bytes l ++ b.as_bytes r

  unfoldable pub read_parent : {S : Type 0} → Read S → S → Outcome IoError ((Hash × Hash) × S)
  read_parent rd from = do
    (buf, from) ← rd.read_exact from 64
    ok ((b.from_bytes (take 32 buf), b.from_bytes (drop 32 buf)), from)
