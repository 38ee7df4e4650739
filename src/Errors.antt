-- ===== src/Errors.antt =====
-- src/io/error.rs: the errors of encoding and decoding, and their conversions. Their `Display` and
-- `Debug` are left out.
pub mod Kinds
use bao_tree.Base.{ℕ, Option, some, none, Bool, true, false}
use bao_tree.Node.{TreeNode, level, mid}
use bao_tree.Sizes.{ChunkNum, ByteNum, chunks_to_bytes}

-- `std::io::ErrorKind`: the kinds that the crate names, and the rest.
pub data ErrorKind : Type 0 where
  unexpected_eof invalid_data connection_reset invalid_input : ErrorKind
  other : ℕ → ErrorKind

-- What an `io::Error` carries: a number of the system's, a text of `format!` with what it shows, or
-- one of the errors below, which is never an `Io` there.
pub data Payload : Type 0 where
  system : ℕ → Payload
  text_parent_hash_mismatch text_parent_write : ℕ → ChunkNum → Payload
  text_leaf_hash_mismatch_offset text_leaf_hash_mismatch text_leaf_write : ByteNum → Payload
  text_size_mismatch text_invalid_node text_unknown_size text_too_short text_at_least_8 : Payload
  text_outboard_size : ℕ → Option ℕ → Payload
  text_outboard_length : ℕ → ℕ → Payload
  text_data_size : ℕ → ByteNum → Payload
  start_not_found any_not_found : Payload
  any_parent_not_found decode_parent_not_found : TreeNode → Payload
  any_leaf_not_found decode_leaf_not_found : ChunkNum → Payload

-- `std::io::Error`
pub record IoError : Type 0 where
  pub kind : ErrorKind
  pub payload : Payload

pub data StartDecodeError : Type 0 where
  not_found : StartDecodeError
  io : IoError → StartDecodeError

pub data AnyDecodeError : Type 0 where
  not_found : AnyDecodeError
  parent_not_found : TreeNode → AnyDecodeError
  leaf_not_found : ChunkNum → AnyDecodeError
  parent_hash_mismatch : TreeNode → AnyDecodeError
  leaf_hash_mismatch : ChunkNum → AnyDecodeError
  io : IoError → AnyDecodeError

pub data DecodeError : Type 0 where
  parent_not_found : TreeNode → DecodeError
  leaf_not_found : ChunkNum → DecodeError
  parent_hash_mismatch : TreeNode → DecodeError
  leaf_hash_mismatch : ChunkNum → DecodeError
  io : IoError → DecodeError

pub data EncodeError : Type 0 where
  parent_hash_mismatch : TreeNode → EncodeError
  leaf_hash_mismatch : ChunkNum → EncodeError
  parent_write : TreeNode → EncodeError
  leaf_write : ChunkNum → EncodeError
  size_mismatch : EncodeError
  io : IoError → EncodeError

unfoldable pub io_from_start : StartDecodeError → IoError
io_from_start (StartDecodeError.io e) = e
io_from_start StartDecodeError.not_found = record {
  kind = ErrorKind.unexpected_eof;
  payload = Payload.start_not_found;
}

unfoldable pub maybe_not_found : IoError → StartDecodeError
maybe_not_found e = elim (e.kind) [
  | ErrorKind.unexpected_eof ↦ StartDecodeError.not_found
  | ErrorKind.invalid_data ↦ StartDecodeError.io e
  | ErrorKind.connection_reset ↦ StartDecodeError.io e
  | ErrorKind.invalid_input ↦ StartDecodeError.io e
  | ErrorKind.other n ↦ StartDecodeError.io e
]

unfoldable pub any_from_decode : DecodeError → AnyDecodeError
any_from_decode (DecodeError.io e) = AnyDecodeError.io e
any_from_decode (DecodeError.parent_hash_mismatch node) = AnyDecodeError.parent_hash_mismatch node
any_from_decode (DecodeError.leaf_hash_mismatch chunk) = AnyDecodeError.leaf_hash_mismatch chunk
any_from_decode (DecodeError.leaf_not_found chunk) = AnyDecodeError.leaf_not_found chunk
any_from_decode (DecodeError.parent_not_found node) = AnyDecodeError.parent_not_found node

unfoldable pub any_from_start : StartDecodeError → AnyDecodeError
any_from_start (StartDecodeError.io e) = AnyDecodeError.io e
any_from_start StartDecodeError.not_found = AnyDecodeError.not_found

unfoldable pub io_from_any : AnyDecodeError → IoError
io_from_any (AnyDecodeError.io e) = e
io_from_any (AnyDecodeError.parent_hash_mismatch node) = record {
  kind = ErrorKind.invalid_data;
  payload = Payload.text_parent_hash_mismatch (level node) (mid node);
}
io_from_any (AnyDecodeError.leaf_hash_mismatch chunk) = record {
  kind = ErrorKind.invalid_data;
  payload = Payload.text_leaf_hash_mismatch_offset (chunks_to_bytes chunk);
}
io_from_any (AnyDecodeError.leaf_not_found chunk) = record {
  kind = ErrorKind.unexpected_eof;
  payload = Payload.any_leaf_not_found chunk;
}
io_from_any (AnyDecodeError.parent_not_found node) = record {
  kind = ErrorKind.unexpected_eof;
  payload = Payload.any_parent_not_found node;
}
io_from_any AnyDecodeError.not_found = record {
  kind = ErrorKind.unexpected_eof;
  payload = Payload.any_not_found;
}

unfoldable pub io_from_decode : DecodeError → IoError
io_from_decode (DecodeError.io e) = e
io_from_decode (DecodeError.parent_hash_mismatch node) = record {
  kind = ErrorKind.invalid_data;
  payload = Payload.text_parent_hash_mismatch (level node) (mid node);
}
io_from_decode (DecodeError.leaf_hash_mismatch chunk) = record {
  kind = ErrorKind.invalid_data;
  payload = Payload.text_leaf_hash_mismatch_offset (chunks_to_bytes chunk);
}
io_from_decode (DecodeError.leaf_not_found chunk) = record {
  kind = ErrorKind.unexpected_eof;
  payload = Payload.decode_leaf_not_found chunk;
}
io_from_decode (DecodeError.parent_not_found node) = record {
  kind = ErrorKind.unexpected_eof;
  payload = Payload.decode_parent_not_found node;
}

unfoldable pub maybe_parent_not_found : IoError → TreeNode → DecodeError
maybe_parent_not_found e node = elim (e.kind) [
  | ErrorKind.unexpected_eof ↦ DecodeError.parent_not_found node
  | ErrorKind.invalid_data ↦ DecodeError.io e
  | ErrorKind.connection_reset ↦ DecodeError.io e
  | ErrorKind.invalid_input ↦ DecodeError.io e
  | ErrorKind.other n ↦ DecodeError.io e
]

unfoldable pub maybe_leaf_not_found : IoError → ChunkNum → DecodeError
maybe_leaf_not_found e chunk = elim (e.kind) [
  | ErrorKind.unexpected_eof ↦ DecodeError.leaf_not_found chunk
  | ErrorKind.invalid_data ↦ DecodeError.io e
  | ErrorKind.connection_reset ↦ DecodeError.io e
  | ErrorKind.invalid_input ↦ DecodeError.io e
  | ErrorKind.other n ↦ DecodeError.io e
]

unfoldable pub io_from_encode : EncodeError → IoError
io_from_encode (EncodeError.io e) = e
io_from_encode (EncodeError.parent_hash_mismatch node) = record {
  kind = ErrorKind.invalid_data;
  payload = Payload.text_parent_hash_mismatch (level node) (mid node);
}
io_from_encode (EncodeError.leaf_hash_mismatch chunk) = record {
  kind = ErrorKind.invalid_data;
  payload = Payload.text_leaf_hash_mismatch (chunks_to_bytes chunk);
}
io_from_encode (EncodeError.parent_write node) = record {
  kind = ErrorKind.connection_reset;
  payload = Payload.text_parent_write (level node) (mid node);
}
io_from_encode (EncodeError.leaf_write chunk) = record {
  kind = ErrorKind.connection_reset;
  payload = Payload.text_leaf_write (chunks_to_bytes chunk);
}
io_from_encode EncodeError.size_mismatch = record {
  kind = ErrorKind.invalid_data;
  payload = Payload.text_size_mismatch;
}

unfoldable pub encode_from_io : IoError → EncodeError
encode_from_io e = EncodeError.io e

unfoldable pub maybe_parent_write : IoError → TreeNode → EncodeError
maybe_parent_write e node = elim (e.kind) [
  | ErrorKind.unexpected_eof ↦ EncodeError.io e
  | ErrorKind.invalid_data ↦ EncodeError.io e
  | ErrorKind.connection_reset ↦ EncodeError.parent_write node
  | ErrorKind.invalid_input ↦ EncodeError.io e
  | ErrorKind.other n ↦ EncodeError.io e
]

unfoldable pub maybe_leaf_write : IoError → ChunkNum → EncodeError
maybe_leaf_write e chunk = elim (e.kind) [
  | ErrorKind.unexpected_eof ↦ EncodeError.io e
  | ErrorKind.invalid_data ↦ EncodeError.io e
  | ErrorKind.connection_reset ↦ EncodeError.leaf_write chunk
  | ErrorKind.invalid_input ↦ EncodeError.io e
  | ErrorKind.other n ↦ EncodeError.io e
]
