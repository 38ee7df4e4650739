-- ===== src/Errors/Kinds.antt =====
-- What the conversions of src/io/error.rs keep of an error: its kind.
use bao_tree.Base.{◌≡◌, refl, arith}
use bao_tree.Node.{TreeNode}
use bao_tree.Sizes.{ChunkNum}
use bao_tree.Errors.{
  ErrorKind, IoError, StartDecodeError, DecodeError, io_from_start, io_from_any, io_from_decode,
  io_from_encode, any_from_start, any_from_decode, maybe_not_found, maybe_parent_not_found,
  maybe_leaf_not_found, maybe_parent_write, maybe_leaf_write,
}

-- An io error that a reader or writer returns keeps its kind when the five `maybe_` functions turn
-- it into a more specific error, and that is turned back into an io error.
pub kind-maybe :
    (e : IoError) (node : TreeNode) (chunk : ChunkNum)
    → ((io_from_start (maybe_not_found e)).kind ≡ e.kind)
      × ((io_from_decode (maybe_parent_not_found e node)).kind ≡ e.kind)
      × ((io_from_decode (maybe_leaf_not_found e chunk)).kind ≡ e.kind)
      × ((io_from_encode (maybe_parent_write e node)).kind ≡ e.kind)
      × ((io_from_encode (maybe_leaf_write e chunk)).kind ≡ e.kind)
unfolding maybe_not_found maybe_parent_not_found maybe_leaf_not_found maybe_parent_write
    maybe_leaf_write io_from_start io_from_decode io_from_encode
kind-maybe e node chunk = at (e.kind) refl
  where
    at :
        (k : ErrorKind)
        → e.kind ≡ k
        → ((io_from_start (maybe_not_found e)).kind ≡ e.kind)
          × ((io_from_decode (maybe_parent_not_found e node)).kind ≡ e.kind)
          × ((io_from_decode (maybe_leaf_not_found e chunk)).kind ≡ e.kind)
          × ((io_from_encode (maybe_parent_write e node)).kind ≡ e.kind)
          × ((io_from_encode (maybe_leaf_write e chunk)).kind ≡ e.kind)
    at ErrorKind.unexpected_eof h = ground (arith, h)
    at ErrorKind.invalid_data h = ground (arith, h)
    at ErrorKind.connection_reset h = ground (arith, h)
    at ErrorKind.invalid_input h = ground (arith, h)
    at (ErrorKind.other n) h = ground (arith, h)

-- An error of either phase of decoding has one kind, whether it is turned into an io error at once
-- or by way of `AnyDecodeError`.
pub kind-any :
    (s : StartDecodeError) (d : DecodeError)
    → ((io_from_any (any_from_start s)).kind ≡ (io_from_start s).kind)
      × ((io_from_any (any_from_decode d)).kind ≡ (io_from_decode d).kind)
unfolding io_from_any io_from_start io_from_decode any_from_start any_from_decode
kind-any s d = (start s, later d)
  where
    start : (s : StartDecodeError) → (io_from_any (any_from_start s)).kind ≡ (io_from_start s).kind
    start StartDecodeError.not_found = refl
    start (StartDecodeError.io e) = refl

    later : (d : DecodeError) → (io_from_any (any_from_decode d)).kind ≡ (io_from_decode d).kind
    later (DecodeError.parent_not_found n) = refl
    later (DecodeError.leaf_not_found c) = refl
    later (DecodeError.parent_hash_mismatch n) = refl
    later (DecodeError.leaf_hash_mismatch c) = refl
    later (DecodeError.io e) = refl
