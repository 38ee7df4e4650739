-- ===== src/Tests/Faults.antt =====
-- The theorems on errors at an end of file.
use bao_tree.Base.{◌≡◌}
use bao_tree.Errors.{
  ErrorKind, Payload, IoError, StartDecodeError, DecodeError, io_from_start, io_from_any,
  io_from_decode, io_from_encode, any_from_start, any_from_decode, maybe_not_found,
  maybe_parent_not_found, maybe_leaf_not_found, maybe_parent_write, maybe_leaf_write,
}
use bao_tree.Errors.Kinds.{kind-maybe, kind-any}

abbrev end_of_file : IoError
end_of_file = record { kind = ErrorKind.unexpected_eof; payload = Payload.system 0 }

kind-maybe_example :
    ((io_from_start (maybe_not_found end_of_file)).kind ≡ ErrorKind.unexpected_eof)
    × ((io_from_decode (maybe_parent_not_found end_of_file 5)).kind ≡ ErrorKind.unexpected_eof)
    × ((io_from_decode (maybe_leaf_not_found end_of_file 4)).kind ≡ ErrorKind.unexpected_eof)
    × ((io_from_encode (maybe_parent_write end_of_file 5)).kind ≡ ErrorKind.unexpected_eof)
    × ((io_from_encode (maybe_leaf_write end_of_file 4)).kind ≡ ErrorKind.unexpected_eof)
kind-maybe_example = kind-maybe end_of_file 5 4

kind-any_example :
    ((io_from_any (any_from_start StartDecodeError.not_found)).kind
      ≡ (io_from_start StartDecodeError.not_found).kind)
    × ((io_from_any (any_from_decode (DecodeError.leaf_not_found 4))).kind
        ≡ (io_from_decode (DecodeError.leaf_not_found 4)).kind)
kind-any_example = kind-any StartDecodeError.not_found (DecodeError.leaf_not_found 4)
