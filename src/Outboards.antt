-- ===== src/Outboards.antt =====
-- The outboards in memory of src/io/outboard.rs: the hash pairs of the persisted nodes, 64 bytes
-- each, in pre order or in post order. Both orders share their code but for the offset.
pub mod Post
pub mod Pre
pub mod Empty
pub mod Slots
pub mod Layout
pub mod Saving
pub mod Flipping
use bao_tree.Base.{
  ℕ, zero, suc, ◌+◌, leb, ◌==◌, if◌then◌else◌, Option, none, some, List, [], ◌∷◌, ◌++◌, length,
  take, drop, replicate, write_at, Bool, true, false,
}
use mathlib.Core.Option
use bao_tree.Word.{u64_add, u64_mul}
use bao_tree.Outcome.{Outcome, ok, err, panic, ◌>>=◌, unwrap}
use bao_tree.Errors.{IoError, ErrorKind, Payload}
use bao_tree.Hashing.{Blake3}
use bao_tree.Node.{TreeNode}
use bao_tree.Tree.{
  BaoTree, value, outboard_hash_pairs, pre_order_offset, post_order_offset, post_order_nodes,
  is_relevant_for_outboard,
}

pub record EmptyOutboard (Hash : Type 0) : Type 0 where
  pub tree : BaoTree
  pub root : Hash

pub record PostOrderMemOutboard (Hash : Type 0) : Type 0 where
  pub root : Hash
  pub tree : BaoTree
  pub bytes : List ℕ

pub record PreOrderMemOutboard (Hash : Type 0) : Type 0 where
  pub root : Hash
  pub tree : BaoTree
  pub bytes : List ℕ

abbrev pub invalid_node : IoError
invalid_node = record { kind = ErrorKind.invalid_input; payload = Payload.text_invalid_node }

-- Where a node's pair stands, in pairs; the outer `none` is a loop that does not end.
abbrev pub pre_place : BaoTree → TreeNode → Option (Option ℕ)
pre_place t node = pre_order_offset t node

abbrev pub post_place : BaoTree → TreeNode → Option (Option ℕ)
post_place t node = some (Option.map value (post_order_offset t node))

-- `data[offset..offset + 64]`
unfoldable pub slot : {E : Type 0} → ℕ → List ℕ → Outcome E (List ℕ)
slot offset bytes =
    if leb (u64_add offset 64) (length bytes) then ok (take 64 (drop offset bytes)) else panic

unfoldable pub load_raw : {E : Type 0} → Option (Option ℕ) → List ℕ → Outcome E (Option (List ℕ))
load_raw none bytes = panic
load_raw (some none) bytes = ok none
load_raw (some (some i)) bytes = do s ← slot (u64_mul i 64) bytes; ok (some s)

unfoldable pub load_raw_post_mem :
    {E : Type 0} → BaoTree → List ℕ → TreeNode → Outcome E (Option (List ℕ))
load_raw_post_mem t bytes node = load_raw (post_place t node) bytes

unfoldable pub load_raw_pre_mem :
    {E : Type 0} → BaoTree → List ℕ → TreeNode → Outcome E (Option (List ℕ))
load_raw_pre_mem t bytes node = load_raw (pre_place t node) bytes

-- The error of `new` and `map_data`, a text.
pub data SizeError : Type 0 where
  invalid_outboard_data_size : SizeError

-- The check of `new`, which keeps the bytes.
abbrev pub has_size : BaoTree → List ℕ → Bool
has_size t bytes = length bytes == u64_mul (outboard_hash_pairs t) 64

module _ {Hash : Type 0} (b : Blake3 Hash) where
  unfoldable pub parse_hash_pair : List ℕ → Hash × Hash
  parse_hash_pair buf = (b.from_bytes (take 32 buf), b.from_bytes (drop 32 buf))

  -- The two `copy_from_slice` at an offset.
  unfoldable pub put_pair : {E : Type 0} → ℕ → Hash × Hash → List ℕ → Outcome E (List ℕ)
  put_pair offset pair bytes =
      if leb (u64_add offset 64) (length bytes)
      then ok
          (write_at (offset + 32) (b.as_bytes pair.1) (write_at offset (b.as_bytes pair.0) bytes))
      else panic

  -- `map(parse_hash_pair)`
  unfoldable pub load_at :
      {E : Type 0} → Option (Option ℕ) → List ℕ → Outcome E (Option (Hash × Hash))
  load_at place bytes = do s ← load_raw place bytes; ok (Option.map parse_hash_pair s)

  unfoldable pub load_post :
      {E : Type 0} → BaoTree → List ℕ → TreeNode → Outcome E (Option (Hash × Hash))
  unfolding load_raw_post_mem load_at
  load_post t bytes node = do s ← load_raw_post_mem t bytes node; ok (Option.map parse_hash_pair s)

  unfoldable pub load_pre :
      {E : Type 0} → BaoTree → List ℕ → TreeNode → Outcome E (Option (Hash × Hash))
  unfolding load_raw_pre_mem load_at
  load_pre t bytes node = do s ← load_raw_pre_mem t bytes node; ok (Option.map parse_hash_pair s)

  -- `save`, for either order.
  unfoldable pub save_at : Option (Option ℕ) → Hash × Hash → List ℕ → Outcome IoError (List ℕ)
  save_at none pair bytes = panic
  save_at (some none) pair bytes = err invalid_node
  save_at (some (some i)) pair bytes = put_pair (u64_mul i 64) pair bytes

  -- The loop of `flip_post` and `flip_pre` over the nodes: `from` is where the order of the outboard
  -- has a node, `to` where the other order has it.
  unfoldable pub flip_loop :
      {E : Type 0}
      → (TreeNode → Option (Option ℕ))
      → (TreeNode → Option (Option ℕ))
      → List ℕ
      → List TreeNode
      → List ℕ
      → Outcome E (List ℕ)
  flip_loop from to bytes [] out = ok out
  flip_loop from to bytes (node ∷ nodes) out = do
    loaded ← load_at (from node) bytes
    elim loaded [
      | none ↦ flip_loop from to bytes nodes out
      | some pair ↦ do
        place ← unwrap (to node)
        i ← unwrap place
        out ← put_pair (u64_mul i 64) pair out
        flip_loop from to bytes nodes out
    ]

  unfoldable pub flip_post :
      {E : Type 0} → ℕ → Hash → BaoTree → List ℕ → Outcome E (PreOrderMemOutboard Hash)
  flip_post fuel root t bytes = do
    nodes ← unwrap (post_order_nodes t fuel)
    out ← flip_loop (post_place t) (pre_place t) bytes nodes (replicate (length bytes) 0)
    ok (record { root = root; tree = t; bytes = out })

  unfoldable pub flip_pre :
      {E : Type 0} → ℕ → Hash → BaoTree → List ℕ → Outcome E (PostOrderMemOutboard Hash)
  flip_pre fuel root t bytes = do
    nodes ← unwrap (post_order_nodes t fuel)
    out ← flip_loop (pre_place t) (post_place t) bytes nodes (replicate (length bytes) 0)
    ok (record { root = root; tree = t; bytes = out })
