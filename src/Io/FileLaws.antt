-- ===== src/Io/FileLaws.antt =====
-- Outboards in files compared with those in memory.
use bao_tree.Base.{
  ℕ, ◌+◌, ◌-◌, ◌*◌, ◌≤◌, ◌<◌, ◌≡◌, ◌⊎◌, refl, arith, ap, ◌∙◌, sym, inl, inr, le→ltb, eq→==, some,
  none, List, ◌++◌, length, get_elem?, take, drop, take-append, take-all, drop-append,
  drop-append_left, take-append_left, length-append, length-drop, length-take,
}
use mathlib.Core.Option
use bao_tree.Word.{u64_add, u64_mul, to_le_bytes}
use bao_tree.Word.Bytes.{length-to_le_bytes, from-to_le_bytes}
use bao_tree.Outcome.{Outcome, ok}
use bao_tree.Errors.{IoError}
use bao_tree.Hashing.{Blake3}
use bao_tree.Node.{TreeNode}
use bao_tree.Tree.{BaoTree, shifted, outboard_hash_pairs, is_persisted, value, pre_order_offset}
use bao_tree.Tree
use bao_tree.Tree.Shape.{IsValid}
use bao_tree.Outboards.{PreOrderMemOutboard, PostOrderMemOutboard, parse_hash_pair}
use bao_tree.Outboards.{
  pre_place, post_place, load_at, load_pre, load_post, load_raw_pre_mem, load_raw_post_mem,
}
use bao_tree.Outboards.Slots.{HasBytes, cell}
use bao_tree.Outboards.Saving.{load-slot, load-none}
use bao_tree.Tree.Offsets.{persisted_post}
use bao_tree.Tree.PostOffsets.{post_order_offset_tree}
use bao_tree.Outboards.Layout.{raise, few_pairs, pre_layout, post_layout, slot-lt}
use bao_tree.Outboards.Pre
use bao_tree.Outboards.Post
use bao_tree.Io.{ReadAt, outboard_size}
use bao_tree.Io.Files.{
  PostOrderOutboard, load_pre_file, load_post_file, load_post_async, read_file, load_pre_mem,
  load_post_mem,
}

-- The file holds these bytes: reads within them return them, and the size is their number.
pub record Holds {D : Type 0} (at : ReadAt D) (file : D) (content : List ℕ) : Type 0 where
  pub read_lem :
      (offset n : ℕ)
      → offset + n ≤ length content
      → at.read_exact_at file offset n ≡ ok (take n (drop offset content))
  pub size_lem : at.size file ≡ ok (some (length content))

module _ {D : Type 0} (at : ReadAt D) (file : D) (content : List ℕ)
    (holds : Holds at file content) where
  read_file_lem : 8 ≤ length content → read_file at file ≡ ok content
  unfolding read_file
  read_file_lem enough =
      let all : take (length content) content ≡ content =
        take-all (length content) content (omega arith) in
      rw
        (
          holds.size_lem,
          holds.read_lem 0 (length content) (omega arith),
          all,
          le→ltb (length content) 8 enough,
        )
        refl

size_lem :
    (t : BaoTree) (bytes : List ℕ)
    → IsValid t
    → length bytes ≡ outboard_hash_pairs t * 64
    → length bytes + 8 ≡ outboard_size t.size t.block_size
unfolding outboard_size Tree.outboard_size
size_lem t bytes v size = omega (arith, size, few_pairs t v)

module _ {Hash D : Type 0} (at : ReadAt D) (file : D) where
  -- A pre order outboard of a valid tree and of the right size, written with its length prefix, is
  -- loaded as it was.
  pub load-into_inner_with_prefix :
      (o : PreOrderMemOutboard Hash)
      → IsValid o.tree
      → length o.bytes ≡ outboard_hash_pairs o.tree * 64
      → Holds at file (Pre.into_inner_with_prefix o)
      → load_pre_mem at o.root file o.tree.block_size ≡ ok o
  unfolding load_pre_mem Pre.into_inner_with_prefix
  load-into_inner_with_prefix o v size holds =
      let head = length-to_le_bytes o.tree.size in
      let prefix = take-append (to_le_bytes o.tree.size) o.bytes 8 (sym head) in
      let rest = drop-append (to_le_bytes o.tree.size) o.bytes 8 0 (omega (arith, head)) in
      let total = length-append (to_le_bytes o.tree.size) o.bytes in
      let len = from-to_le_bytes o.tree.size (omega (arith, v.size_fits)) in
      let expected =
        eq→== (length (to_le_bytes o.tree.size ++ o.bytes))
          (outboard_size o.tree.size o.tree.block_size)
          (omega (arith, total, head, size_lem o.tree o.bytes v size)) in
      rw
        (
          read_file_lem at file (to_le_bytes o.tree.size ++ o.bytes) holds
              (omega (arith, total, head)),
          prefix,
          len,
          rest,
          expected,
        )
        refl

  -- A post order outboard of a valid tree and of the right size, written with its length suffix, is
  -- loaded as it was.
  pub load-into_inner_with_suffix :
      (o : PostOrderMemOutboard Hash)
      → IsValid o.tree
      → length o.bytes ≡ outboard_hash_pairs o.tree * 64
      → Holds at file (Post.into_inner_with_suffix o)
      → load_post_mem at o.root file o.tree.block_size ≡ ok o
  unfolding load_post_mem Post.into_inner_with_suffix
  load-into_inner_with_suffix o v size holds =
      let tail = length-to_le_bytes o.tree.size in
      let total = length-append o.bytes (to_le_bytes o.tree.size) in
      let count : length (o.bytes ++ to_le_bytes o.tree.size) - 8 ≡ length o.bytes =
        omega (arith, total, tail) in
      let suffix = drop-append o.bytes (to_le_bytes o.tree.size) (length o.bytes) 0 (omega arith) in
      let rest = take-append o.bytes (to_le_bytes o.tree.size) (length o.bytes) refl in
      let len = from-to_le_bytes o.tree.size (omega (arith, v.size_fits)) in
      let expected =
        eq→== (length (o.bytes ++ to_le_bytes o.tree.size))
          (outboard_size o.tree.size o.tree.block_size)
          (omega (arith, total, tail, size_lem o.tree o.bytes v size)) in
      rw
        (
          read_file_lem at file (o.bytes ++ to_le_bytes o.tree.size) holds
              (omega (arith, total, tail)),
          count,
          suffix,
          len,
          rest,
          expected,
        )
        refl

module _ {Hash D : Type 0} (b : Blake3 Hash) (h : HasBytes b) (t : BaoTree) (v : IsValid t)
    (root : Hash) (file : D) (bytes : List ℕ) (size : length bytes ≡ outboard_hash_pairs t * 64)
    (n : TreeNode) (inside : n < (shifted t).1) where
  -- A pre order outboard in a file that begins with the length loads for every node what the
  -- outboard in memory loads.
  pub pre_file-load :
      (at : ReadAt D)
      → Holds at file (to_le_bytes t.size ++ bytes)
      → load_pre_file b at (record { root = root; tree = t; file = file }) (raise t n)
        ≡ Pre.load b (record { root = root; tree = t; bytes = bytes }) (raise t n)
  unfolding load_pre_file Pre.load load_pre load_raw_pre_mem load_at
  pre_file-load at holds =
      let y = pre_layout t v in
      elim (y.each n inside) [
        | inl (i, p, e, found) ↦
            let less = slot-lt t (pre_place t) y i n found in
            let few = few_pairs t v in
            let head = length-to_le_bytes t.size in
            let place : u64_add (u64_mul i 64) 8 ≡ i * 64 + 8 = omega (arith, less, few) in
            let read =
              holds.read_lem (i * 64 + 8) 64
                (omega (arith, less, size, head, length-append (to_le_bytes t.size) bytes)) in
            let same =
              drop-append (to_le_bytes t.size) bytes (i * 64 + 8) (i * 64) (omega (arith, head)) in
            let mem = load-slot b h t v (pre_place t) y {E = IoError} i n bytes size e found in
            rw (e, place, read, same) (sym (rw e at mem))
        | inr (p, e) ↦ rw e (sym (load-none b h t v (pre_place t) y {E = IoError} bytes))
      ]

  slot_in :
      (offset : ℕ)
      → offset + 64 ≤ length bytes
      → take 64 (drop offset (bytes ++ to_le_bytes t.size)) ≡ take 64 (drop offset bytes)
  slot_in offset fits =
      ap (take 64) (drop-append_left offset bytes (to_le_bytes t.size) (omega arith))
      ∙ take-append_left 64 (drop offset bytes) (to_le_bytes t.size)
          (omega (arith, length-drop offset bytes))

  -- The asynchronous post order outboard in a file that ends with the length loads for every node
  -- what the outboard in memory loads.
  pub post_async-load :
      (read_at : D → ℕ → ℕ → Outcome IoError (List ℕ))
      → ((offset : ℕ)
          → offset + 64 ≤ length (bytes ++ to_le_bytes t.size)
          → read_at file offset 64 ≡ ok (take 64 (drop offset (bytes ++ to_le_bytes t.size))))
      → load_post_async b read_at (record { root = root; tree = t; file = file }) (raise t n)
        ≡ Post.load b (record { root = root; tree = t; bytes = bytes }) (raise t n)
  unfolding load_post_async Post.load post_layout load_post load_raw_post_mem load_at
  post_async-load read_at reads = elim (post_order_offset_tree t n v inside) [
    | inl (p, (o, e, found)) ↦
        let i = value o in
        let less = slot-lt t (post_place t) (post_layout t v) i n found in
        let few = few_pairs t v in
        let place : u64_mul i 64 ≡ i * 64 = omega (arith, less, few) in
        let read =
          reads (i * 64) (omega (arith, less, size, length-append bytes (to_le_bytes t.size))) in
        let part : take 64 (drop (i * 64) (bytes ++ to_le_bytes t.size)) ≡ cell i bytes =
          slot_in (i * 64) (omega (arith, less, size)) in
        let full = eq→== (length (cell i bytes)) 64 (
          length-take 64 (drop (i * 64) bytes)
            (omega (arith, length-drop (i * 64) bytes, less, size))) in
        let mem =
          load-slot b h t v (post_place t) (post_layout t v) {E = IoError} i n bytes size
            (ap some (ap (Option.map value) e)) found in
        let file_load : load_post_async b read_at (record { root = root; tree = t; file = file })
              (raise t n)
            ≡ ok (some (parse_hash_pair b (cell i bytes))) =
          rw (load_post_async, e, place, read, part, full) refl in
        file_load ∙ sym mem
    | inr (p, e) ↦
        let nothing : load_post_async b read_at (record { root = root; tree = t; file = file })
              (raise t n)
            ≡ ok none =
          rw (load_post_async, e) refl in
        nothing
        ∙ sym (rw e (load-none b h t v (post_place t) (post_layout t v) {E = IoError} bytes))
  ]

  -- The two cases of a load from a file and from memory.
  abbrev pub Shifted : ReadAt D → Type 0
  Shifted at =
      let o : PostOrderOutboard Hash D = record { root = root; tree = t; file = file } in
      let mem : PostOrderMemOutboard Hash = record { root = root; tree = t; bytes = bytes } in
      ((i : ℕ) × (get_elem? (persisted_post t) i ≡ some n)
        × (Post.load b mem (raise t n) ≡ ok (some (parse_hash_pair b (cell i bytes))))
        × (load_post_file b at o (raise t n)
            ≡ ok (
                some
                  (parse_hash_pair b (take 64 (drop (i * 64 + 8) (bytes ++ to_le_bytes t.size)))))))
      ⊎ ((Post.load b mem (raise t n) ≡ ok none) × (load_post_file b at o (raise t n) ≡ ok none))

  -- What `load` of the synchronous post order outboard returns from a file that ends with the length:
  -- for a persisted node, whose pair the outboard in memory takes from its slot, the 64 bytes
  -- that begin eight bytes behind the start of that slot; for the other node none, as in memory.
  pub post_file-load : (at : ReadAt D) → Holds at file (bytes ++ to_le_bytes t.size) → Shifted at
  unfolding load_post_file Post.load load_post load_raw_post_mem load_at post_layout
  post_file-load at holds = elim (post_order_offset_tree t n v inside) [
    | inl (p, (o, e, found)) ↦
        let i = value o in
        let less = slot-lt t (post_place t) (post_layout t v) i n found in
        let few = few_pairs t v in
        let tail = length-to_le_bytes t.size in
        let place : u64_add (u64_mul i 64) 8 ≡ i * 64 + 8 = omega (arith, less, few) in
        let read =
          holds.read_lem (i * 64 + 8) 64
            (omega (arith, less, size, tail, length-append bytes (to_le_bytes t.size))) in
        inl (
          i,
          found,
          load-slot b h t v (post_place t) (post_layout t v) {E = IoError} i n bytes size
              (ap some (ap (Option.map value) e)) found,
          rw (load_post_file, e, place, read) refl,
        )
    | inr (p, e) ↦ inr (
      rw e (load-none b h t v (post_place t) (post_layout t v) {E = IoError} bytes),
      rw (load_post_file, e) refl,
    )
  ]
