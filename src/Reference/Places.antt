-- ===== src/Reference/Places.antt =====
-- The subtree at a place of the shifted tree, as the first chunk and the number of bytes that the
-- reference is called with.
use bao_tree.Base.{
  ℕ, suc, ◌+◌, ◌-◌, ◌*◌, ◌^◌, ◌≤◌, ◌<◌, ◌≡◌, ◌⊎◌, refl, arith, ap, ◌∙◌, inl, inr, min, two-pow-suc,
  two-pow-pos, two-pow-add, lt_of_two-pow-lt, mul-two-pow-suc, eq-cases, eq→==, some, bit_and,
  bit_or,
}
use native.Mathlib.Nat.{mul-mod_left}
use bao_tree.Word.{u64_sub, shl}
use bao_tree.Word.Shifts.{shl_exact}
use bao_tree.Word.Bits.{and_mask}
use bao_tree.Word.Ors.{or_low}
use bao_tree.Sizes.{chunks_to_bytes}
use bao_tree.Node.{TreeNode, mid, level, chunk_range, subtract_block_size}
use bao_tree.Node.Place.{node_at, suc-node_at, chunk_range-node_at, mid-node_at, shl-one}
use bao_tree.Node.Blocks.{raised}
use bao_tree.Tree.{BaoTree, blocks, shifted}
use bao_tree.Tree
use bao_tree.Tree.Shape.{IsValid, HasShape}
use bao_tree.Tree.Nodes.{unit, cover, block_count, fits, raise_lem, leaf_level}
use bao_tree.Reference.{from_start_chunk_and_level}

before : (n b u size : ℕ) → ((b * u < size + u) ⊎ (b ≡ 1)) → n < b → 0 < n → n * u < size
before n b u size (inl p) h pos = grind arith
before n b u size (inr p) h pos = absurd (omega arith)

beyond : (n b u size : ℕ) → b ≤ n → size ≤ b * u → size ≤ n * u
beyond n b u size h p = grind arith

-- The first chunk, and the bytes, of the subtree.
abbrev pub start_at : ℕ → ℕ → ℕ → ℕ
start_at b l k = k * 2 ^ suc (l + b)

abbrev pub size_at : ℕ → ℕ → ℕ → ℕ → ℕ
size_at b size l k = min ((k + 1) * 2 ^ suc (l + b) * 1024) size - k * 2 ^ suc (l + b) * 1024

module _ (t : BaoTree) (v : IsValid t) (height m : ℕ) (h : HasShape t height m) where
  abbrev b : ℕ
  b = t.block_size

  module _ (l k : ℕ) where
    abbrev n : TreeNode
    n = node_at l k

    abbrev node : TreeNode
    node = subtract_block_size n b

    -- Half the subtree, and where it starts, in chunks.
    abbrev x : ℕ
    x = 2 ^ (l + b)

    abbrev from : ℕ
    from = 2 * (k * 2 ^ (l + b))

    pub start_lem : start_at b l k ≡ from
    start_lem = mul-two-pow-suc k (l + b)

    pub end_lem : (k + 1) * 2 ^ suc (l + b) ≡ from + 2 * x
    end_lem = omega (arith, mul-two-pow-suc (k + 1) (l + b))

    pub unit_lem : (c : ℕ) → c * unit t ≡ c * 2 ^ b * 1024
    unit_lem c = omega (arith, ap (λ (x : ℕ). c * x) (two-pow-add b 10))

    -- The middle and the start in bytes.
    middle : (n + 1) * unit t ≡ (from + x) * 1024
    middle = omega (arith, unit_lem (n + 1), raised l k b, suc-node_at (l + b) k)

    first_lem : 2 * (k * 2 ^ l) * unit t ≡ from * 1024
    first_lem =
        let p = unit_lem (2 * (k * 2 ^ l)) in let q = two-pow-add l b in rw (p, q) (grind arith)

    pub size_lem : size_at b t.size l k ≡ min ((from + 2 * x) * 1024) t.size - from * 1024
    size_lem = rw (end_lem, start_lem) refl

    -- The place is inside the blob.
    module _ (first : 2 * (k * 2 ^ l) < 2 * m + 1) where
      pub start_inside : from * 1024 ≤ t.size
      start_inside = elim (eq-cases (2 * (k * 2 ^ l)) 0) [
        | inl zero_start ↦ omega (arith, first_lem, ap (λ (c : ℕ). c * unit t) zero_start)
        | inr later ↦
            let less : 2 * (k * 2 ^ l) < blocks t = ground (arith, block_count t v height m h) in
            omega (
              arith,
              first_lem,
              before (2 * (k * 2 ^ l)) (blocks t) (unit t) t.size ((cover t v).1) less
                  (grind arith),
            )
      ]

    module _ (here : n < 2 * m + 1) where
      bound : from + x ≤ 2 ^ 51
      bound = omega (arith, fits t v height m h l k here, suc-node_at (l + b) k)

      pub half : x ≤ 2 ^ 51
      half = omega (arith, bound)

      pub low : l + b < 53
      low = lt_of_two-pow-lt (l + b) 53 (omega (arith, half))

      pub chunks_lem :
          ((chunk_range (node)).start ≡ start_at b l k)
          × ((chunk_range (node)).end ≡ (k + 1) * 2 ^ suc (l + b))
      chunks_lem = rw (raise_lem t v height m h l k here) (
          chunk_range-node_at (l + b) k (omega (arith, fits t v height m h l k here))
            (omega (arith, low)))

      pub mid_lem : mid (node) ≡ from + x
      mid_lem = rw (raise_lem t v height m h l k here) (
          mid-node_at (l + b) k (omega (arith, fits t v height m h l k here))
          ∙ suc-node_at (l + b) k)

      pub level_lem : level (node) ≡ l + b
      level_lem = rw (raise_lem t v height m h l k here) (leaf_level t v height m h l k here)

      -- The bytes of the node.
      pub bytes_lem :
          ((Tree.byte_range t (node)).start ≡ from * 1024)
          × ((Tree.byte_range t (node)).end ≡ min ((from + 2 * x) * 1024) t.size)
      unfolding Tree.byte_range chunks_to_bytes
      bytes_lem =
          let c = chunks_lem in
          let s1 = shl_exact from 10 (omega arith) (omega (arith, bound)) in
          let s2 = shl_exact (from + 2 * x) 10 (omega arith) (omega (arith, bound)) in
          (rw (c.0, start_lem) s1, rw (c.1, end_lem) (ap (λ (e : ℕ). min e t.size) s2))

      pub mid_bytes_lem : chunks_to_bytes (mid (node)) ≡ (from + x) * 1024
      unfolding chunks_to_bytes
      mid_bytes_lem = rw mid_lem (shl_exact (from + x) 10 (omega arith) (omega (arith, bound)))

      -- The first chunk ends in as many zeros as the assertion asks for.
      aligned : bit_and (start_at b l k) (u64_sub (shl 1 (l + b + 1)) 1) ≡ 0
      aligned =
          let one = shl-one (l + b + 1) (omega (arith, low)) in
          let up : l + b + 1 ≡ suc (l + b) = omega arith in
          let power : 2 ^ (l + b + 1) ≡ 2 * 2 ^ (l + b) = rw up (two-pow-suc (l + b)) in
          let mask : u64_sub (shl 1 (l + b + 1)) 1 ≡ 2 ^ suc (l + b) - 1 =
            omega (arith, one, power, half, two-pow-pos (l + b), two-pow-suc (l + b)) in
          rw mask (and_mask (suc (l + b)) (start_at b l k) ∙ mul-mod_left k (2 ^ suc (l + b)))

      number_lem : bit_or (start_at b l k) (u64_sub (shl 1 (l + b)) 1) ≡ node
      number_lem =
          let one = shl-one (l + b) (omega (arith, low)) in
          let mask : u64_sub (shl 1 (l + b)) 1 ≡ 2 ^ (l + b) - 1 =
            omega (arith, one, half, two-pow-pos (l + b)) in
          let twice : start_at b l k ≡ 2 * k * 2 ^ (l + b) = omega (arith, start_lem) in
          rw (mask, twice, or_low (l + b) (2 * k), raise_lem t v height m h l k here)
            (omega (arith, suc-node_at (l + b) k, two-pow-pos (l + b)))

      pub from_start_lem : from_start_chunk_and_level (start_at b l k) (l + b) ≡ some node
      unfolding from_start_chunk_and_level
      from_start_lem =
          rw
            (
              from_start_chunk_and_level,
              eq→== (bit_and (start_at b l k) (u64_sub (shl 1 (l + b + 1)) 1)) 0 aligned,
            )
            (ap (λ (n : TreeNode). some n) number_lem)
      -- A branch is in the tree when the blob reaches beyond its middle.

  module _ (l k : ℕ) where
    pub branch_inside :
        node_at (suc l) k < 2 * m + 1
        → (2 * (k * 2 ^ (suc l + b)) + 2 ^ (suc l + b)) * 1024 < t.size
    branch_inside here =
        let less : node_at (suc l) k + 1 < blocks t =
          ground (arith, block_count t v height m h, suc-node_at (suc l) k, two-pow-suc l) in
        omega (
          arith,
          middle (suc l) k,
          before (node_at (suc l) k + 1) (blocks t) (unit t) t.size ((cover t v).1) less
              (omega arith),
        )

    pub branch_outside :
        2 * m + 1 ≤ node_at (suc l) k
        → t.size ≤ (2 * (k * 2 ^ (suc l + b)) + 2 ^ (suc l + b)) * 1024
    branch_outside out =
        let less : blocks t ≤ node_at (suc l) k + 1 = ground (arith, block_count t v height m h) in
        omega (
          arith,
          middle (suc l) k,
          beyond (node_at (suc l) k + 1) (blocks t) (unit t) t.size less ((cover t v).0),
        )
