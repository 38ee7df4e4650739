-- ===== src/Tree/Nodes.antt =====
-- The nodes of a tree, in chunks: what the shifted nodes below `filled_size` become.
use bao_tree.Base.{ℕ, zero, suc, ◌+◌, ◌*◌, ◌^◌, ◌≤◌, ◌<◌, ◌≡◌, arith, max, ap, ◌∙◌}
use bao_tree.Base.{two-pow-suc, two-pow-le, two-pow-add, ◌⊎◌, inl, inr, lt-cases}
use bao_tree.Base.{lt_of_two-pow-lt, ◌==◌, not, some, lt-cases}
use bao_tree.Word.Shifts.{shl_exact}
use bao_tree.Sizes
use bao_tree.Sizes.{chunks_to_bytes}
use bao_tree.Sizes.Rounding.{blocks-Covers}
use bao_tree.Node.{level, mid, subtract_block_size, add_block_size}
use bao_tree.Node.Place.{node_at, suc-node_at, level_lem, mid-node_at}
use bao_tree.Node.Blocks.{raised, subtract_block_size-node_at, add_block_size-node_at}
use bao_tree.Tree.{BaoTree, blocks, is_leaf, is_persisted}
use bao_tree.Tree.Shape.{IsValid, HasShape, blocks-bound}

abbrev pub unit : BaoTree → ℕ
unit t = 2 ^ (t.block_size + 10)

module _ (t : BaoTree) (v : IsValid t) where
  -- The blocks cover the size, and the last block begins inside it, or is the first.
  pub cover :
      (t.size ≤ blocks t * unit t) × ((blocks t * unit t < t.size + unit t) ⊎ (blocks t ≡ 1))
  unfolding blocks
  cover =
      let c =
        blocks-Covers t.size t.block_size (omega (arith, v.block_fits))
          (omega (arith, v.size_fits)) in
      at (Sizes.blocks t.size t.block_size) c
    where
      at :
          (n : ℕ)
          → (t.size ≤ n * unit t) × (n * unit t < t.size + unit t)
          → (t.size ≤ max n 1 * unit t) × ((max n 1 * unit t < t.size + unit t) ⊎ (max n 1 ≡ 1))
      at zero c = (omega (arith, c.0), inr (omega arith))
      at (suc n) c = let e : max (suc n) 1 ≡ suc n = omega arith in rw e (c.0, inl (c.1))

  pub room : blocks t * unit t ≤ 2 ^ 61
  room =
      let small : unit t ≤ 2 ^ 60 =
        two-pow-le {m = t.block_size + 10} {n = 60} (omega (arith, v.block_fits)) in
      elim (cover.1) [
        | inl less ↦ omega (arith, v.size_fits, small, less)
        | inr one ↦ rw one (omega (arith, small))
      ]

  module _ (height m : ℕ) (s : HasShape t height m) where
    pub block_count : (blocks t ≡ 2 * m + 1) ⊎ (blocks t ≡ 2 * m + 2)
    block_count = ground (arith, s.leaf_count, blocks-bound t v)

    -- The shifted node at a place, and the node in chunks that it becomes.
    module _ (l k : ℕ) (here : node_at l k < 2 * m + 1) where
      u : ℕ
      u = unit t

      under : l ≤ height
      under = omega (
        arith,
        lt_of_two-pow-lt l (suc height)
            (omega (arith, suc-node_at l k, s.wide, two-pow-suc height)),
      )

      pub few : (node_at l k + 1) * unit t ≤ 2 ^ 61
      few =
          let less : node_at l k + 1 ≤ blocks t = ground (arith, block_count) in
          more (node_at l k + 1) (blocks t) (unit t) less room
        where
          more : (a b u : ℕ) → a ≤ b → b * u ≤ 2 ^ 61 → a * u ≤ 2 ^ 61
          more a b u h p = grind arith

      pub units : (c : ℕ) → c * unit t ≡ c * 2 ^ t.block_size * 1024
      units c = omega (arith, ap (λ (x : ℕ). c * x) (two-pow-add t.block_size 10))

      pub fits : node_at (l + t.block_size) k < 2 ^ 51
      fits = omega (arith, raised l k t.block_size, units (node_at l k + 1), few)

      pub raise_lem : subtract_block_size (node_at l k) t.block_size ≡ node_at (l + t.block_size) k
      raise_lem =
          subtract_block_size-node_at l k t.block_size (omega (arith, v.block_fits))
            (omega (arith, fits))

      pub lower_lem :
          add_block_size (node_at (l + t.block_size) k) t.block_size ≡ some (node_at l k)
      lower_lem = add_block_size-node_at l k t.block_size (omega (arith, v.block_fits))

      pub mid_bytes :
          chunks_to_bytes (mid (node_at (l + t.block_size) k)) ≡ (node_at l k + 1) * unit t
      unfolding chunks_to_bytes
      mid_bytes = rw (mid-node_at (l + t.block_size) k (omega (arith, fits))) (
          shl_exact (node_at (l + t.block_size) k + 1) 10 (omega arith) (omega (arith, fits))
          ∙ omega (arith, raised l k t.block_size, units (node_at l k + 1)))

      pub leaf_level : level (node_at (l + t.block_size) k) ≡ l + t.block_size
      leaf_level = level_lem (l + t.block_size) k (omega (arith, fits))

      -- The one node that is not persisted is the last leaf, where it holds but the last block.
      pub persisted_lem :
          is_persisted t (node_at (l + t.block_size) k) ≡ not (node_at l k + 1 == blocks t)
      unfolding is_persisted is_leaf
      persisted_lem =
          rw (leaf_level, mid_bytes)
            (elim (lt-cases 0 l) [
              | inl branch ↦ ground (arith, even l branch, block_count, suc-node_at l k)
              | inr leaf ↦ elim (lt-cases (node_at l k + 1) (blocks t)) [
                | inl less ↦ ground (
                  arith,
                  before (node_at l k + 1) (blocks t) (unit t) t.size (cover.1) less (omega arith),
                )
                | inr last ↦ ground (
                  arith,
                  block_count,
                  beyond (node_at l k + 1) (blocks t) (unit t) t.size last (cover.0),
                )
              ]
            ])
        where
          even : (l : ℕ) → 0 < l → (j : ℕ) × (2 ^ l ≡ 2 * j)
          even zero h = absurd (omega arith)
          even (suc l) h = (2 ^ l, two-pow-suc l)

          before : (n b u size : ℕ) → ((b * u < size + u) ⊎ (b ≡ 1)) → n < b → 0 < n → n * u < size
          before n b u size (inl p) h pos = grind arith
          before n b u size (inr p) h pos = absurd (omega arith)

          beyond : (n b u size : ℕ) → b ≤ n → size ≤ b * u → size ≤ n * u
          beyond n b u size h p = grind arith
