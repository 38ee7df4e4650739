-- ===== src/Tree/Shape.antt =====
-- The shape of a tree: its blocks, its leaves of two blocks each, and its height.
use bao_tree.Base.{ℕ, ◌+◌, ◌-◌, ◌*◌, ◌/◌, ◌^◌, ◌≤◌, ◌<◌, ◌≡◌, refl, arith, max}
use native.Mathlib.Nat.{add_comm}
use bao_tree.Base.{two-pow-pos, two-pow-le, two-pow-lt, log_up, ap, ◌∙◌, inl, inr, lt-cases}
use bao_tree.Word.{u64_add, u64_sub, shr, next_power_of_two, saturating_sub}
use bao_tree.Word.Shifts.{next_power_of_two_lem}
use bao_tree.Sizes
use bao_tree.Sizes.{open_part}
use bao_tree.Sizes.Rounding.{blocks-Covers}
use bao_tree.Node.Place.{node_at, suc-node_at}
use bao_tree.Tree.{BaoTree, shifted, blocks}

-- Sizes up to 2 ^ 60 bytes, and blocks of up to 2 ^ 60 bytes.
pub record IsValid (t : BaoTree) : Type 0 where
  pub size_fits : t.size ≤ 2 ^ 60
  pub block_fits : t.block_size ≤ 50

abbrev pub leaves : BaoTree → ℕ
leaves t = (blocks t + 1) / 2

-- The shifted tree: its root is the first node of level `height`, it holds a node for each leaf
-- and one for each branch between two leaves.
pub record HasShape (t : BaoTree) (height m : ℕ) : Type 0 where
  pub leaf_count : leaves t ≡ m + 1
  pub root_lem : (shifted t).0 ≡ node_at height 0
  pub len_lem : (shifted t).1 ≡ 2 * m + 1
  pub wide : m + 1 ≤ 2 ^ height
  pub tight : 2 ^ height < 2 * (m + 1)
  pub low : height ≤ 60

module _ (t : BaoTree) (v : IsValid t) where
  pub blocks-bound : (0 < blocks t) × (blocks t ≤ 2 ^ 50)
  unfolding blocks
  blocks-bound =
      let cover =
        blocks-Covers t.size t.block_size (omega (arith, v.block_fits))
          (omega (arith, v.size_fits)) in
      let unit : 2 ^ 10 ≤ 2 ^ (t.block_size + 10) = two-pow-le {m = 10} (omega arith) in
      let n = Sizes.blocks t.size t.block_size in
      let most : n ≤ 2 ^ 50 =
        at_most n (2 ^ (t.block_size + 10)) unit (omega (arith, cover.1, v.size_fits)) in
      (omega arith, omega (arith, most))
    where
      at_most : (n u : ℕ) → 2 ^ 10 ≤ u → n * u < 2 ^ 60 + u → n ≤ 2 ^ 50
      at_most n u a b = elim (lt-cases (2 ^ 50) n) [
        | inl more ↦ absurd (omega (arith, le_mul n u more, a))
        | inr less ↦ less
      ]
        where
          le_mul : (n u : ℕ) → 2 ^ 50 < n → 2 ^ 50 * u + u ≤ n * u
          le_mul n u h = grind arith

  shifted_blocks :
      u64_add (shr t.size (10 + t.block_size)) (open_part t.size (10 + t.block_size))
      ≡ Sizes.blocks t.size t.block_size
  unfolding Sizes.blocks
  shifted_blocks = rw (add_comm 10 t.block_size) refl

  leaf_lem : u64_add (blocks t) 1 / 2 ≡ leaves t
  leaf_lem = omega (arith, blocks-bound)

  shifted_lem :
      shifted t
      ≡ (u64_sub (next_power_of_two (leaves t)) 1, u64_add (leaves t) (saturating_sub (leaves t) 1))
  unfolding shifted
  shifted_lem =
      let same : max
            (u64_add (shr t.size (10 + t.block_size)) (open_part t.size (10 + t.block_size))) 1
          ≡ blocks t =
        unfold blocks in ap (λ n. max n 1) shifted_blocks in
      rw (same, leaf_lem) refl

  pub shape : (height : ℕ) × (m : ℕ) × HasShape t height m
  shape =
      let (h, low, wide, tight) =
        log_up 50 (leaves t) (omega (arith, blocks-bound)) (omega (arith, blocks-bound)) in
      let root : next_power_of_two (leaves t) ≡ 2 ^ h =
        next_power_of_two_lem h (leaves t) (omega (arith, low)) wide (inr tight) in
      let bound = two-pow-lt h 64 (omega (arith, low)) in
      (
        h,
        leaves t - 1,
        record {
          leaf_count = omega (arith, blocks-bound);
          root_lem =
              ap (λ p. p.0) shifted_lem ∙ omega (arith, root, suc-node_at h 0, two-pow-pos h);
          len_lem = ap (λ p. p.1) shifted_lem ∙ omega (arith, blocks-bound);
          wide = omega (arith, wide, blocks-bound);
          tight = omega (arith, tight, blocks-bound);
          low = omega (arith, low);
        },
      )
