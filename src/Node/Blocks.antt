-- ===== src/Node/Blocks.antt =====
-- Between trees of different block sizes: `subtract_block_size` raises a node by levels, and
-- `add_block_size` lowers it again, where it stands high enough.
use native.Mathlib.Nat.{div-add-mod}
use bao_tree.Base.{ℕ, suc, ◌+◌, ◌-◌, ◌*◌, ◌/◌, ◌%◌, ◌^◌, ◌≤◌, ◌<◌, ◌≡◌, arith}
use bao_tree.Base.{two-pow-suc, two-pow-pos, two-pow-lt, two-pow-add, mod_of_eq, div_of_eq}
use bao_tree.Base.{some, none, ap, ◌≢◌, lt-cases, inl, inr}
use bao_tree.Word.{shl, bit_not, u64_sub}
use bao_tree.Word.Shifts.{shr_exact}
use bao_tree.Sizes.Rounding.{mask_lem}
use bao_tree.Node.{subtract_block_size, add_block_size}
use bao_tree.Node.Place.{node_at, suc-node_at}

-- A place raised by `b` levels.
pub raised : (l k b : ℕ) → node_at (l + b) k + 1 ≡ (node_at l k + 1) * 2 ^ b
raised l k b = omega (
  arith,
  suc-node_at (l + b) k,
  ap (λ (t : ℕ). k * t) (two-pow-add l b),
  two-pow-add l b,
  ap (λ (t : ℕ). t * 2 ^ b) (suc-node_at l k),
)

shl_not :
    (n b : ℕ) → b < 64 → (n + 1) * 2 ^ b < 2 ^ 64 → shl (bit_not n) b ≡ 2 ^ 64 - (n + 1) * 2 ^ b
unfolding shl
shl_not n b h fits =
    let small : n + 1 ≤ (n + 1) * 2 ^ b = grind (arith, two-pow-pos b) in
    let count : b % 64 ≡ b = omega arith in
    let not_n : bit_not n ≡ 2 ^ 64 - (n + 1) = omega arith in
    rw (count, not_n)
      (mod_of_eq ((2 ^ 64 - (n + 1)) * 2 ^ b) (2 ^ 64) (2 ^ b - 1) (2 ^ 64 - (n + 1) * 2 ^ b)
        (spread n b small fits) (omega (arith, small)))
  where
    spread :
        (n b : ℕ)
        → n + 1 ≤ (n + 1) * 2 ^ b
        → (n + 1) * 2 ^ b < 2 ^ 64
        → (2 ^ 64 - (n + 1)) * 2 ^ b ≡ (2 ^ b - 1) * 2 ^ 64 + (2 ^ 64 - (n + 1) * 2 ^ b)
    spread n b small fits =
        let d : ℕ = 2 ^ 64 - (n + 1) in
        let e : d + (n + 1) ≡ 2 ^ 64 = omega arith in
        omega (arith, ap (λ (t : ℕ). t * 2 ^ b) e, two-pow-pos b)

pub subtract_block_size-node_at :
    (l k b : ℕ)
    → b < 64
    → node_at (l + b) k < 2 ^ 63
    → subtract_block_size (node_at l k) b ≡ node_at (l + b) k
unfolding subtract_block_size
subtract_block_size-node_at l k b h fits =
    rw (shl_not (node_at l k) b h (omega (arith, raised l k b))) (omega (arith, raised l k b))

low_bits :
    (l k b : ℕ)
    → (node_at (l + b) k % 2 ^ b ≡ 2 ^ b - 1) × (node_at (l + b) k / 2 ^ b ≡ node_at l k)
low_bits l k b =
    let e : node_at (l + b) k ≡ node_at l k * 2 ^ b + (2 ^ b - 1) =
      omega (arith, raised l k b, two-pow-pos b) in
    let small : 2 ^ b - 1 < 2 ^ b = omega (arith, two-pow-pos b) in
    (
      mod_of_eq (node_at (l + b) k) (2 ^ b) (node_at l k) (2 ^ b - 1) e small,
      div_of_eq (node_at (l + b) k) (2 ^ b) (node_at l k) (2 ^ b - 1) e small,
    )

mask_exact : (b : ℕ) → b < 64 → u64_sub (shl 1 b) 1 ≡ 2 ^ b - 1
unfolding shl
mask_exact b h = ground (arith, two-pow-lt b 64 h, two-pow-pos b)

pub add_block_size-node_at :
    (l k b : ℕ) → b < 64 → add_block_size (node_at (l + b) k) b ≡ some (node_at l k)
unfolding add_block_size
add_block_size-node_at l k b h = ground (
  arith,
  mask_lem (node_at (l + b) k) b h,
  mask_exact b h,
  low_bits l k b,
  shr_exact (node_at (l + b) k) b h,
)

-- A node below the block level has a zero among its `b` low bits.
low_bits-small : (l k c : ℕ) → node_at l k % 2 ^ (l + suc c) ≢ 2 ^ (l + suc c) - 1
low_bits-small l k c e =
    let n = node_at l k in
    let q = n / 2 ^ (l + suc c) in
    let whole : n + 1 ≡ (q + 1) * 2 ^ (l + suc c) =
      omega (arith, div-add-mod n (2 ^ (l + suc c)), two-pow-pos (l + suc c)) in
    let split : 2 ^ (l + suc c) ≡ 2 * (2 ^ c * 2 ^ l) =
      omega (arith, two-pow-add l (suc c), ap (λ (t : ℕ). t * 2 ^ l) (two-pow-suc c)) in
    parity k ((q + 1) * 2 ^ c) (2 ^ l) (two-pow-pos l)
      (omega (arith, whole, suc-node_at l k, ap (λ (t : ℕ). (q + 1) * t) split))
  where
    mul-le : (a b p : ℕ) → b ≤ a → b * p ≤ a * p
    mul-le a b p h = grind arith

    parity : (k j p : ℕ) → 1 ≤ p → (2 * k + 1) * p ≡ 2 * j * p → ⊥
    parity k j p h e = elim (lt-cases k j) [
      | inl more ↦ let m : suc k * p ≤ j * p = mul-le j (suc k) p more in omega arith
      | inr less ↦ let m : j * p ≤ k * p = mul-le k j p less in omega arith
    ]

pub add_block_size-small : (l k b : ℕ) → b < 64 → l < b → add_block_size (node_at l k) b ≡ none
unfolding add_block_size
add_block_size-small l k b h low =
    let c = b - l - 1 in
    let e : l + suc c ≡ b = omega arith in
    ground (arith, mask_lem (node_at l k) b h, mask_exact b h, rw e at (low_bits-small l k c))
