-- ===== src/Sizes/BlockSizes.antt =====
-- `BlockSize::bytes` and `BlockSize::from_bytes`.
use bao_tree.Base.{
  ℕ, zero, suc, ◌+◌, ◌-◌, ◌*◌, ◌/◌, ◌%◌, ◌^◌, ◌≤◌, ◌<◌, ◌≡◌, arith, inl, inr, lt-cases,
}
use bao_tree.Base.{
  some, two-pow-suc, two-pow-pos, two-pow-lt, two-pow-le, two-pow-add, lt_of_two-pow-lt, ap, ◌∙◌,
  sym,
}
use bao_tree.Word.{ones, count_ones, trailing_zeros, bit_not}
use bao_tree.Word.Counts.{trailing_ones_lem, trailing_zeros-bit_not, count_ones-shift}
use bao_tree.Word.Shifts.{shl_exact}
use bao_tree.Sizes.{BlockSize, bytes, from_bytes}

zero_of_ones : (w a : ℕ) → a < 2 ^ w → ones w a ≡ 0 → a ≡ 0
unfolding ones
zero_of_ones zero a h e = omega arith
zero_of_ones (suc w) a h e =
    omega (arith, zero_of_ones w (a / 2) (omega (arith, two-pow-suc w)) (omega arith))

power_of_ones : (w a : ℕ) → a < 2 ^ w → ones w a ≡ 1 → (k : ℕ) × (a ≡ 2 ^ k)
unfolding ones
power_of_ones zero a h e = absurd (omega arith)
power_of_ones (suc w) a h e = elim (lt-cases 0 (a % 2)) [
  | inl odd ↦
      (0, omega (arith, zero_of_ones w (a / 2) (omega (arith, two-pow-suc w)) (omega arith)))
  | inr even ↦
      let (k, p) = power_of_ones w (a / 2) (omega (arith, two-pow-suc w)) (omega arith) in
      (suc k, omega (arith, two-pow-suc k))
]

trailing_zeros-power : (k : ℕ) → k < 64 → trailing_zeros (2 ^ k) ≡ k
trailing_zeros-power k h =
    let rest = 63 - k in
    let less = two-pow-lt k 64 h in
    let total : rest + k ≡ 63 = omega arith in
    let half : 2 ^ rest * 2 ^ k ≡ 2 ^ 63 = sym (two-pow-add rest k) ∙ ap (λ (t : ℕ). 2 ^ t) total in
    let back : bit_not (bit_not (2 ^ k)) ≡ 2 ^ k = omega arith in
    let number : bit_not (2 ^ k) + 1 ≡ (2 * (2 ^ rest - 1) + 1) * 2 ^ k =
      factor (2 ^ rest) (2 ^ k) (two-pow-pos rest) half (omega arith) in
    ap trailing_zeros (sym back)
    ∙ trailing_zeros-bit_not (bit_not (2 ^ k)) (omega arith)
    ∙ trailing_ones_lem k (2 ^ rest - 1) (bit_not (2 ^ k)) number (omega arith)
  where
    factor : (r u : ℕ) → 1 ≤ r → r * u ≡ 2 ^ 63 → u < 2 ^ 64 → bit_not u + 1 ≡ (2 * (r - 1) + 1) * u
    factor zero u pos e h = absurd (omega arith)
    factor (suc r) u pos e h = let down : suc r - 1 ≡ r = omega arith in rw down (omega (arith, e))

bytes_lem : (b : BlockSize) → b < 54 → bytes b ≡ 2 ^ (10 + b)
unfolding bytes
bytes_lem b h =
    let power : 1024 * 2 ^ b ≡ 2 ^ (10 + b) = omega (arith, two-pow-add 10 b) in
    shl_exact 1024 b (omega arith) (omega (arith, power, two-pow-lt (10 + b) 64 (omega arith)))
    ∙ power

count_ones-power : (k : ℕ) → k < 64 → count_ones (2 ^ k) ≡ 1
unfolding count_ones ones
count_ones-power k h =
    let less = two-pow-lt k 64 h in
    let one : 1 * 2 ^ k ≡ 2 ^ k = omega arith in
    ap count_ones (sym one) ∙ count_ones-shift k 1 (omega arith)

-- The number of bytes in a block of every size whose bytes fit 64 bits gives the block size back.
pub from_bytes-bytes : (b : BlockSize) → b < 54 → from_bytes (bytes b) ≡ some b
unfolding from_bytes
from_bytes-bytes b h =
    let least : 2 ^ 10 ≤ 2 ^ (10 + b) = two-pow-le {m = 10} {n = 10 + b} (omega arith) in
    rw (bytes_lem b h) (
      ground (
        arith,
        count_ones-power (10 + b) (omega arith),
        trailing_zeros-power (10 + b) (omega arith),
        least,
      ))

accepted :
    (n : ℕ) (b : BlockSize)
    → from_bytes n ≡ some b
    → (count_ones n ≡ 1) × (1024 ≤ n) × (b ≡ trailing_zeros n - 10)
unfolding from_bytes
accepted n b e = ground arith

one_digit : (n : ℕ) → n < 2 ^ 64 → count_ones n ≡ 1 → (k : ℕ) × (n ≡ 2 ^ k)
unfolding count_ones
one_digit n h e = power_of_ones 64 n h e

-- Whenever `from_bytes` accepts a 64 bit number, it is the number of bytes in a block of the size
-- returned.
pub bytes-from_bytes : (n : ℕ) (b : BlockSize) → n < 2 ^ 64 → from_bytes n ≡ some b → bytes b ≡ n
bytes-from_bytes n b h e =
    let (one, large, size) = accepted n b e in
    let (k, power) = one_digit n h one in
    let high : k < 64 = lt_of_two-pow-lt k 64 (omega (arith, power)) in
    let low : 9 < k = lt_of_two-pow-lt 9 k (omega (arith, power)) in
    let zeros : b ≡ k - 10 =
      size ∙ ap (λ (t : ℕ). t - 10) (ap trailing_zeros power ∙ trailing_zeros-power k high) in
    let back : 10 + b ≡ k = omega (arith, zeros) in
    bytes_lem b (omega (arith, back)) ∙ ap (λ (t : ℕ). 2 ^ t) back ∙ sym power
