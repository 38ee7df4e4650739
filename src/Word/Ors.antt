-- ===== src/Word/Ors.antt =====
-- `|` of a multiple of a power of two with lower digits, as a sum.
use Prim.Native.Nat.{digits, bit_or-bitwise}
use bao_tree.Base.{
  ℕ, zero, suc, ◌+◌, ◌-◌, ◌*◌, ◌/◌, ◌%◌, ◌^◌, ◌≤◌, max, bit_or, ◌≡◌, refl, arith, two-pow-suc,
  two-pow-pos, mul-two-pow-suc,
}

enough : (c d a b : ℕ) → a ≤ c → a ≤ d → digits (λ b. b) max c a b ≡ digits (λ b. b) max d a b
enough zero zero a b p q = refl
enough zero (suc d) zero b p q = refl
enough zero (suc d) (suc a) b p q = absurd (omega arith)
enough (suc c) zero zero b p q = refl
enough (suc c) zero (suc a) b p q = absurd (omega arith)
enough (suc c) (suc d) zero b p q = refl
enough (suc c) (suc d) (suc a) b p q =
    omega (arith, enough c d (suc a / 2) (b / 2) (omega arith) (omega arith))

zero_or : (b : ℕ) → bit_or 0 b ≡ b
zero_or b = bit_or-bitwise 0 b

or_digit : (a b : ℕ) → bit_or a b ≡ 2 * bit_or (a / 2) (b / 2) + max (a % 2) (b % 2)
or_digit zero b = omega (arith, zero_or b, zero_or (b / 2))
or_digit (suc a) b = omega (
  arith,
  bit_or-bitwise (suc a) b,
  bit_or-bitwise (suc a / 2) (b / 2),
  enough a (suc a / 2) (suc a / 2) (b / 2) (omega arith) (omega arith),
)

or_zero_fuel : (c a : ℕ) → a ≤ c → bit_or a 0 ≡ a
or_zero_fuel c zero h = zero_or 0
or_zero_fuel zero (suc a) h = absurd (omega arith)
or_zero_fuel (suc c) (suc a) h =
    omega (arith, or_digit (suc a) 0, or_zero_fuel c (suc a / 2) (omega arith))

pub or_low : (j a : ℕ) → bit_or (a * 2 ^ j) (2 ^ j - 1) ≡ a * 2 ^ j + (2 ^ j - 1)
or_low zero a = omega (arith, or_zero_fuel (a * 1) (a * 1) (omega arith))
or_low (suc j) a =
    let x = a * 2 ^ suc j in
    let y = 2 ^ suc j - 1 in
    let hx : x / 2 ≡ a * 2 ^ j = omega (arith, mul-two-pow-suc a j) in
    let lx : x % 2 ≡ 0 = omega (arith, mul-two-pow-suc a j) in
    let hy : y / 2 ≡ 2 ^ j - 1 = omega (arith, two-pow-suc j, two-pow-pos j) in
    let ly : y % 2 ≡ 1 = omega (arith, two-pow-suc j, two-pow-pos j) in
    let d : bit_or x y ≡ 2 * bit_or (a * 2 ^ j) (2 ^ j - 1) + 1 =
      rw (or_digit x y, hx, hy, lx, ly) (omega arith) in
    omega (arith, d, or_low j a, mul-two-pow-suc a j, two-pow-suc j, two-pow-pos j)
