-- ===== src/Base/Powers.antt =====
-- Powers of two.
use Prim.Native.Nat.{ℕ, zero, suc, ◌+◌, ◌*◌, ◌/◌, ◌%◌, ◌^◌, ◌≤◌, ◌<◌}
use mathlib.Core.Path.{◌≡◌, ap}
use native.Mathlib.Nat.{
  pow-suc, one-le-pow, pow-le-pow_right, div-eq_of_lt-le, mul-add-mod_self_right,
}
use native.Mathlib.Nat.{mod-eq_of_lt}
use native.Mathlib.Decide.{dec_le}
use native.Mathlib.Omega.{arith}

pub two-pow-suc : (n : ℕ) → 2 ^ suc n ≡ 2 * 2 ^ n
two-pow-suc n = omega (arith, pow-suc 2 n)

pub mul-two-pow-suc : (q n : ℕ) → q * 2 ^ suc n ≡ 2 * (q * 2 ^ n)
mul-two-pow-suc q n = omega (arith, ap (λ (t : ℕ). q * t) (pow-suc 2 n))

pub two-pow-pos : (n : ℕ) → 1 ≤ 2 ^ n
two-pow-pos n = one-le-pow n 2 (omega arith)

pub two-pow-le : {m n : ℕ} → m ≤ n → 2 ^ m ≤ 2 ^ n
two-pow-le h = pow-le-pow_right (omega arith) h

pub two-pow-lt : (m n : ℕ) → m < n → 2 ^ m < 2 ^ n
two-pow-lt m n h =
    let h' : 2 ^ suc m ≤ 2 ^ n = two-pow-le h in omega (arith, two-pow-suc m, two-pow-pos m)

-- Exponents compare as the powers do.
pub le_of_two-pow-le : (m n : ℕ) → 2 ^ m ≤ 2 ^ n → m ≤ n
le_of_two-pow-le m n h = grind (arith, two-pow-lt n m)

pub lt_of_two-pow-lt : (m n : ℕ) → 2 ^ m < 2 ^ n → m < n
lt_of_two-pow-lt zero zero h = absurd (omega arith)
lt_of_two-pow-lt zero (suc n) h = omega arith
lt_of_two-pow-lt (suc m) zero h = absurd (omega (arith, two-pow-pos (suc m)))
lt_of_two-pow-lt (suc m) (suc n) h =
    let ih : m < n = lt_of_two-pow-lt m n (omega (arith, two-pow-suc m, two-pow-suc n)) in
    omega arith

-- Quotient and remainder, from a division that is at hand.
pub div_of_eq : (a m q r : ℕ) → a ≡ q * m + r → r < m → a / m ≡ q
div_of_eq a m q r e h = div-eq_of_lt-le m (omega arith) (omega arith)

pub mod_of_eq : (a m q r : ℕ) → a ≡ q * m + r → r < m → a % m ≡ r
mod_of_eq a m q r e h = rw (e, mul-add-mod_self_right q m r) (mod-eq_of_lt h)

pub two-pow-add : (m n : ℕ) → 2 ^ (m + n) ≡ 2 ^ m * 2 ^ n
two-pow-add zero n = let e : zero + n ≡ n = omega arith in rw e (omega arith)
two-pow-add (suc m) n =
    let e : suc m + n ≡ suc (m + n) = omega arith in
    rw e (omega (arith, two-pow-suc m, two-pow-suc (m + n), two-pow-add m n, double))
  where
    double : 2 ^ suc m * 2 ^ n ≡ 2 * (2 ^ m * 2 ^ n)
    double = omega (arith, ap (λ (t : ℕ). t * 2 ^ n) (two-pow-suc m))

-- The exponent of the least power of two that is at least `n`, below a bound.
pub log_up : (w n : ℕ) → 0 < n → n ≤ 2 ^ w → (j : ℕ) × (j ≤ w) × (n ≤ 2 ^ j) × (2 ^ j < 2 * n)
log_up zero n p h = (0, omega arith, h, omega arith)
log_up (suc w) n p h = elim (dec_le n (2 ^ w)) [
  | yes fits ↦ let (j, a, b, c) = log_up w n p fits in (j, omega arith, b, c)
  | no more ↦ (suc w, omega arith, h, omega (arith, two-pow-suc w))
]

-- Products by a common factor.
pub mul-le : (a b u : ℕ) → a ≤ b → a * u ≤ b * u
mul-le a b u h = grind arith

pub le_of_mul-lt : (a b u : ℕ) → a * u < b * u + u → a ≤ b
le_of_mul-lt a b u h = elim (dec_le a b) [
  | yes less ↦ less
  | no more ↦ absurd (omega (arith, mul-le (suc b) a u (omega arith)))
]

pub le_of_mul-le : (a b u : ℕ) → 1 ≤ u → a * u ≤ b * u → a ≤ b
le_of_mul-le a b u pos h = le_of_mul-lt a b u (omega arith)
