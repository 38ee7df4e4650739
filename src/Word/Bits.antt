-- ===== src/Word/Bits.antt =====
-- `&` at variables, as arithmetic. The native operation is given by its binary digits.
use Prim.Native.Nat.{digits, bit_and-bitwise}
use bao_tree.Base.{ℕ, zero, suc, ◌+◌, ◌-◌, ◌*◌, ◌/◌, ◌%◌, ◌^◌, ◌≤◌, ◌<◌, min, bit_and, ◌≡◌, refl}
use native.Mathlib.Nat.{div-add-mod, mod-lt}
use bao_tree.Base.{arith, two-pow-suc, two-pow-pos, mul-two-pow-suc, mod_of_eq}

-- Any fuel that reaches the first argument gives the same digits.
enough : (c d a b : ℕ) → a ≤ c → a ≤ d → digits (λ _. 0) min c a b ≡ digits (λ _. 0) min d a b
enough zero zero a b p q = refl
enough zero (suc d) zero b p q = refl
enough zero (suc d) (suc a) b p q = absurd (omega arith)
enough (suc c) zero zero b p q = refl
enough (suc c) zero (suc a) b p q = absurd (omega arith)
enough (suc c) (suc d) zero b p q = refl
enough (suc c) (suc d) (suc a) b p q =
    omega (arith, enough c d (suc a / 2) (b / 2) (omega arith) (omega arith))

zero_and : (b : ℕ) → bit_and 0 b ≡ 0
zero_and b = bit_and-bitwise 0 b

-- The lowest digit apart.
pub and_digit : (a b : ℕ) → bit_and a b ≡ 2 * bit_and (a / 2) (b / 2) + min (a % 2) (b % 2)
and_digit zero b = omega (arith, zero_and b, zero_and (b / 2))
and_digit (suc a) b = omega (
  arith,
  bit_and-bitwise (suc a) b,
  bit_and-bitwise (suc a / 2) (b / 2),
  enough a (suc a / 2) (suc a / 2) (b / 2) (omega arith) (omega arith),
)

-- The same with both arguments taken apart.
pub and_halves :
    (a b x y u v : ℕ)
    → a ≡ 2 * x + u
    → b ≡ 2 * y + v
    → u < 2
    → v < 2
    → bit_and a b ≡ 2 * bit_and x y + min u v
and_halves a b x y u v e f g h =
    let ex : a / 2 ≡ x = omega arith in
    let fy : b / 2 ≡ y = omega arith in
    let eu : a % 2 ≡ u = omega arith in
    let fv : b % 2 ≡ v = omega arith in ground (arith, and_digit a b)

and_zero_fuel : (c a : ℕ) → a ≤ c → bit_and a 0 ≡ 0
and_zero_fuel c zero h = zero_and 0
and_zero_fuel zero (suc a) h = absurd (omega arith)
and_zero_fuel (suc c) (suc a) h =
    omega (arith, and_digit (suc a) 0, and_zero_fuel c (suc a / 2) (omega arith))

pub and_zero : (a : ℕ) → bit_and a 0 ≡ 0
and_zero a = and_zero_fuel a a (omega arith)

and_self_fuel : (c a : ℕ) → a ≤ c → bit_and a a ≡ a
and_self_fuel c zero h = zero_and 0
and_self_fuel zero (suc a) h = absurd (omega arith)
and_self_fuel (suc c) (suc a) h =
    omega (arith, and_digit (suc a) (suc a), and_self_fuel c (suc a / 2) (omega arith))

pub and_self : (a : ℕ) → bit_and a a ≡ a
and_self a = and_self_fuel a a (omega arith)

mod_halves : (w a : ℕ) → a % 2 ^ suc w ≡ 2 * (a / 2 % 2 ^ w) + a % 2
mod_halves w a =
    let m = 2 ^ w in
    let q = a / 2 / m in
    mod_of_eq a (2 ^ suc w) q (2 * (a / 2 % m) + a % 2)
      (omega (arith, div-add-mod (a / 2) m, mul-two-pow-suc q w))
      (omega (arith, mod-lt (a / 2) (two-pow-pos w), two-pow-suc w))

-- `a & ((1 << w) - 1)`
pub and_mask : (w a : ℕ) → bit_and a (2 ^ w - 1) ≡ a % 2 ^ w
and_mask zero a = omega (arith, and_zero a)
and_mask (suc w) a = omega (
  arith,
  and_halves a (2 ^ suc w - 1) (a / 2) (2 ^ w - 1) (a % 2) 1 (omega arith)
      (omega (arith, two-pow-suc w, two-pow-pos w)) (omega arith) (omega arith),
  and_mask w (a / 2),
  mod_halves w a,
)

pub and_one : (a : ℕ) → bit_and a 1 ≡ a % 2
and_one a = omega (arith, and_digit a 1, and_zero (a / 2))

-- `a & (1 << j)`, where `u` is digit `j` of `a`.
pub and_power :
    (j a q u r : ℕ)
    → a ≡ (2 * q + u) * 2 ^ j + r
    → r < 2 ^ j
    → u < 2
    → bit_and a (2 ^ j) ≡ u * 2 ^ j
and_power zero a q u r e h k =
    omega (arith, and_halves a 1 q 0 u 1 (omega arith) (omega arith) k (omega arith), and_zero q)
and_power (suc j) a q u r e h k = omega (
  arith,
  and_halves a (2 ^ suc j) (a / 2) (2 ^ j) (a % 2) 0 (omega arith) (omega (arith, two-pow-suc j))
      (omega arith) (omega arith),
  and_power j (a / 2) q u (r / 2) (omega (arith, mul-two-pow-suc q j, mul-two-pow-suc u j))
      (omega (arith, two-pow-suc j)) k,
  mul-two-pow-suc u j,
)

-- `x & (x - 1)` clears the lowest one.
pub and_pred : (l k x : ℕ) → x ≡ (2 * k + 1) * 2 ^ l → bit_and x (x - 1) ≡ 2 * k * 2 ^ l
and_pred zero k x e = omega (
  arith,
  and_halves x (x - 1) k k 1 0 (omega arith) (omega arith) (omega arith) (omega arith),
  and_self k,
)
and_pred (suc l) k x e =
    let y = (2 * k + 1) * 2 ^ l in
    let pos : 1 ≤ y = omega (arith, two-pow-pos l) in
    let two : x ≡ 2 * y = omega (arith, mul-two-pow-suc (2 * k + 1) l) in
    omega (
      arith,
      and_halves x (x - 1) y (y - 1) 0 1 (omega arith) (omega arith) (omega arith) (omega arith),
      and_pred l k y (omega arith),
      mul-two-pow-suc k l,
    )

-- `a & !a`, over `w` digits.
pub and_not : (w a : ℕ) → a < 2 ^ w → bit_and a (2 ^ w - 1 - a) ≡ 0
and_not zero a h = let e : a ≡ 0 = omega arith in rw e (zero_and (2 ^ 0 - 1 - 0))
and_not (suc w) a h = omega (
  arith,
  and_halves a (2 ^ suc w - 1 - a) (a / 2) (2 ^ w - 1 - a / 2) (a % 2) (1 - a % 2) (omega arith)
      (omega (arith, two-pow-suc w)) (omega arith) (omega arith),
  and_not w (a / 2) (omega (arith, two-pow-suc w)),
)

-- `x & -x` isolates the lowest one.
pub and_neg : (w l k x : ℕ) → x ≡ (2 * k + 1) * 2 ^ l → x < 2 ^ w → bit_and x (2 ^ w - x) ≡ 2 ^ l
and_neg zero l k x e h = absurd (omega (arith, two-pow-pos l))
and_neg (suc w) zero k x e h = omega (
  arith,
  and_halves x (2 ^ suc w - x) k (2 ^ w - 1 - k) 1 1 (omega arith) (omega (arith, two-pow-suc w))
      (omega arith) (omega arith),
  and_not w k (omega (arith, two-pow-suc w)),
)
and_neg (suc w) (suc l) k x e h =
    let y = (2 * k + 1) * 2 ^ l in
    let two : x ≡ 2 * y = omega (arith, mul-two-pow-suc (2 * k + 1) l) in
    omega (
      arith,
      and_halves x (2 ^ suc w - x) y (2 ^ w - y) 0 0 (omega arith) (omega (arith, two-pow-suc w))
          (omega arith) (omega arith),
      and_neg w l k y (omega arith) (omega (arith, two-pow-suc w)),
      two-pow-suc l,
    )
