-- ===== src/Word/Counts.antt =====
-- `count_ones`, `trailing_ones` and `trailing_zeros` at variables.
use bao_tree.Base.{ℕ, zero, suc, ◌+◌, ◌*◌, ◌/◌, ◌%◌, ◌^◌, ◌≤◌, ◌<◌, ◌≡◌, refl, arith}
use bao_tree.Base.{two-pow-suc, two-pow-pos, mul-two-pow-suc, ap}
use bao_tree.Word.{ones, low_ones, count_ones, trailing_ones, trailing_zeros, bit_not}

ones_widen : (w a : ℕ) → a < 2 ^ w → ones (suc w) a ≡ ones w a
unfolding ones
ones_widen zero a h = omega arith
ones_widen (suc w) a h = omega (arith, ones_widen w (a / 2) (omega (arith, two-pow-suc w)))

ones-digit : (w a u : ℕ) → u < 2 → 2 * a + u < 2 ^ w → ones w (2 * a + u) ≡ ones w a + u
unfolding ones
ones-digit zero a u h p = let e : a ≡ 0 = omega arith in omega arith
ones-digit (suc w) a u h p =
    let half : (2 * a + u) / 2 ≡ a = omega arith in
    let low : (2 * a + u) % 2 ≡ u = omega arith in
    rw (half, low) (omega (arith, ones_widen w a (omega (arith, two-pow-suc w))))

pub count_ones-double : (a : ℕ) → 2 * a < 2 ^ 64 → count_ones (2 * a) ≡ count_ones a
unfolding count_ones
count_ones-double a h =
    let e : 2 * a + 0 ≡ 2 * a = omega arith in
    let low = ones-digit 64 a 0 (omega arith) (omega arith) in omega (arith, ap (ones 64) e, low)

pub count_ones-double_add_one :
    (a : ℕ) → 2 * a + 1 < 2 ^ 64 → count_ones (2 * a + 1) ≡ count_ones a + 1
unfolding count_ones
count_ones-double_add_one a h = ones-digit 64 a 1 (omega arith) h

-- Zeros at the low end count for nothing.
pub count_ones-shift : (l a : ℕ) → a * 2 ^ l < 2 ^ 64 → count_ones (a * 2 ^ l) ≡ count_ones a
count_ones-shift zero a h = ap count_ones (omega arith)
count_ones-shift (suc l) a h =
    let two = mul-two-pow-suc a l in
    rw (two, count_ones-double (a * 2 ^ l) (omega arith)) (count_ones-shift l a (omega arith))

pub low_ones_lem : (w l k a : ℕ) → a + 1 ≡ (2 * k + 1) * 2 ^ l → a < 2 ^ w → low_ones w a ≡ l
unfolding low_ones
low_ones_lem zero zero k a e h = refl
low_ones_lem zero (suc l) k a e h =
    absurd (omega (arith, two-pow-pos l, mul-two-pow-suc (2 * k + 1) l))
low_ones_lem (suc w) zero k a e h = ground arith
low_ones_lem (suc w) (suc l) k a e h =
    let two = mul-two-pow-suc (2 * k + 1) l in
    let ih =
      low_ones_lem w l k (a / 2) (omega (arith, two-pow-pos l)) (omega (arith, two-pow-suc w)) in
    let odd : a % 2 ≡ 1 = omega (arith, two-pow-pos l) in rw odd (omega arith)

-- `k` is what is above the lowest zero of `a`.
pub trailing_ones_lem : (l k a : ℕ) → a + 1 ≡ (2 * k + 1) * 2 ^ l → a < 2 ^ 64 → trailing_ones a ≡ l
unfolding trailing_ones
trailing_ones_lem l k a e h = low_ones_lem 64 l k a e h

pub trailing_zeros-bit_not : (a : ℕ) → a < 2 ^ 64 → trailing_zeros (bit_not a) ≡ trailing_ones a
unfolding trailing_ones trailing_zeros
trailing_zeros-bit_not a h = ap (low_ones 64) (omega arith)

ones-le : (w a : ℕ) → ones w a ≤ a
unfolding ones
ones-le zero a = omega arith
ones-le (suc w) a = omega (arith, ones-le w (a / 2))

pub count_ones-le : (a : ℕ) → count_ones a ≤ a
unfolding count_ones
count_ones-le a = ones-le 64 a
