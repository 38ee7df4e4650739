-- ===== src/Reference/Levels.antt =====
-- The level of a subtree by its number of bytes.
use bao_tree.Base.{
  ℕ, zero, suc, ◌+◌, ◌-◌, ◌*◌, ◌/◌, ◌%◌, ◌^◌, ◌≤◌, ◌<◌, ◌≡◌, arith, inr, ◌==◌, if◌then◌else◌,
  two-pow-suc, two-pow-le, two-pow-pos, two-pow-add, two-pow-lt, log_up, ◌∙◌, ap, sym,
}
use bao_tree.Word.{u64_add, bit_not, trailing_zeros, low_ones}
use bao_tree.Word.Shifts.{next_power_of_two_lem}
use bao_tree.Word.Counts.{low_ones_lem}
use bao_tree.Hashing.{chunk_count, mid_bytes}
use bao_tree.Reference.{level_of}

trailing_zeros-two_pow : (n : ℕ) → n < 64 → trailing_zeros (2 ^ n) ≡ n
unfolding trailing_zeros
trailing_zeros-two_pow n h = from (2 ^ (63 - n) - 1) (omega (arith, two-pow-pos (63 - n)))
  where
    from : (k : ℕ) → 2 ^ (63 - n) ≡ k + 1 → low_ones 64 (bit_not (2 ^ n)) ≡ n
    from k e =
        let sum : 63 - n + n ≡ 63 = omega arith in
        let whole : 2 ^ (63 - n) * 2 ^ n ≡ 2 ^ 63 =
          sym (two-pow-add (63 - n) n) ∙ ap (λ m. 2 ^ m) sum in
        let split : (k + 1) * 2 ^ n ≡ 2 ^ 63 = ap (λ m. m * 2 ^ n) (sym e) ∙ whole in
        let bound = two-pow-lt n 64 h in
        let twice : (2 * k + 1) * 2 ^ n + 2 ^ n ≡ 2 ^ 64 = grind (arith, split) in
        low_ones_lem 64 n k (bit_not (2 ^ n)) (omega (arith, twice, bound, two-pow-pos n))
          (omega (arith, two-pow-pos n))

-- More than `2 ^ j` chunks and at most twice as many.
pub record HasLevel (size j : ℕ) : Type 0 where
  pub above : 2 ^ j * 1024 < size
  pub within : size ≤ 2 * 2 ^ j * 1024
  pub low : j ≤ 50

pub count_lem : (size j : ℕ) → HasLevel size j → chunk_count size ≡ 2 * 2 ^ j
unfolding chunk_count
count_lem size j h =
    let n = u64_add (size / 1024) (if size % 1024 == 0 then 0 else 1) in
    let bound = two-pow-le {m = j} {n = 50} h.low in
    let most : n ≤ 2 ^ suc j = ground (arith, h.above, h.within, bound, two-pow-suc j) in
    let least : 2 ^ suc j < 2 * n = ground (arith, h.above, h.within, bound, two-pow-suc j) in
    next_power_of_two_lem (suc j) n (omega (arith, h.low)) most (inr least) ∙ two-pow-suc j

pub level_of_lem : (size j : ℕ) → HasLevel size j → level_of size ≡ j
unfolding level_of
level_of_lem size j h =
    let tz = trailing_zeros-two_pow (suc j) (omega (arith, h.low)) in
    rw (count_lem size j h) (omega (arith, tz, ap trailing_zeros (two-pow-suc j)))

pub mid_bytes_lem : (size j : ℕ) → HasLevel size j → mid_bytes (chunk_count size) ≡ 2 ^ j * 1024
unfolding mid_bytes
mid_bytes_lem size j h =
    let bound = two-pow-le {m = j} {n = 50} h.low in omega (arith, count_lem size j h, bound)

pub some_level : (size : ℕ) → 1024 < size → size ≤ 2 ^ 60 → (j : ℕ) × HasLevel size j
some_level size large small =
    let n = (size + 1023) / 1024 in from (log_up 50 n (omega arith) (omega arith))
  where
    from :
        (j : ℕ) × (j ≤ 50) × ((size + 1023) / 1024 ≤ 2 ^ j) × (2 ^ j < 2 * ((size + 1023) / 1024))
        → (j : ℕ) × HasLevel size j
    from (zero, low, wide, tight) = absurd (omega (arith, large, wide))
    from (suc j, low, wide, tight) = (
      j,
      record {
        above = omega (arith, tight, two-pow-suc j);
        within = omega (arith, wide, two-pow-suc j);
        low = omega (arith, low);
      },
    )
