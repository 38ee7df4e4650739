-- ===== src/Hashing/Halves.antt =====
-- The two halves of the data in the recursions are shorter than the data.
use bao_tree.Base.{
  ℕ, zero, suc, ◌-◌, ◌*◌, ◌/◌, ◌%◌, ◌^◌, ◌≤◌, ◌<◌, ◌≡◌, arith, inr, two-pow-suc, two-pow-le,
  two-pow-pos, log_up, if◌then◌else◌, ◌==◌, ◌∙◌, length, take, drop, length-take, length-drop, List,
  some,
}
use bao_tree.Word.{u64_add, next_power_of_two}
use bao_tree.Word.Shifts.{next_power_of_two_lem}
use bao_tree.Hashing.{chunk_count, mid_bytes, slices}

-- The number of chunks of the content, rounded up to twice a power of two that is below it.
rounded_up :
    (len n : ℕ)
    → (1 < n) × (n ≤ 2 ^ 50) × ((n - 1) * 1024 < len)
    → (j : ℕ) × (j ≤ 50) × (n ≤ 2 ^ j) × (2 ^ j < 2 * n)
    → (j : ℕ) × (next_power_of_two n ≡ 2 * 2 ^ j) × (2 ^ j * 1024 < len) × (2 ^ j ≤ 2 ^ 50)
rounded_up len n b (zero, low, wide, tight) = absurd (omega (arith, b, wide))
rounded_up len n b (suc j, low, wide, tight) = (
  j,
  next_power_of_two_lem (suc j) n (omega arith) wide (inr tight) ∙ two-pow-suc j,
  omega (arith, b, tight, two-pow-suc j),
  two-pow-le {m = j} {n = 50} (omega arith),
)

counted :
    (len : ℕ)
    → 1024 < len
    → len ≤ 2 ^ 60
    → (j : ℕ) × (chunk_count len ≡ 2 * 2 ^ j) × (2 ^ j * 1024 < len) × (2 ^ j ≤ 2 ^ 50)
unfolding chunk_count
counted len large small =
    let n = u64_add (len / 1024) (if len % 1024 == 0 then 0 else 1) in
    let bounds : (1 < n) × (n ≤ 2 ^ 50) × ((n - 1) * 1024 < len) = ground arith in
    rounded_up len n bounds (log_up 50 n (omega (arith, bounds)) (omega (arith, bounds)))

-- Both halves hold at least one byte.
pub halves :
    (len : ℕ)
    → 1024 < len
    → len ≤ 2 ^ 60
    → (0 < mid_bytes (chunk_count len)) × (mid_bytes (chunk_count len) < len)
unfolding mid_bytes
halves len large small =
    let (j, count, fits, bound) = counted len large small in
    let half : chunk_count len / 2 ≡ 2 ^ j = omega (arith, count) in
    rw half (omega (arith, two-pow-pos j, fits, bound), omega (arith, fits, bound))

pub slices_lem :
    (content : List ℕ)
    → 1024 < length content
    → length content ≤ 2 ^ 60
    → (l : List ℕ) × (r : List ℕ) × (slices (mid_bytes (chunk_count (length content))) content
        ≡ some (l, r))
      × (length l < length content)
      × (length r < length content)
unfolding slices
slices_lem content large small =
    let at = mid_bytes (chunk_count (length content)) in
    let h = halves (length content) large small in
    (
      take at content,
      drop at content,
      ground (arith, h),
      omega (arith, h, length-take at content (omega (arith, h))),
      omega (arith, h, length-drop at content),
    )
