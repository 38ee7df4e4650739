-- ===== src/Word.antt =====
-- The operations of Rust's `u64` that the crate uses. They are the standard library's, written
-- here by their documented meaning: arithmetic wraps, as it does in the release profile, and a
-- shift uses its count modulo the width.
pub mod Ors
pub mod Bits
pub mod Counts
pub mod Shifts
pub mod Bytes
use bao_tree.Base.{ℕ, zero, suc, ◌+◌, ◌-◌, ◌*◌, ◌/◌, ◌%◌, ◌^◌, leb, ◌==◌, if◌then◌else◌}
use bao_tree.Base.{Option, none, some, ltb, List, [], ◌∷◌}

-- The value of an expression of type `u64`.
abbrev pub u64 : ℕ → ℕ
u64 n = n % 2 ^ 64

abbrev pub u64_add : ℕ → ℕ → ℕ
u64_add a b = u64 (a + b)

-- `-` on ℕ stops at 0, so the modulus is added first.
abbrev pub u64_sub : ℕ → ℕ → ℕ
u64_sub a b = u64 (a + 2 ^ 64 - b)

abbrev pub u64_mul : ℕ → ℕ → ℕ
u64_mul a b = u64 (a * b)

abbrev pub saturating_sub : ℕ → ℕ → ℕ
saturating_sub a b = a - b

abbrev pub checked_sub : ℕ → ℕ → Option ℕ
checked_sub a b = if ltb a b then none else some (a - b)

-- `!a`
abbrev pub bit_not : ℕ → ℕ
bit_not a = 2 ^ 64 - 1 - a

unfoldable pub shl : ℕ → ℕ → ℕ
shl a s = u64 (a * 2 ^ (s % 64))

unfoldable pub shr : ℕ → ℕ → ℕ
shr a s = a / 2 ^ (s % 64)

-- Over the `w` lowest binary digits: how many are one, and how many ones stand below the first
-- zero.
unfoldable pub ones : ℕ → ℕ → ℕ
ones zero a = 0
ones (suc w) a = ones w (a / 2) + a % 2

unfoldable pub low_ones : ℕ → ℕ → ℕ
low_ones zero a = 0
low_ones (suc w) a = let rest = low_ones w (a / 2) in if a % 2 == 1 then rest + 1 else 0

unfoldable pub count_ones : ℕ → ℕ
count_ones a = ones 64 a

unfoldable pub trailing_ones : ℕ → ℕ
trailing_ones a = low_ones 64 a

unfoldable pub trailing_zeros : ℕ → ℕ
trailing_zeros a = low_ones 64 (bit_not a)

-- The first of `p`, `2 * p`, `4 * p`, … that is at least `a`, among the first `w`.
unfoldable pub power_from : ℕ → ℕ → ℕ → ℕ
power_from zero p a = 0
power_from (suc w) p a = let rest = power_from w (2 * p) a in if leb a p then p else rest

-- Zero above the largest power of two, as in the release profile.
unfoldable pub next_power_of_two : ℕ → ℕ
next_power_of_two a = power_from 64 1 a

-- The eight bytes of a `u64`, the least first; and the number that the first eight bytes give.
unfoldable pub le_bytes : ℕ → ℕ → List ℕ
le_bytes zero a = []
le_bytes (suc k) a = a % 256 ∷ le_bytes k (a / 256)

unfoldable pub to_le_bytes : ℕ → List ℕ
to_le_bytes a = le_bytes 8 a

unfoldable pub from_le_bytes : List ℕ → ℕ
from_le_bytes [] = 0
from_le_bytes (x ∷ xs) = x + 256 * from_le_bytes xs
