-- ===== src/Sizes/Rounding.antt =====
-- Rounding up: a size in bytes covers the least number of chunks, or of blocks, that holds it.
use bao_tree.Base.{ℕ, ◌+◌, ◌-◌, ◌*◌, ◌/◌, ◌%◌, ◌^◌, ◌≤◌, ◌<◌, ◌≡◌, arith, bit_and}
use bao_tree.Base.{two-pow-le, two-pow-pos, two-pow-lt, inl, inr, ◌⊎◌}
use native.Mathlib.Nat.{mod-lt, div-add-mod}
use bao_tree.Word.{shl, shr, u64_sub, u64_add}
use bao_tree.Word.Shifts.{shl_exact, shr_exact}
use bao_tree.Word.Bits.{and_mask}
use bao_tree.Sizes.{open_part, chunks, blocks, BlockSize, ByteNum}

-- The mask of `bits` low bits keeps the remainder.
pub mask_lem : (size bits : ℕ) → bits < 64 → bit_and size (u64_sub (shl 1 bits) 1) ≡ size % 2 ^ bits
mask_lem size bits h =
    let one : 1 * 2 ^ bits < 2 ^ 64 = omega (arith, two-pow-lt bits 64 h) in
    let mask : u64_sub (1 * 2 ^ bits) 1 ≡ 2 ^ bits - 1 = omega (arith, two-pow-pos bits) in
    rw (shl_exact 1 bits h one, mask) (and_mask bits size)

-- `n` is the least number of units of `2 ^ bits` bytes that covers `size` bytes.
abbrev pub Covers : ℕ → ℕ → ℕ → Type 0
Covers bits size n = (size ≤ n * 2 ^ bits) × (n * 2 ^ bits < size + 2 ^ bits)

-- The open part counts one unit exactly when a remainder is left.
open_part_lem :
    (size bits : ℕ)
    → bits < 64
    → (open_part size bits ≡ 0) × (size % 2 ^ bits ≡ 0)
      ⊎ (open_part size bits ≡ 1) × (0 < size % 2 ^ bits)
unfolding open_part
open_part_lem size bits h = ground (arith, mask_lem size bits h)

div-le-half : (size bits : ℕ) → 0 < bits → 2 * (size / 2 ^ bits) ≤ size
div-le-half size bits pos =
    let unit : 2 ^ 1 ≤ 2 ^ bits = two-pow-le {m = 1} {n = bits} pos in
    grind (arith, div-add-mod size (2 ^ bits), unit)

pub rounded :
    (size bits : ℕ)
    → bits < 64
    → 0 < bits
    → size < 2 ^ 64
    → Covers bits size (u64_add (shr size bits) (open_part size bits))
rounded size bits h pos fits =
    let half = div-le-half size bits pos in
    let division = div-add-mod size (2 ^ bits) in
    let rest = mod-lt size (two-pow-pos bits) in
    rw (shr_exact size bits h) (elim (open_part_lem size bits h) [
      | inl (e, r) ↦
          let n : u64_add (size / 2 ^ bits) (open_part size bits) ≡ size / 2 ^ bits = omega arith in
          rw n (omega (arith, two-pow-pos bits))
      | inr (e, r) ↦
          let n : u64_add (size / 2 ^ bits) (open_part size bits) ≡ size / 2 ^ bits + 1 =
            omega arith in
          rw n (omega arith)
    ])

-- `ByteNum::chunks` is the least number of chunks that covers the size.
pub chunks-Covers : (size : ByteNum) → size < 2 ^ 64 → Covers 10 size (chunks size)
unfolding chunks
chunks-Covers size h = rounded size 10 (omega arith) (omega arith) h

-- `ByteNum::blocks` is the least number of blocks that covers the size.
pub blocks-Covers :
    (size : ByteNum) (b : BlockSize) → b < 54 → size < 2 ^ 64 → Covers (b + 10) size (blocks size b)
unfolding blocks
blocks-Covers size b h p = rounded size (b + 10) (omega arith) (omega arith) p

-- The least number is unique.
pub Covers-unique : (bits size n m : ℕ) → Covers bits size n → Covers bits size m → n ≡ m
Covers-unique bits size n m p q = grind (arith, two-pow-pos bits)
