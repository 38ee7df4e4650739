-- ===== src/Word/Bytes.antt =====
-- `to_le_bytes` and `from_le_bytes`.
use bao_tree.Base.{ℕ, zero, suc, ◌/◌, ◌^◌, ◌<◌, ◌≡◌, refl, arith, length}
use native.Mathlib.Nat.{pow-suc}
use bao_tree.Word.{le_bytes, to_le_bytes, from_le_bytes}

length-le_bytes : (k a : ℕ) → length (le_bytes k a) ≡ k
unfolding le_bytes
length-le_bytes zero a = refl
length-le_bytes (suc k) a = omega (arith, length-le_bytes k (a / 256))

from-le_bytes : (k a : ℕ) → a < 256 ^ k → from_le_bytes (le_bytes k a) ≡ a
unfolding le_bytes from_le_bytes
from-le_bytes zero a h = omega arith
from-le_bytes (suc k) a h =
    let ih = from-le_bytes k (a / 256) (omega (arith, pow-suc 256 k)) in omega (arith, ih)

pub length-to_le_bytes : (a : ℕ) → length (to_le_bytes a) ≡ 8
unfolding to_le_bytes
length-to_le_bytes a = length-le_bytes 8 a

pub from-to_le_bytes : (a : ℕ) → a < 2 ^ 64 → from_le_bytes (to_le_bytes a) ≡ a
unfolding to_le_bytes
from-to_le_bytes a h = from-le_bytes 8 a (omega arith)
