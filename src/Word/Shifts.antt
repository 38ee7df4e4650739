-- ===== src/Word/Shifts.antt =====
-- Shifts and `next_power_of_two` at variables.
use bao_tree.Base.{ℕ, zero, suc, ◌+◌, ◌*◌, ◌/◌, ◌^◌, ◌≤◌, ◌<◌, ◌≡◌, refl, arith}
use bao_tree.Base.{two-pow-suc, lt_of_two-pow-lt, lt-cases, le→leb, gt→leb, inl, inr, ap, ◌⊎◌}
use native.Mathlib.Nat.{mod-eq_of_lt}
use bao_tree.Word.{shl, shr, power_from, next_power_of_two}

-- A shift that loses nothing.
pub shl_exact : (a s : ℕ) → s < 64 → a * 2 ^ s < 2 ^ 64 → shl a s ≡ a * 2 ^ s
unfolding shl
shl_exact a s h p = rw (mod-eq_of_lt h) (mod-eq_of_lt p)

pub shr_exact : (a s : ℕ) → s < 64 → shr a s ≡ a / 2 ^ s
unfolding shr
shr_exact a s h = rw (mod-eq_of_lt h) refl

power_from_lem :
    (w i j a : ℕ)
    → i + w ≡ 64
    → i ≤ j
    → j < 64
    → a ≤ 2 ^ j
    → ((i ≡ j) ⊎ (2 ^ j < 2 * a))
    → power_from w (2 ^ i) a ≡ 2 ^ j
unfolding power_from
power_from_lem zero i j a e h b p q = absurd (omega arith)
power_from_lem (suc w) i j a e h b p q = elim (lt-cases (2 ^ i) a) [
  | inl more ↦
      let below : i < j = lt_of_two-pow-lt i j (omega arith) in
      let two = two-pow-suc i in
      let ih = power_from_lem w (suc i) j a (omega arith) below b p (ground arith) in
      rw (gt→leb a (2 ^ i) more, ← two) ih
  | inr here ↦
      let same : i ≡ j = last i j h here q in rw (le→leb a (2 ^ i) here) (ap (λ t. 2 ^ t) same)
]
  where
    last : (i j : ℕ) → i ≤ j → a ≤ 2 ^ i → ((i ≡ j) ⊎ (2 ^ j < 2 * a)) → i ≡ j
    last i j h here (inl e) = e
    last i j h here (inr q) =
        let le : j ≤ i = omega (arith, lt_of_two-pow-lt j (suc i) (omega (arith, two-pow-suc i))) in
        omega arith

-- `2 ^ j` is the least power of two that is at least `a`.
pub next_power_of_two_lem :
    (j a : ℕ) → j < 64 → a ≤ 2 ^ j → ((j ≡ 0) ⊎ (2 ^ j < 2 * a)) → next_power_of_two a ≡ 2 ^ j
unfolding next_power_of_two
next_power_of_two_lem j a b p (inl e) =
    power_from_lem 64 0 j a refl (omega arith) b p (inl (omega arith))
next_power_of_two_lem j a b p (inr q) = power_from_lem 64 0 j a refl (omega arith) b p (inr q)
