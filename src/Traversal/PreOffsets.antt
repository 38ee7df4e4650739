-- ===== src/Traversal/PreOffsets.antt =====
-- `pre_order_offset_loop` gives the index of a node in the pre order traversal.
use bao_tree.Base.{ℕ, zero, suc, ◌+◌, ◌-◌, ◌*◌, ◌/◌, ◌%◌, ◌^◌, ◌≤◌, ◌<◌, ◌≡◌, refl, arith, bit_and}
use bao_tree.Base.{get_elem?, some, ap, ◌∙◌, sym, ◌⊎◌, inl, inr, lt-cases}
use bao_tree.Base.{two-pow-suc, two-pow-pos, two-pow-lt, two-pow-le, mul-two-pow-suc, log_up}
use bao_tree.Base.{if◌then◌else◌, ltb, ◌==◌}
use bao_tree.Word.{count_ones, shl, u64_add, u64_sub, u64_mul, bit_not, trailing_zeros}
use bao_tree.Word.Counts.{count_ones-le, trailing_zeros-bit_not}
use bao_tree.Node.{TreeNode, level, parent}
use bao_tree.Node.{count_parents, pre_order_offset_loop}
use bao_tree.Node.Place.{node_at, suc-node_at, place, level_lem, level-lt, shl-one}
use bao_tree.Node.Climb.{parent_lem, index-bound}
use bao_tree.Traversal.{pre_order, below}
use bao_tree.Traversal.Parts.{pre_order-leaf_in, pre_order-branch_in, pre_order-branch_out}
use bao_tree.Traversal.Index.{PreAt, pre_climb, valid_above}
use bao_tree.Traversal.PostOffsets.{under_root, left_count}

-- One round of the loop that counts parents climbs to the parent.
loop_climbs :
    (l k : ℕ)
    → node_at l k < 2 ^ 63
    → l < 63
    → (if bit_and (node_at l k) (u64_mul (2 ^ l) 2) == 0
        then u64_add (node_at l k) (2 ^ l)
        else u64_sub (node_at l k) (2 ^ l))
      ≡ node_at (suc l) (k / 2)
unfolding parent
loop_climbs l k h low =
    let up = (parent_lem l k (k / 2) (k % 2) low (omega arith) (omega arith) h).0 in
    ground (arith, up, level_lem l k h, shl-one l (omega arith))

module _ (len : ℕ) where
  -- A node opens the traversal of its subtree.
  pre_own : (l k : ℕ) → node_at l k < len → PreAt len l k 0 (node_at l k)
  pre_own zero k h = rw (pre_order-leaf_in len k h) refl
  pre_own (suc l) k h = rw (pre_order-branch_in len l k h) refl

  -- A tree of one more level has the same nodes below `len`.
  pre_grow :
      (d l : ℕ) {top : ℕ}
      → l + d ≡ top
      → len < 2 * 2 ^ l
      → below len (pre_order top 0) ≡ below len (pre_order l 0)
  pre_grow zero l e h = ap (λ t. below len (pre_order t 0)) (omega arith)
  pre_grow (suc d) l e h =
      pre_grow d (suc l) (omega arith) (omega (arith, two-pow-suc l))
      ∙ pre_order-branch_out len l 0 (omega (arith, suc-node_at (suc l) 0, two-pow-suc l))

  -- The loop counts the valid ancestors up to the level where the tree ends.
  count_parents_lem :
      (f l k c r : ℕ)
      → node_at l k < 2 ^ 63
      → l + suc r ≤ 63
      → r < f
      → len ≤ 2 ^ (l + suc r)
      → ((r ≡ 0) ⊎ (2 ^ (l + r) < len))
      → count_parents f (node_at l k) (2 ^ l) c len ≡ some (c + valid_above len (suc r) l k)
  unfolding count_parents valid_above
  count_parents_lem zero l k c r h low fuel wide tight = absurd (omega arith)
  count_parents_lem (suc f) l k c zero h low fuel wide tight =
      let one : l + 1 ≡ suc l = omega arith in
      let span : u64_mul (2 ^ l) 2 ≡ 2 ^ suc l =
        omega (arith, two-pow-suc l, two-pow-lt (suc l) 64 (omega arith)) in
      let wide' : len ≤ 2 ^ suc l = rw one at wide in
      ground (arith, loop_climbs l k h (omega arith), span, wide')
  count_parents_lem (suc f) l k c (suc r) h low fuel wide (inl absurd_case) = absurd (omega arith)
  count_parents_lem (suc f) l k c (suc r) h low fuel wide (inr tight) =
      let up = (parent_lem l k (k / 2) (k % 2) (omega arith) (omega arith) (omega arith) h) in
      let span : u64_mul (2 ^ l) 2 ≡ 2 ^ suc l =
        omega (arith, two-pow-suc l, two-pow-lt (suc l) 64 (omega arith)) in
      let more : 2 ^ suc l < len = below_bound l r tight in
      let up_one : l + suc (suc r) ≡ suc l + suc r = omega arith in
      let count = if ltb (node_at (suc l) (k / 2)) len then c + 1 else c in
      let ih =
        count_parents_lem f (suc l) (k / 2) count r (up.1) (omega arith) (omega arith)
          (rw up_one at wide) (next_tight l r tight) in
      ground (arith, loop_climbs l k h (omega arith), span, more, ih)
    where
      below_bound : (l r : ℕ) → 2 ^ (l + suc r) < len → 2 ^ suc l < len
      below_bound l r h = omega (arith, h, two-pow-le {m = suc l} {n = l + suc r} (omega arith))

      next_tight : (l r : ℕ) → 2 ^ (l + suc r) < len → (r ≡ 0) ⊎ (2 ^ (suc l + r) < len)
      next_tight l r h = let e : l + suc r ≡ suc l + r = omega arith in inr (rw e at h)

  -- The levels that the loop climbs: up to the first whose nodes span the tree.
  rounds :
      (l top : ℕ)
      → 0 < len
      → top ≤ 61
      → l ≤ top
      → len < 2 * 2 ^ top
      → (r : ℕ) × (l + suc r ≤ 62) × (len ≤ 2 ^ (l + suc r)) × ((r ≡ 0) ⊎ (2 ^ (l + r) < len))
  rounds l top pos low under small =
      let (m, bound, wide, tight) = log_up (suc top) len pos (omega (arith, two-pow-suc top)) in
      elim (lt-cases (suc l) m) [
        | inl more ↦
            let r = m - l - 1 in
            let e : l + suc r ≡ m = omega arith in
            let e' : suc (l + r) ≡ m = omega arith in
            (
              r,
              omega arith,
              rw e wide,
              inr (omega (arith, two-pow-suc (l + r), ap (λ (t : ℕ). 2 ^ t) e')),
            )
        | inr one ↦
            let e : l + 1 ≡ suc l = omega arith in
            (
              0,
              omega arith,
              rw e (omega (arith, wide, two-pow-le {m = m} {n = suc l} one)),
              inl refl,
            )
      ]

  -- Trees of any two heights that hold all nodes give the same traversal.
  pre_same :
      (l m : ℕ)
      → len < 2 * 2 ^ l
      → len < 2 * 2 ^ m
      → below len (pre_order l 0) ≡ below len (pre_order m 0)
  pre_same l m a b = elim (lt-cases l m) [
    | inl less ↦ sym (pre_grow (m - l) l (omega arith) a)
    | inr more ↦ pre_grow (l - m) m (omega arith) b
  ]

  valid_above-le : (r l k : ℕ) → valid_above len r l k ≤ r
  unfolding valid_above
  valid_above-le zero l k = omega arith
  valid_above-le (suc r) l k = ground (arith, valid_above-le r (suc l) (k / 2))

  -- The loop's result, from the count of parents.
  loop_result :
      (l k c j : ℕ)
      → node_at l k < 2 ^ 63
      → c ≤ 63
      → count_parents 66 (node_at l k) (2 ^ l) 0 len ≡ some c
      → j + count_ones k ≡ k * 2 ^ suc l + c
      → pre_order_offset_loop (node_at l k) len ≡ some j
  unfolding pre_order_offset_loop
  loop_result l k c j h small counted p =
      let ones = trailing_zeros-bit_not (node_at l k) (omega arith) in
      let lev : trailing_zeros (bit_not (node_at l k)) ≡ l =
        unfold level in (ones ∙ level_lem l k h) in
      let span : shl 1 (trailing_zeros (bit_not (node_at l k))) ≡ 2 ^ l =
        rw lev (shl-one l (level-lt l k h)) in
      let left : u64_sub (u64_add (node_at l k) 1) (2 ^ l) ≡ k * 2 ^ suc l =
        omega (arith, suc-node_at l k, mul-two-pow-suc k l) in
      let bound : k * 2 ^ suc l < 2 ^ 63 =
        omega (arith, suc-node_at l k, mul-two-pow-suc k l, two-pow-pos l) in
      let some_left : count_ones (k * 2 ^ suc l) ≡ count_ones k = left_count l k h in
      let less = count_ones-le (k * 2 ^ suc l) in
      rw (span, counted, pre_order_offset_loop)
        (rw (span, left, some_left) (ap some (omega (arith, p, less, some_left))))

  pre_place :
      (l k top : ℕ)
      → node_at l k < len
      → top ≤ 61
      → len < 2 * 2 ^ top
      → (i : ℕ) × (pre_order_offset_loop (node_at l k) len ≡ some i)
        × (get_elem? (below len (pre_order top 0)) i ≡ some (node_at l k))
  pre_place l k top here low small =
      let (ru, e, k_root) = under_root len l k top here small in
      let (r, bound, wide, tight) = rounds l top (omega arith) low (omega arith) small in
      let fits : node_at l k < 2 ^ 63 = omega (arith, two-pow-le {m = top} {n = 61} low) in
      let up : node_at l k < 2 ^ suc (l + suc r) = omega (arith, two-pow-suc (l + suc r)) in
      let k_small = index-bound l k (suc r) up in
      let (j, p, at) =
        pre_climb len (suc r) l k 0 (node_at l k) (l + suc r) refl k_small (omega arith)
          (omega (arith, suc-node_at l k, mul-two-pow-suc k l, two-pow-pos l)) here
          (pre_own l k here) in
      let counted = count_parents_lem 66 l k 0 r fits (omega arith) (omega arith) wide tight in
      let same = pre_same (l + suc r) top (omega (arith, two-pow-pos (l + suc r))) small in
      (
        j,
        loop_result l k (0 + valid_above len (suc r) l k) j fits
            (omega (arith, valid_above-le (suc r) l k)) counted (omega (arith, p)),
        rw same at at,
      )

-- Below `len`, the loop ends, and its result is the index of the node among the nodes below `len`
-- in pre order.
pub pre_order_offset_loop_lem :
    (len top : ℕ) (n : TreeNode)
    → n < len
    → top ≤ 61
    → len < 2 * 2 ^ top
    → (i : ℕ) × (pre_order_offset_loop n len ≡ some i)
      × (get_elem? (below len (pre_order top 0)) i ≡ some n)
pre_order_offset_loop_lem len top n h low small =
    let (l, k, e) = place n in rw e (pre_place len l k top (rw e at h) low small)
