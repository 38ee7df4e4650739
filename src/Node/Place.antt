-- ===== src/Node/Place.antt =====
-- The place of a node: its level `l` and its index `k` among the nodes of that level. The number
-- of the node at a place is `(2 * k + 1) * 2 ^ l - 1`, and every number has a place.
use mathlib.Core.WellFounded
use bao_tree.Base.{ℕ, zero, suc, ◌+◌, ◌-◌, ◌*◌, ◌/◌, ◌%◌, ◌^◌, ◌≤◌, ◌<◌, ◌≡◌}
use bao_tree.Base.{arith, some, two-pow-suc, two-pow-pos, two-pow-lt, mul-two-pow-suc, lt_wf}
use bao_tree.Base.{
  le_of_two-pow-le, bit_and, ◌==◌, ◌∙◌, sym, inl, inr, none, Bool-cases, lt_of_two-pow-lt,
}
use bao_tree.Word.{shl, u64_sub, u64_add, u64_mul}
use bao_tree.Word.Shifts.{shl_exact}
use bao_tree.Word.Bits.{and_one, and_pred, and_neg, and_power}
use bao_tree.Word.Counts.{trailing_ones_lem}
use bao_tree.Node.{TreeNode, level, is_leaf, left_child, right_child, parent}
use bao_tree.Node.{count_below, next_left_ancestor0, chunk_range, mid}

unfoldable pub node_at : ℕ → ℕ → TreeNode
node_at l k = (2 * k + 1) * 2 ^ l - 1

pub suc-node_at : (l k : ℕ) → node_at l k + 1 ≡ 2 * (k * 2 ^ l) + 2 ^ l
unfolding node_at
suc-node_at l k = omega (arith, two-pow-pos l)

pub node_at_lem : (l k n : ℕ) → n + 1 ≡ 2 * (k * 2 ^ l) + 2 ^ l → node_at l k ≡ n
node_at_lem l k n e = omega (arith, suc-node_at l k)

-- In a bounded tree the levels are bounded.
pub level-bound : (l k w : ℕ) → node_at l k < 2 ^ w → l ≤ w
level-bound l k w h = le_of_two-pow-le l w (omega (arith, suc-node_at l k))

-- The two children of a place.
pub node_at-left : (l k : ℕ) → node_at (suc l) k ≡ node_at l (2 * k) + 2 ^ l
node_at-left l k =
    omega (arith, suc-node_at (suc l) k, suc-node_at l (2 * k), two-pow-suc l, mul-two-pow-suc k l)

pub node_at-right : (l k : ℕ) → node_at (suc l) k + 2 ^ l ≡ node_at l (2 * k + 1)
node_at-right l k =
    omega
      (arith, suc-node_at (suc l) k, suc-node_at l (2 * k + 1), two-pow-suc l, mul-two-pow-suc k l)

pub level-node_at : (l k : ℕ) → node_at l k < 2 ^ 64 → level (node_at l k) ≡ l
unfolding level
level-node_at l k h = trailing_ones_lem l k (node_at l k) (omega (arith, suc-node_at l k)) h

pub shl-one : (l : ℕ) → l < 64 → shl 1 l ≡ 2 ^ l
shl-one l h = shl_exact 1 l h (omega (arith, two-pow-lt l 64 h)) ∙ (omega arith)

module _ (l k : ℕ) (fits : node_at l k < 2 ^ 63) where
  pub level-lt : l < 64
  level-lt = omega (arith, level-bound l k 63 fits)

  pub level_lem : level (node_at l k) ≡ l
  level_lem = level-node_at l k (omega arith)

  pub span_lem : shl 1 (level (node_at l k)) ≡ 2 ^ l
  span_lem = rw level_lem (shl-one l level-lt)

module _ (l k : ℕ) (fits : node_at (suc l) k < 2 ^ 63) where
  small : l < 64
  small = omega (arith, level-lt (suc l) k fits)

  pub left_child-node_at : left_child (node_at (suc l) k) ≡ some (node_at l (2 * k))
  unfolding left_child
  left_child-node_at = ground (arith, level_lem (suc l) k fits, shl-one l small, node_at-left l k)

  pub right_child-node_at :
      node_at l (2 * k + 1) < 2 ^ 64
      → right_child (node_at (suc l) k) ≡ some (node_at l (2 * k + 1))
  unfolding right_child
  right_child-node_at h =
      ground (arith, level_lem (suc l) k fits, shl-one l small, node_at-right l k)

-- The digit that `parent` tests: 0 at a left child's place and 1 at a right child's.
module _ (l k u : ℕ) (digit : u < 2) (fits : node_at l (2 * k + u) < 2 ^ 63) (low : l < 63) where
  tested :
      bit_and (node_at l (2 * k + u)) (u64_mul (shl 1 (level (node_at l (2 * k + u)))) 2)
      ≡ u * 2 ^ suc l
  tested =
      let twice : u64_mul (2 ^ l) 2 ≡ 2 ^ suc l =
        omega (arith, two-pow-suc l, two-pow-lt (suc l) 64 (omega arith)) in
      rw (span_lem l (2 * k + u) fits, twice)
        (and_power (suc l) (node_at l (2 * k + u)) k u (2 ^ l - 1)
          (omega (
            arith,
            suc-node_at l (2 * k + u),
            mul-two-pow-suc k l,
            mul-two-pow-suc u l,
            two-pow-pos l,
          ))
          (omega (arith, two-pow-suc l, two-pow-pos l)) digit)

pub parent-left :
    (l k : ℕ) → node_at (suc l) k < 2 ^ 63 → parent (node_at l (2 * k)) ≡ some (node_at (suc l) k)
unfolding parent
parent-left l k h =
    let here : 2 * k + 0 ≡ 2 * k = omega arith in
    let fits : node_at l (2 * k) < 2 ^ 63 = omega (arith, node_at-left l k) in
    let low : l < 63 = omega (arith, level-bound (suc l) k 63 h) in
    ground (
      arith,
      level_lem l (2 * k) fits,
      span_lem l (2 * k) fits,
      rw here at (tested l k 0 (omega arith) (rw here fits) low),
      node_at-left l k,
    )

pub parent-right :
    (l k : ℕ)
    → node_at l (2 * k + 1) < 2 ^ 63
    → parent (node_at l (2 * k + 1)) ≡ some (node_at (suc l) k)
unfolding parent
parent-right l k fits =
    let low : l < 63 =
      lt_of_two-pow-lt l 63 (omega (arith, suc-node_at l (2 * k + 1), two-pow-pos l)) in
    ground (
      arith,
      level_lem l (2 * k + 1) fits,
      span_lem l (2 * k + 1) fits,
      tested l k 1 (omega arith) fits low,
      two-pow-pos (suc l),
      node_at-right l k,
    )

-- Level 63 is the top.
pub parent-top : (k : ℕ) → node_at 63 k < 2 ^ 63 → parent (node_at 63 k) ≡ none
unfolding parent
parent-top k h = ground (arith, level_lem 63 k h)

pub left_child-leaf : (k : ℕ) → node_at 0 k < 2 ^ 63 → left_child (node_at 0 k) ≡ none
unfolding left_child
left_child-leaf k h = ground (arith, level_lem 0 k h)

pub right_child-leaf : (k : ℕ) → node_at 0 k < 2 ^ 63 → right_child (node_at 0 k) ≡ none
unfolding right_child
right_child-leaf k h = ground (arith, level_lem 0 k h)

-- Every number has a place.
pub place : (n : ℕ) → (l : ℕ) × (k : ℕ) × (n ≡ node_at l k)
place n = WellFounded.induction lt_wf {C = λ n. (l : ℕ) × (k : ℕ) × (n ≡ node_at l k)} n step
  where
    step :
        (n : ℕ)
        → ((m : ℕ) → m < n → (l : ℕ) × (k : ℕ) × (m ≡ node_at l k))
        → (l : ℕ) × (k : ℕ) × (n ≡ node_at l k)
    step n ih = elim (Bool-cases (n % 2 == 0)) [
      | inl even ↦ (0, n / 2, sym (node_at_lem 0 (n / 2) n (ground arith)))
      | inr odd ↦
          let (l, k, e) = ih (n / 2) (ground arith) in
          (
            suc l,
            k,
            sym (
                node_at_lem (suc l) k n
                  (ground (arith, suc-node_at l k, two-pow-suc l, mul-two-pow-suc k l))),
          )
    ]

pub is_leaf-node_at : (l k : ℕ) → is_leaf (node_at l k) ≡ (l == 0)
unfolding is_leaf
is_leaf-node_at zero k = ground (arith, and_one (node_at 0 k), suc-node_at 0 k)
is_leaf-node_at (suc l) k = ground (
  arith,
  and_one (node_at (suc l) k),
  suc-node_at (suc l) k,
  mul-two-pow-suc k l,
  two-pow-suc l,
  two-pow-pos l,
)

module _ (l k : ℕ) (fits : node_at l k < 2 ^ 63) where
  place_lem : node_at l k + 1 ≡ (2 * k + 1) * 2 ^ l
  place_lem = omega (arith, suc-node_at l k)

  plus_one : u64_add (node_at l k) 1 ≡ node_at l k + 1
  plus_one = omega arith

  pub mid-node_at : mid (node_at l k) ≡ node_at l k + 1
  unfolding mid
  mid-node_at = omega arith

  pub chunk_range-node_at :
      l < 63
      → ((chunk_range (node_at l k)).start ≡ k * 2 ^ suc l)
        × ((chunk_range (node_at l k)).end ≡ (k + 1) * 2 ^ suc l)
  unfolding chunk_range
  chunk_range-node_at low = ground (
    arith,
    span_lem l k fits,
    suc-node_at l k,
    mul-two-pow-suc k l,
    two-pow-suc l,
    two-pow-lt l 63 low,
  )

  pub count_below-node_at : count_below (node_at l k) ≡ 2 * 2 ^ l - 2
  unfolding count_below
  count_below-node_at =
      let minus : u64_sub 0 (node_at l k + 1) ≡ 2 ^ 64 - (node_at l k + 1) = omega arith in
      rw (plus_one, minus, and_neg 64 l k (node_at l k + 1) place_lem (omega arith))
        (omega (arith, suc-node_at l k, two-pow-pos l))

  without_lowest :
      bit_and (u64_add (node_at l k) 1) (u64_sub (u64_add (node_at l k) 1) 1) ≡ k * 2 ^ suc l
  without_lowest =
      let minus : u64_sub (node_at l k + 1) 1 ≡ node_at l k + 1 - 1 = omega arith in
      rw (plus_one, minus, and_pred l k (node_at l k + 1) place_lem)
        (omega (arith, mul-two-pow-suc k l))

pub next_left_ancestor0-first :
    (l : ℕ) → node_at l 0 < 2 ^ 63 → next_left_ancestor0 (node_at l 0) ≡ none
unfolding next_left_ancestor0
next_left_ancestor0-first l fits = ground (arith, without_lowest l 0 fits)

pub next_left_ancestor0-later :
    (l k : ℕ)
    → node_at l (suc k) < 2 ^ 63
    → next_left_ancestor0 (node_at l (suc k)) ≡ some (suc k * 2 ^ suc l - 1)
unfolding next_left_ancestor0
next_left_ancestor0-later l k fits =
    ground (arith, without_lowest l (suc k) fits, two-pow-pos (suc l))
