-- ===== src/Node/Climb.antt =====
-- The loops of `TreeNode`: `restricted_parent` climbs to the nearest ancestor below `len`, and
-- `right_descendant` goes down to the first node below `len`.
use bao_tree.Base.{ℕ, zero, suc, ◌+◌, ◌-◌, ◌*◌, ◌/◌, ◌%◌, ◌^◌, ◌≤◌, ◌<◌, ◌≡◌, refl, arith}
use bao_tree.Base.{
  some, none, two-pow-suc, two-pow-pos, two-pow-add, two-pow-lt, inl, inr, lt-cases,
}
use bao_tree.Base.{◌∙◌, ap₂}
use bao_tree.Node.{
  parent, restricted_parent, restricted_parent_loop, descend_loop, right_descendant,
}
use bao_tree.Node.Place.{
  node_at, suc-node_at, parent-left, parent-right, parent-top, left_child-node_at,
  right_child-node_at, level-bound,
}

-- Among the nodes below `2 ^ w`, the places of level `l` are those with `k < 2 ^ (w - l - 1)`.
pub node_at-fits : (l k s : ℕ) → k < 2 ^ s → node_at l k < 2 ^ suc (l + s)
node_at-fits l k s h =
    grind (arith, suc-node_at l k, two-pow-suc (l + s), two-pow-add l s, two-pow-pos l)

pub index-bound : (l k s : ℕ) → node_at l k < 2 ^ suc (l + s) → k < 2 ^ s
index-bound l k s h =
    grind (arith, suc-node_at l k, two-pow-suc (l + s), two-pow-add l s, two-pow-pos l)

parent-fits :
    (l k q u : ℕ)
    → l < 63
    → k ≡ 2 * q + u
    → u < 2
    → node_at l k < 2 ^ 63
    → node_at (suc l) q < 2 ^ 63
parent-fits l k q u low e digit h = elim (lt-cases l 62) [
  | inl more ↦
      let s = 61 - l in
      let w : suc (l + suc s) ≡ 63 = omega arith in
      let k_small : k < 2 ^ suc s = index-bound l k (suc s) (rw w h) in
      let w' : suc (suc l + s) ≡ 63 = omega arith in
      rw w' at (node_at-fits (suc l) q s (omega (arith, two-pow-suc s)))
  | inr last ↦
      let w : suc (l + 0) ≡ 63 = omega arith in
      let k_small : k < 2 ^ 0 = index-bound l k 0 (rw w h) in
      let l_last : l ≡ 62 = omega arith in
      let q_first : q ≡ 0 = omega arith in
      let top : node_at (suc l) q ≡ node_at 63 0 = ap₂ node_at (omega arith) q_first in
      omega (arith, top, suc-node_at 63 0)
]

-- Every node below level 63 has the parent whose place is above its own.
pub parent_lem :
    (l k q u : ℕ)
    → l < 63
    → k ≡ 2 * q + u
    → u < 2
    → node_at l k < 2 ^ 63
    → (parent (node_at l k) ≡ some (node_at (suc l) q)) × (node_at (suc l) q < 2 ^ 63)
parent_lem l k q u low e digit h = (
  elim (lt-cases 0 u) [
    | inl odd ↦ let e' : k ≡ 2 * q + 1 = omega arith in rw e' (parent-right l q (rw e' at h))
    | inr even ↦ let e' : k ≡ 2 * q = omega arith in rw e' (parent-left l q fits)
  ],
  fits,
)
  where
    fits : node_at (suc l) q < 2 ^ 63
    fits = parent-fits l k q u low e digit h

module _ (len : ℕ) where
  -- More fuel changes nothing once the levels that are left are covered.
  fuel_step :
      (f l k : ℕ)
      → node_at l k < 2 ^ 63
      → 64 ≤ l + f
      → restricted_parent_loop f (node_at l k) len
        ≡ restricted_parent_loop (suc f) (node_at l k) len
  unfolding restricted_parent_loop
  fuel_step zero l k h b = absurd (omega (arith, level-bound l k 63 h))
  fuel_step (suc f) l k h b = elim (lt-cases l 63) [
    | inl low ↦
        let (up, fits) = parent_lem l k (k / 2) (k % 2) low (omega arith) (omega arith) h in
        ground (arith, up, fuel_step f (suc l) (k / 2) fits (omega arith))
    | inr high ↦
        let top : l ≡ 63 = omega (arith, level-bound l k 63 h) in
        let none_up : parent (node_at l k) ≡ none = rw top (parent-top k (rw top at h)) in
        ground (arith, none_up)
  ]

  loop_here :
      (f n p : ℕ) → parent n ≡ some p → p < len → restricted_parent_loop (suc f) n len ≡ some p
  unfolding restricted_parent_loop
  loop_here f n p e h = ground arith

  loop_above :
      (f n p : ℕ)
      → parent n ≡ some p
      → len ≤ p
      → restricted_parent_loop (suc f) n len ≡ restricted_parent_loop f p len
  unfolding restricted_parent_loop
  loop_above f n p e h = ground arith

  loop_top : (f n : ℕ) → parent n ≡ none → restricted_parent_loop (suc f) n len ≡ none
  unfolding restricted_parent_loop
  loop_top f n e = ground arith

  module _ (l k q u : ℕ) (low : l < 63) (e : k ≡ 2 * q + u) (digit : u < 2)
      (h : node_at l k < 2 ^ 63) where
    -- The parent, if it is below `len`.
    pub restricted_parent-here :
        node_at (suc l) q < len → restricted_parent (node_at l k) len ≡ some (node_at (suc l) q)
    unfolding restricted_parent
    restricted_parent-here below =
        loop_here 65 (node_at l k) (node_at (suc l) q) ((parent_lem l k q u low e digit h).0) below

    -- Otherwise the search goes on from the parent.
    pub restricted_parent-above :
        len ≤ node_at (suc l) q
        → restricted_parent (node_at l k) len ≡ restricted_parent (node_at (suc l) q) len
    unfolding restricted_parent
    restricted_parent-above above =
        let (up, fits) = parent_lem l k q u low e digit h in
        loop_above 65 (node_at l k) (node_at (suc l) q) up above
        ∙ fuel_step 65 (suc l) q fits (omega arith)

  -- Nothing is above the first node of a level whose parent is beyond `len`.
  pub restricted_parent-none :
      (r l : ℕ) → l + r ≡ 63 → len < 2 * 2 ^ l → restricted_parent (node_at l 0) len ≡ none
  unfolding restricted_parent
  restricted_parent-none zero l e h =
      let top : l ≡ 63 = omega arith in
      loop_top 65 (node_at l 0) (rw top (parent-top 0 (omega (arith, suc-node_at 63 0))))
  restricted_parent-none (suc r) l e h =
      restricted_parent-above l 0 0 0 (omega arith) refl (omega arith) fits
        (omega (arith, suc-node_at (suc l) 0, two-pow-suc l))
      ∙ restricted_parent-none r (suc l) (omega arith) (omega (arith, two-pow-suc l))
    where
      fits : node_at l 0 < 2 ^ 63
      fits = omega (arith, suc-node_at l 0, two-pow-lt l 63 (omega arith))

  -- Going down: a node below `len` stays, another hands over to its left child.
  pub descend_loop-here : (f n : ℕ) → n < len → descend_loop (suc f) n len ≡ some n
  unfolding descend_loop
  descend_loop-here f n h = ground arith

  pub descend_loop-left :
      (f l k : ℕ)
      → node_at (suc l) k < 2 ^ 63
      → len ≤ node_at (suc l) k
      → descend_loop (suc f) (node_at (suc l) k) len ≡ descend_loop f (node_at l (2 * k)) len
  unfolding descend_loop
  descend_loop-left f l k fits h = ground (arith, left_child-node_at l k fits)

  -- `right_descendant` goes down from the right child.
  pub right_descendant_lem :
      (l k : ℕ) {d : ℕ}
      → node_at (suc l) k < 2 ^ 63
      → node_at l (2 * k + 1) < 2 ^ 63
      → descend_loop 66 (node_at l (2 * k + 1)) len ≡ some d
      → right_descendant (node_at (suc l) k) len ≡ some d
  unfolding right_descendant
  right_descendant_lem l k fits right e =
      rw (right_child-node_at l k fits (omega arith), right_descendant) e
