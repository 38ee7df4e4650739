-- ===== src/Traversal/Index.antt =====
-- Where a node stands in a traversal: from its index in the traversal of a subtree follows its
-- index in the traversal of the parent's subtree, and so up to the root.
use bao_tree.Base.{ℕ, zero, suc, ◌+◌, ◌-◌, ◌*◌, ◌/◌, ◌^◌, ◌≤◌, ◌<◌, ◌≡◌, arith, [], ◌∷◌, ◌++◌}
use bao_tree.Base.{get_elem?, get_elem?-append_left, get_elem?-append_right, some, ap, ◌∙◌}
use bao_tree.Base.{
  two-pow-suc, two-pow-pos, two-pow-le, mul-two-pow-suc, lt-cases, inl, inr, ltb, if◌then◌else◌,
  lt→ltb, le→ltb, ◌⊎◌,
}
use bao_tree.Word.{count_ones}
use bao_tree.Word.Counts.{count_ones-le, count_ones-double, count_ones-double_add_one}
use bao_tree.Node.Place.{node_at, suc-node_at}
use bao_tree.Traversal.{pre_order, post_order, below}
use bao_tree.Traversal.Lengths.{length-post_order, length-pre_order}
use bao_tree.Traversal.Parts.{
  post_order-branch_in, post_order-branch_out, pre_order-branch_in, pre_order-branch_out,
}

module _ (len : ℕ) where
  -- `n` stands at index `i` of the part of the subtree at a place.
  abbrev pub PostAt : ℕ → ℕ → ℕ → ℕ → Type 0
  PostAt l k i n = get_elem? (below len (post_order l k)) i ≡ some n

  abbrev pub PreAt : ℕ → ℕ → ℕ → ℕ → Type 0
  PreAt l k i n = get_elem? (below len (pre_order l k)) i ≡ some n

  -- A left subtree comes first.
  post-left : (l k i n : ℕ) → PostAt l (2 * k) i n → PostAt (suc l) k i n
  post-left l k i n h = elim (lt-cases (node_at (suc l) k) len) [
    | inl here ↦
        rw (post_order-branch_in len l k here)
          (get_elem?-append_left (below len (post_order l (2 * k))) _ i h)
    | inr out ↦ rw (post_order-branch_out len l k out) h
  ]

  -- A right subtree that holds a node below `len` comes behind a full left subtree.
  post-right :
      (l k i n : ℕ)
      → node_at (suc l) k < len
      → PostAt l (2 * k + 1) i n
      → PostAt (suc l) k (i + (2 * 2 ^ l - 1)) n
  post-right l k i n here h =
      let full = length-post_order len l (2 * k) in
      rw
        (
          post_order-branch_in len l k here,
          get_elem?-append_right (below len (post_order l (2 * k)))
              (below len (post_order l (2 * k + 1)) ++ (node_at (suc l) k ∷ []))
              (i + (2 * 2 ^ l - 1)) i
              (omega (
                arith,
                full,
                suc-node_at (suc l) k,
                mul-two-pow-suc k (suc l),
                two-pow-suc l,
                two-pow-pos l,
              )),
        )
        (get_elem?-append_left (below len (post_order l (2 * k + 1))) _ i h)

  pre-left :
      (l k i n : ℕ)
      → PreAt l (2 * k) i n
      → PreAt (suc l) k (if ltb (node_at (suc l) k) len then suc i else i) n
  pre-left l k i n h = elim (lt-cases (node_at (suc l) k) len) [
    | inl here ↦
        rw (lt→ltb _ _ here, pre_order-branch_in len l k here)
          (get_elem?-append_left (below len (pre_order l (2 * k))) _ i h)
    | inr out ↦ rw (le→ltb _ _ out, pre_order-branch_out len l k out) h
  ]

  pre-right :
      (l k i n : ℕ)
      → node_at (suc l) k < len
      → PreAt l (2 * k + 1) i n
      → PreAt (suc l) k (suc (i + (2 * 2 ^ l - 1))) n
  pre-right l k i n here h =
      let full = length-pre_order len l (2 * k) in
      rw
        (
          pre_order-branch_in len l k here,
          get_elem?-append_right (below len (pre_order l (2 * k)))
              (below len (pre_order l (2 * k + 1))) (i + (2 * 2 ^ l - 1)) i
              (omega (
                arith,
                full,
                suc-node_at (suc l) k,
                mul-two-pow-suc k (suc l),
                two-pow-suc l,
                two-pow-pos l,
              )),
        )
        h

  -- The digits of the index, `k = 2 * (k / 2) + k % 2`.
  abbrev Digit : ℕ → Type 0
  Digit k = (k ≡ 2 * (k / 2)) ⊎ (k ≡ 2 * (k / 2) + 1)

  digit : (k : ℕ) → Digit k
  digit k = omega arith

  ones_half_even : (k : ℕ) → k < 2 ^ 63 → k ≡ 2 * (k / 2) → count_ones k ≡ count_ones (k / 2)
  ones_half_even k h e = ap count_ones e ∙ count_ones-double (k / 2) (omega arith)

  ones_half_odd : (k : ℕ) → k < 2 ^ 63 → k ≡ 2 * (k / 2) + 1 → count_ones k ≡ count_ones (k / 2) + 1
  ones_half_odd k h e = ap count_ones e ∙ count_ones-double_add_one (k / 2) (omega arith)

  ones_zero : count_ones 0 ≡ 0
  ones_zero = omega (arith, count_ones-le 0)

  -- From a subtree to the whole tree: `j` counts the numbers left of the subtree, less those of
  -- them that are ancestors.
  pub post_climb :
      (r l k i n top : ℕ)
      → l + r ≡ top
      → k < 2 ^ r
      → r ≤ 63
      → k * 2 ^ suc l ≤ n
      → n < len
      → PostAt l k i n
      → (j : ℕ) × (j + count_ones k ≡ k * 2 ^ suc l + i) × PostAt top 0 j n
  post_climb zero l k i n top e small b lo hi h =
      let first : k ≡ 0 = omega arith in
      let here : l ≡ top = omega arith in
      (
        i,
        omega (arith, ap count_ones first, ones_zero, ap (λ (t : ℕ). t * 2 ^ suc l) first),
        rw first at (rw here at h),
      )
  post_climb (suc r) l k i n top e small b lo hi h =
      let q = k / 2 in
      let k_fits : k < 2 ^ 63 = omega (arith, two-pow-le {m = suc r} {n = 63} b) in
      let q_small : q < 2 ^ r = omega (arith, two-pow-suc r) in
      let two = mul-two-pow-suc q (suc l) in
      elim (digit k) [
        | inl even ↦
            let (j, p, at) =
              post_climb r (suc l) q i n top (omega arith) q_small (omega arith)
                (omega (arith, two, ap (λ (t : ℕ). t * 2 ^ suc l) even)) hi
                (post-left l q i n (rw even at h)) in
            (
              j,
              omega
                  (arith, p, two, ones_half_even k k_fits even, ap (λ (t : ℕ). t * 2 ^ suc l) even),
              at,
            )
        | inr odd ↦
            let shift = ap (λ (t : ℕ). t * 2 ^ suc l) odd in
            let here : node_at (suc l) q < len = omega (arith, suc-node_at (suc l) q, shift) in
            let (j, p, at) =
              post_climb r (suc l) q (i + (2 * 2 ^ l - 1)) n top (omega arith) q_small (omega arith)
                (omega (arith, two, shift)) hi (post-right l q i n here (rw odd at h)) in
            (
              j,
              omega
                  (arith, p, two, ones_half_odd k k_fits odd, shift, two-pow-suc l, two-pow-pos l),
              at,
            )
      ]

  -- How many of the next `r` ancestors of a place are below `len`.
  unfoldable pub valid_above : ℕ → ℕ → ℕ → ℕ
  valid_above zero l k = 0
  valid_above (suc r) l k =
      valid_above r (suc l) (k / 2) + (if ltb (node_at (suc l) (k / 2)) len then 1 else 0)

  -- In pre order the ancestors to the right come first too.
  pub pre_climb :
      (r l k i n top : ℕ)
      → l + r ≡ top
      → k < 2 ^ r
      → r ≤ 63
      → k * 2 ^ suc l ≤ n
      → n < len
      → PreAt l k i n
      → (j : ℕ) × (j + count_ones k ≡ k * 2 ^ suc l + i + valid_above r l k) × PreAt top 0 j n
  unfolding valid_above
  pre_climb zero l k i n top e small b lo hi h =
      let first : k ≡ 0 = omega arith in
      let here : l ≡ top = omega arith in
      (
        i,
        omega (arith, ap count_ones first, ones_zero, ap (λ (t : ℕ). t * 2 ^ suc l) first),
        rw first at (rw here at h),
      )
  pre_climb (suc r) l k i n top e small b lo hi h =
      let q = k / 2 in
      let k_fits : k < 2 ^ 63 = omega (arith, two-pow-le {m = suc r} {n = 63} b) in
      let q_small : q < 2 ^ r = omega (arith, two-pow-suc r) in
      let two = mul-two-pow-suc q (suc l) in
      elim (digit k) [
        | inl even ↦
            let (j, p, at) =
              pre_climb r (suc l) q (if ltb (node_at (suc l) q) len then suc i else i) n top
                (omega arith) q_small (omega arith)
                (omega (arith, two, ap (λ (t : ℕ). t * 2 ^ suc l) even)) hi
                (pre-left l q i n (rw even at h)) in
            (
              j,
              ground
                  (arith, p, two, ones_half_even k k_fits even, ap (λ (t : ℕ). t * 2 ^ suc l) even),
              at,
            )
        | inr odd ↦
            let shift = ap (λ (t : ℕ). t * 2 ^ suc l) odd in
            let here : node_at (suc l) q < len = omega (arith, suc-node_at (suc l) q, shift) in
            let (j, p, at) =
              pre_climb r (suc l) q (suc (i + (2 * 2 ^ l - 1))) n top (omega arith) q_small
                (omega arith) (omega (arith, two, shift)) hi
                (pre-right l q i n here (rw odd at h)) in
            (
              j,
              rw (lt→ltb (node_at (suc l) q) len here) (
                  omega (
                    arith,
                    p,
                    two,
                    ones_half_odd k k_fits odd,
                    shift,
                    two-pow-suc l,
                    two-pow-pos l,
                  )),
              at,
            )
      ]
