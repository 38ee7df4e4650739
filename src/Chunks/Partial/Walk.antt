-- ===== src/Chunks/Partial/Walk.antt =====
-- `PreOrderPartialChunkIterRef` compared with the recursion of Select.
use bao_tree.Base.{
  ℕ, zero, suc, ◌+◌, ◌*◌, ◌^◌, ◌≤◌, ◌<◌, ◌≡◌, refl, arith, ap, ◌∙◌, sym, subst, some, Option,
  some-inj, ne→==, List, [], ◌∷◌, ◌++◌, append_assoc, append-nil, true, false, Bool-cases, inl, inr,
  lt-cases, lt→ltb, le→ltb, leb, two-pow-suc, two-pow-pos, two-pow-le, mul-two-pow-suc,
  le_of_two-pow-le,
}
use bao_tree.Sizes.{chunks_to_bytes}
use bao_tree.Outcome.{ok}
use bao_tree.Node.{TreeNode, level, mid, left_child, right_descendant, descend_loop}
use bao_tree.Node
use bao_tree.Node.Place.{
  node_at, suc-node_at, node_at-left, node_at-right, left_child-node_at, is_leaf-node_at,
}
use bao_tree.Node.Climb.{descend_loop-here, descend_loop-left, right_descendant_lem}
use bao_tree.Hashing.{RangeSets}
use bao_tree.Tree.{BaoTree, shifted}
use bao_tree.Tree.Offsets.{height_lem}
use bao_tree.Tree.Shape.{IsValid, shape}
use bao_tree.Errors.{IoError}
use bao_tree.Chunks.{BaoChunk}
use bao_tree.Chunks.Partial.{
  PreOrderPartialChunkIterRef, push_child, push_leaf, visit, next, yields,
}
use bao_tree.Chunks.Partial
use bao_tree.Chunks.Partial.Select.{
  tree_node, is_query_leaf, halves, whole, pair, pieces, select, select-empty, select-out,
  select-whole, select-pair,
}

module _ {R : Type 0} (s : RangeSets R) (t : BaoTree) (min_level : ℕ) (E : Type 0) where
  abbrev len : ℕ
  len = (shifted t).1

  abbrev it : List (TreeNode × R) → List (BaoChunk R) → PreOrderPartialChunkIterRef R
  it stack buffer = record {
    tree = t;
    min_full_level = min_level;
    stack = stack;
    shifted_filled_size = (shifted t).1;
    shifted_root = (shifted t).0;
    buffer = buffer;
  }

  -- With enough calls, and any number more, the iterator yields `cs`.
  abbrev pub Yields : PreOrderPartialChunkIterRef R → List (BaoChunk R) → Type 0
  Yields it cs = (f : ℕ) × ((more : ℕ) → yields s {E = E} (f + more) it ≡ ok cs)

  Yields-step :
      (i i' : PreOrderPartialChunkIterRef R) (c : BaoChunk R) (cs : List (BaoChunk R))
      → next s {E = E} i ≡ ok (some c, i')
      → Yields i' cs
      → Yields i (c ∷ cs)
  unfolding yields
  Yields-step i i' c cs e (f, h) = (
    suc f,
    λ more. let n : suc f + more ≡ suc (f + more) = omega arith in rw n (rw (e, h more) refl),
  )

  Yields-end : Yields (it [] []) []
  unfolding yields next
  Yields-end = (1, λ more. let n : 1 + more ≡ suc more = omega arith in rw n refl)

  Yields-buffer :
      (stack : List (TreeNode × R)) (buffer cs : List (BaoChunk R))
      → Yields (it stack []) cs
      → Yields (it stack buffer) (buffer ++ cs)
  unfolding next
  Yields-buffer stack [] cs y = y
  Yields-buffer stack (c ∷ buffer) cs y =
      Yields-step (it stack (c ∷ buffer)) (it stack buffer) c (buffer ++ cs) refl
        (Yields-buffer stack buffer cs y)

  -- One call at a node, by its kind.
  next-whole :
      (n : TreeNode) (r : R) (stack : List (TreeNode × R))
      → is_query_leaf s t min_level n r ≡ true
      → next s {E = E} (it ((n, r) ∷ stack) []) ≡ ok (some (whole s t min_level n r), it stack [])
  unfolding next visit
  next-whole n r stack e = rw (visit, e) refl

  next-leaf :
      (k : ℕ) (r : R) (stack : List (TreeNode × R))
      → s.is_empty r ≡ false
      → (c : BaoChunk R) × (buffer : List (BaoChunk R)) × (next s {E = E}
            (it ((node_at 0 k, r) ∷ stack) [])
          ≡ ok (some c, it stack buffer))
        × (select s t min_level 0 k r ≡ c ∷ buffer)
  unfolding next visit select
  next-leaf k r stack some_range =
      let leaf0 : Node.is_leaf (node_at 0 k) ≡ true = is_leaf-node_at 0 k in
      elim (Bool-cases (is_query_leaf s t min_level (node_at 0 k) r)) [
        | inl q ↦ (
          whole s t min_level (node_at 0 k) r,
          [],
          rw (visit, q) refl,
          rw (select, some_range, q) refl,
        )
        | inr q ↦
            elim (Bool-cases
              (leb t.size (chunks_to_bytes (mid (tree_node s t min_level (node_at 0 k)))))) [
                | inl half ↦ (
                  whole s t min_level (node_at 0 k) r,
                  [],
                  rw (visit, q, leaf0, half) refl,
                  rw (select, some_range, q, half) refl,
                )
                | inr both ↦ (
                  pair s t min_level (node_at 0 k) r,
                  pieces s t min_level (node_at 0 k) r,
                  rw (visit, q, leaf0, both) refl,
                  rw (select, some_range, q, both) refl,
                )
              ]
      ]

  -- Pushing a child onto a stack: what the child's subtree selects comes first.
  Pushes : Option TreeNode → R → List (TreeNode × R) → List (BaoChunk R) → Type 0
  Pushes child r stack cs =
      (stack' : List (TreeNode × R)) × (push_child s {E = E} child r stack ≡ ok stack')
      × Yields (it stack' []) cs

  pushes :
      (l k : ℕ) (r : R) (child : Option TreeNode) (stack : List (TreeNode × R))
      (cs : List (BaoChunk R))
      → Yields (it stack []) cs
      → (s.is_empty r ≡ false
          → (d : TreeNode) × (child ≡ some d)
            × Yields (it ((d, r) ∷ stack) []) (select s t min_level l k r ++ cs))
      → Pushes child r stack (select s t min_level l k r ++ cs)
  unfolding push_child Pushes
  pushes l k r child stack cs y sub = elim (Bool-cases (s.is_empty r)) [
    | inl nothing ↦ (
      stack,
      rw (push_child, nothing) refl,
      subst (λ xs. Yields (it stack []) (xs ++ cs)) (sym (select-empty s t min_level l k r nothing))
          y,
    )
    | inr something ↦
        let (d, e, runs) = sub something in
        ((d, r) ∷ stack, rw (push_child, something, e) refl, runs)
  ]

  next-branch :
      (l k : ℕ) (r : R) (stack stack1 stack2 : List (TreeNode × R))
      → is_query_leaf s t min_level (node_at (suc l) k) r ≡ false
      → push_child s {E = E}
          (right_descendant (node_at (suc l) k) len)
          (halves s t min_level (node_at (suc l) k) r).1
          stack
        ≡ ok stack1
      → push_child s {E = E}
          (left_child (node_at (suc l) k))
          (halves s t min_level (node_at (suc l) k) r).0
          stack1
        ≡ ok stack2
      → next s {E = E} (it ((node_at (suc l) k, r) ∷ stack) [])
        ≡ ok (some (pair s t min_level (node_at (suc l) k) r), it stack2 [])
  unfolding next visit
  next-branch l k r stack stack1 stack2 q right left =
      let branch : Node.is_leaf (node_at (suc l) k) ≡ false =
        is_leaf-node_at (suc l) k ∙ ne→== (suc l) 0 (omega arith) in
      rw (visit, q, branch, right, left) refl

  module _ (m : ℕ) (odd : len ≡ 2 * m + 1) where
    -- A subtree on the stack.
    abbrev Visits : ℕ → ℕ → ℕ → R → Type 0
    Visits f l k r =
        (stack : List (TreeNode × R)) (cs : List (BaoChunk R))
        → Yields (it stack []) cs
        → (d : TreeNode) × (descend_loop f (node_at l k) len ≡ some d)
          × Yields (it ((d, r) ∷ stack) []) (select s t min_level l k r ++ cs)

    abbrev Subtrees : ℕ → Type 0
    Subtrees l =
        (k f : ℕ) (r : R)
        → (k + 1) * 2 ^ suc l ≤ 2 ^ 63
        → l < f
        → k * 2 ^ suc l < len
        → s.is_empty r ≡ false
        → Visits f l k r

    visit_leaf :
        (k f : ℕ) (r : R)
        → (k + 1) * 2 ^ 1 ≤ 2 ^ 63
        → k * 2 ^ 1 < len
        → s.is_empty r ≡ false
        → Visits (suc f) 0 k r
    visit_leaf k f r fits first some_range stack cs y =
        let n = node_at 0 k in
        let here : n < len = omega (arith, odd, suc-node_at 0 k) in
        let (c, buffer, call, same) = next-leaf k r stack some_range in
        (
          n,
          descend_loop-here len f n here,
          subst (λ xs. Yields (it ((n, r) ∷ stack) []) (xs ++ cs)) (sym same)
              (Yields-step (it ((n, r) ∷ stack) []) (it stack buffer) c (buffer ++ cs) call
                (Yields-buffer stack buffer cs y)),
        )

    module _ (l k : ℕ) (fits : (k + 1) * 2 ^ suc (suc l) ≤ 2 ^ 63) (sub : Subtrees l) (r : R)
        (some_range : s.is_empty r ≡ false) where
      abbrev n : TreeNode
      n = node_at (suc l) k

      slots : (k + 1) * 2 ^ suc (suc l) ≡ 2 * (k * 2 ^ suc l) + 2 * 2 ^ suc l
      slots = omega (arith, mul-two-pow-suc (k + 1) (suc l))

      n-number : n + 1 ≡ 2 * (k * 2 ^ suc l) + 2 ^ suc l
      n-number = suc-node_at (suc l) k

      low : l < 62
      low = omega (
        arith,
        le_of_two-pow-le (suc (suc l)) 63 (omega (arith, two-pow-suc (suc l), slots, fits)),
      )

      n-fits : n < 2 ^ 63
      n-fits = omega (arith, n-number, slots, fits)

      right-fits : node_at l (2 * k + 1) < 2 ^ 63
      right-fits =
          omega (arith, node_at-right l k, n-number, slots, fits, two-pow-suc l, two-pow-pos l)

      visit_out : (f : ℕ) → l < f → k * 2 ^ suc (suc l) < len → len ≤ n → Visits (suc f) (suc l) k r
      visit_out f fuel first out stack cs y =
          let (d, down, runs) =
            sub (2 * k) f r (omega (arith, slots, fits)) fuel
              (omega (arith, first, mul-two-pow-suc k (suc l))) some_range stack cs y in
          let same = select-out s t min_level l k r some_range (le→ltb n len out) in
          (
            d,
            descend_loop-left len f l k n-fits out ∙ down,
            subst (λ xs. Yields (it ((d, r) ∷ stack) []) (xs ++ cs)) (sym same) runs,
          )

      visit_here : (f : ℕ) → n < len → Visits (suc f) (suc l) k r
      unfolding Pushes
      visit_here f here stack cs y = elim (Bool-cases (is_query_leaf s t min_level n r)) [
        | inl q ↦ (
          n,
          descend_loop-here len f n here,
          subst (λ xs. Yields (it ((n, r) ∷ stack) []) (xs ++ cs))
              (sym (select-whole s t min_level l k r some_range (lt→ltb n len here) q))
              (Yields-step (it ((n, r) ∷ stack) []) (it stack []) (whole s t min_level n r) cs
                (next-whole n r stack q) y),
        )
        | inr q ↦
            let lr = (halves s t min_level n r).0 in
            let rr = (halves s t min_level n r).1 in
            let across = pushes l (2 * k + 1) rr (right_descendant n len) stack cs y (λ something.
              let (d, down, runs) =
                sub (2 * k + 1) 66 rr (omega (arith, slots, fits)) (omega (arith, low))
                  (omega (arith, n-number, here, two-pow-suc l)) something stack cs y in
              (d, right_descendant_lem len l k n-fits right-fits down, runs)) in
            let (stack1, push1, runs1) = across in
            let right_cs = select s t min_level l (2 * k + 1) rr ++ cs in
            let (stack2, push2, runs2) =
              pushes l (2 * k) lr (left_child n) stack1 right_cs runs1 (λ something.
                let (d, down, runs) =
                  sub (2 * k) 66 lr (omega (arith, slots, fits)) (omega (arith, low))
                    (omega (arith, n-number, here, mul-two-pow-suc k (suc l))) something stack1
                    right_cs runs1 in
                let same =
                  sym down
                  ∙ descend_loop-here len 65 (node_at l (2 * k))
                      (omega (arith, node_at-left l k, here)) in
                (d, left_child-node_at l k n-fits ∙ sym same, runs)) in
            (
              n,
              descend_loop-here len f n here,
              subst (λ xs. Yields (it ((n, r) ∷ stack) []) xs)
                  (ap (λ (xs : List (BaoChunk R)). pair s t min_level n r ∷ xs)
                      (sym (
                        append_assoc (select s t min_level l (2 * k) lr)
                          (select s t min_level l (2 * k + 1) rr) cs))
                    ∙ ap (λ (xs : List (BaoChunk R)). xs ++ cs)
                        (sym (select-pair s t min_level l k r some_range (lt→ltb n len here) q)))
                  (Yields-step (it ((n, r) ∷ stack) []) (it stack2 []) (pair s t min_level n r)
                    (select s t min_level l (2 * k) lr ++ right_cs)
                    (next-branch l k r stack stack1 stack2 q push1 push2) runs2),
            )
      ]

    subtrees : (l : ℕ) → Subtrees l
    subtrees l k zero r fits fuel first some_range = absurd (omega arith)
    subtrees zero k (suc f) r fits fuel first some_range = visit_leaf k f r fits first some_range
    subtrees (suc l) k (suc f) r fits fuel first some_range =
        elim (lt-cases (node_at (suc l) k) len) [
          | inl here ↦ visit_here l k fits (subtrees l) r some_range f here
          | inr out ↦ visit_out l k fits (subtrees l) r some_range f (omega arith) first out
        ]

-- For a valid tree and ranges that are not empty, `PreOrderPartialChunkIterRef` ends, without a
-- panic, and yields the chunks that the recursion over the subtrees selects: the subtrees that the
-- ranges meet, in pre order, each with its hash pair or, where the ranges cover it below the least
-- level, as one piece of data.
pub select-yields :
    {R : Type 0} (s : RangeSets R) (t : BaoTree) (min_level : ℕ) (ranges : R)
    → IsValid t
    → s.is_empty ranges ≡ false
    → (items : ℕ) × (yields s {E = IoError} items (Partial.new t ranges min_level)
        ≡ ok (select s t min_level (level (shifted t).0) 0 ranges))
unfolding Partial.new
select-yields {R = R} s t min_level ranges v some_range =
    let (height, m, h) = shape t v in
    let n = node_at height 0 in
    let bound = two-pow-le {m = suc height} {n = 63} (omega (arith, h.low)) in
    let s_len = suc-node_at height 0 in
    let here : n < (shifted t).1 = omega (arith, s_len, h.len_lem, h.tight) in
    let (d, down, runs) =
      subtrees s t min_level IoError m (h.len_lem) height 0 66 ranges (omega (arith, bound))
        (omega (arith, h.low)) (omega (arith, here)) some_range [] []
        (Yields-end s t min_level IoError) in
    let root_here : d ≡ (shifted t).0 =
      some-inj (sym down ∙ descend_loop-here (shifted t).1 65 n here) ∙ sym h.root_lem in
    let (f, run) =
      subst
        (λ d.
          Yields s t min_level IoError (it s t min_level IoError ((d, ranges) ∷ []) [])
            (select s t min_level height 0 ranges ++ []))
        root_here runs in
    (
      f + 0,
      rw (height_lem t v height m h) (
          run 0
          ∙ ap (λ (xs : List (BaoChunk R)). ok xs)
              (append-nil (select s t min_level height 0 ranges))),
    )
