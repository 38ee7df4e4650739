-- ===== src/Reference/Leaves.antt =====
-- `select_nodes_rec` at a leaf of the shifted tree, and the hash pair of a branch.
use bao_tree.Base.{
  ℕ, suc, ◌+◌, ◌-◌, ◌*◌, ◌%◌, ◌^◌, ◌≤◌, ◌<◌, ◌≡◌, refl, arith, ap, ap₂, ◌∙◌, sym, subst, inl, inr,
  Bool, true, false, ◌&&◌, ◌||◌, ltb, ◌==◌, le→leb, gt→leb, le→ltb, lt-cases, Bool-cases, min,
  Option, some, List, [], ◌∷◌, ◌++◌, two-pow-pos,
}
use bao_tree.Word.{u64_sub}
use bao_tree.Sizes.{chunks_to_bytes}
use bao_tree.Hashing.{RangeSets, split}
use bao_tree.Node.{TreeNode, mid, chunk_range}
use bao_tree.Tree
use bao_tree.Node.Place.{node_at, suc-node_at}
use bao_tree.Tree.{BaoTree, shifted}
use bao_tree.Tree.Shape.{IsValid, HasShape}
use bao_tree.Chunks.{BaoChunk, leaf}
use bao_tree.Chunks.Partial.{push_leaf}
use bao_tree.Chunks.Partial.Select.{
  tree_node, is_query_leaf, halves, whole, pair, pieces, select, select-empty, select-leaf,
  select-pieces,
}
use bao_tree.Reference.{select_nodes_rec}
use bao_tree.Reference.Levels.{HasLevel, level_of_lem, count_lem}
use bao_tree.Reference.Levels
use bao_tree.Reference.Steps.{stops, rec-empty, rec-stops, rec-pair, rec-block, rec-piece}
use bao_tree.Reference.Places.{
  start_at, size_at, start_lem, size_lem, start_inside, chunks_lem, mid_lem, level_lem, bytes_lem,
  mid_bytes_lem, from_start_lem,
}
use bao_tree.Reference.Halves.{high, high_level, middle_chunk, root_flag}

or_true : (x : Bool) → (x || true) ≡ true
or_true true = refl
or_true false = refl

module _ (t : BaoTree) (v : IsValid t) (height m : ℕ) (h : HasShape t height m) where
  abbrev b : ℕ
  b = t.block_size

  abbrev size : ℕ → ℕ → ℕ
  size l k = size_at b t.size l k

  module _ {R : Type 0} (s : RangeSets R) (min_level : ℕ) where
    abbrev pub rec : ℕ → ℕ → ℕ → Bool → R → Option (List (BaoChunk R))
    rec f start size root r = select_nodes_rec s f start size root r b min_level

    pub whole_lem :
        (l k : ℕ) (r : R)
        → l ≤ height
        → 2 * (k * 2 ^ l) < 2 * m + 1
        → node_at l k < 2 * m + 1
        → whole s t min_level (node_at l k) r ≡ leaf (start_at b l k) (size l k) (l == height) r
    whole_lem l k r under first here =
        let c = chunks_lem t v height m h l k here in
        let bytes = bytes_lem t v height m h l k here in
        let inside = start_inside t v height m h l k first in
        let count : u64_sub (min ((2 * (k * 2 ^ (l + b)) + 2 * 2 ^ (l + b)) * 1024) t.size)
              (2 * (k * 2 ^ (l + b)) * 1024)
            ≡ size l k =
          omega (arith, size_lem t v height m h l k, inside, v.size_fits) in
        rw (c.0, bytes.0, bytes.1, count, root_flag t v height m h l k under first) refl

    abbrev n : ℕ → ℕ → TreeNode
    n l k = node_at l k

    pub leaf_eq : {a a' z z' : ℕ} {r : R} → a ≡ a' → z ≡ z' → leaf a z false r ≡ leaf a' z' false r
    leaf_eq p q = rw (p, q) refl

    pub push-append :
        (s : RangeSets R) (c : BaoChunk R) (r : R) (xs : List (BaoChunk R))
        → push_leaf s c r [] ++ xs ≡ push_leaf s c r xs
    unfolding push_leaf
    push-append s c r xs = elim (Bool-cases (s.is_empty r)) [
      | inl e ↦ rw e refl
      | inr e ↦ rw e refl
    ]

    -- A pair and what follows it, from the two halves.
    pub pair_lem :
        (f l k : ℕ) (r : R) (ls rs : List (BaoChunk R))
        → l ≤ height
        → 2 * (k * 2 ^ l) < 2 * m + 1
        → (here : node_at l k < 2 * m + 1)
        → (inside : (2 * (k * 2 ^ (l + b)) + 2 ^ (l + b)) * 1024 < t.size) → s.is_empty r ≡ false
        → is_query_leaf s t min_level (node_at l k) r ≡ false
        → rec f (start_at b l k) (2 ^ (l + b) * 1024) false (halves s t min_level (node_at l k) r).0
          ≡ some ls
        → rec f
            (start_at b l k + 2 ^ (l + b))
            (size l k - 2 ^ (l + b) * 1024)
            false
            (halves s t min_level (node_at l k) r).1
          ≡ some rs
        → rec (suc f) (start_at b l k) (size l k) (l == height) r
          ≡ some (pair s t min_level (node_at l k) r ∷ (ls ++ rs))
    pair_lem f l k r ls rs under first here inside e q left right =
        let hl = high t v height m h l k here inside in
        let lv = high_level t v height m h l k here inside in
        let mc = middle_chunk t v height m h l k here inside in
        let mid_eq : mid (tree_node s t min_level (node_at l k)) ≡ start_at b l k + 2 ^ (l + b) =
          mid_lem t v height m h l k here ∙ omega (arith, start_lem t v height m h l k) in
        let mb = Levels.mid_bytes_lem (size l k) (l + b) hl in
        let rest : u64_sub (size l k) (2 ^ (l + b) * 1024) ≡ size l k - 2 ^ (l + b) * 1024 =
          omega (arith, hl.above, size_lem t v height m h l k, v.size_fits) in
        let q' : (s.is_all r && ltb (l + b) min_level) ≡ false =
          ap (λ z. s.is_all r && ltb z min_level) (sym (level_lem t v height m h l k here)) ∙ q in
        let go : stops s b min_level (size l k) r ≡ false =
          rw (lv, le→ltb (l + b) b (omega arith), q') refl in
        let even : start_at b l k % 2 ≡ 0 = omega (arith, start_lem t v height m h l k) in
        let left' =
          subst (λ z. rec f (start_at b l k) (2 ^ (l + b) * 1024) false (split s r z).0 ≡ some ls)
            mid_eq left in
        let right' =
          subst
            (λ z.
              rec f (start_at b l k + 2 ^ (l + b)) (size l k - 2 ^ (l + b) * 1024) false
                (split s r z).1
              ≡ some rs)
            mid_eq right in
        let raw =
          rec-pair s b min_level f (start_at b l k) (size l k) (l == height) r
            (tree_node s t min_level (node_at l k)) ls rs e
            (omega (arith, hl.above, two-pow-pos (l + b))) go even
            (rw lv (from_start_lem t v height m h l k here)) (rw (mb, mc) left')
            (rw (mb, mc, rest) right') in
        rw (mid_eq, root_flag t v height m h l k under first) (raw ∙ rw mc refl)

    pub query_lem :
        (f l k : ℕ) (r : R)
        → l ≤ height
        → 2 * (k * 2 ^ l) < 2 * m + 1
        → (here : node_at l k < 2 * m + 1)
        → (inside : (2 * (k * 2 ^ (l + b)) + 2 ^ (l + b)) * 1024 < t.size) → s.is_empty r ≡ false
        → is_query_leaf s t min_level (node_at l k) r ≡ true
        → rec (suc f) (start_at b l k) (size l k) (l == height) r
          ≡ some (whole s t min_level (node_at l k) r ∷ [])
    query_lem f l k r under first here inside e q =
        let lv = high_level t v height m h l k here inside in
        let q' : (s.is_all r && ltb (l + b) min_level) ≡ true =
          ap (λ z. s.is_all r && ltb z min_level) (sym (level_lem t v height m h l k here)) ∙ q in
        let go : stops s b min_level (size l k) r ≡ true =
          rw (lv, le→ltb (l + b) b (omega arith), q') refl in
        rw (whole_lem l k r under first here)
          (rec-stops s b min_level f (start_at b l k) (size l k) (l == height) r e go)

    abbrev pub Selected : ℕ → ℕ → ℕ → R → Type 0
    Selected f l k r =
        rec f (start_at b l k) (size l k) (l == height) r ≡ some (select s t min_level l k r)

    -- The two pieces of data of a leaf.
    pub pieces_lem :
        (f k : ℕ) (r : R)
        → 2 * (k * 2 ^ 0) < 2 * m + 1
        → (here : node_at 0 k < 2 * m + 1)
        → (inside : (2 * (k * 2 ^ (0 + b)) + 2 ^ (0 + b)) * 1024 < t.size) → s.is_empty r ≡ false
        → is_query_leaf s t min_level (node_at 0 k) r ≡ false
        → rec (suc (suc f)) (start_at b 0 k) (size 0 k) (0 == height) r
          ≡ some (pair s t min_level (node_at 0 k) r ∷ pieces s t min_level (node_at 0 k) r)
    unfolding push_leaf
    pieces_lem f k r first here inside e q =
        let node = tree_node s t min_level (node_at 0 k) in
        let (lr, rr) = halves s t min_level (node_at 0 k) r in
        let zero_b : 0 + b ≡ b = omega arith in
        let pow = ap (λ z. 2 ^ z) zero_b in
        let c = chunks_lem t v height m h 0 k here in
        let bytes = bytes_lem t v height m h 0 k here in
        let mb = mid_bytes_lem t v height m h 0 k here in
        let sz = size_lem t v height m h 0 k in
        let mid_eq : mid node ≡ start_at b 0 k + 2 ^ (0 + b) =
          mid_lem t v height m h 0 k here ∙ omega (arith, start_lem t v height m h 0 k) in
        let left =
          rec-piece s b min_level f (start_at b 0 k) (2 ^ (0 + b) * 1024) false lr
            (omega (arith, pow)) v.block_fits in
        let right =
          rec-piece s b min_level f (start_at b 0 k + 2 ^ (0 + b)) (size 0 k - 2 ^ (0 + b) * 1024)
            false rr (omega (arith, pow, sz, inside)) v.block_fits in
        let both =
          pair_lem (suc f) 0 k r
            (push_leaf s (leaf (start_at b 0 k) (2 ^ (0 + b) * 1024) false lr) lr [])
            (push_leaf s
              (leaf (start_at b 0 k + 2 ^ (0 + b)) (size 0 k - 2 ^ (0 + b) * 1024) false rr) rr [])
            (omega arith) first here inside e q left right in
        let lsize : u64_sub ((2 * (k * 2 ^ (0 + b)) + 2 ^ (0 + b)) * 1024)
              (2 * (k * 2 ^ (0 + b)) * 1024)
            ≡ 2 ^ (0 + b) * 1024 =
          omega (arith, inside, v.size_fits) in
        let rsize : u64_sub (min ((2 * (k * 2 ^ (0 + b)) + 2 * 2 ^ (0 + b)) * 1024) t.size)
              ((2 * (k * 2 ^ (0 + b)) + 2 ^ (0 + b)) * 1024)
            ≡ size 0 k - 2 ^ (0 + b) * 1024 =
          omega (arith, inside, v.size_fits, sz) in
        let left_leaf : leaf (chunk_range node).start
              (u64_sub (chunks_to_bytes (mid node)) (Tree.byte_range t node).start) false lr
            ≡ leaf (start_at b 0 k) (2 ^ (0 + b) * 1024) false lr =
          leaf_eq c.0 (rw (mb, bytes.0) lsize) in
        let right_leaf : leaf (mid node)
              (u64_sub (Tree.byte_range t node).end (chunks_to_bytes (mid node))) false rr
            ≡ leaf (start_at b 0 k + 2 ^ (0 + b)) (size 0 k - 2 ^ (0 + b) * 1024) false rr =
          leaf_eq mid_eq (rw (mb, bytes.1) rsize) in
        both
        ∙ ap (λ xs. some (pair s t min_level (node_at 0 k) r ∷ xs))
            (push-append s (leaf (start_at b 0 k) (2 ^ (0 + b) * 1024) false lr) lr (
                push_leaf s
                  (leaf (start_at b 0 k + 2 ^ (0 + b)) (size 0 k - 2 ^ (0 + b) * 1024) false rr) rr
                  [])
              ∙ ap₂ (λ x y. push_leaf s x lr (push_leaf s y rr [])) (sym left_leaf)
                  (sym right_leaf))

    pub leaf_lem : (f k : ℕ) (r : R) → 2 * (k * 2 ^ 0) < 2 * m + 1 → Selected (suc (suc f)) 0 k r
    leaf_lem f k r first = elim (Bool-cases (s.is_empty r)) [
      | inl e ↦
          rec-empty s b min_level (suc f) (start_at b 0 k) (size 0 k) (0 == height) r e
          ∙ ap (λ xs. some xs) (sym (select-empty s t min_level 0 k r e))
      | inr e ↦
          let here : node_at 0 k < 2 * m + 1 = omega (arith, first, suc-node_at 0 k) in
          let mid_eq = mid_bytes_lem t v height m h 0 k here in
          let zero_b : 0 + b ≡ b = omega arith in
          let pow = ap (λ z. 2 ^ z) zero_b in
          elim (lt-cases ((2 * (k * 2 ^ (0 + b)) + 2 ^ (0 + b)) * 1024) t.size) [
            | inr half_leaf ↦
                let small : size 0 k ≤ 2 ^ b * 1024 =
                  omega (arith, size_lem t v height m h 0 k, half_leaf, pow) in
                let stop = le→leb t.size ((2 * (k * 2 ^ (0 + b)) + 2 ^ (0 + b)) * 1024) half_leaf in
                rec-block s b min_level (suc f) (start_at b 0 k) (size 0 k) (0 == height) r e small
                  v.block_fits
                ∙ ap (λ c. some (c ∷ [])) (sym (whole_lem 0 k r (omega arith) first here))
                ∙ ap (λ xs. some xs)
                    (sym (
                      select-leaf s t min_level k r e (
                        rw (mid_eq, stop) (or_true (is_query_leaf s t min_level (node_at 0 k) r)))))
            | inl inside ↦
                let go = gt→leb t.size ((2 * (k * 2 ^ (0 + b)) + 2 ^ (0 + b)) * 1024) inside in
                elim (Bool-cases (is_query_leaf s t min_level (node_at 0 k) r)) [
                  | inl q ↦
                      query_lem (suc f) 0 k r (omega arith) first here inside e q
                      ∙ ap (λ xs. some xs) (sym (select-leaf s t min_level k r e (rw q refl)))
                  | inr q ↦
                      pieces_lem f k r first here inside e q
                      ∙ ap (λ xs. some xs)
                          (sym (select-pieces s t min_level k r e (rw (q, mid_eq, go) refl)))
                ]
          ]
    ]
