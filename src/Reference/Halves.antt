-- ===== src/Reference/Halves.antt =====
-- The halves of a subtree in numbers, and which node is the root.
use bao_tree.Base.{
  ℕ, suc, ◌+◌, ◌-◌, ◌*◌, ◌/◌, ◌^◌, ◌≤◌, ◌<◌, ◌≡◌, arith, ap, ◌∙◌, sym, inl, inr, ◌==◌, eq→==, ne→==,
  eq-cases, two-pow-suc, two-pow-pos, two-pow-le, lt_of_two-pow-lt, mul-le,
}
use bao_tree.Word.{u64_add}
use bao_tree.Hashing.{chunk_count}
use bao_tree.Node.{level}
use bao_tree.Node.Place.{node_at, suc-node_at, level-node_at}
use bao_tree.Tree.{BaoTree, shifted}
use bao_tree.Tree.Shape.{IsValid, HasShape}
use bao_tree.Reference.{level_of}
use bao_tree.Reference.Levels.{HasLevel, level_of_lem, count_lem}
use bao_tree.Reference.Places.{start_at, size_at, start_lem, size_lem}

module _ (t : BaoTree) (v : IsValid t) (height m : ℕ) (h : HasShape t height m) where
  abbrev pub b : ℕ
  b = t.block_size

  abbrev pub size : ℕ → ℕ → ℕ
  size l k = size_at b t.size l k

  -- The numbers of the two halves of a branch.
  module _ (l k : ℕ) where
    pub double : 2 ^ (suc l + b) ≡ 2 * 2 ^ (l + b)
    double =
        let e : suc l + b ≡ suc (l + b) = omega arith in ap (λ n. 2 ^ n) e ∙ two-pow-suc (l + b)

    pub scaled : k * 2 ^ (suc l + b) ≡ 2 * (k * 2 ^ (l + b))
    scaled = ap (λ n. k * n) double ∙ omega arith

    pub left_start : start_at b l (2 * k) ≡ start_at b (suc l) k
    left_start =
        omega
          (arith, start_lem t v height m h l (2 * k), start_lem t v height m h (suc l) k, scaled)

    pub right_start : start_at b l (2 * k + 1) ≡ start_at b (suc l) k + 2 ^ (suc l + b)
    right_start = omega (
      arith,
      start_lem t v height m h l (2 * k + 1),
      start_lem t v height m h (suc l) k,
      scaled,
      double,
    )

    pub left_size :
        (2 * (k * 2 ^ (suc l + b)) + 2 ^ (suc l + b)) * 1024 < t.size
        → size l (2 * k) ≡ 2 ^ (suc l + b) * 1024
    left_size inside = omega (arith, size_lem t v height m h l (2 * k), scaled, double, inside)

    pub right_size :
        (2 * (k * 2 ^ (suc l + b)) + 2 ^ (suc l + b)) * 1024 < t.size
        → size l (2 * k + 1) ≡ size (suc l) k - 2 ^ (suc l + b) * 1024
    right_size inside = omega (
      arith,
      size_lem t v height m h l (2 * k + 1),
      size_lem t v height m h (suc l) k,
      scaled,
      double,
      inside,
    )

    pub out_size :
        t.size ≤ (2 * (k * 2 ^ (suc l + b)) + 2 ^ (suc l + b)) * 1024
        → size (suc l) k ≡ size l (2 * k)
    out_size outside = omega (
      arith,
      size_lem t v height m h l (2 * k),
      size_lem t v height m h (suc l) k,
      scaled,
      double,
      outside,
    )

  -- A subtree that the blob reaches the second half of.
  module _ (l k : ℕ) (here : node_at l k < 2 * m + 1)
      (inside : (2 * (k * 2 ^ (l + b)) + 2 ^ (l + b)) * 1024 < t.size) where
    pub small : 2 ^ (l + b) < 2 ^ 51
    small = omega (arith, inside, v.size_fits)

    pub high : HasLevel (size l k) (l + b)
    high = record {
      above = omega (arith, size_lem t v height m h l k, inside, two-pow-pos (l + b));
      within = omega (arith, size_lem t v height m h l k, inside);
      low = let less = lt_of_two-pow-lt (l + b) 51 small in omega (arith, less);
    }

    pub high_level : level_of (size l k) ≡ l + b
    high_level = level_of_lem (size l k) (l + b) high

    pub middle_chunk :
        u64_add (start_at b l k) (chunk_count (size l k) / 2) ≡ start_at b l k + 2 ^ (l + b)
    middle_chunk = omega (
      arith,
      count_lem (size l k) (l + b) high,
      start_lem t v height m h l k,
      inside,
      v.size_fits,
    )

  module _ (l k : ℕ) (under : l ≤ height) (first : 2 * (k * 2 ^ l) < 2 * m + 1) where
    pub at_top : l ≡ height → node_at l k ≡ (shifted t).0
    at_top same =
        let pow : 2 ^ l ≡ 2 ^ height = ap (λ n. 2 ^ n) same in
        elim (eq-cases k 0) [
          | inl zero_k ↦ omega (
            arith,
            h.root_lem,
            suc-node_at l k,
            suc-node_at height 0,
            pow,
            ap (λ n. n * 2 ^ l) zero_k,
          )
          | inr later ↦ absurd (omega (arith, first, h.wide, pow, mul-le 1 k (2 ^ l) (grind arith)))
        ]

    pub root_flag : (node_at l k == (shifted t).0) ≡ (l == height)
    root_flag = elim (eq-cases l height) [
      | inl same ↦ rw (eq→== l height same) (eq→== (node_at l k) (shifted t).0 (at_top same))
      | inr other ↦
          rw (ne→== l height other) (ne→== (node_at l k) (shifted t).0 (λ e. other (level_same e)))
    ]
      where
        level_same : node_at l k ≡ (shifted t).0 → l ≡ height
        level_same e =
            let bound = two-pow-le {m = height} {n = 60} h.low in
            let top = level-node_at height 0 (omega (arith, suc-node_at height 0, bound)) in
            let here =
              level-node_at l k (omega (arith, e, h.root_lem, suc-node_at height 0, bound)) in
            sym here ∙ ap level (e ∙ h.root_lem) ∙ top
