-- ===== src/Reference/Agreement.antt =====
-- The iterators over the chunks that ranges select, compared with `select_nodes_rec`.
use bao_tree.Base.{
  ℕ, zero, suc, ◌+◌, ◌-◌, ◌*◌, ◌^◌, ◌≤◌, ◌<◌, ◌≡◌, refl, arith, ap, ◌∙◌, sym, inl, inr, Bool, true,
  false, ◌==◌, lt→ltb, le→ltb, eq→==, ne→==, lt-cases, Bool-cases, Option, some, List, [], ◌∷◌,
  two-pow-suc, mul-two-pow-suc, mul-le,
}
use bao_tree.Hashing.{RangeSets}
use bao_tree.Node.Place.{node_at, suc-node_at}
use bao_tree.Tree.{BaoTree, shifted}
use bao_tree.Tree.Shape.{IsValid, HasShape, shape}
use bao_tree.Tree.Nodes.{unit, cover, block_count}
use bao_tree.Tree.{blocks}
use bao_tree.Tree.Offsets.{height_lem}
use bao_tree.Outcome.{Outcome, ok, err, panic}
use bao_tree.Errors.{IoError}
use bao_tree.Chunks.{without_ranges}
use bao_tree.Chunks.Partial.{PreOrderPartialChunkIterRef}
use bao_tree.Chunks.Partial
use bao_tree.Chunks.Response
use bao_tree.Chunks.Partial.Walk.{select-yields}
use bao_tree.Reference.{partial_chunk_iter_reference, response_iter_reference}
use bao_tree.Base.{map, two-pow-add, none}
use bao_tree.Chunks.{BaoChunk}
use bao_tree.Chunks.Partial.{push_leaf}
use bao_tree.Chunks.Partial.Select.{
  is_query_leaf, halves, select, select-out, select-whole, select-pair, select-empty,
}
use bao_tree.Reference.{select_nodes_rec}
use bao_tree.Reference.Steps.{rec-empty}
use bao_tree.Reference.Places.{start_at, size_at, size_lem, branch_inside, branch_outside, unit_lem}
use bao_tree.Reference.Halves.{left_start, right_start, left_size, right_size, out_size, at_top}
use bao_tree.Reference.Leaves.{pair_lem, query_lem, leaf_lem}

module _ (t : BaoTree) (v : IsValid t) (height m : ℕ) (h : HasShape t height m) where
  abbrev b : ℕ
  b = t.block_size

  abbrev size : ℕ → ℕ → ℕ
  size l k = size_at b t.size l k

  module _ {R : Type 0} (s : RangeSets R) (min_level : ℕ) where
    abbrev rec : ℕ → ℕ → ℕ → Bool → R → Option (List (BaoChunk R))
    rec f start size root r = select_nodes_rec s f start size root r b min_level

    abbrev Selected : ℕ → ℕ → ℕ → R → Type 0
    Selected f l k r =
        rec f (start_at b l k) (size l k) (l == height) r ≡ some (select s t min_level l k r)

    same_call :
        (n : ℕ) (r : R) {a a' z z' : ℕ} {u u' : Bool}
        → a ≡ a'
        → z ≡ z'
        → u ≡ u'
        → rec n a z u r ≡ rec n a' z' u' r
    same_call n r p q w = rw (p, q, w) refl

    branch_lem :
        (l k f : ℕ) (r : R)
        → suc l ≤ height
        → 2 * (k * 2 ^ suc l) < 2 * m + 1
        → s.is_empty r ≡ false
        → ((k f : ℕ) (r : R) → 2 * (k * 2 ^ l) < 2 * m + 1 → Selected (suc (suc (f + l))) l k r)
        → Selected (suc (suc (suc (f + l)))) (suc l) k r
    branch_lem l k f r under first e sub =
        let not_top = ne→== l height (omega arith) in
        let first_left : 2 * (2 * k * 2 ^ l) < 2 * m + 1 =
          omega (arith, first, mul-two-pow-suc k l) in
        elim (lt-cases (node_at (suc l) k) (2 * m + 1)) [
          | inl here ↦
              let inside = branch_inside t v height m h l k here in
              let in_tree =
                lt→ltb (node_at (suc l) k) (shifted t).1 (omega (arith, here, h.len_lem)) in
              elim (Bool-cases (is_query_leaf s t min_level (node_at (suc l) k) r)) [
                | inl q ↦
                    query_lem t v height m h s min_level (suc (suc (f + l))) (suc l) k r under first
                      here inside e q
                    ∙ ap (λ xs. some xs) (sym (select-whole s t min_level l k r e in_tree q))
                | inr q ↦
                    let (r0, r1) = halves s t min_level (node_at (suc l) k) r in
                    let first_right : 2 * ((2 * k + 1) * 2 ^ l) < 2 * m + 1 =
                      omega
                        (arith, here, suc-node_at (suc l) k, two-pow-suc l, mul-two-pow-suc k l) in
                    let left : rec (suc (suc (f + l))) (start_at b (suc l) k)
                          (2 ^ (suc l + b) * 1024) false r0
                        ≡ some (select s t min_level l (2 * k) r0) =
                      same_call (suc (suc (f + l))) r0 (sym (left_start t v height m h l k))
                        (sym (left_size t v height m h l k inside)) (sym not_top)
                      ∙ sub (2 * k) f r0 first_left in
                    let right : rec (suc (suc (f + l))) (start_at b (suc l) k + 2 ^ (suc l + b))
                          (size (suc l) k - 2 ^ (suc l + b) * 1024) false r1
                        ≡ some (select s t min_level l (2 * k + 1) r1) =
                      same_call (suc (suc (f + l))) r1 (sym (right_start t v height m h l k))
                        (sym (right_size t v height m h l k inside)) (sym not_top)
                      ∙ sub (2 * k + 1) f r1 first_right in
                    pair_lem t v height m h s min_level (suc (suc (f + l))) (suc l) k r
                      (select s t min_level l (2 * k) r0) (select s t min_level l (2 * k + 1) r1)
                      under first here inside e q left right
                    ∙ ap (λ xs. some xs) (sym (select-pair s t min_level l k r e in_tree q))
              ]
          | inr out ↦
              let out_tree =
                le→ltb (node_at (suc l) k) (shifted t).1 (omega (arith, out, h.len_lem)) in
              let no_top : (suc l == height) ≡ false = ne→== (suc l) height (λ top. omega (
                arith,
                out,
                at_top t v height m h (suc l) k under first top,
                h.root_lem,
                suc-node_at height 0,
                h.tight,
              )) in
              let fuel : suc (suc (suc (f + l))) ≡ suc (suc (suc f + l)) = omega arith in
              ap (λ n. rec n (start_at b (suc l) k) (size (suc l) k) (suc l == height) r) fuel
              ∙ same_call (suc (suc (suc f + l))) r (sym (left_start t v height m h l k))
                  (out_size t v height m h l k (branch_outside t v height m h l k out))
                  (no_top ∙ sym not_top)
              ∙ sub (2 * k) (suc f) r first_left
              ∙ ap (λ xs. some xs) (sym (select-out s t min_level l k r e out_tree))
        ]

    -- The subtree at a place.
    subtree_lem :
        (l k f : ℕ) (r : R)
        → l ≤ height
        → 2 * (k * 2 ^ l) < 2 * m + 1
        → Selected (suc (suc (f + l))) l k r
    subtree_lem zero k f r under first =
        let e : f + 0 ≡ f = omega arith in rw e (leaf_lem t v height m h s min_level f k r first)
    subtree_lem (suc l) k f r under first =
        let fuel : f + suc l ≡ suc (f + l) = omega arith in
        rw fuel (elim (Bool-cases (s.is_empty r)) [
          | inl e ↦
              rec-empty s b min_level (suc (suc (f + l))) (start_at b (suc l) k) (size (suc l) k)
                (suc l == height) r e
              ∙ ap (λ xs. some xs) (sym (select-empty s t min_level (suc l) k r e))
          | inr e ↦
              branch_lem l k f r under first e
                (λ k f r first. subtree_lem l k f r (omega arith) first)
        ])

    whole_size : size height 0 ≡ t.size
    whole_size =
        let x = 2 ^ (height + b) in
        let unit_x : 2 ^ height * unit t ≡ x * 1024 =
          let p = unit_lem t v height m h height 0 (2 ^ height) in
          let q = two-pow-add height b in rw (p, q) refl in
        let wide : blocks t * unit t ≤ 2 * 2 ^ height * unit t =
          mul-le (blocks t) (2 * 2 ^ height) (unit t)
            (ground (arith, block_count t v height m h, h.wide)) in
        omega (arith, size_lem t v height m h height 0, unit_x, wide, (cover t v).0)

    -- The reference for the whole blob.
    pub partial_lem :
        (r : R)
        → partial_chunk_iter_reference s t r min_level ≡ some (select s t min_level height 0 r)
    unfolding partial_chunk_iter_reference
    partial_lem r =
        let fuel : suc (suc (62 - height + height)) ≡ 64 = omega (arith, h.low) in
        let top = eq→== height height refl in
        let start : start_at b height 0 ≡ 0 = omega arith in
        let all = subtree_lem height 0 (62 - height) r (omega arith) (omega arith) in
        rw (sym fuel) (
          same_call (suc (suc (62 - height + height))) r (sym start) (sym whole_size) (sym top)
          ∙ all)

-- For a valid tree and ranges that are not empty, `PreOrderPartialChunkIterRef` ends, without a panic,
-- `partial_chunk_iter_reference` passes its assertions, and the iterator yields the chunks of the
-- reference.
pub yields-partial_chunk_iter_reference :
    {R : Type 0} (s : RangeSets R) (t : BaoTree) (min_level : ℕ) (ranges : R)
    → IsValid t
    → s.is_empty ranges ≡ false
    → (items : ℕ) × (cs : List (BaoChunk R)) × (partial_chunk_iter_reference s t ranges min_level
        ≡ some cs)
      × (Partial.yields s {E = IoError} items (Partial.new t ranges min_level) ≡ ok cs)
yields-partial_chunk_iter_reference s t min_level ranges v some_range =
    let (height, m, h) = shape t v in
    let (items, run) = select-yields s t min_level ranges v some_range in
    (
      items,
      select s t min_level height 0 ranges,
      partial_lem t v height m h s min_level ranges,
      run ∙ ap (λ l. ok (select s t min_level l 0 ranges)) (height_lem t v height m h),
    )

module _ {R : Type 0} (s : RangeSets R) where
  -- `ResponseIterRef` yields what the iterator inside yields, without the ranges.
  yields-inner :
      (items : ℕ) (it : PreOrderPartialChunkIterRef R) (cs : List (BaoChunk R))
      → Partial.yields s {E = IoError} items it ≡ ok cs
      → Response.yields {E = IoError} s items (record { inner = it }) ≡ ok (map without_ranges cs)
  unfolding Partial.yields Response.yields Response.next
  yields-inner zero it cs e = absurd cc
  yields-inner (suc items) it cs e =
      from (Partial.next s {E = IoError} it) refl (λ it cs e. yields-inner items it cs e)
    where
      later :
          (c : BaoChunk R) (it' : PreOrderPartialChunkIterRef R)
          → Partial.next s {E = IoError} it ≡ ok (some c, it')
          → (v : Outcome IoError (List (BaoChunk R))) → Partial.yields s {E = IoError} items it' ≡ v
          → ((it : PreOrderPartialChunkIterRef R) (cs : List (BaoChunk R))
              → Partial.yields s {E = IoError} items it ≡ ok cs
              → Response.yields {E = IoError} s items (record { inner = it })
                ≡ ok (map without_ranges cs))
          → Response.yields {E = IoError} s (suc items) (record { inner = it })
            ≡ ok (map without_ranges cs)
      later c it' p (ok rest) q ih =
          let all : cs ≡ c ∷ rest = ground (arith, e, p, q) in
          rw (all) (ground (arith, p, ih it' rest q))
      later c it' p (err x) q ih = absurd (ground (arith, e, p, q))
      later c it' p panic q ih = absurd (ground (arith, e, p, q))

      from :
          (v : Outcome IoError (Option (BaoChunk R) × PreOrderPartialChunkIterRef R))
          → Partial.next s {E = IoError} it ≡ v
          → ((it : PreOrderPartialChunkIterRef R) (cs : List (BaoChunk R))
              → Partial.yields s {E = IoError} items it ≡ ok cs
              → Response.yields {E = IoError} s items (record { inner = it })
                ≡ ok (map without_ranges cs))
          → Response.yields {E = IoError} s (suc items) (record { inner = it })
            ≡ ok (map without_ranges cs)
      from (ok (none, it')) p ih =
          let nothing : cs ≡ [] = ground (arith, e, p) in rw nothing (ground (arith, p))
      from (ok (some c, it')) p ih =
          later c it' p (Partial.yields s {E = IoError} items it') refl ih
      from (err x) p ih = absurd (ground (arith, e, p))
      from panic p ih = absurd (ground (arith, e, p))

-- For a valid tree and ranges that are not empty, `ResponseIterRef` ends, without a panic, and yields the
-- chunks of `response_iter_reference`, which passes its assertions.
pub yields-response_iter_reference :
    {R : Type 0} (s : RangeSets R) (t : BaoTree) (ranges : R)
    → IsValid t
    → s.is_empty ranges ≡ false
    → (items : ℕ) × (cs : List (BaoChunk Unit)) × (response_iter_reference s t ranges ≡ some cs)
      × (Response.yields {E = IoError} s items (Response.new t ranges) ≡ ok cs)
unfolding response_iter_reference Response.new partial_chunk_iter_reference
yields-response_iter_reference s t ranges v some_range =
    let tree1 : BaoTree = record { size = t.size; block_size = 0 } in
    let v1 : IsValid tree1 = record { size_fits = v.size_fits; block_fits = omega arith } in
    let (items, cs, ref, run) =
      yields-partial_chunk_iter_reference s tree1 t.block_size ranges v1 some_range in
    let ref' : select_nodes_rec s 64 0 t.size true ranges 0 t.block_size ≡ some cs = ref in
    (
      items,
      map without_ranges cs,
      rw (response_iter_reference, ref') refl,
      yields-inner s items (Partial.new tree1 ranges t.block_size) cs run,
    )
