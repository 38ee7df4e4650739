-- ===== src/Io/Valid/Vouched.antt =====
-- The recursion of `valid_ranges` of src/io/sync.rs, followed through the places of the tree.
use bao_tree.Base.{
  ℕ, zero, suc, ◌+◌, ◌*◌, ◌^◌, ◌≤◌, ◌<◌, ◌≡◌, refl, arith, min, Bool, true, false, ◌||◌, Option,
  none, some, inl, inr, lt-cases, ap, ◌∙◌, sym, two-pow-suc, two-pow-pos, two-pow-le,
  mul-two-pow-suc, some-inj,
}
use bao_tree.Word.{u64_add, u64_mul, shl}
use bao_tree.Outcome.{Outcome, ok}
use bao_tree.Errors.{IoError}
use bao_tree.Sizes.{ChunkNum}
use bao_tree.Hashing.{Blake3}
use bao_tree.Node.{
  TreeNode, left_child, right_descendant, descend_loop, subtract_block_size, chunk_range,
}
use bao_tree.Node.Place.{
  node_at, suc-node_at, node_at-left, node_at-right, left_child-node_at, is_leaf-node_at, shl-one,
}
use bao_tree.Node.Climb.{descend_loop-here, descend_loop-left, right_descendant_lem}
use bao_tree.Tree.{BaoTree, shifted, chunks, chunk_group_chunks}
use bao_tree.Tree.Shape.{IsValid, HasShape}
use bao_tree.Tree.Nodes.{raise_lem, fits}
use bao_tree.Reference.Places.{chunks_lem}
use bao_tree.Io.{Outboard}
use bao_tree.Io.Ranges.{RangeSums, HasMembers}
use bao_tree.Io.Valid.{leaf_range, validate_rec, valid_ranges}
use bao_tree.Io.Valid.Calls.{
  inside, hashes, vouched, vouched-out, vouched-mismatch, vouched-branch, leaf-mismatch, leaf-match,
  or_assoc, or_false, rec-mismatch, rec-leaf, rec-branch,
}

module _ {R Hash O : Type 0} (u : RangeSums R) (b : Blake3 Hash) (ob : Outboard Hash O) (o : O)
    (t : BaoTree) (v : IsValid t) (mem : HasMembers u) (pairs : TreeNode → Option (Hash × Hash))
    (loads : (n : TreeNode)
      → n < (shifted t).1
      → ob.load o (subtract_block_size n t.block_size)
        ≡ ok (pairs (subtract_block_size n t.block_size))) where
  -- The recursion from a node ends well and adds what the place vouches for.
  abbrev Adds : Outcome IoError R → R → (ChunkNum → Bool) → Type 0
  Adds result res more =
      (res' : R) × (result ≡ ok res')
      × ((c : ChunkNum) → mem.contains res' c ≡ (mem.contains res c || more c))

  abbrev Validates : ℕ → ℕ → TreeNode → Type 0
  Validates l k d =
      (f : ℕ) (res : R) (h : Hash) (is_root : Bool)
      → l < f
      → Adds (validate_rec u b ob o f t res h d is_root) res (vouched b t pairs l k h is_root)

  module _ (height m : ℕ) (shape : HasShape t height m) where
    leaf_range_lem :
        (k : ℕ)
        → node_at 0 k < 2 * m + 1
        → (c : ChunkNum)
        → mem.contains (leaf_range u t (subtract_block_size (node_at 0 k) t.block_size)) c
          ≡ inside b t pairs k c
    unfolding leaf_range chunk_group_chunks
    leaf_range_lem k here c =
        let bits : 0 + t.block_size ≡ t.block_size = omega arith in
        let start : (chunk_range (subtract_block_size (node_at 0 k) t.block_size)).start
            ≡ k * 2 ^ suc t.block_size =
          (chunks_lem t v height m shape 0 k here).0 ∙ ap (λ n. k * 2 ^ suc n) bits in
        let small = two-pow-le {m = t.block_size} {n = 50} (v.block_fits) in
        let bound : k * 2 ^ suc t.block_size ≤ 2 ^ 51 = omega (
          arith,
          fits t v height m shape 0 k here,
          suc-node_at (0 + t.block_size) k,
          ap (λ n. k * 2 ^ n) bits,
          ap (λ n. 2 ^ n) bits,
          mul-two-pow-suc k t.block_size,
        ) in
        let stop : u64_add (k * 2 ^ suc t.block_size) (u64_mul (shl 1 t.block_size) 2)
            ≡ (k + 1) * 2 ^ suc t.block_size =
          rw (shl-one t.block_size (omega (arith, v.block_fits))) (
            omega (
              arith,
              small,
              bound,
              two-pow-suc t.block_size,
              mul-two-pow-suc (k + 1) t.block_size,
              mul-two-pow-suc k t.block_size,
            )) in
        rw (leaf_range, start, stop)
          (mem.from_to_lem (k * 2 ^ suc t.block_size)
            (min ((k + 1) * 2 ^ suc t.block_size) (chunks t)) c)

    leaf_adds : (k : ℕ) → node_at 0 k < 2 * m + 1 → Validates 0 k (node_at 0 k)
    unfolding vouched
    leaf_adds k here zero res h is_root fuel = absurd (omega arith)
    leaf_adds k here (suc f) res h is_root fuel = at (hashes b t pairs 0 k h is_root) refl
      where
        p : Option (Hash × Hash)
        p = pairs (node_at (0 + t.block_size) k)

        loaded : ob.load o (subtract_block_size (node_at 0 k) t.block_size) ≡ ok p
        loaded =
            loads (node_at 0 k) (omega (arith, here, shape.len_lem))
            ∙ ap (λ n. ok (pairs n)) (raise_lem t v height m shape 0 k here)

        at :
            (w : Option (Hash × Hash))
            → hashes b t pairs 0 k h is_root ≡ w
            → Adds
                (validate_rec u b ob o (suc f) t res h (node_at 0 k) is_root)
                res
                (vouched b t pairs 0 k h is_root)
        at none e = (
          res,
          rec-mismatch u b ob o t f res h (node_at 0 k) is_root p loaded e,
          λ c. rw (leaf-mismatch b t pairs k h is_root c e) (or_false (mem.contains res c)),
        )
        at (some hs) e = (
          u.union res (leaf_range u t (subtract_block_size (node_at 0 k) t.block_size)),
          rec-leaf u b ob o t f res h (node_at 0 k) is_root p loaded hs e (is_leaf-node_at 0 k),
          λ c. rw (leaf-match b t pairs k h is_root c hs e) (
              mem.union_lem res (leaf_range u t (subtract_block_size (node_at 0 k) t.block_size)) c
              ∙ ap (λ x. mem.contains res c || x) (leaf_range_lem k here c)),
        )

    -- A subtree that starts inside the tree, entered as `right_descendant` enters it.
    abbrev Visits : ℕ → Type 0
    Visits l =
        (k g : ℕ)
        → l < g
        → k * 2 ^ suc l < 2 * m + 1
        → (k + 1) * 2 ^ suc l ≤ 2 ^ 62
        → (d : TreeNode) × (descend_loop g (node_at l k) (2 * m + 1) ≡ some d) × Validates l k d

    visit_leaf : Visits 0
    visit_leaf k zero fuel first room = absurd (omega arith)
    visit_leaf k (suc g) fuel first room =
        let here : node_at 0 k < 2 * m + 1 = omega (arith, suc-node_at 0 k) in
        (node_at 0 k, descend_loop-here (2 * m + 1) g (node_at 0 k) here, leaf_adds k here)

    module _ (l k : ℕ) (sub : Visits l) (first : k * 2 ^ suc (suc l) < 2 * m + 1)
        (room : (k + 1) * 2 ^ suc (suc l) ≤ 2 ^ 62) where
      abbrev n : TreeNode
      n = node_at (suc l) k

      number : n + 1 ≡ 2 * (k * 2 ^ suc l) + 2 ^ suc l
      number = suc-node_at (suc l) k

      slot : (k + 1) * 2 ^ suc (suc l) ≡ 2 * (k * 2 ^ suc l) + 2 * 2 ^ suc l
      slot = omega (arith, mul-two-pow-suc (k + 1) (suc l))

      left_first : 2 * k * 2 ^ suc l < 2 * m + 1
      left_first = omega (arith, mul-two-pow-suc k (suc l))

      left_room : (2 * k + 1) * 2 ^ suc l ≤ 2 ^ 62
      left_room = omega (arith, slot, room)

      visit_out :
          (g : ℕ)
          → l < g
          → 2 * m + 1 ≤ n
          → (d : TreeNode) × (descend_loop (suc g) n (2 * m + 1) ≡ some d) × Validates (suc l) k d
      visit_out g fuel out =
          let (d, down, valid) = sub (2 * k) g fuel left_first left_room in
          (
            d,
            descend_loop-left (2 * m + 1) g l k (omega (arith, number, slot, two-pow-pos (suc l)))
                  out
                ∙ down,
            beyond d valid,
          )
        where
          beyond : (d : TreeNode) → Validates l (2 * k) d → Validates (suc l) k d
          beyond d valid f res h is_root fuel =
              let (res', e, adds) = valid f res h is_root (omega arith) in
              (
                res',
                e,
                λ c.
                    adds c
                    ∙ ap (λ x. mem.contains res c || x)
                        (sym (
                          vouched-out b t pairs l k h is_root c
                            (omega (arith, out, shape.len_lem)))),
              )

      module _ (here : n < 2 * m + 1) where
        fits_n : n < 2 ^ 63
        fits_n = omega (arith, number, slot, room)

        right_first : (2 * k + 1) * 2 ^ suc l < 2 * m + 1
        right_first = omega (arith, number, two-pow-suc l)

        right_room : (2 * k + 1 + 1) * 2 ^ suc l ≤ 2 ^ 62
        right_room = omega (arith, slot, room)

        right_fits : node_at l (2 * k + 1) < 2 ^ 63
        right_fits = omega (arith, node_at-right l k, number, slot, room, two-pow-suc l)

        left_lem :
            (d : TreeNode)
            → descend_loop 66 (node_at l (2 * k)) (2 * m + 1) ≡ some d
            → left_child n ≡ some d
        left_lem d down =
            left_child-node_at l k fits_n
            ∙ (sym (
                  descend_loop-here (2 * m + 1) 65 (node_at l (2 * k))
                    (omega (arith, node_at-left l k)))
                ∙ down)

        branch_adds : l < 66 → Validates (suc l) k n
        branch_adds bound zero res h is_root fuel = absurd (omega arith)
        branch_adds bound (suc f) res h is_root fuel =
            at (hashes b t pairs (suc l) k h is_root) refl
          where
            p : Option (Hash × Hash)
            p = pairs (node_at (suc l + t.block_size) k)

            inside_lem : n < (shifted t).1
            inside_lem = omega (arith, here, shape.len_lem)

            loaded : ob.load o (subtract_block_size n t.block_size) ≡ ok p
            loaded =
                loads n inside_lem
                ∙ ap (λ n. ok (pairs n)) (raise_lem t v height m shape (suc l) k here)

            at :
                (w : Option (Hash × Hash))
                → hashes b t pairs (suc l) k h is_root ≡ w
                → Adds
                    (validate_rec u b ob o (suc f) t res h n is_root)
                    res
                    (vouched b t pairs (suc l) k h is_root)
            at none e = (
              res,
              rec-mismatch u b ob o t f res h n is_root p loaded e,
              λ c.
                  rw (vouched-mismatch b t pairs l k h is_root c inside_lem e)
                    (or_false (mem.contains res c)),
            )
            at (some hs) e =
                let (dl, downl, vl) = sub (2 * k) 66 bound left_first left_room in
                let (dr, downr, vr) = sub (2 * k + 1) 66 bound right_first right_room in
                let (r1, e1, c1) = vl f res (hs.0) false (omega arith) in
                let (r2, e2, c2) = vr f r1 (hs.1) false (omega arith) in
                let down : right_descendant n (shifted t).1 ≡ some dr =
                  rw shape.len_lem (right_descendant_lem (2 * m + 1) l k fits_n right_fits downr) in
                (
                  r2,
                  rec-branch u b ob o t f res h n is_root p loaded hs dl dr r1 e
                        (is_leaf-node_at (suc l) k ∙ ground arith) (left_lem dl downl) down e1
                      ∙ e2,
                  λ c. rw (vouched-branch b t pairs l k h is_root c inside_lem hs e) (
                      c2 c
                      ∙ ap (λ x. x || vouched b t pairs l (2 * k + 1) (hs.1) false c) (c1 c)
                      ∙ or_assoc (mem.contains res c) (vouched b t pairs l (2 * k) (hs.0) false c)
                          (vouched b t pairs l (2 * k + 1) (hs.1) false c)),
                )

    visits : (l : ℕ) → l < 66 → Visits l
    visits zero bound k g fuel first room = visit_leaf k g fuel first room
    visits (suc l) bound k zero fuel first room = absurd (omega arith)
    visits (suc l) bound k (suc g) fuel first room =
        let sub = visits l (omega arith) in
        elim (lt-cases (node_at (suc l) k) (2 * m + 1)) [
          | inl here ↦ (
            node_at (suc l) k,
            descend_loop-here (2 * m + 1) g (node_at (suc l) k) here,
            branch_adds l k sub first room here (omega arith),
          )
          | inr out ↦ visit_out l k sub first room g (omega arith) out
        ]

-- If every load of a node of the tree ends well, then with fuel above 60 `valid_ranges` ends well too, in a
-- tree of at most 2 ^ 60 bytes and blocks of up to 2 ^ 60 bytes, and the set that it returns holds
-- exactly the chunks below the end of the blob to whose leaves the matching pairs lead from the root.
pub valid_ranges-vouched :
    {R Hash O : Type 0} (u : RangeSums R) (b : Blake3 Hash) (ob : Outboard Hash O) (o : O)
    (v : IsValid (ob.tree o)) (mem : HasMembers u) (pairs : TreeNode → Option (Hash × Hash))
    → ((n : TreeNode)
        → n < (shifted (ob.tree o)).1
        → ob.load o (subtract_block_size n (ob.tree o).block_size)
          ≡ ok (pairs (subtract_block_size n (ob.tree o).block_size)))
    → (height m fuel : ℕ) → HasShape (ob.tree o) height m
    → 60 < fuel
    → (res : R) × (valid_ranges u b ob o fuel ≡ ok res)
      × ((c : ChunkNum)
          → mem.contains res c ≡ vouched b (ob.tree o) pairs height 0 (ob.root o) true c)
unfolding valid_ranges
valid_ranges-vouched u b ob o v mem pairs loads height m fuel s enough =
    let number = suc-node_at height 0 in
    let low = s.low in
    let here : node_at height 0 < 2 * m + 1 = omega (arith, number, s.tight) in
    let room = two-pow-le {m = suc height} {n = 62} (omega (arith, low)) in
    let (d, down, valid) =
      visits u b ob o (ob.tree o) v mem pairs loads height m s height (omega (arith, low)) 0 66
        (omega (arith, low)) (omega arith) (omega (arith, room)) in
    let same : d ≡ (shifted (ob.tree o)).0 =
      some-inj (sym down ∙ descend_loop-here (2 * m + 1) 65 (node_at height 0) here)
      ∙ sym s.root_lem in
    let (res, e, adds) = valid fuel u.empty (ob.root o) true (omega (arith, low, enough)) in
    (
      res,
      ap (λ n. validate_rec u b ob o fuel (ob.tree o) u.empty (ob.root o) n true) (sym same) ∙ e,
      λ c.
          adds c
          ∙ ap (λ x. x || vouched b (ob.tree o) pairs height 0 (ob.root o) true c)
              (mem.empty_lem c),
    )
