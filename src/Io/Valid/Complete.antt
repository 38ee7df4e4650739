-- ===== src/Io/Valid/Complete.antt =====
-- `valid_ranges` of src/io/sync.rs on an outboard whose pairs all match.
use bao_tree.Base.{
  ℕ, zero, suc, ◌+◌, ◌*◌, ◌^◌, ◌≤◌, ◌<◌, ◌≡◌, ◌⊎◌, refl, arith, min, ltb, leb, lt→ltb, le→ltb, Bool,
  true, false, ◌&&◌, ◌||◌, Option, none, some, inl, inr, lt-cases, ap, ◌∙◌, two-pow-suc,
  mul-two-pow-suc, two-pow-add, replicate,
}
use bao_tree.Outcome.{ok}
use bao_tree.Sizes.{ChunkNum}
use bao_tree.Sizes.Rounding.{chunks-Covers}
use bao_tree.Hashing.{Blake3}
use bao_tree.Node.{TreeNode, subtract_block_size}
use bao_tree.Node.Place.{node_at, suc-node_at}
use bao_tree.Tree.{BaoTree, shifted, chunks, blocks}
use bao_tree.Tree.Shape.{IsValid, HasShape}
use bao_tree.Tree.Nodes.{unit, cover, block_count}
use bao_tree.Io.{Outboard}
use bao_tree.Io.Ranges.{RangeSums, HasMembers}
use bao_tree.Io.Valid.{matched, valid_ranges}
use bao_tree.Io.Valid.Vouched.{valid_ranges-vouched}
use bao_tree.Io.Valid.Calls.{vouched, vouched-out, vouched-branch, leaf-match, inside}

-- Adjacent ranges, cut off at `n`.
joined :
    (a mid e n c : ℕ)
    → a ≤ mid
    → mid ≤ e
    → ((leb a c && ltb c (min mid n)) || (leb mid c && ltb c (min e n)))
      ≡ (leb a c && ltb c (min e n))
joined a mid e n c below above = ground arith

-- A range whose second half is cut off.
cut_off :
    (a mid e n c : ℕ)
    → n ≤ mid
    → mid ≤ e
    → (leb a c && ltb c (min mid n)) ≡ (leb a c && ltb c (min e n))
cut_off a mid e n c below above = ground arith

scale : (a b u : ℕ) → a ≤ b → a * u ≤ b * u
scale a b u h = grind arith

module _ {Hash : Type 0} (b : Blake3 Hash) (t : BaoTree)
    (pairs : TreeNode → Option (Hash × Hash)) where
  -- The pair of a node, and its match with the hash.
  abbrev pub Pair : ℕ → ℕ → Hash → Bool → Hash × Hash → Type 0
  Pair l k h is_root hs =
      (pairs (node_at (l + t.block_size) k) ≡ some hs)
      × (b.hash_eq (b.parent_cv (hs.0) (hs.1) is_root) h ≡ true)

  -- From a place whose hash is `h`, every branch has a pair, every leaf has one or none, and every pair
  -- matches.
  unfoldable pub Intact : ℕ → ℕ → Hash → Bool → Type 0
  Intact zero k h is_root =
      (pairs (node_at (0 + t.block_size) k) ≡ none) ⊎ (hs : Hash × Hash) × Pair 0 k h is_root hs
  Intact (suc l) k h is_root = elim (ltb (node_at (suc l) k) (shifted t).1) [
    | false ↦ Intact l (2 * k) h is_root
    | true ↦
        (hs : Hash × Hash) × Pair (suc l) k h is_root hs
        × Intact l (2 * k) (hs.0) false
        × Intact l (2 * k + 1) (hs.1) false
  ]

  matched_lem :
      (l k : ℕ) (h : Hash) (is_root : Bool) (hs : Hash × Hash)
      → Pair l k h is_root hs
      → matched b h is_root (pairs (node_at (l + t.block_size) k)) ≡ some hs
  unfolding matched
  matched_lem l k h is_root hs (e, same) = rw (e, matched, same) refl

module _ {Hash : Type 0} (b : Blake3 Hash) (t : BaoTree) (v : IsValid t)
    (pairs : TreeNode → Option (Hash × Hash)) (height m : ℕ) (s : HasShape t height m) where
  chunks-bound : chunks t ≤ (m + 1) * 2 ^ suc t.block_size
  unfolding chunks
  chunks-bound =
      let count : blocks t ≤ 2 * m + 2 = ground (arith, block_count t v height m s) in
      let all : blocks t * unit t ≤ (2 * m + 2) * unit t =
        scale (blocks t) (2 * m + 2) (unit t) count in
      let units : unit t ≡ 2 ^ t.block_size * 1024 = two-pow-add t.block_size 10 in
      let width : (2 * m + 2) * unit t ≡ (m + 1) * 2 ^ suc t.block_size * 1024 =
        rw (units, two-pow-suc t.block_size) (grind arith) in
      omega
        (arith, (chunks-Covers t.size (omega (arith, v.size_fits))).1, (cover t v).0, all, width)

  -- The chunks of a place, as many as a leaf of its level has.
  abbrev wide : ℕ → ℕ
  wide l = 2 ^ suc (l + t.block_size)

  abbrev covered : ℕ → ℕ → ChunkNum → Bool
  covered l k c = leb (k * wide l) c && ltb c (min ((k + 1) * wide l) (chunks t))

  wide_lem : (l : ℕ) → wide l ≡ 2 ^ l * 2 ^ suc t.block_size
  wide_lem l =
      let e : suc (l + t.block_size) ≡ l + suc t.block_size = omega arith in
      rw e (two-pow-add l (suc t.block_size))

  wide-suc : (l : ℕ) → wide (suc l) ≡ 2 * wide l
  wide-suc l =
      let e : suc l + t.block_size ≡ suc (l + t.block_size) = omega arith in
      rw e (two-pow-suc (suc (l + t.block_size)))

  abbrev Vouches : ℕ → Type 0
  Vouches l =
      (k : ℕ) (h : Hash) (is_root : Bool)
      → Intact b t pairs l k h is_root
      → (c : ChunkNum) → vouched b t pairs l k h is_root c ≡ covered l k c

  reports_leaf : Vouches 0
  unfolding Intact matched
  reports_leaf k h is_root intact c = elim intact [
    | inl absent ↦
        leaf-match b t pairs k h is_root c (h, b.from_bytes (replicate 32 0))
          (rw (absent, matched) refl)
        ∙ inside_lem
    | inr (hs, pair) ↦
        leaf-match b t pairs k h is_root c hs (matched_lem b t pairs 0 k h is_root hs pair)
        ∙ inside_lem
  ]
    where
      inside_lem : inside b t pairs k c ≡ covered 0 k c
      inside_lem =
          ap (λ (n : ℕ). leb (k * 2 ^ suc n) c && ltb c (min ((k + 1) * 2 ^ suc n) (chunks t)))
            (omega arith)

  module _ (l k : ℕ) (sub : Vouches l) (h : Hash) (is_root : Bool) (c : ChunkNum) where
    -- Where the halves of a place begin and end.
    begins : k * wide (suc l) ≡ 2 * k * wide l
    begins = rw (wide-suc l) (grind arith)

    ends : (k + 1) * wide (suc l) ≡ (2 * k + 1 + 1) * wide l
    ends = rw (wide-suc l) (grind arith)

    reports_branch :
        node_at (suc l) k < (shifted t).1
        → Intact b t pairs (suc l) k h is_root
        → vouched b t pairs (suc l) k h is_root c ≡ covered (suc l) k c
    unfolding Intact
    reports_branch here intact =
        at (rw (Intact, lt→ltb (node_at (suc l) k) ((shifted t).1) here) at intact)
      where
        at :
            (hs : Hash × Hash) × Pair b t pairs (suc l) k h is_root hs
              × Intact b t pairs l (2 * k) (hs.0) false
              × Intact b t pairs l (2 * k + 1) (hs.1) false
            → vouched b t pairs (suc l) k h is_root c ≡ covered (suc l) k c
        at (hs, pair, left, right) =
            vouched-branch b t pairs l k h is_root c here hs
              (matched_lem b t pairs (suc l) k h is_root hs pair)
            ∙ rw
                (
                  sub (2 * k) (hs.0) false left c,
                  sub (2 * k + 1) (hs.1) false right c,
                  begins,
                  ends,
                )
                (joined (2 * k * wide l) ((2 * k + 1) * wide l) ((2 * k + 1 + 1) * wide l)
                  (chunks t) c (grind arith) (grind arith))

    reports_out :
        (shifted t).1 ≤ node_at (suc l) k
        → Intact b t pairs (suc l) k h is_root
        → vouched b t pairs (suc l) k h is_root c ≡ covered (suc l) k c
    unfolding Intact
    reports_out out intact =
        vouched-out b t pairs l k h is_root c out
        ∙ sub (2 * k) h is_root
            (rw (Intact, le→ltb (node_at (suc l) k) ((shifted t).1) out) at intact) c
        ∙ rw (begins, ends)
            (cut_off (2 * k * wide l) ((2 * k + 1) * wide l) ((2 * k + 1 + 1) * wide l) (chunks t) c
              past (grind arith))
      where
        past : chunks t ≤ (2 * k + 1) * wide l
        past =
            let reach : m + 1 ≤ (2 * k + 1) * 2 ^ l =
              omega (
                arith,
                out,
                s.len_lem,
                suc-node_at (suc l) k,
                two-pow-suc l,
                mul-two-pow-suc k l,
              ) in
            let most = scale (m + 1) ((2 * k + 1) * 2 ^ l) (2 ^ suc t.block_size) reach in
            let units : (2 * k + 1) * wide l ≡ (2 * k + 1) * 2 ^ l * 2 ^ suc t.block_size =
              rw (wide_lem l) (grind arith) in
            omega (arith, chunks-bound, most, units)

  reports : (l : ℕ) → Vouches l
  reports zero k h is_root intact c = reports_leaf k h is_root intact c
  reports (suc l) k h is_root intact c = elim (lt-cases (node_at (suc l) k) ((shifted t).1)) [
    | inl here ↦ reports_branch l k (reports l) h is_root c here intact
    | inr out ↦ reports_out l k (reports l) h is_root c (omega arith) intact
  ]

  covered_root : (c : ChunkNum) → covered height 0 c ≡ ltb c (chunks t)
  covered_root c =
      let top : wide height ≡ 2 ^ height * 2 ^ suc t.block_size = wide_lem height in
      let all : (m + 1) * 2 ^ suc t.block_size ≤ 2 ^ height * 2 ^ suc t.block_size =
        scale (m + 1) (2 ^ height) (2 ^ suc t.block_size) s.wide in
      let past : chunks t ≤ (0 + 1) * wide height = omega (arith, chunks-bound, top, all) in
      ground (arith, past)

-- A tree of at most 2 ^ 60 bytes in blocks of up to 2 ^ 60 bytes. If every load of a node of the tree
-- ends well, and from the root down every branch has a pair, every leaf has one or none, and every
-- pair matches the hash above it, then with fuel above 60 `valid_ranges` returns the set of all
-- chunks of the blob.
pub valid_ranges_complete :
    {R Hash O : Type 0} (u : RangeSums R) (b : Blake3 Hash) (ob : Outboard Hash O) (o : O)
    (v : IsValid (ob.tree o)) (mem : HasMembers u) (pairs : TreeNode → Option (Hash × Hash))
    → ((n : TreeNode)
        → n < (shifted (ob.tree o)).1
        → ob.load o (subtract_block_size n (ob.tree o).block_size)
          ≡ ok (pairs (subtract_block_size n (ob.tree o).block_size)))
    → (height m fuel : ℕ) → HasShape (ob.tree o) height m
    → 60 < fuel
    → Intact b (ob.tree o) pairs height 0 (ob.root o) true
    → (res : R) × (valid_ranges u b ob o fuel ≡ ok res)
      × ((c : ChunkNum) → mem.contains res c ≡ ltb c (chunks (ob.tree o)))
valid_ranges_complete u b ob o v mem pairs loads height m fuel s enough intact =
    let (res, e, holds) = valid_ranges-vouched u b ob o v mem pairs loads height m fuel s enough in
    (
      res,
      e,
      λ c.
          holds c
          ∙ reports b (ob.tree o) v pairs height m s height 0 (ob.root o) true intact c
          ∙ covered_root b (ob.tree o) v pairs height m s c,
    )
