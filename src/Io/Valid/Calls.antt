-- ===== src/Io/Valid/Calls.antt =====
-- One call of `validate_rec` of src/io/sync.rs, and the recursion over the places of the tree, without
-- the node arithmetic, that says which chunks an outboard vouches for.
use bao_tree.Base.{
  ℕ, zero, suc, ◌+◌, ◌*◌, ◌^◌, ◌≤◌, ◌<◌, ◌≡◌, refl, arith, min, ltb, leb, lt→ltb, le→ltb, Bool,
  true, false, ◌&&◌, ◌||◌, Option, none, some, inl, inr, Bool-cases, ◌∙◌, sym, replicate, some-inj,
}
use bao_tree.Outcome.{ok, ◌>>=◌}
use bao_tree.Sizes.{ChunkNum}
use bao_tree.Hashing.{Blake3}
use bao_tree.Node.{TreeNode, is_leaf, left_child, right_descendant, subtract_block_size}
use bao_tree.Node.Place.{node_at}
use bao_tree.Tree.{BaoTree, shifted, chunks}
use bao_tree.Io.{Outboard}
use bao_tree.Io.Ranges.{RangeSums}
use bao_tree.Io.Valid.{matched, leaf_range, validate_rec}

module _ {Hash : Type 0} (b : Blake3 Hash) (t : BaoTree)
    (pairs : TreeNode → Option (Hash × Hash)) where
  -- The chunks of a leaf that the blob has.
  abbrev pub inside : ℕ → ChunkNum → Bool
  inside k c =
      let width = 2 ^ suc t.block_size in
      leb (k * width) c && ltb c (min ((k + 1) * width) (chunks t))

  -- Whether a pair, where there is one, matches the hash above it, and the hashes that it hands down.
  unfoldable pub matches : Hash → Bool → Option (Hash × Hash) → Bool
  matches h is_root none = true
  matches h is_root (some (l_hash, r_hash)) = b.hash_eq (b.parent_cv l_hash r_hash is_root) h

  unfoldable pub halves : Hash → Option (Hash × Hash) → Hash × Hash
  halves h none = (h, b.from_bytes (replicate 32 0))
  halves h (some pair) = pair

  abbrev pub pair_at : ℕ → ℕ → Option (Hash × Hash)
  pair_at l k = pairs (node_at (l + t.block_size) k)

  -- Whether the pairs on the way from a place, whose hash is `h`, to the leaf of a chunk match. A place
  -- beyond the tree stands for its left half.
  unfoldable pub vouched : ℕ → ℕ → Hash → Bool → ChunkNum → Bool
  vouched zero k h is_root c = matches h is_root (pair_at 0 k) && inside k c
  vouched (suc l) k h is_root c = elim (ltb (node_at (suc l) k) (shifted t).1) [
    | false ↦ vouched l (2 * k) h is_root c
    | true ↦
        let (left, right) = halves h (pair_at (suc l) k) in
        matches h is_root (pair_at (suc l) k)
        && (vouched l (2 * k) left false c || vouched l (2 * k + 1) right false c)
  ]

  mismatch_lem :
      (h : Hash) (is_root : Bool) (p : Option (Hash × Hash))
      → matched b h is_root p ≡ none
      → matches h is_root p ≡ false
  unfolding matched matches
  mismatch_lem h is_root none e = absurd (ground (arith, e))
  mismatch_lem h is_root (some hs) e = ground (arith, e)

  match_lem :
      (h : Hash) (is_root : Bool) (p : Option (Hash × Hash)) (hs : Hash × Hash)
      → matched b h is_root p ≡ some hs
      → (matches h is_root p ≡ true) × (halves h p ≡ hs)
  unfolding matched matches halves
  match_lem h is_root none hs e = (refl, some-inj e)
  match_lem h is_root (some (l, r)) hs e =
      elim (Bool-cases (b.hash_eq (b.parent_cv l r is_root) h)) [
        | inl same ↦ (same, some-inj (sym (rw (matched, same) refl) ∙ e))
        | inr differ ↦ absurd (ground (arith, rw (matched, differ) at e))
      ]

  abbrev pub hashes : ℕ → ℕ → Hash → Bool → Option (Hash × Hash)
  hashes l k h is_root = matched b h is_root (pair_at l k)

  -- What is vouched for, by how a place stands.
  module _ (l k : ℕ) (h : Hash) (is_root : Bool) (c : ChunkNum) where
    pub vouched-out :
        (shifted t).1 ≤ node_at (suc l) k
        → vouched (suc l) k h is_root c ≡ vouched l (2 * k) h is_root c
    unfolding vouched
    vouched-out out = rw (vouched, le→ltb (node_at (suc l) k) ((shifted t).1) out) refl

    module _ (here : node_at (suc l) k < (shifted t).1) where
      pub vouched-mismatch :
          hashes (suc l) k h is_root ≡ none → vouched (suc l) k h is_root c ≡ false
      unfolding vouched
      vouched-mismatch e =
          rw
            (
              vouched,
              lt→ltb (node_at (suc l) k) ((shifted t).1) here,
              mismatch_lem h is_root (pair_at (suc l) k) e,
            )
            refl

      pub vouched-branch :
          (hs : Hash × Hash)
          → hashes (suc l) k h is_root ≡ some hs
          → vouched (suc l) k h is_root c
            ≡ (vouched l (2 * k) (hs.0) false c || vouched l (2 * k + 1) (hs.1) false c)
      unfolding vouched
      vouched-branch hs e =
          let (same, handed) = match_lem h is_root (pair_at (suc l) k) hs e in
          rw (vouched, lt→ltb (node_at (suc l) k) ((shifted t).1) here, same, handed) refl

  module _ (k : ℕ) (h : Hash) (is_root : Bool) (c : ChunkNum) where
    pub leaf-mismatch : hashes 0 k h is_root ≡ none → vouched 0 k h is_root c ≡ false
    unfolding vouched
    leaf-mismatch e = rw (vouched, mismatch_lem h is_root (pair_at 0 k) e) refl

    pub leaf-match :
        (hs : Hash × Hash) → hashes 0 k h is_root ≡ some hs → vouched 0 k h is_root c ≡ inside k c
    unfolding vouched
    leaf-match hs e = rw (vouched, (match_lem h is_root (pair_at 0 k) hs e).0) refl

pub or_assoc : (x y z : Bool) → ((x || y) || z) ≡ (x || (y || z))
or_assoc true y z = refl
or_assoc false y z = refl

pub or_false : (x : Bool) → x ≡ (x || false)
or_false true = refl
or_false false = refl

-- One call of `validate_rec`, by what the outboard has for the node.
module _ {R Hash O : Type 0} (u : RangeSums R) (b : Blake3 Hash) (ob : Outboard Hash O) (o : O)
    (t : BaoTree) (f : ℕ) (res : R) (h : Hash) (s : TreeNode) (is_root : Bool)
    (p : Option (Hash × Hash))
    (loaded : ob.load o (subtract_block_size s t.block_size) ≡ ok p) where
  pub rec-mismatch :
      matched b h is_root p ≡ none → validate_rec u b ob o (suc f) t res h s is_root ≡ ok res
  unfolding validate_rec
  rec-mismatch e = rw (validate_rec, loaded, ◌>>=◌, e) refl

  pub rec-leaf :
      (hs : Hash × Hash)
      → matched b h is_root p ≡ some hs
      → is_leaf s ≡ true
      → validate_rec u b ob o (suc f) t res h s is_root
        ≡ ok (u.union res (leaf_range u t (subtract_block_size s t.block_size)))
  unfolding validate_rec
  rec-leaf hs e leaf = ground (arith, loaded, e, leaf)

  pub rec-branch :
      (hs : Hash × Hash) (left right : TreeNode) (res' : R)
      → matched b h is_root p ≡ some hs
      → is_leaf s ≡ false
      → left_child s ≡ some left
      → right_descendant s (shifted t).1 ≡ some right
      → validate_rec u b ob o f t res (hs.0) left false ≡ ok res'
      → validate_rec u b ob o (suc f) t res h s is_root
        ≡ validate_rec u b ob o f t res' (hs.1) right false
  unfolding validate_rec
  rec-branch hs left right res' e branch l r done = ground (arith, loaded, e, branch, l, done, r)
