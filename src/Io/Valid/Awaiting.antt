-- ===== src/Io/Valid/Awaiting.antt =====
-- `valid_ranges` of src/io/fsm.rs, where the outboard is exclusively borrowed and a load may change
-- it; the outboard is passed on.
use bao_tree.Base.{
  ℕ, zero, suc, ◌≡◌, refl, arith, inl, inr, Bool-cases, Bool, true, false, Option, none, some,
}
use bao_tree.Outcome.{Outcome, ok, err, panic, ◌>>=◌, unwrap}
use bao_tree.Errors.{IoError}
use bao_tree.Hashing.{Blake3}
use bao_tree.Node.{TreeNode, is_leaf, left_child, right_descendant, subtract_block_size}
use bao_tree.Tree.{BaoTree, shifted}
use bao_tree.Io.{Outboard}
use bao_tree.Io.Ranges.{RangeSums}
use bao_tree.Io.Valid.{matched, leaf_range, validate_rec, valid_ranges}

module _ {R Hash O : Type 0} (u : RangeSums R) (b : Blake3 Hash) (root : O → Hash)
    (tree : O → BaoTree) (load : O → TreeNode → Outcome IoError (Option (Hash × Hash) × O)) where
  unfoldable pub async_validate_rec :
      ℕ → BaoTree → R → O → Hash → TreeNode → Bool → Outcome IoError (R × O)
  async_validate_rec zero t res o parent_hash s is_root = panic
  async_validate_rec (suc fuel) t res o parent_hash s is_root = do
    let node = subtract_block_size s t.block_size
    (loaded, o) ← load o node
    elim (matched b parent_hash is_root loaded) [
      | none ↦ ok (res, o)
      | some (l_hash, r_hash) ↦ elim (is_leaf s) [
        | true ↦ ok (u.union res (leaf_range u t node), o)
        | false ↦ do
          left ← unwrap (left_child s)
          (res, o) ← async_validate_rec fuel t res o l_hash left false
          right ← unwrap (right_descendant s (shifted t).1)
          async_validate_rec fuel t res o r_hash right false
      ]
    ]

  unfoldable pub async_valid_ranges : ℕ → O → Outcome IoError (R × O)
  async_valid_ranges fuel o =
      let t = tree o in async_validate_rec fuel t u.empty o (root o) (shifted t).0 true

-- An outboard that a load leaves as it is.
module _ {R Hash O : Type 0} (u : RangeSums R) (b : Blake3 Hash) (ob : Outboard Hash O)
    (o : O) where
  abbrev unchanged : O → TreeNode → Outcome IoError (Option (Hash × Hash) × O)
  unchanged o node = ob.load o node >>= (λ pair. ok (pair, o))

  abbrev with_outboard : Outcome IoError R → Outcome IoError (R × O)
  with_outboard m = m >>= (λ res. ok (res, o))

  abbrev Same : ℕ → Type 0
  Same fuel =
      (t : BaoTree) (res : R) (h : Hash) (s : TreeNode) (is_root : Bool)
      → async_validate_rec u b ob.root ob.tree unchanged fuel t res o h s is_root
        ≡ with_outboard (validate_rec u b ob o fuel t res h s is_root)

  -- One call, if the calls below are the same, by the results that the call looks at in turn.
  module _ (fuel : ℕ) (same : Same fuel) (t : BaoTree) (res : R) (h : Hash) (s : TreeNode)
      (is_root : Bool) where
    abbrev Here : Type 0
    Here =
        async_validate_rec u b ob.root ob.tree unchanged (suc fuel) t res o h s is_root
        ≡ with_outboard (validate_rec u b ob o (suc fuel) t res h s is_root)

    module _ (p : Option (Hash × Hash))
        (loaded : ob.load o (subtract_block_size s t.block_size) ≡ ok p) where
      module _ (hs : Hash × Hash) (matches : matched b h is_root p ≡ some hs)
          (branch : is_leaf s ≡ false) (left : TreeNode) (child : left_child s ≡ some left) where
        after :
            (res' : R)
            → validate_rec u b ob o fuel t res (hs.0) left false ≡ ok res'
            → (v : Option TreeNode) → right_descendant s (shifted t).1 ≡ v
            → Here
        unfolding async_validate_rec validate_rec
        after res' e none q =
            ground (arith, loaded, matches, branch, child, e, same t res (hs.0) left false, q)
        after res' e (some right) q = ground (
          arith,
          loaded,
          matches,
          branch,
          child,
          e,
          same t res (hs.0) left false,
          q,
          same t res' (hs.1) right false,
        )

        below :
            (v : Outcome IoError R) → validate_rec u b ob o fuel t res (hs.0) left false ≡ v → Here
        unfolding async_validate_rec validate_rec
        below (ok res') e = after res' e (right_descendant s (shifted t).1) refl
        below (err x) e =
            ground (arith, loaded, matches, branch, child, e, same t res (hs.0) left false)
        below panic e =
            ground (arith, loaded, matches, branch, child, e, same t res (hs.0) left false)

      children :
          (hs : Hash × Hash)
          → matched b h is_root p ≡ some hs
          → is_leaf s ≡ false
          → (v : Option TreeNode) → left_child s ≡ v
          → Here
      unfolding async_validate_rec validate_rec
      children hs m branch none e = ground (arith, loaded, m, branch, e)
      children hs m branch (some left) e =
          below hs m branch left e (validate_rec u b ob o fuel t res (hs.0) left false) refl

      pair : (v : Option (Hash × Hash)) → matched b h is_root p ≡ v → Here
      unfolding async_validate_rec validate_rec
      pair none e = ground (arith, loaded, e)
      pair (some hs) e = elim (Bool-cases (is_leaf s)) [
        | inl leaf ↦ ground (arith, loaded, e, leaf)
        | inr branch ↦ children hs e branch (left_child s) refl
      ]

    load :
        (v : Outcome IoError (Option (Hash × Hash)))
        → ob.load o (subtract_block_size s t.block_size) ≡ v
        → Here
    unfolding async_validate_rec validate_rec
    load (err x) e = ground (arith, e)
    load panic e = ground (arith, e)
    load (ok p) e = pair p e (matched b h is_root p) refl

  recursion : (fuel : ℕ) → Same fuel
  unfolding async_validate_rec validate_rec
  recursion zero t res h s is_root = refl
  recursion (suc fuel) t res h s is_root =
      load fuel (recursion fuel) t res h s is_root (ob.load o (subtract_block_size s t.block_size))
        refl

  -- The error of a load is the result.
  abbrev pub Passed : Outcome IoError (Option (Hash × Hash)) → Outcome IoError (R × O) → Type 0
  Passed (err x) result = result ≡ err x
  Passed (ok pair) result = Unit
  Passed panic result = Unit

  passes :
      (t : BaoTree) (fuel : ℕ) (res : R) (h : Hash) (n : TreeNode) (is_root : Bool)
      (v : Outcome IoError (Option (Hash × Hash)))
      → ob.load o (subtract_block_size n t.block_size) ≡ v
      → Passed v (async_validate_rec u b ob.root ob.tree unchanged (suc fuel) t res o h n is_root)
  unfolding async_validate_rec
  passes t fuel res h n is_root (err x) e = ground (arith, e)
  passes t fuel res h n is_root (ok pair) e = tt
  passes t fuel res h n is_root panic e = tt

  -- On an outboard that loads leave as it is, the asynchronous `valid_ranges` comes to what the
  -- synchronous one comes to, the same set, error or panic, and leaves the outboard as it is. An io
  -- error on reading a hash is not skipped: every call of the asynchronous `validate_rec` with fuel left
  -- whose load fails returns the error of the load.
  pub async_valid_ranges-valid_ranges :
      (fuel : ℕ)
      → (async_valid_ranges u b ob.root ob.tree unchanged fuel o
          ≡ with_outboard (valid_ranges u b ob o fuel))
        × ((t : BaoTree) (fuel : ℕ) (res : R) (h : Hash) (n : TreeNode) (is_root : Bool)
            → Passed
                (ob.load o (subtract_block_size n t.block_size))
                (async_validate_rec u b ob.root ob.tree unchanged (suc fuel) t res o h n is_root))
  unfolding async_valid_ranges valid_ranges
  async_valid_ranges-valid_ranges fuel = (
    recursion fuel (ob.tree o) u.empty (ob.root o) (shifted (ob.tree o)).0 true,
    λ t fuel res h n is_root.
        passes t fuel res h n is_root (ob.load o (subtract_block_size n t.block_size)) refl,
  )
