-- ===== src/Outboards/Layout.antt =====
-- What the two orders of an outboard have in common: each persisted node has a slot of its own.
use mathlib.Core.Option
use bao_tree.Base.{
  ℕ, ◌^◌, ◌<◌, ◌≡◌, ◌≢◌, ◌⊎◌, arith, ap, ◌∙◌, sym, inl, inr, List, length, get_elem?, get_elem?-lt,
  some, none, Option, true, false, some-inj,
}
use bao_tree.Node.{TreeNode, subtract_block_size}
use bao_tree.Tree.{BaoTree, shifted, value, outboard_hash_pairs, is_persisted}
use bao_tree.Tree.Shape.{IsValid, shape, blocks-bound}
use bao_tree.Tree.Offsets.{
  pre_order_offset_lem, length-persisted_pre, length-persisted_post, persisted_pre, persisted_post,
  pairs_lem,
}
use bao_tree.Tree.PostOffsets.{post_order_offset_tree}
use bao_tree.Outboards.{pre_place, post_place}

-- A node, shifted, as a node of the tree.
abbrev pub raise : BaoTree → TreeNode → TreeNode
raise t n = subtract_block_size n t.block_size

-- A persisted node has the slot that is its index in `order`; the other node has none.
abbrev pub Held : (t : BaoTree) → (TreeNode → Option (Option ℕ)) → List TreeNode → TreeNode → Type 0
Held t place order n =
    ((i : ℕ) × (is_persisted t (raise t n) ≡ true)
      × (place (raise t n) ≡ some (some i))
      × (get_elem? order i ≡ some n))
    ⊎ ((is_persisted t (raise t n) ≡ false) × (place (raise t n) ≡ some none))

pub record Layout (t : BaoTree) (place : TreeNode → Option (Option ℕ)) : Type 0 where
  pub order : List TreeNode
  pub count : length order ≡ outboard_hash_pairs t
  pub each : (n : TreeNode) → n < (shifted t).1 → Held t place order n

pub few_pairs : (t : BaoTree) → IsValid t → outboard_hash_pairs t < 2 ^ 50
few_pairs t v =
    let (height, m, s) = shape t v in omega (arith, pairs_lem t v height m s, blocks-bound t v)

unfoldable pub pre_layout : (t : BaoTree) → IsValid t → Layout t (pre_place t)
pre_layout t v = record {
  order = persisted_pre t;
  count = length-persisted_pre t v;
  each = λ n h. elim (pre_order_offset_lem t n v h) [
    | inl (p, (i, e, at)) ↦ inl (i, p, e, at)
    | inr (p, e) ↦ inr (p, e)
  ];
}

unfoldable pub post_layout : (t : BaoTree) → IsValid t → Layout t (post_place t)
post_layout t v = record {
  order = persisted_post t;
  count = length-persisted_post t v;
  each = λ n h. elim (post_order_offset_tree t n v h) [
    | inl (p, (o, e, at)) ↦ inl (value o, p, ap some (ap (Option.map value) e), at)
    | inr (p, e) ↦ inr (p, ap some (ap (Option.map value) e))
  ];
}

module _ (t : BaoTree) (place : TreeNode → Option (Option ℕ)) (y : Layout t place) where
  pub slot-lt : (i : ℕ) (n : TreeNode) → get_elem? y.order i ≡ some n → i < outboard_hash_pairs t
  slot-lt i n e = omega (arith, get_elem?-lt y.order i e, y.count)

  pub slot_unique :
      (i : ℕ) (n m : TreeNode) → get_elem? y.order i ≡ some n → get_elem? y.order i ≡ some m → n ≡ m
  slot_unique i n m e f = some-inj (sym e ∙ f)

  -- Two nodes have one slot only where they are one node.
  pub slots_differ :
      (i j : ℕ) (n m : TreeNode)
      → get_elem? y.order i ≡ some n
      → get_elem? y.order j ≡ some m
      → n ≢ m
      → j ≢ i
  slots_differ i j n m e f other same = other (slot_unique i n m e (rw same at f))
