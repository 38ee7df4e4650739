-- ===== src/Traversal/LastLeaf.antt =====
-- The last leaf of a tree closes its pre order traversal.
use bao_tree.Base.{ℕ, zero, suc, ◌+◌, ◌*◌, ◌^◌, ◌≤◌, ◌<◌, ◌≡◌, refl, arith, [], ◌∷◌, ◌++◌, ◌≢◌}
use bao_tree.Base.{get_elem?, some, some-inj, ap, ◌∙◌, sym, lt-cases, inl, inr, List, append_assoc}
use bao_tree.Base.{two-pow-suc, two-pow-pos, mul-two-pow-suc}
use bao_tree.Node.Place.{node_at, suc-node_at}
use bao_tree.Traversal.{pre_order, below}
use bao_tree.Traversal.Parts.{
  pre_order-leaf_in, pre_order-branch_in, pre_order-branch_out, below-pre_order-nil,
}

-- A subtree that ends before both bounds is whole under both.
below-same :
    (a b l k : ℕ)
    → (k + 1) * 2 ^ suc l ≤ a + 1
    → (k + 1) * 2 ^ suc l ≤ b + 1
    → below a (pre_order l k) ≡ below b (pre_order l k)
below-same a b zero k p q =
    pre_order-leaf_in a k (omega (arith, suc-node_at 0 k))
    ∙ sym (pre_order-leaf_in b k (omega (arith, suc-node_at 0 k)))
below-same a b (suc l) k p q =
    let number = suc-node_at (suc l) k in
    let two = mul-two-pow-suc k (suc l) in
    let two' = two-pow-suc (suc l) in
    let pos = two-pow-pos (suc l) in
    rw
      (
        pre_order-branch_in a l k (omega arith),
        pre_order-branch_in b l k (omega arith),
        below-same a b l (2 * k) (omega arith) (omega arith),
        below-same a b l (2 * k + 1) (omega arith) (omega arith),
      )
      refl

pub last_leaf :
    (m l k : ℕ)
    → k * 2 ^ suc l ≤ 2 * m
    → 2 * m + 1 < (k + 1) * 2 ^ suc l
    → below (2 * m + 1) (pre_order l k) ≡ below (2 * m) (pre_order l k) ++ (2 * m ∷ [])
last_leaf m zero k lo hi =
    let n : node_at 0 k ≡ 2 * m = omega (arith, suc-node_at 0 k) in
    rw
      (
        pre_order-leaf_in (2 * m + 1) k (omega (arith, n)),
        below-pre_order-nil (2 * m) 0 k (omega arith),
        n,
      )
      refl
last_leaf m (suc l) k lo hi =
    let number = suc-node_at (suc l) k in
    let two = mul-two-pow-suc k (suc l) in
    let two' = two-pow-suc (suc l) in
    let even = mul-two-pow-suc k l in
    elim (lt-cases (node_at (suc l) k) (2 * m)) [
      | inl here ↦
          let left : below (2 * m + 1) (pre_order l (2 * k)) ≡ below (2 * m) (pre_order l (2 * k)) =
            below-same (2 * m + 1) (2 * m) l (2 * k) (omega arith) (omega arith) in
          let right = last_leaf m l (2 * k + 1) (omega arith) (omega arith) in
          rw
            (
              pre_order-branch_in (2 * m + 1) l k (omega arith),
              pre_order-branch_in (2 * m) l k here,
              left,
              right,
            )
            (ap (λ ns. node_at (suc l) k ∷ ns)
              (sym (append_assoc (below (2 * m) (pre_order l (2 * k))) _ _)))
      | inr out ↦
          let beyond : 2 * m + 1 ≤ node_at (suc l) k = omega (arith, two-pow-suc l) in
          rw
            (
              pre_order-branch_out (2 * m + 1) l k beyond,
              pre_order-branch_out (2 * m) l k (omega arith),
            )
            (last_leaf m l (2 * k) (omega arith) (omega arith))
    ]

-- What stands before a last element.
pub get_elem?-init :
    (xs : List ℕ) (i x y : ℕ)
    → get_elem? (xs ++ (y ∷ [])) i ≡ some x
    → x ≢ y
    → get_elem? xs i ≡ some x
get_elem?-init [] zero x y e ne = absurd (ne (sym (some-inj e)))
get_elem?-init [] (suc i) x y e ne = cc
get_elem?-init (z ∷ xs) zero x y e ne = e
get_elem?-init (z ∷ xs) (suc i) x y e ne = get_elem?-init xs i x y e ne
