-- ===== src/Hashing/Collisions.antt =====
-- `hash_subtree` of two pieces of data: the collisions of blake3, as data.
use bao_tree.Base.{
  ℕ, zero, suc, ◌/◌, ◌≤◌, ◌≡◌, ◌≢◌, refl, arith, ap, ap₂, subst, ◌∙◌, sym, ◌⊎◌, inl, inr, Bool,
  true, false, Bool-cases, leb, ◌==◌, eq-cases, Option, none, some, List, [], ◌∷◌, ◌++◌, length,
  take, drop, take-drop, length-take, length-drop,
}
use bao_tree.Word.{u64_add, count_ones}
use bao_tree.Sizes.{ChunkNum, blake3_chunk_size}
use bao_tree.Hashing.{Blake3, chunk_count, mid_bytes, slices, recursive_hash_subtree, hash_subtree}

pub data Collision {Hash : Type 0} (b : Blake3 Hash) : Type 0 where
  chunks_collide :
      (c : ChunkNum) (x y : List ℕ) (r : Bool)
      → x ≢ y
      → b.chunk_hash c x r ≡ b.chunk_hash c y r
      → Collision b
  subtrees_collide :
      (c : ChunkNum) (x y : List ℕ) (r : Bool)
      → x ≢ y
      → b.hash_subtree c x r ≡ b.hash_subtree c y r
      → Collision b
  pairs_collide :
      (p q : Hash × Hash) (r : Bool)
      → p ≢ q
      → b.parent_cv p.0 p.1 r ≡ b.parent_cv q.0 q.1 r
      → Collision b

-- Two pieces of data are equal or not.
pub data-cases : (x y : List ℕ) → (x ≡ y) ⊎ (x ≢ y)
data-cases [] [] = inl refl
data-cases [] (b ∷ y) = inr (λ e. cc)
data-cases (a ∷ x) [] = inr (λ e. cc)
data-cases (a ∷ x) (b ∷ y) = elim (eq-cases a b) [
  | inr n ↦ inr (λ e. n cc)
  | inl s ↦ elim (data-cases x y) [
    | inr n ↦ inr (λ e. n cc)
    | inl t ↦ inl (ap₂ (λ (a : ℕ) x. a ∷ x) s t)
  ]
]

module _ {Hash : Type 0} (b : Blake3 Hash)
    (same : (x y : Hash) → (b.hash_eq x y ≡ true → x ≡ y) × (x ≡ y → b.hash_eq x y ≡ true)) where
  pub hash-cases : (x y : Hash) → (x ≡ y) ⊎ (x ≢ y)
  hash-cases x y = elim (Bool-cases (b.hash_eq x y)) [
    | inl e ↦ inl ((same x y).0 e)
    | inr differ ↦ inr (λ e. let equal = (same x y).1 e in cc)
  ]

  -- Equal hashes of two pairs.
  pub pair-Collision :
      (p q : Hash × Hash) (r : Bool)
      → b.parent_cv p.0 p.1 r ≡ b.parent_cv q.0 q.1 r
      → (p ≡ q) ⊎ Collision b
  pair-Collision p q r e = elim (hash-cases p.0 q.0) [
    | inr n ↦ inr (Collision.pairs_collide p q r (λ s. n (ap (λ (p : Hash × Hash). p.0) s)) e)
    | inl left ↦ elim (hash-cases p.1 q.1) [
      | inr n ↦ inr (Collision.pairs_collide p q r (λ s. n (ap (λ (p : Hash × Hash). p.1) s)) e)
      | inl right ↦ inl (ap₂ (λ (l r : Hash). (l, r)) left right)
    ]
  ]

  -- A call that has split its data, of `len` bytes.
  abbrev Split : ℕ → ℕ → ChunkNum → List ℕ → Bool → Hash → Type 0
  Split len f start x root h =
      let at = mid_bytes (chunk_count len) in
      let half = u64_add start (chunk_count len / 2) in
      (left : Hash) × (right : Hash) × (at ≤ length x)
      × (recursive_hash_subtree b f start (take at x) false ≡ some left)
      × (recursive_hash_subtree b f half (drop at x) false ≡ some right)
      × (b.parent_cv left right root ≡ h)

  split_lem :
      (f : ℕ) (start : ChunkNum) (x : List ℕ) (root : Bool) (h : Hash)
      → leb (length x) blake3_chunk_size ≡ false
      → recursive_hash_subtree b (suc f) start x root ≡ some h
      → Split (length x) f start x root h
  unfolding recursive_hash_subtree slices
  split_lem f start x root h large e =
      let at = mid_bytes (chunk_count (length x)) in
      elim (Bool-cases (leb at (length x))) [
        | inr over ↦ absurd (ground (arith, e, large, over))
        | inl fits ↦
            from fits (recursive_hash_subtree b f start (take at x) false) refl
              (recursive_hash_subtree b f (u64_add start (chunk_count (length x) / 2)) (drop at x)
                false)
              refl
      ]
    where
      from :
          leb (mid_bytes (chunk_count (length x))) (length x) ≡ true
          → (l : Option Hash)
          → recursive_hash_subtree b f start (take (mid_bytes (chunk_count (length x))) x) false ≡ l
          → (r : Option Hash)
          → recursive_hash_subtree b f
              (u64_add start (chunk_count (length x) / 2))
              (drop (mid_bytes (chunk_count (length x))) x)
              false
            ≡ r
          → Split (length x) f start x root h
      from fits none p r q = absurd (ground (arith, e, large, fits, p))
      from fits (some left) p none q = absurd (ground (arith, e, large, fits, p, q))
      from fits (some left) p (some right) q =
          (left, right, ground (arith, fits), p, q, ground (arith, e, large, fits, p, q))

  rec-Collision :
      (f : ℕ) (start : ChunkNum) (x y : List ℕ) (root : Bool) (h : Hash)
      → length x ≡ length y
      → recursive_hash_subtree b f start x root ≡ some h
      → recursive_hash_subtree b f start y root ≡ some h
      → (x ≡ y) ⊎ Collision b
  unfolding recursive_hash_subtree
  rec-Collision zero start x y root h len e1 e2 = absurd cc
  rec-Collision (suc f) start x y root h len e1 e2 =
      elim (Bool-cases (leb (length x) blake3_chunk_size)) [
        | inl small ↦
            let small' : leb (length y) blake3_chunk_size ≡ true = rw (sym len) small in
            let p : b.chunk_hash start x root ≡ b.chunk_hash start y root =
              ground (arith, e1, e2, small, small') in
            elim (data-cases x y) [
              | inl s ↦ inl s
              | inr n ↦ inr (Collision.chunks_collide start x y root n p)
            ]
        | inr large ↦
            let at = mid_bytes (chunk_count (length x)) in
            let half = u64_add start (chunk_count (length x) / 2) in
            let large' : leb (length y) blake3_chunk_size ≡ false = rw (sym len) large in
            let (l1, r1, fits, a1, c1, p1) = split_lem f start x root h large e1 in
            let (l2, r2, fits2, a2, c2, p2) =
              subst (λ n. Split n f start y root h) (sym len)
                (split_lem f start y root h large' e2) in
            elim (pair-Collision (l1, r1) (l2, r2) root (p1 ∙ sym p2)) [
              | inr c ↦ inr c
              | inl s ↦
                  let left = ap (λ (p : Hash × Hash). p.0) s in
                  let right = ap (λ (p : Hash × Hash). p.1) s in
                  let heads = length-take at x fits ∙ sym (length-take at y fits2) in
                  let tails : length (drop at x) ≡ length (drop at y) =
                    omega (arith, len, length-drop at x, length-drop at y) in
                  elim (rec-Collision f start (take at x) (take at y) false l1 heads a1
                    (a2 ∙ ap (λ (h : Hash). some h) (sym left))) [
                      | inr c ↦ inr c
                      | inl front ↦
                          elim (rec-Collision f half (drop at x) (drop at y) false r1 tails c1
                            (c2 ∙ ap (λ (h : Hash). some h) (sym right))) [
                              | inr c ↦ inr c
                              | inl back ↦ inl (
                                  sym (take-drop at x)
                                  ∙ ap₂ (λ (a c : List ℕ). a ++ c) front back
                                  ∙ take-drop at y)
                            ]
                    ]
            ]
      ]

  -- Two pieces of data of one length that `hash_subtree` gives one hash, for the same place, are
  -- equal, or there is a collision of blake3. The condition is that the comparison of hashes
  -- decides equality.
  pub subtree-Collision :
      (f : ℕ) (start : ChunkNum) (x y : List ℕ) (root : Bool) (h : Hash)
      → length x ≡ length y
      → hash_subtree b f start x root ≡ some h
      → hash_subtree b f start y root ≡ some h
      → (x ≡ y) ⊎ Collision b
  unfolding hash_subtree
  subtree-Collision f start x y root h len e1 e2 = elim (Bool-cases (count_ones (length x) == 1)) [
    | inl one ↦
        let one' : (count_ones (length y) == 1) ≡ true = rw (sym len) one in
        let p : b.hash_subtree start x root ≡ b.hash_subtree start y root =
          ground (arith, e1, e2, one, one') in
        elim (data-cases x y) [
          | inl s ↦ inl s
          | inr n ↦ inr (Collision.subtrees_collide start x y root n p)
        ]
    | inr more ↦
        let more' : (count_ones (length y) == 1) ≡ false = rw (sym len) more in
        rec-Collision f start x y root h len (ground (arith, e1, more)) (ground (arith, e2, more'))
  ]
