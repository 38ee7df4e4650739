-- ===== src/Truncate/Kept.antt =====
-- What `truncate_ranges` keeps of the ranges.
use bao_tree.Base.{
  ℕ, zero, suc, ◌+◌, ◌≤◌, ◌<◌, ◌≡◌, ◌⊎◌, inl, inr, refl, arith, ap, ◌∙◌, Bool, false, not,
  if◌then◌else◌, leb, ◌==◌, eq-cases, eq→==, ne→==, lt-cases, lt→ltb, le→ltb, gt→leb, List, [], ◌∷◌,
  length, take,
}
use bao_tree.Word.{saturating_sub}
use bao_tree.Sizes.{ByteNum, ChunkNum}
use bao_tree.Sizes
use bao_tree.Truncate.{found, missing, search_from, binary_search, truncated_len}

-- A chunk is in the ranges with these sorted boundaries when an odd number of them is at most it.
unfoldable pub contains : List ChunkNum → ChunkNum → Bool
contains [] c = false
contains (x ∷ xs) c = let rest = contains xs c in if leb x c then not rest else false

-- A search finds the first boundary that is not below `last`, at index `k`.
abbrev Finds : ℕ → ChunkNum → List ChunkNum → Type 0
Finds i last bs =
    (k : ℕ) × (((search_from i last bs ≡ found (i + k)) × (k < length bs))
      ⊎ ((search_from i last bs ≡ missing (i + k)) × (k ≤ length bs)))
    × ((m : ℕ) (c : ChunkNum) → k ≤ m → c < last → contains (take m bs) c ≡ contains bs c)

stops :
    (last x : ChunkNum) (xs : List ChunkNum)
    → last ≤ x
    → (m : ℕ) (c : ChunkNum) → 0 ≤ m
    → c < last
    → contains (take m (x ∷ xs)) c ≡ contains (x ∷ xs) c
unfolding contains
stops last x xs above zero c h inside = rw (gt→leb x c (omega (arith, above, inside))) refl
stops last x xs above (suc m) c h inside = rw (gt→leb x c (omega (arith, above, inside))) refl

-- Behind a boundary that is kept.
passes :
    (last x : ChunkNum) (xs : List ChunkNum) (k : ℕ)
    → ((m : ℕ) (c : ChunkNum) → k ≤ m → c < last → contains (take m xs) c ≡ contains xs c)
    → (m : ℕ) (c : ChunkNum) → suc k ≤ m
    → c < last
    → contains (take m (x ∷ xs)) c ≡ contains (x ∷ xs) c
unfolding contains
passes last x xs k keeps zero c h inside = absurd (omega (arith, h))
passes last x xs k keeps (suc m) c h inside = rw (keeps m c (omega (arith, h)) inside) refl

take_nothing : (m : ℕ) (c : ChunkNum) → contains (take m []) c ≡ contains [] c
take_nothing zero c = refl
take_nothing (suc m) c = refl

search_lem : (i : ℕ) (last : ChunkNum) (bs : List ChunkNum) → Finds i last bs
unfolding search_from
search_lem i last [] = (
  0,
  inr (let none_left : i ≡ i + 0 = omega arith in ap missing none_left, omega arith),
  λ m c h inside. take_nothing m c,
)
search_lem i last (x ∷ xs) = elim (eq-cases x last) [
  | inl same ↦
      let here : i ≡ i + 0 = omega arith in
      (
        0,
        inl (rw (eq→== x last same) (ap found here), omega arith),
        stops last x xs (omega (arith, same)),
      )
  | inr other ↦ elim (lt-cases last x) [
    | inl less ↦
        let here : i ≡ i + 0 = omega arith in
        (
          0,
          inr (rw (ne→== x last other, lt→ltb last x less) (ap missing here), omega arith),
          stops last x xs (omega (arith, less)),
        )
    | inr more ↦
        let (k, r, keeps) = search_lem (suc i) last xs in
        let place : suc i + k ≡ i + suc k = omega arith in
        (
          suc k,
          elim r [
            | inl (e, less) ↦ inl (
              rw (ne→== x last other, le→ltb last x more) (e ∙ ap found place),
              omega (arith, less),
            )
            | inr (e, most) ↦ inr (
              rw (ne→== x last other, le→ltb last x more) (e ∙ ap missing place),
              omega (arith, most),
            )
          ],
          passes last x xs k keeps,
        )
  ]
]

-- The number of boundaries that are kept, against the index `k` that the search finds.
Truncates : List ChunkNum → ByteNum → Type 0
Truncates bs size =
    (k : ℕ) × (k ≤ truncated_len bs size)
    × (truncated_len bs size ≤ length bs)
    × ((truncated_len bs size ≡ 0) → (length bs ≡ 0))
    × ((m : ℕ) (c : ChunkNum)
        → k ≤ m
        → c < saturating_sub (Sizes.chunks size) 1
        → contains (take m bs) c ≡ contains bs c)

truncates : (bs : List ChunkNum) (size : ByteNum) → Truncates bs size
unfolding truncated_len binary_search Truncates
truncates bs size =
    let (k, r, keeps) = search_lem 0 (saturating_sub (Sizes.chunks size) 1) bs in
    elim r [
      | inl (e, less) ↦ (
        k,
        ground (arith, e, less),
        ground (arith, e, less),
        λ z. ground (arith, e, less, z),
        keeps,
      )
      | inr (e, most) ↦ (
        k,
        ground (arith, e, most),
        ground (arith, e, most),
        λ z. ground (arith, e, most, z),
        keeps,
      )
    ]

-- The boundaries that `truncate_ranges` keeps are no more than there are, and none only if there
-- are none.
pub truncated_len-length :
    (bs : List ChunkNum) (size : ByteNum)
    → (truncated_len bs size ≤ length bs) × ((truncated_len bs size == 0) ≡ (length bs == 0))
unfolding Truncates
truncated_len-length bs size =
    let (k, low, high, empty, keeps) = truncates bs size in
    (
      high,
      elim (eq-cases (truncated_len bs size) 0) [
        | inl z ↦ rw (eq→== (truncated_len bs size) 0 z, eq→== (length bs) 0 (empty z)) refl
        | inr n ↦
            rw
              (
                ne→== (truncated_len bs size) 0 n,
                ne→== (length bs) 0 (λ z. n (omega (arith, high, z))),
              )
              refl
      ],
    )

-- A chunk below the last one of a blob of this size is in the ranges that `truncate_ranges` makes
-- exactly if it is in the ranges it is given.
pub truncated-contains :
    (bs : List ChunkNum) (size : ByteNum) (c : ChunkNum)
    → c < saturating_sub (Sizes.chunks size) 1
    → contains (take (truncated_len bs size) bs) c ≡ contains bs c
unfolding Truncates
truncated-contains bs size c inside =
    let (k, low, high, empty, keeps) = truncates bs size in
    keeps (truncated_len bs size) c low inside
