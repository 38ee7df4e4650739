-- ===== src/Truncate/Behind.antt =====
-- What `truncate_ranges` makes of the ranges at and behind the last chunk.
use bao_tree.Base.{
  ℕ, suc, ◌+◌, ◌%◌, ◌≤◌, ◌<◌, ◌≡◌, ◌≢◌, ◌↔◌, inl, inr, refl, arith, ap, ◌∙◌, sym, Bool, true, false,
  not, leb, le→leb, eq→==, ne→==, eq-cases, List, [], ◌∷◌, length, take, length-take,
}
use bao_tree.Word.{saturating_sub}
use bao_tree.Sizes.{ByteNum, ChunkNum}
use bao_tree.Sizes
use bao_tree.Hashing.{RangeSets}
use bao_tree.Truncate.{found, missing, binary_search, truncated_len, truncate_ranges}
use bao_tree.Truncate.Kept.{contains, truncated-contains, truncated_len-length}
use bao_tree.Truncate.Parts.{
  flips, flips-even, flips-odd, contains-before, contains-behind, answer, splits, IsAscending,
  count_below, Splits,
}

-- The ranges have a chunk at `c` or behind it.
abbrev pub Reaches : List ChunkNum → ChunkNum → Type 0
Reaches bs c = (d : ChunkNum) × (c ≤ d) × (contains bs d ≡ true)

-- What is kept, of the chunks at and behind `last`: nothing is added or taken away, or the ranges are
-- open behind a chunk that they hold.
record Behind (last : ChunkNum) (bs kept : List ChunkNum) : Type 0 where
  held : Reaches kept last → Reaches bs last
  reached : Reaches bs last → Reaches kept last
  open_ended : (c d : ChunkNum) → last ≤ c → c ≤ d → contains kept c ≡ true → contains kept d ≡ true

module _ (last : ChunkNum) (bs : List ChunkNum) (r : Splits last 0 bs) where
  abbrev keep : ℕ → List ChunkNum
  keep m = take (r.k + m) bs

  -- The ranges have nothing at or behind `last`, or are open there, and stay as they are.
  unchanged :
      (m : ℕ) (x : Bool)
      → ((c : ChunkNum) → last ≤ c → contains (keep m) c ≡ x)
      → ((c : ChunkNum) → last ≤ c → contains bs c ≡ x)
      → Behind last bs (keep m)
  unchanged m x e1 e2 = record {
    held = λ q. (q.0, q.1, e2 (q.0) (q.1) ∙ sym (e1 (q.0) (q.1)) ∙ q.2);
    reached = λ q. (q.0, q.1, e1 (q.0) (q.1) ∙ sym (e2 (q.0) (q.1)) ∙ q.2);
    open_ended = λ c d h1 h2 p. e1 d (omega (arith, h1, h2)) ∙ sym (e1 c h1) ∙ p;
  }

  -- They are open from `from` on, and the ranges have a chunk there.
  opened :
      (m : ℕ) (from : ChunkNum)
      → last ≤ from
      → ((c : ChunkNum) → last ≤ c → contains (keep m) c ≡ leb from c)
      → Reaches bs last
      → Behind last bs (keep m)
  opened m from h e reach = record {
    held = λ q. reach;
    reached = λ q. (from, h, e from h ∙ le→leb from from (omega arith));
    open_ended = λ c d h1 h2 p. e d (omega (arith, h1, h2)) ∙ ground (arith, sym (e c h1) ∙ p, h2);
  }

  -- The kept boundaries, by how many of those at or behind `last` are kept.
  abbrev Cuts : ℕ → Type 0
  Cuts n = Behind last bs (take n bs) × (n ≤ suc (count_below last bs))

  cuts : (n m : ℕ) → n ≡ r.k + m → m ≤ 1 → Behind last bs (keep m) → Cuts n
  cuts n m e h behind = (rw e behind, omega (arith, e, h, r.counted))

  first_only : (x c : ChunkNum) → contains (x ∷ []) c ≡ leb x c
  unfolding contains
  first_only x c = ground arith

  -- What the ranges have from `last` on, and where they are after an even number of boundaries or
  -- after an odd one.
  module _ (x : ChunkNum) (xs : List ChunkNum) (rest : r.post ≡ x ∷ xs) where
    order : (last ≤ x) × IsAscending (suc x) xs
    unfolding IsAscending
    order = rw rest at r.ascending

    held_at : (c : ChunkNum) → last ≤ c → contains bs c ≡ flips r.k (contains (x ∷ xs) c)
    held_at c h = rw rest at (r.whole c h)

    at_first : contains (x ∷ xs) x ≡ true
    at_first =
        contains-behind x x xs (omega arith)
        ∙ ap not (contains-before (suc x) x xs (order.1) (omega arith))

    closed : r.k % 2 ≡ 0 → Behind last bs (keep 1)
    closed even =
        opened 1 x (order.0)
          (λ c h.
            r.kept 1 c h
            ∙ flips-even r.k (contains (take 1 r.post) c) even
            ∙ rw rest (first_only x c))
          (x, order.0, held_at x (order.0) ∙ flips-even r.k (contains (x ∷ xs) x) even ∙ at_first)

    -- Without the end boundary the ranges are open.
    unclosed : r.k % 2 ≡ 1 → Reaches bs last → Behind last bs (keep 0)
    unfolding contains
    unclosed odd reach =
        opened 0 last (omega arith)
          (λ c h.
            r.kept 0 c h ∙ flips-odd r.k (contains (take 0 r.post) c) odd ∙ sym (le→leb last c h))
          reach

    reach_before : r.k % 2 ≡ 1 → last < x → Reaches bs last
    unfolding IsAscending
    reach_before odd h = (
      last,
      omega arith,
      held_at last (omega arith)
          ∙ flips-odd r.k (contains (x ∷ xs) last) odd
          ∙ ap not (contains-before x last (x ∷ xs) (omega arith, order.1) h),
    )

  nothing_behind : r.post ≡ [] → Behind last bs (keep 0)
  unfolding contains
  nothing_behind rest =
      unchanged 0 (flips r.k false) (λ c h. r.kept 0 c h) (λ c h. rw rest at (r.whole c h))

  -- Without a boundary at or behind `last`.
  cut_none : (n : ℕ) → r.post ≡ [] → n ≡ length bs → Cuts n
  cut_none n rest e =
      let size : length bs ≡ r.k + 0 = r.sized ∙ rw rest refl in
      cuts n 0 (e ∙ size) (omega arith) (nothing_behind rest)

  -- The last boundary is `last`, and ends a range.
  ended : (x : ChunkNum) → r.post ≡ x ∷ [] → x ≡ last → Behind last bs (keep 1)
  ended x rest same =
      unchanged 1 (flips r.k true)
        (λ c h. r.kept 1 c h ∙ ap (λ b. flips r.k b) (rw rest (held c h)))
        (λ c h. r.whole c h ∙ ap (λ b. flips r.k b) (rw rest (held c h)))
    where
      held : (c : ChunkNum) → last ≤ c → contains (x ∷ []) c ≡ true
      held c h = first_only x c ∙ le→leb x c (omega (arith, same, h))

  -- A range ends at `last`, and another one begins behind it.
  joined :
      (x y : ChunkNum) (ys : List ChunkNum)
      → r.post ≡ x ∷ (y ∷ ys)
      → r.k % 2 ≡ 1
      → Behind last bs (keep 0)
  unfolding IsAscending
  joined x y ys rest odd =
      let (first, above) = order x (y ∷ ys) rest in
      let (second, later) = next x y ys above in
      let inside : contains (x ∷ (y ∷ ys)) y ≡ false =
        contains-behind x y (y ∷ ys) (omega (arith, second)) ∙ ap not (at_second y ys later) in
      unclosed x (y ∷ ys) rest odd (
        y,
        omega (arith, first, second),
        held_at x (y ∷ ys) rest y (omega (arith, first, second))
            ∙ flips-odd r.k (contains (x ∷ (y ∷ ys)) y) odd
            ∙ ap not inside,
      )
    where
      next :
          (x y : ChunkNum) (ys : List ChunkNum)
          → IsAscending (suc x) (y ∷ ys)
          → (suc x ≤ y) × IsAscending (suc y) ys
      next x y ys up = up

      at_second :
          (y : ChunkNum) (ys : List ChunkNum) → IsAscending (suc y) ys → contains (y ∷ ys) y ≡ true
      at_second y ys later =
          contains-behind y y ys (omega arith)
          ∙ ap not (contains-before (suc y) y ys later (omega arith))

module _ (bs : List ChunkNum) (size : ByteNum) where
  abbrev last : ChunkNum
  last = saturating_sub (Sizes.chunks size) 1

  module _ (r : Splits last 0 bs) where
    search_at : binary_search bs last ≡ answer last r.k r.post
    unfolding binary_search
    search_at = r.searched ∙ ap (λ n. answer last n r.post) (omega arith)

    many : (x : ChunkNum) (xs : List ChunkNum) → r.post ≡ x ∷ xs → length bs ≡ r.k + suc (length xs)
    many x xs rest = r.sized ∙ rw rest refl

    cut_missing :
        (x : ChunkNum) (xs : List ChunkNum)
        → r.post ≡ x ∷ xs
        → x ≢ last
        → Cuts last bs r (truncated_len bs size)
    unfolding truncated_len answer
    cut_missing x xs rest other =
        let at : binary_search bs last ≡ missing r.k =
          search_at ∙ rw (rest, ne→== x last other) refl in
        let count = many x xs rest in
        let (first, above) = order last bs r x xs rest in
        elim (eq-cases (r.k % 2) 0) [
          | inl even ↦
              let n : truncated_len bs size ≡ r.k + 1 =
                rw (truncated_len, at) (ground (arith, even, count)) in
              cuts last bs r (truncated_len bs size) 1 n (omega arith)
                (closed last bs r x xs rest even)
          | inr odd ↦
              let n : truncated_len bs size ≡ r.k + 0 =
                rw (truncated_len, at) (ground (arith, odd)) in
              let odd' : r.k % 2 ≡ 1 = omega (arith, odd) in
              cuts last bs r (truncated_len bs size) 0 n (omega arith) (
                unclosed last bs r x xs rest odd'
                  (reach_before last bs r x xs rest odd' (omega (arith, first, other))))
        ]

    cut_found :
        (x : ChunkNum) (xs : List ChunkNum)
        → r.post ≡ x ∷ xs
        → x ≡ last
        → Cuts last bs r (truncated_len bs size)
    unfolding truncated_len answer
    cut_found x xs rest same = elim (eq-cases (r.k % 2) 0) [
      | inl even ↦
          let n : truncated_len bs size ≡ r.k + 1 = rw (truncated_len, at) (ground (arith, even)) in
          cuts last bs r (truncated_len bs size) 1 n (omega arith) (closed last bs r x xs rest even)
      | inr odd ↦ from xs rest (many x xs rest) (omega (arith, odd))
    ]
      where
        at : binary_search bs last ≡ found r.k
        at = search_at ∙ rw (rest, eq→== x last same) refl

        from :
            (xs : List ChunkNum)
            → r.post ≡ x ∷ xs
            → length bs ≡ r.k + suc (length xs)
            → r.k % 2 ≡ 1
            → Cuts last bs r (truncated_len bs size)
        from [] rest count odd =
            let n : truncated_len bs size ≡ r.k + 1 =
              rw (truncated_len, at) (ground (arith, odd, count)) in
            cuts last bs r (truncated_len bs size) 1 n (omega arith) (ended last bs r x rest same)
        from (y ∷ ys) rest count odd =
            let n : truncated_len bs size ≡ r.k + 0 =
              rw (truncated_len, at) (ground (arith, odd, count)) in
            cuts last bs r (truncated_len bs size) 0 n (omega arith)
              (joined last bs r x y ys rest odd)

    cut : (post : List ChunkNum) → r.post ≡ post → Cuts last bs r (truncated_len bs size)
    unfolding truncated_len answer
    cut [] rest =
        let found_at : binary_search bs last ≡ missing r.k = search_at ∙ rw rest refl in
        let count : length bs ≡ r.k = r.sized ∙ rw rest (omega arith) in
        cut_none last bs r (truncated_len bs size) rest
          (rw (truncated_len, found_at) (ground (arith, count)))
    cut (x ∷ xs) rest = elim (eq-cases x last) [
      | inl same ↦ cut_found x xs rest same
      | inr other ↦ cut_missing x xs rest other
    ]

abbrev pub last_chunk : ByteNum → ChunkNum
last_chunk size = saturating_sub (Sizes.chunks size) 1

-- For range sets with ascending boundaries, which `new_unchecked` takes as they are, and `last` the
-- last chunk of a blob of this size: below `last` the ranges that `truncate_ranges` makes hold the
-- same chunks as the given ones; they hold a chunk at or behind `last` if and only if the given ones
-- do; from such a chunk on they hold every chunk; and they have at most one boundary more than the
-- given ones have below `last`.
pub truncate_ranges_lem :
    {R : Type 0} (s : RangeSets R)
    → ((bs : List ChunkNum) → s.boundaries (s.new_unchecked bs) ≡ bs)
    → (ranges : R) (size : ByteNum) → IsAscending 0 (s.boundaries ranges)
    → ((c : ChunkNum)
        → c < last_chunk size
        → contains (s.boundaries (truncate_ranges s ranges size)) c
          ≡ contains (s.boundaries ranges) c)
      × (Reaches (s.boundaries (truncate_ranges s ranges size)) (last_chunk size)
          ↔ Reaches (s.boundaries ranges) (last_chunk size))
      × ((c d : ChunkNum)
          → last_chunk size ≤ c
          → c ≤ d
          → contains (s.boundaries (truncate_ranges s ranges size)) c ≡ true
          → contains (s.boundaries (truncate_ranges s ranges size)) d ≡ true)
      × (length (s.boundaries (truncate_ranges s ranges size))
          ≤ suc (count_below (last_chunk size) (s.boundaries ranges)))
unfolding truncate_ranges
truncate_ranges_lem s reads ranges size up =
    let bs = s.boundaries ranges in
    let r = splits (last_chunk size) 0 0 bs up in
    let (behind, few) = cut bs size r r.post refl in
    let len = length-take (truncated_len bs size) bs ((truncated_len-length bs size).0) in
    rw (reads (take (truncated_len bs size) bs)) (
      truncated-contains bs size,
      (behind.held, behind.reached),
      behind.open_ended,
      omega (arith, len, few),
    )
