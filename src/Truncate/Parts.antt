-- ===== src/Truncate/Parts.antt =====
-- The boundaries of a set of ranges, parted at the last chunk, where `truncate_ranges` of src/rec.rs
-- searches.
use bao_tree.Base.{
  ℕ, zero, suc, ◌+◌, ◌%◌, ◌≤◌, ◌<◌, ◌≡◌, inl, inr, refl, arith, ap, ◌∙◌, Bool, true, false, not,
  if◌then◌else◌, ltb, ◌==◌, le→leb, gt→leb, eq→==, ne→==, lt→ltb, le→ltb, eq-cases, lt-cases, List,
  [], ◌∷◌, length, take,
}
use bao_tree.Sizes.{ChunkNum}
use bao_tree.Truncate.{Search, found, missing, search_from}
use bao_tree.Truncate.Kept.{contains}

-- Strictly ascending boundaries, all from `least` on.
unfoldable pub IsAscending : ChunkNum → List ChunkNum → Type 0
IsAscending least [] = Unit
IsAscending least (x ∷ xs) = (least ≤ x) × IsAscending (suc x) xs

unfoldable pub count_below : ChunkNum → List ChunkNum → ℕ
count_below c [] = 0
count_below c (x ∷ xs) = let rest = count_below c xs in if ltb x c then suc rest else rest

unfoldable pub flips : ℕ → Bool → Bool
flips zero x = x
flips (suc k) x = not (flips k x)

not-not : (x : Bool) → not (not x) ≡ x
not-not true = refl
not-not false = refl

pub flips-even : (k : ℕ) (x : Bool) → (k % 2 ≡ 0) → flips k x ≡ x
unfolding flips
flips-even zero x e = refl
flips-even (suc zero) x e = absurd (omega (arith, e))
flips-even (suc (suc k)) x e = ap (λ y. not (not y)) (flips-even k x (omega (arith, e))) ∙ not-not x

pub flips-odd : (k : ℕ) (x : Bool) → (k % 2 ≡ 1) → flips k x ≡ not x
unfolding flips
flips-odd zero x e = absurd (omega (arith, e))
flips-odd (suc zero) x e = refl
flips-odd (suc (suc k)) x e =
    ap (λ y. not (not y)) (flips-odd k x (omega (arith, e))) ∙ not-not (not x)

-- Before the first boundary nothing is contained.
pub contains-before :
    (least c : ChunkNum) (bs : List ChunkNum)
    → IsAscending least bs
    → c < least
    → contains bs c ≡ false
unfolding contains IsAscending
contains-before least c [] up h = refl
contains-before least c (x ∷ xs) (first, up) h = rw (gt→leb x c (omega (arith, first, h))) refl

-- At a boundary and behind it, the boundary counts.
pub contains-behind :
    (x c : ChunkNum) (xs : List ChunkNum) → x ≤ c → contains (x ∷ xs) c ≡ not (contains xs c)
unfolding contains
contains-behind x c xs h = rw (le→leb x c h) refl

-- What the search says of the boundaries `post` that are not below `last`, of which the first has
-- index `n`.
unfoldable pub answer : ChunkNum → ℕ → List ChunkNum → Search
answer last n [] = missing n
answer last n (x ∷ xs) = if x == last then found n else missing n

pub record Splits (last i : ℕ) (bs : List ChunkNum) : Type 0 where
  pub k : ℕ
  pub post : List ChunkNum
  pub ascending : IsAscending last post
  pub sized : length bs ≡ k + length post
  pub counted : count_below last bs ≡ k
  pub searched : search_from i last bs ≡ answer last (i + k) post
  pub kept :
      (m : ℕ) (c : ChunkNum)
      → last ≤ c
      → contains (take (k + m) bs) c ≡ flips k (contains (take m post) c)
  pub whole : (c : ChunkNum) → last ≤ c → contains bs c ≡ flips k (contains post c)

count_none :
    (last least : ChunkNum) (bs : List ChunkNum)
    → IsAscending least bs
    → last ≤ least
    → count_below last bs ≡ 0
unfolding IsAscending count_below
count_none last least [] up h = refl
count_none last least (x ∷ xs) (first, up) h =
    rw
      (
        count_none last (suc x) xs up (omega (arith, first, h)),
        le→ltb x last (omega (arith, first, h)),
      )
      refl

search-here :
    (last i x : ℕ) (xs : List ChunkNum)
    → last ≤ x
    → search_from i last (x ∷ xs) ≡ answer last (i + 0) (x ∷ xs)
unfolding search_from answer
search-here last i x xs h = elim (eq-cases x last) [
  | inl same ↦ rw (eq→== x last same) (ap found (omega arith))
  | inr other ↦
      rw (ne→== x last other, lt→ltb last x (omega (arith, h, other))) (ap missing (omega arith))
]

search-past :
    (last i x : ℕ) (xs : List ChunkNum) (k : ℕ) (post : List ChunkNum)
    → x < last
    → search_from (suc i) last xs ≡ answer last (suc i + k) post
    → search_from i last (x ∷ xs) ≡ answer last (i + suc k) post
unfolding search_from
search-past last i x xs k post h e =
    let place : suc i + k ≡ i + suc k = omega arith in
    rw (ne→== x last (λ same. absurd (omega (arith, h, same))), le→ltb last x (omega (arith, h)))
      (e ∙ ap (λ n. answer last n post) place)

take_past : (k m : ℕ) → suc k + m ≡ suc (k + m)
take_past k m = omega arith

pub splits : (last i least : ℕ) (bs : List ChunkNum) → IsAscending least bs → Splits last i bs
unfolding IsAscending count_below search_from answer flips contains
splits last i least [] up = record {
  k = 0;
  post = [];
  ascending = tt;
  sized = refl;
  counted = refl;
  searched = ap missing (omega arith);
  kept = λ m c h. ap (λ n. contains (take n []) c) (omega arith);
  whole = λ c h. refl;
}
splits last i least (x ∷ xs) (first, up) = elim (lt-cases x last) [
  | inl below ↦
      let r = splits last (suc i) (suc x) xs up in
      record {
        k = suc r.k;
        post = r.post;
        ascending = r.ascending;
        sized = omega (arith, r.sized);
        counted = rw (lt→ltb x last below) (ap suc r.counted);
        searched = search-past last i x xs r.k r.post below r.searched;
        kept = λ m c h.
            ap (λ n. contains (take n (x ∷ xs)) c) (take_past r.k m)
            ∙ contains-behind x c (take (r.k + m) xs) (omega (arith, below, h))
            ∙ ap not (r.kept m c h);
        whole = λ c h. contains-behind x c xs (omega (arith, below, h)) ∙ ap not (r.whole c h);
      }
  | inr above ↦ record {
    k = 0;
    post = x ∷ xs;
    ascending = (above, up);
    sized = omega arith;
    counted = count_none last last (x ∷ xs) (above, up) (omega arith);
    searched = search-here last i x xs above;
    kept = λ m c h. ap (λ n. contains (take n (x ∷ xs)) c) (omega arith);
    whole = λ c h. refl;
  }
]
