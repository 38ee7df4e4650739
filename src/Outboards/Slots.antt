-- ===== src/Outboards/Slots.antt =====
-- The slots of an outboard: 64 bytes for each pair. Writing a pair changes its slot and no other.
use bao_tree.Base.{
  ℕ, ◌+◌, ◌-◌, ◌*◌, ◌^◌, ◌≤◌, ◌<◌, ◌≡◌, ◌≢◌, refl, arith, ap, ◌∙◌, sym, inl, inr, lt-cases, List,
  ◌++◌, length, take, drop, write_at, write_at-append, append_assoc, length-append, length-take,
  length-drop, take-append, drop-append, take-append_left, drop-append_left, take-drop, some, leb,
  le→leb, true,
}
use bao_tree.Word.{u64_add, u64_mul}
use bao_tree.Outcome.{ok}
use bao_tree.Hashing.{Blake3}
use bao_tree.Outboards.{slot, load_raw, put_pair, parse_hash_pair, load_at}

-- What the crate relies on of the bytes of a hash: there are 32, and they give the hash back.
pub record HasBytes {Hash : Type 0} (b : Blake3 Hash) : Type 0 where
  pub as_bytes-32 : (h : Hash) → length (b.as_bytes h) ≡ 32
  pub from-as_bytes : (h : Hash) → b.from_bytes (b.as_bytes h) ≡ h

abbrev pub cell : ℕ → List ℕ → List ℕ
cell i bytes = take 64 (drop (i * 64) bytes)

in_bounds :
    (i : ℕ) (bytes : List ℕ)
    → i * 64 + 64 ≤ length bytes
    → i < 2 ^ 50
    → leb (u64_add (i * 64) 64) (length bytes) ≡ true
in_bounds i bytes fits small = le→leb _ _ (omega (arith, fits, small))

cell_here :
    (i : ℕ) (a x c : List ℕ) → length a ≡ i * 64 → length x ≡ 64 → cell i (a ++ (x ++ c)) ≡ x
cell_here i a x c la lx =
    ap (take 64) (drop-append a (x ++ c) (i * 64) 0 (omega (arith, la)))
    ∙ take-append x c 64 (omega (arith, lx))

cell_elsewhere :
    (i j : ℕ) (a x y c : List ℕ)
    → length a ≡ i * 64
    → length x ≡ 64
    → length y ≡ 64
    → j ≢ i
    → cell j (a ++ (x ++ c)) ≡ cell j (a ++ (y ++ c))
cell_elsewhere i j a x y c la lx ly other = elim (lt-cases j i) [
  | inl less ↦ before x less ∙ sym (before y less)
  | inr more ↦ let above : i < j = grind arith in behind x lx above ∙ sym (behind y ly above)
]
  where
    before : (z : List ℕ) → j < i → cell j (a ++ (z ++ c)) ≡ take 64 (drop (j * 64) a)
    before z less =
        ap (take 64) (drop-append_left (j * 64) a (z ++ c) (omega (arith, la)))
        ∙ take-append_left 64 (drop (j * 64) a) (z ++ c) (omega (arith, la, length-drop (j * 64) a))

    behind :
        (z : List ℕ)
        → length z ≡ 64
        → i < j
        → cell j (a ++ (z ++ c)) ≡ take 64 (drop (j * 64 - i * 64 - 64) c)
    behind z lz above = ap (take 64) (
        drop-append a (z ++ c) (j * 64) (j * 64 - i * 64) (omega (arith, la))
        ∙ drop-append z c (j * 64 - i * 64) (j * 64 - i * 64 - 64) (omega (arith, lz)))

write_halves :
    (a o1 o2 l r c : List ℕ)
    → length o1 ≡ 32
    → length o2 ≡ 32
    → length l ≡ 32
    → length r ≡ 32
    → write_at (length a + 32) r (write_at (length a) l (a ++ ((o1 ++ o2) ++ c)))
      ≡ a ++ ((l ++ r) ++ c)
write_halves a o1 o2 l r c s1 s2 sl sr =
    let first = write_at-append a o1 l (o2 ++ c) (length a) refl (omega (arith, s1, sl)) in
    let second =
      write_at-append (a ++ l) o2 r c (length a + 32) (omega (arith, length-append a l, sl))
        (omega (arith, s2, sr)) in
    ap (λ (t : List ℕ). write_at (length a + 32) r (write_at (length a) l t))
      (ap (λ (t : List ℕ). a ++ t) (append_assoc o1 o2 c))
    ∙ ap (write_at (length a + 32) r) (first ∙ sym (append_assoc a l (o2 ++ c)))
    ∙ second
    ∙ append_assoc a l (r ++ c)
    ∙ ap (λ (t : List ℕ). a ++ t) (sym (append_assoc l r c))

module _ {Hash : Type 0} (b : Blake3 Hash) (h : HasBytes b) where
  abbrev pub pair_bytes : Hash × Hash → List ℕ
  pair_bytes p = b.as_bytes p.0 ++ b.as_bytes p.1

  pub length-pair_bytes : (p : Hash × Hash) → length (pair_bytes p) ≡ 64
  length-pair_bytes p =
      omega (
        arith,
        length-append (b.as_bytes p.0) (b.as_bytes p.1),
        h.as_bytes-32 p.0,
        h.as_bytes-32 p.1,
      )

  pub parse-pair_bytes : (p : Hash × Hash) → parse_hash_pair b (pair_bytes p) ≡ p
  unfolding parse_hash_pair
  parse-pair_bytes p =
      rw
        (
          take-append (b.as_bytes p.0) (b.as_bytes p.1) 32 (omega (arith, h.as_bytes-32 p.0)),
          drop-append (b.as_bytes p.0) (b.as_bytes p.1) 32 0 (omega (arith, h.as_bytes-32 p.0)),
          h.from-as_bytes p.0,
          h.from-as_bytes p.1,
        )
        refl

  -- The bytes after a pair is put into a slot: as many, with the pair in the slot.
  pub put-pair :
      {E : Type 0} (i : ℕ) (p : Hash × Hash) (bytes : List ℕ)
      → i * 64 + 64 ≤ length bytes
      → i < 2 ^ 50
      → (out : List ℕ) × (put_pair b {E = E} (u64_mul i 64) p bytes ≡ ok out)
        × (length out ≡ length bytes)
        × (cell i out ≡ pair_bytes p)
        × ((j : ℕ) → j ≢ i → cell j out ≡ cell j bytes)
  unfolding put_pair
  put-pair i p bytes fits small =
      let a = take (i * 64) bytes in
      let rest = drop (i * 64) bytes in
      let o = take 64 rest in
      let c = drop 64 rest in
      let la : length a ≡ i * 64 = length-take (i * 64) bytes (omega (arith, fits)) in
      let lrest = length-drop (i * 64) bytes in
      let lo : length o ≡ 64 = length-take 64 rest (omega (arith, lrest, fits)) in
      let parts : a ++ (o ++ c) ≡ bytes =
        ap (λ (t : List ℕ). a ++ t) (take-drop 64 rest) ∙ take-drop (i * 64) bytes in
      let lx = length-pair_bytes p in
      let place : u64_mul i 64 ≡ i * 64 = omega (arith, small) in
      let inside = in_bounds i bytes fits small in
      (
        a ++ (pair_bytes p ++ c),
        rw (place, inside)
            (ap ok (
              ap
                (λ (t : List ℕ).
                  write_at (i * 64 + 32) (b.as_bytes p.1) (write_at (i * 64) (b.as_bytes p.0) t))
                (sym parts)
              ∙ at (i * 64) a o c la lo)),
        omega (
          arith,
          ap length (sym parts),
          length-append a (pair_bytes p ++ c),
          length-append (pair_bytes p) c,
          length-append a (o ++ c),
          length-append o c,
          lx,
          lo,
        ),
        cell_here i a (pair_bytes p) c la lx,
        λ j other. cell_elsewhere i j a (pair_bytes p) o c la lx lo other ∙ ap (cell j) parts,
      )
    where
      at :
          (n : ℕ) (a o c : List ℕ)
          → length a ≡ n
          → length o ≡ 64
          → write_at (n + 32) (b.as_bytes p.1) (write_at n (b.as_bytes p.0) (a ++ (o ++ c)))
            ≡ a ++ (pair_bytes p ++ c)
      at n a o c e lo = rw (sym e) (
          ap
            (λ (t : List ℕ).
              write_at (length a + 32) (b.as_bytes p.1)
                (write_at (length a) (b.as_bytes p.0) (a ++ (t ++ c))))
            (sym (take-drop 32 o))
          ∙ write_halves a (take 32 o) (drop 32 o) (b.as_bytes p.0) (b.as_bytes p.1) c
              (length-take 32 o (omega (arith, lo))) (omega (arith, length-drop 32 o, lo))
              (h.as_bytes-32 p.0) (h.as_bytes-32 p.1))

  -- A load of a slot within the bytes, and of one that holds a pair.
  pub load_at-cell :
      {E : Type 0} (i : ℕ) (bytes : List ℕ)
      → i * 64 + 64 ≤ length bytes
      → i < 2 ^ 50
      → load_at b {E = E} (some (some i)) bytes ≡ ok (some (parse_hash_pair b (cell i bytes)))
  unfolding load_at load_raw slot
  load_at-cell i bytes fits small =
      let place : u64_mul i 64 ≡ i * 64 = omega (arith, small) in
      rw (place, in_bounds i bytes fits small) refl
