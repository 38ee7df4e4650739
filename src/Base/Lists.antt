-- ===== src/Base/Lists.antt =====
-- Lists measured and indexed by native numbers, and filtered by a Boolean test.
use Prim.Native.Nat.{ℕ, zero, suc, ◌+◌, ◌<◌}
use mathlib.Core.Path.{◌≡◌, refl, ap, sym, ◌∙◌}
use mathlib.Core.Bool.{Bool, true, false}
use mathlib.Core.List.{List, [], ◌∷◌, ◌++◌}
use mathlib.Core.Option.{Option, none, some}
use mathlib.Core.Logic.{inl, inr}
use native.Mathlib.Omega.{arith}
use bao_tree.Base.Tests.{Bool-cases, some-inj}

module _ {ℓ} {A : Type ℓ} where
  abbrev pub length : List A → ℕ
  length [] = 0
  length (x ∷ xs) = suc (length xs)

  abbrev pub get_elem? : List A → ℕ → Option A
  get_elem? [] i = none
  get_elem? (x ∷ xs) zero = some x
  get_elem? (x ∷ xs) (suc i) = get_elem? xs i

  -- A Boolean predicate's version of the library's `filter`.
  abbrev pub filter : (A → Bool) → List A → List A
  filter p [] = []
  filter p (x ∷ xs) = elim (p x) [ true ↦ x ∷ filter p xs | false ↦ filter p xs ]

  pub length-append : (xs ys : List A) → length (xs ++ ys) ≡ length xs + length ys
  length-append [] ys = omega arith
  length-append (x ∷ xs) ys = omega (arith, length-append xs ys)

  pub get_elem?-append_left :
      (xs ys : List A) (i : ℕ) {a : A} → get_elem? xs i ≡ some a → get_elem? (xs ++ ys) i ≡ some a
  get_elem?-append_left [] ys i h = cc
  get_elem?-append_left (x ∷ xs) ys zero h = h
  get_elem?-append_left (x ∷ xs) ys (suc i) h = get_elem?-append_left xs ys i h

  pub get_elem?-append_right :
      (xs ys : List A) (i j : ℕ) → i ≡ length xs + j → get_elem? (xs ++ ys) i ≡ get_elem? ys j
  get_elem?-append_right [] ys i j e = ap (get_elem? ys) (omega arith)
  get_elem?-append_right (x ∷ xs) ys zero j e = absurd (omega arith)
  get_elem?-append_right (x ∷ xs) ys (suc i) j e = get_elem?-append_right xs ys i j (omega arith)

  pub filter-append :
      (p : A → Bool) (xs ys : List A) → filter p (xs ++ ys) ≡ filter p xs ++ filter p ys
  filter-append p [] ys = refl
  filter-append p (x ∷ xs) ys = ground (arith, filter-append p xs ys)

  pub get_elem?-lt : (xs : List A) (i : ℕ) {a : A} → get_elem? xs i ≡ some a → i < length xs
  get_elem?-lt [] i h = absurd (cc)
  get_elem?-lt (x ∷ xs) zero h = omega arith
  get_elem?-lt (x ∷ xs) (suc i) h = omega (arith, get_elem?-lt xs i h)

  kept : (p : A → Bool) (x : A) (xs : List A) → p x ≡ true → filter p (x ∷ xs) ≡ x ∷ filter p xs
  kept p x xs e = ground (arith, e)

  passed : (p : A → Bool) (x : A) (xs : List A) → p x ≡ false → filter p (x ∷ xs) ≡ filter p xs
  passed p x xs e = ground (arith, e)

  first_or_later :
      (p : A → Bool) (x a : A) (xs : List A) (i : ℕ)
      → p x ≡ true
      → get_elem? (x ∷ xs) i ≡ some a
      → ((j : ℕ) → get_elem? xs j ≡ some a → p a ≡ true)
      → p a ≡ true
  first_or_later p x a xs zero e h later = let same : x ≡ a = some-inj h in rw same at e
  first_or_later p x a xs (suc i) e h later = later i h

  pub get_elem?-filter :
      (p : A → Bool) (xs : List A) (i : ℕ) {a : A} → get_elem? (filter p xs) i ≡ some a → p a ≡ true
  get_elem?-filter p [] i h = absurd (cc)
  get_elem?-filter p (x ∷ xs) i {a = a} h = elim (Bool-cases (p x)) [
    | inl holds ↦
        first_or_later p x a (filter p xs) i holds
          (sym (ap (λ (l : List A). get_elem? l i) (kept p x xs holds)) ∙ h)
          (λ j e. get_elem?-filter p xs j e)
    | inr fails ↦
        get_elem?-filter p xs i (sym (ap (λ (l : List A). get_elem? l i) (passed p x xs fails)) ∙ h)
  ]
