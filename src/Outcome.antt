-- ===== src/Outcome.antt =====
-- What a fallible function of the crate comes to: a value, an error, or a panic. A loop that does
-- not end counts as a panic here, so that a theorem that has a result rules both out.
use bao_tree.Base.{Option, none, some}

pub data Outcome (E : Type 0) (A : Type 0) : Type 0 where
  ok : A → Outcome E A
  err : E → Outcome E A
  panic : Outcome E A

-- `?`
infixl 5 ◌>>=◌
abbrev pub ◌>>=◌ : {E A B : Type 0} (outcome : Outcome E A) (next : A → Outcome E B) → Outcome E B
panic >>= next = panic
err x >>= next = err x
ok x >>= next = next x

-- `unwrap` of an option, and the result of a loop on fuel.
abbrev pub unwrap : {E A : Type 0} → Option A → Outcome E A
unwrap none = panic
unwrap (some a) = ok a

-- `unwrap` of a result.
abbrev pub must : {E F A : Type 0} → Outcome E A → Outcome F A
must (ok a) = ok a
must (err e) = panic
must panic = panic

-- `map_err`, and the conversion by `From` in `?`.
abbrev pub map_err : {E F A : Type 0} → (E → F) → Outcome E A → Outcome F A
map_err f (ok a) = ok a
map_err f (err e) = err (f e)
map_err f panic = panic
