-- ===== src/Base/Sort.antt =====
-- `Array.prototype.sort` with a comparator: a stable sort, as insertion from the right.
use mathlib.Core.Bool.{Bool}
use mathlib.Core.List.{List, [], ◌∷◌}
pub mod Laws
use axzy_ptnv_api.Base.Tests.{if◌then◌else◌}

-- `ahead x y` is `compare(x, y) <= 0`: `x`, which stands first, stays first.
module _ {ℓ} {A : Type ℓ} (ahead : A → A → Bool) where
  unfoldable pub insert : A → List A → List A
  insert x [] = x ∷ []
  insert x (y ∷ ys) = if ahead x y then x ∷ y ∷ ys else y ∷ insert x ys

  unfoldable pub sort : List A → List A
  unfolding insert
  sort [] = []
  sort (x ∷ xs) = insert x (sort xs)
