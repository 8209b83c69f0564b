-- ===== src/Common/Sort.antt =====
-- sort.SliceStable: a stable sort by a strict order, as an insertion sort.
use Prim.Native.Nat.{suc}
use mathlib.Core.Bool.{Bool}
use mathlib.Core.List.{List, [], ◌∷◌}
use mathlib.Core.Path.{◌≡◌, refl}
use native.Mathlib.Omega.{arith}
use headroom_go.Common.Lists.{length}
use headroom_go.Common.Tests.{if◌then◌else◌}

module _ {ℓ} {A : Type ℓ} (less : A → A → Bool) where
  unfoldable pub insert_stable : A → List A → List A
  insert_stable x [] = x ∷ []
  insert_stable x (y ∷ ys) =
      let later = insert_stable x ys in if less y x then y ∷ later else x ∷ y ∷ ys

  unfoldable pub sort_stable : List A → List A
  unfolding insert_stable
  sort_stable [] = []
  sort_stable (x ∷ xs) = insert_stable x (sort_stable xs)

  length-insert_stable : (x : A) (xs : List A) → length (insert_stable x xs) ≡ suc (length xs)
  unfolding insert_stable
  length-insert_stable x [] = refl
  length-insert_stable x (y ∷ ys) = ground (arith, length-insert_stable x ys)

  pub length-sort_stable : (xs : List A) → length (sort_stable xs) ≡ length xs
  unfolding sort_stable
  length-sort_stable [] = refl
  length-sort_stable (x ∷ xs) =
      ground (arith, length-insert_stable x (sort_stable xs), length-sort_stable xs)
