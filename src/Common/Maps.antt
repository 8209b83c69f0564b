-- ===== src/Common/Maps.antt =====
-- Go maps with string keys, as association lists: m[k] = v, m[k], delete(m, k), len(m).
use Prim.Native.Nat.{◌+◌, ◌≤◌}
use mathlib.Core.Bool.{Bool, true}
use mathlib.Core.List.{List, [], ◌∷◌}
use mathlib.Core.Option.{Option, none, some}
use mathlib.Core.Logic.{◌≢◌}
use mathlib.Core.Path.{◌≡◌, refl}
use native.Mathlib.Omega.{arith}
use headroom_go.Common.Tests.{if◌then◌else◌, is_some}
use headroom_go.Common.Lists.{length}
use headroom_go.Common.Text.{Bytes, text_eq, text_eq_iff, text_eq_refl}

abbrev pub Map {ℓ} : Type ℓ → Type ℓ
Map V = List (Bytes × V)

module _ {ℓ} {V : Type ℓ} where
  unfoldable pub get : Map V → Bytes → Option V
  unfolding text_eq
  get [] k = none
  get ((j, v) ∷ m) k = if text_eq j k then some v else get m k

  unfoldable pub put : Map V → Bytes → V → Map V
  unfolding text_eq
  put [] k v = (k, v) ∷ []
  put ((j, w) ∷ m) k v = if text_eq j k then (k, v) ∷ m else (j, w) ∷ put m k v

  unfoldable pub remove : Map V → Bytes → Map V
  unfolding text_eq
  remove [] k = []
  remove ((j, w) ∷ m) k = let rest = remove m k in if text_eq j k then rest else (j, w) ∷ rest

  pub get-put :
      (m : Map V) (k j : Bytes) (v : V)
      → get (put m k v) j ≡ (if text_eq k j then some v else get m j)
  unfolding get put
  get-put [] k j v = refl
  get-put ((i, w) ∷ m) k j v =
      ground (arith, text_eq_iff k j, text_eq_iff i k, text_eq_iff i j, get-put m k j v)

  pub get-remove :
      (m : Map V) (k j : Bytes) → get (remove m k) j ≡ (if text_eq k j then none else get m j)
  unfolding get remove
  get-remove [] k j = ground arith
  get-remove ((i, w) ∷ m) k j =
      ground (arith, text_eq_iff k j, text_eq_iff i k, text_eq_iff i j, get-remove m k j)

  pub get-put_self : (m : Map V) (k : Bytes) (v : V) → get (put m k v) k ≡ some v
  get-put_self m k v = rw (get-put, text_eq_refl)

  pub get-remove_self : (m : Map V) (k : Bytes) → get (remove m k) k ≡ none
  get-remove_self m k = rw (get-remove, text_eq_refl)

  pub get-put_ne : (m : Map V) (k j : Bytes) (v : V) → k ≢ j → get (put m k v) j ≡ get m j
  get-put_ne m k j v h = ground (arith, get-put m k j v, text_eq_iff k j)

  pub get-remove_ne : (m : Map V) (k j : Bytes) → k ≢ j → get (remove m k) j ≡ get m j
  get-remove_ne m k j h = ground (arith, get-remove m k j, text_eq_iff k j)

  pub length-put :
      (m : Map V) (k : Bytes) (v : V)
      → length (put m k v) ≡ (if is_some (get m k) then length m else length m + 1)
  unfolding get put
  length-put [] k v = omega arith
  length-put ((i, w) ∷ m) k v = ground (arith, length-put m k v)

  pub length-remove-le : (m : Map V) (k : Bytes) → length (remove m k) ≤ length m
  unfolding remove
  length-remove-le [] k = omega arith
  length-remove-le ((i, w) ∷ m) k = ground (arith, length-remove-le m k)

  -- The loop `for k, v := range m { if ... { delete(m, k) } }`, which keeps what passes the test.
  unfoldable pub filter : (V → Bool) → Map V → Map V
  unfolding remove
  filter p [] = []
  filter p ((k, v) ∷ m) = let rest = filter p m in if p v then (k, v) ∷ rest else remove rest k

  abbrev pub passing : (V → Bool) → Option V → Option V
  passing p none = none
  passing p (some v) = if p v then some v else none

  pub get-filter : (p : V → Bool) (m : Map V) (j : Bytes) → get (filter p m) j ≡ passing p (get m j)
  unfolding get filter
  get-filter p [] j = refl
  get-filter p ((k, v) ∷ m) j =
      ground (arith, get-filter p m j, get-remove (filter p m) k j, text_eq_iff k j)

  pub length-remove-lt :
      (m : Map V) (k : Bytes) → is_some (get m k) ≡ true → length (remove m k) + 1 ≤ length m
  unfolding get remove
  length-remove-lt [] k h = cc
  length-remove-lt ((i, w) ∷ m) k h = ground (arith, length-remove-lt m k, length-remove-le m k)
